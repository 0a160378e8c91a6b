-- ===== src/RabbitMq/Opened.antt =====
-- What `connect` of src/clients/rabbitmq_client.cpp has found when it succeeds.
use mqss_client.Common.{ℕ, ◌≡◌, refl, true, Bool-cases, inl, inr, ◌==◌}
use mqss_client.Common.Effects.{ok}
use mqss_client.RabbitMq.{Amqp, Session, is_zero, connect}

module _ {W : Type 0} (amqp : Amqp W) where
  -- There is a socket, it is open to the session's host and port, the broker accepts the session's
  -- user with the password, and the channel is open, each in the world after the one before.
  pub record IsOpen (s : Session W) : Type 0 where
    pub with_socket : W
    pub with_host : W
    pub with_login : W
    pub socket : amqp.tcp_socket_new s.world ≡ (true, with_socket)
    pub host : is_zero (amqp.socket_open s.hostname s.port with_socket).0 ≡ true
    pub after_host : (amqp.socket_open s.hostname s.port with_socket).1 ≡ with_host
    pub login : amqp.login s.user s.password with_host ≡ (true, with_login)
    pub channel : (amqp.channel_open with_login).0 ≡ true

  pub connect-IsOpen :
      (s : Session W) (n : ℕ) → (connect amqp s).0 ≡ ok n → (n == 0) ≡ true → IsOpen s
  unfolding connect
  connect-IsOpen s n h zero =
      let (a, w1) = amqp.tcp_socket_new s.world in
      let (b, w2) = amqp.socket_open s.hostname s.port w1 in
      let (c, w3) = amqp.login s.user s.password w2 in
      let (d, _) = amqp.channel_open w3 in
      elim (Bool-cases a) [
        | inr failed ↦ cc ((rw failed at h), zero)
        | inl has_socket ↦ elim (Bool-cases (is_zero b)) [
          | inr failed ↦ cc ((rw (has_socket, failed) at h), zero)
          | inl has_host ↦ elim (Bool-cases c) [
            | inr failed ↦ cc ((rw (has_socket, has_host, failed) at h), zero)
            | inl has_login ↦ elim (Bool-cases d) [
              | inr failed ↦ cc ((rw (has_socket, has_host, has_login, failed) at h), zero)
              | inl has_channel ↦ record {
                with_socket = w1;
                with_host = w2;
                with_login = w3;
                socket = rw has_socket refl;
                host = has_host;
                after_host = refl;
                login = rw has_login refl;
                channel = has_channel;
              }
            ]
          ]
        ]
      ]
