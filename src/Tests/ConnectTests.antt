-- ===== src/Tests/ConnectTests.antt =====
-- Clients as a C caller constructs them.
use mqss_client.Common.{◌≡◌, refl, true, false, some, none, [], ◌∷◌}
use mqss_client.Common.Bytes.{txt, is_empty, str_eq, starts_with, find, any, ends_strictly_with}
use mqss_client.Standard.ToString.{numeral}
use mqss_client.RabbitMq.{Amqp, failure, connect, disconnect}
use mqss_client.Hpc.{hpc_client}
use mqss_client.Common.Words.{negsuc}
use mqss_client.Rest.Url.{normalize_url}
use mqss_client.Rest.Request.{request, rest_client, write_response, append_header}
use mqss_client.Client.Connect.{
  over_http, MqssClient, new_client, create_client, IsConnected, create_client-IsConnected,
}
use mqss_client.Python.Client.{mqp_default_url, python_client, python_client-default}
use mqss_client.Rest.Request.{RestClient}
use mqss_client.Rest.Request.Construction.{IsReady}
use mqss_client.Common.Effects.{ok}
use mqss_client.Tests.SampleCurl.{Transfers, curl, curl-IsDocumented, perform}
use mqss_client.Tests.SampleServer.{library}

-- A broker that cannot be reached.
abbrev pub silent : Amqp Transfers
silent = record {
  tcp_socket_new = λ w. (false, w);
  socket_open = λ host port w. (negsuc 0, w);
  login = λ user password w. (false, w);
  channel_open = λ w. (false, w);
  basic_publish = λ queue text w. (negsuc 0, w);
  queue_declare = λ queue w. w;
  basic_consume = λ queue w. w;
  consume_message = λ w. (failure (negsuc 0), w);
  basic_ack = λ tag w. w;
  error_string = λ e. txt "error";
  close = λ w. w;
  elapse = λ n w. w;
}

abbrev answering : Transfers
answering = (0, (0, 200, txt "[]" ∷ []) ∷ [])

abbrev portal : MqssClient Transfers
portal = record {
  is_hpc = false;
  client =
      over_http
        (record {
          url = txt "https://portal.quantum.lrz.de:4000/v1/";
          headers = txt "Authorization: Bearer t" ∷ txt "Content-Type: application/json" ∷ [];
        })
        (200, []);
}

create_tests :
    (create_client library silent curl none []
        (some (txt "t"))
        (some (txt "https://portal.quantum.lrz.de"))
        false
        answering
      ≡ some portal)
    × (create_client library silent curl none []
          (some (txt "t"))
          (some (txt "queue"))
          true
          answering
        ≡ none)
    × (create_client library silent curl none []
          (some (txt "t"))
          (some (txt "portal"))
          false
          answering
        ≡ none)
    × (create_client library silent curl none [] none (some (txt "portal")) false answering ≡ none)
unfolding create_client new_client request write_response numeral perform rest_client append_header
    normalize_url is_empty str_eq starts_with find any ends_strictly_with hpc_client connect
    disconnect
create_tests = (refl, refl, refl, refl)

create_client-IsConnected_example :
    (portal.is_hpc ≡ false)
    × IsConnected library silent curl none [] curl-IsDocumented
        (txt "t")
        (txt "https://portal.quantum.lrz.de")
        answering
        false
        portal.client
create_client-IsConnected_example =
    create_client-IsConnected library silent curl none [] curl-IsDocumented (txt "t")
      (txt "https://portal.quantum.lrz.de") false answering portal create_tests.0

-- A Python client of a token.
python_client_test :
    python_client library silent curl none [] (some (txt "t")) none none answering ≡ ok portal
unfolding python_client new_client request write_response numeral perform rest_client append_header
    normalize_url is_empty str_eq starts_with find any ends_strictly_with hpc_client connect
    disconnect
python_client_test = refl

python_client_default_test :
    (r : RestClient) × (w' : Transfers) × (portal
      ≡ record { is_hpc = false; client = over_http r w' })
    × (r.url ≡ mqp_default_url)
    × IsReady library curl curl-IsDocumented (txt "t") mqp_default_url answering r w'
python_client_default_test =
    python_client-default library silent curl none [] curl-IsDocumented (txt "t") answering portal
      refl refl refl python_client_test
