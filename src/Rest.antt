-- ===== src/Rest.antt =====
-- src/clients/rest_client.cpp and rest_client.h: the transport over HTTP.
pub mod Url
pub mod Request
pub mod Remote
pub mod Jobs
