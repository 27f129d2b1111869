-- ===== src/HttpClient/Session.antt =====
-- `HttpClientSession` and `appendHttpClientBytes`.
pub mod Received
use wirestack.Common.{ℕ, ◌+◌, ◌-◌, List, ◌++◌, Bool, true, if◌then◌else◌, ltb, length}
use wirestack.Common.Text.{Text}
use wirestack.Address.{Ipv4Address}
use wirestack.HttpClient.Response.{
  max_http_response_header_block_length, max_http_response_body_length,
}

pub record HttpClientSession : Type 0 where
  pub remote_ip : Ipv4Address
  pub remote_port : ℕ
  pub host_header : Text
  pub target : Text
  pub request_enqueued : Bool
  pub response_buffer : Text
  pub peer_fin_seen : Bool
  pub response_overflowed : Bool
  pub response_complete : Bool
  pub failed : Bool
  pub close_initiated : Bool
  pub status_code : ℕ
  pub body : Text

-- `kCap`
abbrev pub response_cap : ℕ
response_cap = max_http_response_header_block_length + max_http_response_body_length

unfoldable pub append_http_client_bytes : HttpClientSession → Text → HttpClientSession
append_http_client_bytes session bytes =
    let room = response_cap - length session.response_buffer in
    if session.response_overflowed
    then session
    else if ltb room (length bytes)
    then record session { response_overflowed = true }
    else record session { response_buffer = session.response_buffer ++ bytes }
