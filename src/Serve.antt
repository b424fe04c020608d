-- ===== src/Serve.antt =====
-- What the server does with a whole request (src/http_server_netconn_serve_handle_req.c): it is
-- taken apart, refused or sent on to the access point, or handled.
--
-- The addresses are texts; the hostname's memory is a parameter. The wait that slows down guesses of
-- a password, and the log, are not in the model.
pub mod Lan
use esp32_wifi_manager.Common.{
  ℕ, Bool, true, false, not, ◌&&◌, Option, none, some, [], ◌∷◌, Bytes, codes, bytes_eq, is_empty,
  is_some, take, ltb, ◌==◌, if◌then◌else◌,
}
use esp32_wifi_manager.Http.{Field, header_get_field}
use esp32_wifi_manager.Http.Parse.{HttpReqInfo, strstr, parse}
use esp32_wifi_manager.Ecdh.{Crypto}
use esp32_wifi_manager.Manager.{World, Env}
use esp32_wifi_manager.Manager.Status.{is_req_from_lan_blocked_while_ap_is_active}
use esp32_wifi_manager.Auth.Check.{Libs}
use esp32_wifi_manager.Request.{HttpReq, App}
use esp32_wifi_manager.Request.Get.{GetEnv}
use esp32_wifi_manager.Request.Handle.{SecureServer, Answer, handle_req}

-- The addresses of the connection, that of the access point, and the memory for the hostname.
pub record Peer : Type 0 where
  pub local_ip : Bytes
  pub remote_ip : Bytes
  pub ap_ip : Bytes
  pub hostname_ok : Bool

-- What is sent: http_server_netconn_resp_400, _500, _503, _302, or an answer with the hostname that
-- a redirection names.
pub data Reply : Type 0 where
  reply_400 reply_500 reply_503 reply_302 : Reply
  reply : Answer → Bytes → Reply

abbrev pub text_or_empty : Option Bytes → Bytes
text_or_empty none = []
text_or_empty (some s) = s

-- Whether the request's host names the address of the access point.
abbrev pub names_ap : Bytes → Option Field → Bool
names_ap ap_ip none = false
names_ap ap_ip (some f) = ltb 0 f.len && is_some (strstr ap_ip (take f.len f.ptr))

abbrev pub hostname_of : Bytes → Option Field → Bytes
hostname_of local_ip none = local_ip
hostname_of local_ip (some f) = if f.len == 0 then local_ip else take f.len f.ptr

abbrev pub without_slash : Bytes → Bytes
without_slash [] = []
without_slash (c ∷ s) = if c == b'/' then s else c ∷ s

abbrev pub http_req_of : Peer → Bool → HttpReqInfo → HttpReq
http_req_of p from_lan info = record {
  from_lan = from_lan;
  remote_ip = p.remote_ip;
  header = text_or_empty info.http_header;
  body = text_or_empty info.http_body;
  file_name = without_slash (text_or_empty info.http_uri);
  uri_params = info.http_uri_params;
}

module _ (env : Env) (libs : Libs) (app : App) (g : GetEnv) (crypto : Crypto) where
  abbrev pub replied : Bytes → SecureServer × Answer → SecureServer × Reply
  replied hostname (s, a) = (s, reply a hostname)

  unfoldable pub serve_info : Peer → HttpReqInfo → SecureServer → SecureServer × Reply
  unfolding bytes_eq header_get_field strstr handle_req
  serve_info p info s =
      let from_lan = not (bytes_eq p.local_ip p.ap_ip) in
      let host = header_get_field (text_or_empty info.http_header) (codes "Host:") in
      let handled = replied (hostname_of p.local_ip host) (
        handle_req env libs app g crypto (text_or_empty info.http_cmd) (http_req_of p from_lan info)
          s) in
      if not p.hostname_ok
      then (s, reply_500)
      else if from_lan
      then (if is_req_from_lan_blocked_while_ap_is_active s.server.wm
          then (s, reply_503)
          else handled)
      else if names_ap p.ap_ip host
      then handled
      else (s, reply_302)

  -- http_server_netconn_serve_handle_req
  unfoldable pub serve_handle_req : Peer → Bytes → SecureServer → SecureServer × Reply
  unfolding parse serve_info
  serve_handle_req p req_buf s =
      let info = parse req_buf in if info.is_success then serve_info p info s else (s, reply_400)
