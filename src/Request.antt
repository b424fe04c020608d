-- ===== src/Request.antt =====
-- The requests that change the Wi-Fi connection: DELETE and POST (src/http_server_handle_req.c).
pub mod Access
pub mod Connect
pub mod Encrypted
pub mod Get
pub mod Handle
pub mod Login
use esp32_wifi_manager.Common.{
  ℕ, Bool, true, false, not, ◌&&◌, ◌||◌, Option, none, some, [], Bytes, codes, bytes_eq, truncate,
  length, leb, is_some, ◌==◌, if◌then◌else◌,
}
use esp32_wifi_manager.NetworkInfo
use esp32_wifi_manager.Manager.{
  World, Env, order_connect_eth, order_disconnect_eth, order_disconnect_sta, order_enable_wps,
  order_disable_wps, dns_server_stop, emit,
}
use esp32_wifi_manager.Manager.Lifecycle.{connect_async, send_order}
use esp32_wifi_manager.Manager.Events.{config_sta_set_ssid_and_password}
use esp32_wifi_manager.Auth.{Auth}
use esp32_wifi_manager.Auth.Check.{Libs, AuthParam, Resp, resp_err, check_auth}
use esp32_wifi_manager.Auth.Post.{post_auth, delete_auth}

-- The state that a request may change.
pub record Server : Type 0 where
  pub wm : World
  pub auth : Auth

-- http_server_handle_req_param_t with the request's header, body, file name and parameters
pub record HttpReq : Type 0 where
  pub from_lan : Bool
  pub remote_ip : Bytes
  pub header : Bytes
  pub body : Bytes
  pub file_name : Bytes
  pub uri_params : Option Bytes

-- The application's callbacks for the files that the server does not know; `none` is NULL. They take
-- the path, its parameters, for a POST the body, and whether the request is from the local network.
-- They may call anything of the manager and of the server, so they give the next state.
pub record App : Type 0 where
  pub on_http_post : Option (Bytes → Option Bytes → Bytes → Bool → Server → Server × Resp)
  pub on_http_delete : Option (Bytes → Option Bytes → Bool → Server → Server × Resp)

-- wifi_manager_cb_on_http_post
unfoldable pub cb_on_http_post : App → Bytes → Option Bytes → Bytes → Bool → Server → Server × Resp
cb_on_http_post app path params body from_lan s = elim app.on_http_post [
  | none ↦ (s, resp_err 404)
  | some f ↦ f path params body from_lan s
]

-- wifi_manager_cb_on_http_delete
unfoldable pub cb_on_http_delete : App → Bytes → Option Bytes → Bool → Server → Server × Resp
cb_on_http_delete app path params from_lan s = elim app.on_http_delete [
  | none ↦ (s, resp_err 404)
  | some f ↦ f path params from_lan s
]

-- wifi_ssid_password_t; `none` is NULL.
pub record SsidPassword : Type 0 where
  pub ssid : Option Bytes
  pub password : Option Bytes

-- A string that fills its buffer is refused; another value than a string counts as NULL.
abbrev pub fits : ℕ → Option Bytes → Bool
fits size none = true
fits size (some s) = not (leb size (length s))

abbrev pub ssid_password_of : Option (Option Bytes) → Option (Option Bytes) → Option SsidPassword
ssid_password_of (some ssid) (some password) =
    if fits 32 ssid && fits 64 password
    then some (record { ssid = ssid; password = password })
    else none
ssid_password_of _ _ = none

-- http_server_parse_json_wifi_ssid_password and http_server_parse_cjson_wifi_ssid_password
unfoldable pub parse_ssid_password : Option (Bytes → Option (Option Bytes)) → Option SsidPassword
parse_ssid_password none = none
parse_ssid_password (some get) = ssid_password_of (get (codes "ssid")) (get (codes "password"))

module _ (env : Env) where
  -- The configuration stays if only the name is given and it is the saved one.
  unfoldable pub store_login : Bytes → Option Bytes → World → World
  unfolding bytes_eq config_sta_set_ssid_and_password
  store_login ssid none w =
      if bytes_eq w.sta_config.ssid ssid then w else config_sta_set_ssid_and_password ssid none w
  store_login ssid (some password) w = config_sta_set_ssid_and_password ssid (some password) w

  -- The network information is cleared here, and again by the call that connects.
  unfoldable pub connect_to : Bytes → Option Bytes → World → World
  unfolding store_login connect_async NetworkInfo.clear
  connect_to ssid password w =
      let w' = store_login ssid password w in
      connect_async env (record w' { network_info = NetworkInfo.clear w'.network_info })

  -- Neither a name nor a password means Ethernet.
  unfoldable pub connect_with : Option Bytes → Option Bytes → World → World × Resp
  unfolding send_order connect_to
  connect_with none none w = (send_order env order_connect_eth w, resp_err 200)
  connect_with none (some _) w = (w, resp_err 400)
  connect_with (some ssid) password w = (connect_to ssid password w, resp_err 200)

  unfoldable pub connect_as : Option SsidPassword → World → World × Resp
  unfolding connect_with
  connect_as none w = (w, resp_err 400)
  connect_as (some login) w = connect_with login.ssid login.password w

  -- http_server_handle_req_post_connect_json
  unfoldable pub post_connect_json : Libs → Bytes → World → World × Resp
  unfolding connect_as parse_ssid_password
  post_connect_json libs body w = connect_as (parse_ssid_password (libs.parse_json body)) w

  -- http_server_handle_req_post_connect_wps
  unfoldable pub post_connect_wps : World → World × Resp
  unfolding send_order
  post_connect_wps w = (send_order env order_enable_wps w, resp_err 200)

  -- DELETE /connect.json from the access point
  unfoldable pub delete_connect_json : World → World × Resp
  unfolding send_order NetworkInfo.set_reason_user_disconnect
  delete_connect_json w =
      let w1 = send_order env order_disable_wps (emit dns_server_stop w) in
      let w2 = record w1 {
        network_info = NetworkInfo.set_reason_user_disconnect w1.network_info;
      } in
      (
        if w2.bits.eth_connected
            then send_order env order_disconnect_eth w2
            else send_order env order_disconnect_sta w2,
        resp_err 200,
      )

  -- The access that DELETE and POST need: the right to write.
  abbrev pub write_param : HttpReq → AuthParam
  write_param r = record {
    from_lan = r.from_lan;
    check_rw = true;
    header = r.header;
    remote_ip = r.remote_ip;
  }

  abbrev pub with_world : Auth → World × Resp → Server × Resp
  with_world a (w, resp) = (record { wm = w; auth = a }, resp)

  -- POST after the check.
  unfoldable pub post_checked : Libs → App → HttpReq → Server → Server × Resp
  unfolding bytes_eq post_connect_json post_connect_wps cb_on_http_post
  post_checked libs app r s =
      if bytes_eq r.file_name (codes "connect.json")
      then (if r.from_lan
          then (s, resp_err 403)
          else with_world s.auth (post_connect_json libs r.body s.wm))
      else if bytes_eq r.file_name (codes "connect_wps")
      then (if r.from_lan then (s, resp_err 403) else with_world s.auth (post_connect_wps s.wm))
      else cb_on_http_post app r.file_name r.uri_params r.body r.from_lan s

  -- DELETE after the check.
  unfoldable pub delete_checked : App → HttpReq → Server → Server × Resp
  unfolding bytes_eq delete_connect_json delete_auth cb_on_http_delete
  delete_checked app r s =
      if bytes_eq r.file_name (codes "auth")
      then (let d = delete_auth r.header r.remote_ip s.auth in (record s { auth = d.0 }, d.1))
      else if bytes_eq r.file_name (codes "connect.json")
      then (if r.from_lan then (s, resp_err 403) else with_world s.auth (delete_connect_json s.wm))
      else cb_on_http_delete app r.file_name r.uri_params r.from_lan s

  -- http_server_handle_req_post; the body is already decrypted.
  unfoldable pub handle_req_post : Libs → App → HttpReq → Server → Server × Resp
  unfolding bytes_eq post_auth check_auth post_checked
  handle_req_post libs app r s =
      if bytes_eq r.file_name (codes "auth")
      then (let p = post_auth libs r.from_lan r.header r.remote_ip r.body s.auth in
          (record s { auth = p.0 }, p.1))
      else let k = check_auth libs (write_param r) s.auth in
        if k.1.http_resp_code == 200
        then post_checked libs app r (record s { auth = k.0 })
        else (record s { auth = k.0 }, k.1)

  -- http_server_handle_req_delete
  unfoldable pub handle_req_delete : Libs → App → HttpReq → Server → Server × Resp
  unfolding check_auth delete_checked
  handle_req_delete libs app r s =
      let k = check_auth libs (write_param r) s.auth in
      if k.1.http_resp_code == 200
      then delete_checked app r (record s { auth = k.0 })
      else (record s { auth = k.0 }, k.1)
