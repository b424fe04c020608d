-- ===== src/Request/Get.antt =====
-- GET requests (http_server_handle_req_get, src/http_server_handle_req.c).
--
-- The application's callbacks, the scan and the lock of the status are parameters. The timestamp
-- that the request may carry is only handed on, and is not in the model.
use esp32_wifi_manager.Common.{
  ℕ, Bool, true, false, not, ◌&&◌, Option, none, some, [], ◌∷◌, Bytes, codes, bytes_eq, is_empty,
  is_some, ◌==◌, if◌then◌else◌,
}
use esp32_wifi_manager.Json.{status_generate}
use esp32_wifi_manager.Manager.{World, Env}
use esp32_wifi_manager.Manager.ScanSync.{ScanEnv, scan_sync}
use esp32_wifi_manager.Auth.{Auth}
use esp32_wifi_manager.Auth.Check.{Libs, AuthParam, Resp, json, resp_err, check_auth, get_auth}
use esp32_wifi_manager.Auth.Post.{is_interactive}
use esp32_wifi_manager.Request.{Server, HttpReq}

-- The scan, whether the status is locked in time, and the application's callbacks, which may change
-- the state: the one for a path, its parameters and whether the request is from the local network,
-- and the one behind a request of the status; `none` is NULL.
pub record GetEnv : Type 0 where
  pub scan : ScanEnv
  pub status_locked : Bool
  pub on_http_get : Option (Bytes → Option Bytes → Bool → Server → Server × Resp)
  pub on_request_status_json : Option (Server → Server)

-- strrchr
unfoldable pub strrchr : ℕ → Bytes → Option Bytes
strrchr c [] = none
strrchr c (d ∷ s) =
    let rest = strrchr c s in if is_some rest then rest else if d == c then some (d ∷ s) else none

abbrev pub is_json : Option Bytes → Bool
is_json none = true
is_json (some ext) = bytes_eq ext (codes ".json")

-- Whether a file is given only behind the check: one without an extension, or a JSON.
unfoldable pub is_checked : Bytes → Bool
unfolding strrchr bytes_eq
is_checked file_name = is_json (strrchr b'.' file_name)

abbrev pub index_or : Bytes → Bytes
index_or file_name = if is_empty file_name then codes "index.html" else file_name

-- The right to read; the list of the access points wants the right to write.
abbrev pub read_param : HttpReq → Bool → AuthParam
read_param r check_rw = record {
  from_lan = r.from_lan;
  check_rw = check_rw;
  header = r.header;
  remote_ip = r.remote_ip;
}

abbrev pub json_or_503 : Option Bytes → Resp
json_or_503 none = resp_err 503
json_or_503 (some text) = record { http_resp_code = 200; body = json text }

-- http_server_gen_resp_status_json
abbrev pub resp_status : Bool → World → Resp
resp_status locked w =
    if locked
    then record { http_resp_code = 200; body = json (status_generate w.network_info) }
    else resp_err 503

-- wifi_manager_cb_on_http_get
abbrev pub cb_on_http_get :
    Option (Bytes → Option Bytes → Bool → Server → Server × Resp)
    → Bytes
    → Option Bytes
    → Bool
    → Server
    → Server × Resp
cb_on_http_get none path params from_lan s = (s, resp_err 404)
cb_on_http_get (some f) path params from_lan s = f path params from_lan s

-- wifi_manager_cb_on_request_status_json
abbrev pub cb_on_request_status_json : Option (Server → Server) → Server → Server
cb_on_request_status_json none s = s
cb_on_request_status_json (some f) s = f s

-- The answer without access: the page with the login, or what the check says.
abbrev pub resp_no_access : Auth → Resp → Bool → Resp
resp_no_access a resp by_bearer =
    if not by_bearer && (resp.http_resp_code == 401) && is_interactive a.info.auth_type
    then resp_err 302
    else resp

module _ (env : Env) (libs : Libs) (g : GetEnv) where
  -- Behind the check.
  unfoldable pub get_file : Bytes → Option Bytes → Bool → Server → Server × Resp
  unfolding bytes_eq scan_sync status_generate
  get_file file_name params from_lan s =
      if bytes_eq file_name (codes "ap.json")
      then (let r = scan_sync env g.scan s.wm in (record s { wm = r.0 }, json_or_503 r.1))
      else if bytes_eq file_name (codes "status.json")
      then (cb_on_request_status_json g.on_request_status_json s, resp_status g.status_locked s.wm)
      else cb_on_http_get g.on_http_get file_name params from_lan s

  unfoldable pub get_checked : HttpReq → Bytes → Server → Server × Resp
  unfolding bytes_eq check_auth get_file
  get_checked r file_name s =
      let k = check_auth libs (read_param r (bytes_eq file_name (codes "ap.json"))) s.auth in
      let s' = record s { auth = k.0 } in
      if k.1.http_resp_code == 200
      then get_file file_name r.uri_params r.from_lan s'
      else (s', resp_no_access s'.auth k.1 k.2)

  unfoldable pub get_named : HttpReq → Bytes → Server → Server × Resp
  unfolding bytes_eq get_auth is_checked get_checked get_file
  get_named r file_name s =
      if bytes_eq file_name (codes "auth")
      then (let k = get_auth libs (read_param r false) s.auth in (record s { auth = k.0 }, k.1))
      else if is_checked file_name
      then get_checked r file_name s
      else get_file file_name r.uri_params r.from_lan s

  -- http_server_handle_req_get
  unfoldable pub handle_req_get : HttpReq → Server → Server × Resp
  unfolding get_named
  handle_req_get r s = get_named r (index_or r.file_name) s
