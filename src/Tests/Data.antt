-- ===== src/Tests/Data.antt =====
-- The values of the tests: one manager, one server, and a few records.
use esp32_wifi_manager.Common.{ℕ, true, false, Option, none, some, List, [], ◌∷◌, Bytes, codes}
use esp32_wifi_manager.Common.Int.{negsuc}
use esp32_wifi_manager.AccessPoints.{ApRecord}
use esp32_wifi_manager.NetworkInfo.{connection_undef}
use esp32_wifi_manager.Manager.{World, Env, EventBits, StaConfig}
use esp32_wifi_manager.Manager.Lifecycle.{StartEnv, StartParam}
use esp32_wifi_manager.Auth.{Auth, AuthInfo, zero_digest, auth_ruuvi}
use esp32_wifi_manager.Auth.Check.{Libs, AuthParam, resp_err}
use esp32_wifi_manager.Request.{Server, HttpReq, App}

abbrev pub env : Env
env = record {
  queue_send_ok = true;
  country = some (1, 3);
  set_config_ok = true;
  wps_start_ok = true;
  wps_disable_ok = true;
  ip_info = none;
  dhcp_ip = none;
  scan_start_ok = true;
  scanned = some [];
  ntoa = λ _. codes "0.0.0.0";
  qsort = λ _ l. l;
}

abbrev pub bits : EventBits
bits = record {
  is_working = true;
  wifi_connected = true;
  ap_sta_connected = false;
  ap_sta_ip_assigned = false;
  ap_started = false;
  request_sta_connect = false;
  request_restore_sta = false;
  scan = false;
  request_disconnect = false;
  eth_connected = false;
  ap_active = false;
  block_req_from_lan_while_ap_active = false;
  sta_active = true;
  initial_connection = false;
  cmd_sta_connect = false;
}

abbrev pub home : StaConfig
home = record { ssid = codes "home"; password = codes "secret" }

-- A station that is connected.
abbrev pub connected : World
connected = record {
  bits = bits;
  wps_enabled = false;
  scan_info = record { first_chan = 0; last_chan = 0; cur_chan = 0; num_access_points = 0 };
  ap_num = 0;
  ap_records = [];
  scan_sync = false;
  sta_config = home;
  sta_ip = [];
  network_info = record {
    is_ssid_null = true;
    is_time_valid = false;
    ssid = [];
    network_info = record { ip = []; gw = []; netmask = []; dhcp = [] };
    update_reason_code = connection_undef;
    extra_info = [];
  };
  queue_ready = true;
  wdog_feed_active = false;
  callbacks = λ _. false;
  message_callbacks = λ _. false;
  log = [];
}

abbrev pub requested : World
requested = record connected { bits = record bits { request_sta_connect = true } }

abbrev pub start_env : StartEnv
start_env = record {
  ecdh_init_ok = true;
  event_loop_ok = true;
  netif_ap_ok = true;
  netif_sta_ok = true;
  queue_create_ok = true;
}

abbrev pub start_param : StartParam
start_param = record { flag_connect_sta = true; sta_config = home; callbacks = λ _. false }

abbrev pub home_ap : ℕ → ApRecord
home_ap n = record { ssid = codes "home"; primary = 1; rssi = negsuc n; authmode = 3 }

abbrev pub cafe_ap : ApRecord
cafe_ap = record { ssid = codes "cafe"; primary = 6; rssi = negsuc 70; authmode = 0 }

abbrev pub aps : List ApRecord
aps = home_ap 60 ∷ cafe_ap ∷ home_ap 40 ∷ []

-- The server with one session, and a request with its cookie.
abbrev pub libs : Libs
libs = record {
  md5_hex = λ s. s;
  new_challenge = codes "CHALLENGE";
  new_session_id = codes "ABCDEFGHIJKLMNOP";
  alloc_ok = true;
  hash_password = λ challenge pass. some pass;
  parse_json = λ _. some (λ name. some (some name));
}

abbrev pub info : AuthInfo
info = record {
  auth_type = auth_ruuvi;
  auth_user = codes "admin";
  auth_pass = codes "pass";
  auth_api_key = codes "read";
  auth_api_key_rw = codes "write";
}

abbrev pub session_id : Bytes
session_id = codes "QWERTYUIOPASDFGH"

abbrev pub lan_ip : Bytes
lan_ip = codes "192.168.1.7"

abbrev pub auth : Auth
auth = record {
  login_session = record { challenge = []; session_id = []; remote_ip = [] };
  digest = zero_digest;
  authorized_sessions = record { session_id = session_id; remote_ip = lan_ip } ∷ [];
  info = info;
}

abbrev pub cookie_header : Bytes
cookie_header = codes "Cookie: RUUVISESSION=QWERTYUIOPASDFGH\r\n"

abbrev pub bearer_header : Bytes
bearer_header = codes "Authorization: Bearer read\r\n"

abbrev pub param : AuthParam
param = record { from_lan = true; check_rw = true; header = cookie_header; remote_ip = lan_ip }

abbrev pub request : HttpReq
request = record {
  from_lan = true;
  remote_ip = lan_ip;
  header = cookie_header;
  body = [];
  file_name = codes "connect.json";
  uri_params = none;
}

abbrev pub app : App
app = record {
  on_http_post = some (λ path params body from_lan s.
      (record s { wm = record s.wm { wps_enabled = true } }, resp_err 200));
  on_http_delete = none;
}

abbrev pub server : Server
server = record { wm = connected; auth = auth }

-- An object whose every member is its own name.
abbrev pub names : Bytes → Option (Option Bytes)
names name = some (some name)

abbrev pub long_ssid : Bytes
long_ssid = codes "a name that has thirty-two bytes"

abbrev pub long_libs : Libs
long_libs = record libs { parse_json = λ _. some (λ _. some (some long_ssid)) }
