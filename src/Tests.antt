-- ===== src/Tests.antt =====
-- Concrete runs of the theorems, on one manager, one server and a few records.
mod Connections
mod Data
mod Requests
mod Servers
mod Sharing
use esp32_wifi_manager.Common.{
  ℕ, ◌+◌, ◌≤◌, ◌≡◌, ◌≢◌, refl, ◌↔◌, ◌⊎◌, inl, inr, true, false, Option, none, some, List, [], ◌∷◌,
  ◌++◌, Bytes, codes, length, if◌then◌else◌, arith,
}
use esp32_wifi_manager.Common.Int.{negsuc}
use esp32_wifi_manager.AccessPoints.{ApRecord, filter_unique}
use esp32_wifi_manager.AccessPoints.Filter.{Shows, filter_unique-Shows}
use esp32_wifi_manager.NetworkInfo.{
  NetworkInfo, connection_undef, user_disconnect, failed_attempt, lost_connection,
}
use esp32_wifi_manager.NetworkInfo
use esp32_wifi_manager.Manager.{
  World, Env, EventBits, StaConfig, wifi_connect, wifi_disconnect, queue_send, by_user,
  order_disconnect_sta, msg_send_code, msg_send_cmd_connect_sta,
}
use esp32_wifi_manager.Manager.Scan.{handle_cmd_start_wifi_scan}
use esp32_wifi_manager.Manager.Station.{handle_cmd_connect_sta, handle_ev_sta_disconnected}
use esp32_wifi_manager.Manager.Lifecycle.{
  StartEnv, StartParam, set_working, start, finish_task, send_order,
}
use esp32_wifi_manager.Manager.Disconnect.{
  timer_restarts, IsUndisturbed, lose_and_retry_all, lost_connections_are_retried,
  failed_attempt_not_retried,
}
use esp32_wifi_manager.Manager.Connect.{
  connects, orders, connect_message, disconnect_message, after_event, after_switch,
  after_late_event, switch_network, switch_network_late_event,
}
use esp32_wifi_manager.Manager.ScanRun.{channels, countdown, scan_rounds, scan_visits_channels}
use esp32_wifi_manager.Manager.System.{here, next, order, user_disconnect_needs_reconnect}
use esp32_wifi_manager.Manager.Restart.{start_is_working, start_while_working, stop_then_connect}
use esp32_wifi_manager.Http.{after_name, field_value, unquoted, cookie_at}
use esp32_wifi_manager.Auth.{
  Auth, AuthInfo, auth_ruuvi, auth_digest, auth_type_to_str, auth_type_from_str,
  add_authorized_session, has_session, set_auth, differs, get_session_id,
}
use esp32_wifi_manager.Auth.Sessions.{
  auth_type-from-to-str, add-has_session, set_auth_ends_sessions,
}
use esp32_wifi_manager.Auth.Check.{
  Libs, AuthParam, check_auth_bearer, check_token, bearer_token, check_auth, not_used, resp_err,
}
use esp32_wifi_manager.Auth.Access.{
  is_known, HasLogin, check_auth-keeps, check_auth-interactive, check_auth_bearer-rw,
}
use esp32_wifi_manager.Request.{
  Server, HttpReq, App, handle_req_post, handle_req_delete, post_connect_json,
}
use esp32_wifi_manager.Request.Access.{
  ByPost, ByDelete, lan_post_keeps_manager, lan_delete_keeps_manager,
}
use esp32_wifi_manager.Request.Connect.{post_connect_json_lem, long_ssid_is_refused}
use esp32_wifi_manager.Tests.Data.{
  env, bits, home, connected, requested, start_env, start_param, home_ap, cafe_ap, aps, libs, info,
  session_id, lan_ip, auth, cookie_header, bearer_header, param, request, app, server, names,
  long_ssid, long_libs,
}

filter_unique-Shows_example : Shows aps (filter_unique aps).0 (filter_unique aps).1
filter_unique-Shows_example = filter_unique-Shows aps

switch_network_example :
    ((after_event env connected 8).network_info.update_reason_code ≡ user_disconnect)
    × (orders (after_switch env connected 8).log
        ≡ wifi_connect
          ∷ queue_send connect_message
          ∷ wifi_disconnect
          ∷ queue_send disconnect_message
          ∷ [])
    × ((after_switch env connected 8).bits.sta_active ≡ true)
    × ((after_switch env connected 8).bits.request_sta_connect ≡ true)
    × ((after_switch env connected 8).bits.request_restore_sta ≡ false)
switch_network_example = switch_network env connected 8 refl refl refl refl

switch_network_late_event_example :
    (connects (after_late_event env connected 8).log ≡ 1)
    × ((after_late_event env connected 8).network_info.update_reason_code ≡ failed_attempt)
    × ((after_late_event env connected 8).bits.request_sta_connect ≡ false)
    × ((after_late_event env connected 8).bits.sta_active ≡ false)
switch_network_late_event_example = switch_network_late_event env connected 8 refl refl refl refl

scan_visits_channels_example :
    (channels (scan_rounds env 3 (handle_cmd_start_wifi_scan env connected)).log
      ≡ countdown 3 ++ [])
    × ((scan_rounds env 3 (handle_cmd_start_wifi_scan env connected)).bits.scan ≡ false)
    × ((scan_rounds env 2 (handle_cmd_start_wifi_scan env connected)).bits.scan ≡ true)
scan_visits_channels_example =
    scan_visits_channels env 1 3 3 2 [] connected refl refl refl (omega arith) (omega arith) refl
      refl

user_disconnect_needs_reconnect_example :
    ((handle_ev_sta_disconnected env 8
        (send_order env order_disconnect_sta connected)).0.network_info.update_reason_code
      ≡ user_disconnect)
    ↔ (((send_order env order_disconnect_sta connected).bits.request_sta_connect ≡ true)
        × ((send_order env order_disconnect_sta connected).bits.request_restore_sta ≡ true))
user_disconnect_needs_reconnect_example =
    user_disconnect_needs_reconnect connected (send_order env order_disconnect_sta connected) env 8
      refl (next here (order env order_disconnect_sta connected))

lost_connections_are_retried_example :
    IsUndisturbed (lose_and_retry_all env (14 ∷ 8 ∷ []) connected)
    × (timer_restarts (lose_and_retry_all env (14 ∷ 8 ∷ []) connected).log ≡ 1000 ∷ 70000 ∷ [])
    × (connects (lose_and_retry_all env (14 ∷ 8 ∷ []) connected).log ≡ 2)
lost_connections_are_retried_example =
    lost_connections_are_retried env (14 ∷ 8 ∷ []) connected
      (record {
        active = refl;
        no_request = refl;
        no_disconnect = refl;
        no_wps = refl;
        queue = refl;
      })
      refl refl

start_while_working_example :
    start env start_env start_param connected ≡ (set_working false connected, false)
start_while_working_example = start_while_working env start_env start_param connected refl

stop_then_connect_example :
    (handle_cmd_connect_sta env 3 (start env start_env start_param (finish_task connected)).0).log
    ≡ (msg_send_code env order_disconnect_sta
        (start env start_env start_param (finish_task connected)).0).0.log
stop_then_connect_example = stop_then_connect env env start_env start_param connected 3 refl

uses_no_bearer : check_auth_bearer cookie_header true info ≡ not_used
unfolding check_auth_bearer check_token bearer_token after_name
uses_no_bearer = refl

-- The session of the cookie is found: the request is let through.
lets_through : is_known lan_ip auth.authorized_sessions (get_session_id cookie_header) ≡ true
unfolding get_session_id has_session after_name field_value unquoted cookie_at
lets_through = refl

set_auth_ends_sessions_example :
    (has_session session_id lan_ip
        (set_auth auth_ruuvi
          (some info.auth_user)
          (some (codes "other"))
          none
          none
          auth).authorized_sessions
      ≡ false)
    × ((set_auth auth_ruuvi
          (some info.auth_user)
          (some (codes "other"))
          none
          none
          auth).login_session.session_id
        ≡ [])
set_auth_ends_sessions_example =
    set_auth_ends_sessions auth_ruuvi (some info.auth_user) (some (codes "other")) none none auth
      session_id lan_ip (inr (inr (λ e. cc)))

check_auth-keeps_example :
    ((check_auth libs param auth).0 ≡ auth)
    ⊎ ((auth.info.auth_type ≡ auth_digest) × ((check_auth libs param auth).0.info ≡ info))
check_auth-keeps_example = check_auth-keeps libs param auth

check_auth-interactive_example :
    (((check_auth libs param auth).1.http_resp_code ≡ 200)
      ↔ HasLogin cookie_header lan_ip auth.authorized_sessions)
    × (((check_auth libs param auth).1.http_resp_code ≡ 200)
        ⊎ ((check_auth libs param auth).1.http_resp_code ≡ 401))
check_auth-interactive_example = check_auth-interactive libs param auth refl refl uses_no_bearer

check_auth_bearer-rw_example :
    check_auth_bearer bearer_header true info
    ≡ check_auth_bearer bearer_header true (record info { auth_api_key = [] })
check_auth_bearer-rw_example = check_auth_bearer-rw bearer_header info []

lan_post_keeps_manager_example :
    ((handle_req_post env libs app request server).0.wm ≡ connected)
    ⊎ ByPost app request server (handle_req_post env libs app request server).0
lan_post_keeps_manager_example = lan_post_keeps_manager env libs app request server refl

lan_delete_keeps_manager_example :
    ((handle_req_delete env libs app request server).0.wm ≡ connected)
    ⊎ ByDelete app request server (handle_req_delete env libs app request server).0
lan_delete_keeps_manager_example = lan_delete_keeps_manager env libs app request server refl

post_connect_json_lem_example : post_connect_json env libs [] connected ≡ (
  (msg_send_cmd_connect_sta env by_user (record connected {
    sta_config = record { ssid = codes "ssid"; password = codes "password" };
    network_info = NetworkInfo.clear connected.network_info;
  })).0,
  resp_err 200,
)
post_connect_json_lem_example =
    post_connect_json_lem env libs [] names (codes "ssid") (codes "password") connected refl refl
      refl (omega arith) (omega arith)

long_ssid_is_refused_example :
    post_connect_json env long_libs [] connected ≡ (connected, resp_err 400)
long_ssid_is_refused_example =
    long_ssid_is_refused env long_libs [] (λ _. some (some long_ssid)) long_ssid connected refl refl
      (omega arith)
