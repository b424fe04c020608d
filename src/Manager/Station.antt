-- ===== src/Manager/Station.antt =====
-- The station side (src/wifi_manager_handle_msg.c): connecting, losing a connection, an address.
use esp32_wifi_manager.Common.{
  ℕ, ◌*◌, Bool, true, false, not, ◌&&◌, ◌||◌, Option, none, some, ◌==◌, if◌then◌else◌,
}
use esp32_wifi_manager.NetworkInfo.{
  UpdateReason, connection_ok, failed_attempt, user_disconnect, lost_connection,
}
use esp32_wifi_manager.Manager.{
  World, Env, EventBits, IpInfo, ConnectionRequest, by_none, by_user, by_auto_reconnect,
  by_restore_connection, by_wps, other, order_disconnect_sta, on_connect_eth_cmd,
  on_disconnect_eth_cmd, on_disconnect_sta_cmd, save_wifi_config_sta, wifi_set_config, wifi_connect,
  wifi_disconnect, reconnect_timer_restart, reconnect_timer_stop, emit, with_bits, run_callback,
  msg_send_code, msg_send_cmd_connect_sta, conv_param_to_conn_req,
}
use esp32_wifi_manager.Manager.Status.{update_network_connection_info}

-- WIFI_REASON_MIC_FAILURE
abbrev pub reason_mic_failure : ℕ
reason_mic_failure = 14

unfoldable pub handle_cmd_connect_eth : World → World
unfolding run_callback
handle_cmd_connect_eth w =
    run_callback on_connect_eth_cmd (with_bits (record w.bits { request_restore_sta = false }) w)

unfoldable pub handle_cmd_disconnect_eth : World → World
unfolding run_callback
handle_cmd_disconnect_eth w = run_callback on_disconnect_eth_cmd w

-- The switch of wifi_handle_cmd_connect_sta.
unfoldable pub note_conn_req : ConnectionRequest → EventBits → EventBits
note_conn_req by_none b = b
note_conn_req by_user b = record b { request_restore_sta = false; request_sta_connect = true }
note_conn_req by_auto_reconnect b = b
note_conn_req by_restore_connection b = record b { request_restore_sta = true }
note_conn_req by_wps b = record b { request_restore_sta = false; request_sta_connect = true }
note_conn_req (other _) b = b

module _ (env : Env) where
  -- esp_wifi_connect is called only if the configuration is taken.
  unfoldable pub configure_and_connect : World → World
  configure_and_connect w =
      let w' = emit (wifi_set_config w.sta_config) w in
      if env.set_config_ok then emit wifi_connect w' else w'

  -- A station that is active is disconnected first; it connects when that is done.
  unfoldable pub handle_cmd_connect_sta : ℕ → World → World
  unfolding note_conn_req conv_param_to_conn_req configure_and_connect msg_send_code
  handle_cmd_connect_sta val w =
      let b =
        note_conn_req (conv_param_to_conn_req val) (record w.bits { cmd_sta_connect = false }) in
      if w.bits.sta_active
      then (msg_send_code env order_disconnect_sta
          (with_bits (record b { request_restore_sta = true }) w)).0
      else configure_and_connect
          (with_bits (record b { request_disconnect = false; sta_active = true }) w)

  unfoldable pub handle_cmd_disconnect_sta : World → World
  unfolding run_callback msg_send_cmd_connect_sta
  handle_cmd_disconnect_sta w =
      let w1 = emit reconnect_timer_stop w in
      let w2 = with_bits (record w1.bits { request_disconnect = true; sta_active = false }) w1 in
      let w3 = run_callback on_disconnect_sta_cmd (emit wifi_disconnect w2) in
      let w4 = with_bits (record w3.bits { request_disconnect = false }) w3 in
      if w.bits.request_sta_connect then (msg_send_cmd_connect_sta env by_user w4).0 else w4

-- The delay is longer after a MIC failure, and the station is disconnected first.
unfoldable pub handle_lost_connection : Bool → Bool → World → World
handle_lost_connection was_active flag_mic_failure w =
    if not w.wps_enabled && was_active
    then (if flag_mic_failure
        then emit (reconnect_timer_restart (70 * 1000)) (emit wifi_disconnect w)
        else emit (reconnect_timer_restart (1 * 1000)) w)
    else w

-- What the handler makes of the bits that it found: the state, the reason, and whether the user
-- waits for a new connection.
unfoldable pub classify_disconnect : EventBits → ℕ → World → World × UpdateReason × Bool
unfolding handle_lost_connection
classify_disconnect found reason w =
    if found.request_sta_connect && found.request_restore_sta
    then (w, user_disconnect, true)
    else if found.request_sta_connect
    then (with_bits (record w.bits { request_sta_connect = false }) w, failed_attempt, false)
    else if found.request_disconnect
    then (with_bits (record w.bits { request_disconnect = false }) w, user_disconnect, false)
    else (
      handle_lost_connection found.sta_active (reason == reason_mic_failure) w,
      lost_connection,
      false,
    )

module _ (env : Env) where
  -- The result says whether the application's callback is called.
  unfoldable pub handle_ev_sta_disconnected : ℕ → World → World × Bool
  unfolding classify_disconnect update_network_connection_info msg_send_cmd_connect_sta
  handle_ev_sta_disconnected reason w =
      let found = w.bits in
      let w1 =
        with_bits
          (record found {
            scan = false;
            initial_connection = false;
            sta_active = false;
            wifi_connected = false;
          })
          w in
      let (w2, why, reconnect) = classify_disconnect found reason w1 in
      let w3 = update_network_connection_info env why (some w2.sta_config.ssid) none none w2 in
      let w4 =
        if reconnect && not found.cmd_sta_connect
        then (msg_send_cmd_connect_sta env by_user w3).0
        else w3 in
      (w4, found.wifi_connected || found.initial_connection)

  abbrev refresh_ip : Option IpInfo → World → World
  refresh_ip none w = w
  refresh_ip (some i) w =
      update_network_connection_info env connection_ok (some w.sta_config.ssid) (some i) env.dhcp_ip
        w

  -- A connection that was restored is not saved again.
  unfoldable pub handle_ev_sta_got_ip : World → World
  unfolding run_callback update_network_connection_info
  handle_ev_sta_got_ip w =
      let w1 =
        with_bits (record w.bits { request_sta_connect = false; request_restore_sta = false }) w in
      refresh_ip env.ip_info
        (if w.bits.request_restore_sta then w1 else run_callback save_wifi_config_sta w1)
