-- ===== src/Manager/Hotspot.antt =====
-- The access point and WPS (src/wifi_manager_handle_msg.c).
use esp32_wifi_manager.Common.{Bool, true, false, ◌||◌, if◌then◌else◌}
use esp32_wifi_manager.Manager.{
  World, Env, wifi_set_mode_apsta, wifi_set_mode_sta, wps_enable, wps_start, wps_disable,
  dns_server_start, dns_server_stop, on_ap_started, on_ap_stopped, on_wps_started, on_wps_stopped,
  on_ap_sta_connected, on_ap_sta_disconnected, on_ap_sta_ip_assigned, emit, with_bits, run_callback,
}

unfoldable pub handle_cmd_start_ap : Bool → World → World
unfolding run_callback
handle_cmd_start_ap flag_block_req_from_lan w =
    let w' = emit wifi_set_mode_apsta w in
    run_callback on_ap_started (
      with_bits
        (record w'.bits {
          ap_active = true;
          block_req_from_lan_while_ap_active =
              w.bits.block_req_from_lan_while_ap_active || flag_block_req_from_lan;
        })
        w')

unfoldable pub handle_cmd_stop_ap : World → World
unfolding run_callback
handle_cmd_stop_ap w =
    let w' = emit wifi_set_mode_sta w in
    run_callback on_ap_stopped (
      with_bits (record w'.bits { ap_active = false; block_req_from_lan_while_ap_active = false })
        w')

module _ (env : Env) where
  unfoldable pub handle_cmd_enable_wps : World → World
  unfolding run_callback
  handle_cmd_enable_wps w =
      let w' = emit wps_start (emit wps_enable w) in
      if env.wps_start_ok
      then run_callback on_wps_started (record w' { wps_enabled = true })
      else w'

  unfoldable pub handle_cmd_disable_wps : World → World
  unfolding run_callback
  handle_cmd_disable_wps w =
      let w' = record (emit wps_disable w) { wps_enabled = false } in
      if env.wps_disable_ok then run_callback on_wps_stopped w' else w'

-- The DNS server of the captive portal is started only without Wi-Fi.
unfoldable pub handle_ev_ap_sta_connected : World → World
unfolding run_callback
handle_ev_ap_sta_connected w =
    let w' = run_callback on_ap_sta_connected (
      with_bits
        (record w.bits {
          ap_sta_ip_assigned = false;
          initial_connection = false;
          ap_sta_connected = true;
        })
        w) in
    if w'.bits.wifi_connected then w' else emit dns_server_start w'

unfoldable pub handle_ev_ap_sta_disconnected : World → World
unfolding run_callback
handle_ev_ap_sta_disconnected w = run_callback on_ap_sta_disconnected (
    emit dns_server_stop
      (with_bits (record w.bits { ap_sta_connected = false; ap_sta_ip_assigned = false }) w))

unfoldable pub handle_ev_ap_sta_ip_assigned : World → World
unfolding run_callback
handle_ev_ap_sta_ip_assigned w =
    run_callback on_ap_sta_ip_assigned (with_bits (record w.bits { ap_sta_ip_assigned = true }) w)
