-- ===== src/Manager/Lifecycle.antt =====
-- Starting and stopping the manager (src/wifi_manager.c, src/wifi_manager_internal.c), and the
-- requests that other threads make of its task.
use esp32_wifi_manager.Common.{Bool, true, false, not, [], is_empty, if◌then◌else◌}
use esp32_wifi_manager.NetworkInfo
use esp32_wifi_manager.Manager.{
  World, Env, StaConfig, Callback, MessageCode, ConnectionRequest, by_user, by_restore_connection,
  reconnect_timer_stop, scan_timer_stop, wifi_disconnect, emit, with_bits, msg_send_code,
  msg_send_cmd_connect_sta,
}
use esp32_wifi_manager.Manager.Status.{sta_ip_reset}

-- What the calls of the start return: the ECDH keys, the event loop, the two network interfaces,
-- and the message queue.
pub record StartEnv : Type 0 where
  pub ecdh_init_ok : Bool
  pub event_loop_ok : Bool
  pub netif_ap_ok : Bool
  pub netif_sta_ok : Bool
  pub queue_create_ok : Bool

-- What the application passes to the start.
pub record StartParam : Type 0 where
  pub flag_connect_sta : Bool
  pub sta_config : StaConfig
  pub callbacks : Callback → Bool

abbrev pub set_working : Bool → World → World
set_working b w = with_bits (record w.bits { is_working = b }) w

-- wifi_manager_init_start_wifi, as far as the manager's own state goes; its result is not read.
unfoldable pub init_start_wifi : Bool → World → World
init_start_wifi queue_create_ok w =
    if queue_create_ok
    then record w { queue_ready = true; message_callbacks = λ _. false }
    else record w { queue_ready = false }

module _ (env : Env) where
  unfoldable pub reconnect_sta : World → World
  unfolding msg_send_cmd_connect_sta
  reconnect_sta w =
      if is_empty w.sta_config.ssid
      then w
      else (msg_send_cmd_connect_sta env by_restore_connection w).0

  -- wifi_manager_init from the event loop on.
  unfoldable pub init_network : StartEnv → StartParam → World → World × Bool
  init_network se param w =
      if not se.event_loop_ok
      then (w, false)
      else if not se.netif_ap_ok
      then (w, false)
      else if not se.netif_sta_ok
      then (w, false)
      else let w' = init_start_wifi se.queue_create_ok w in
        (
          if param.flag_connect_sta
              then reconnect_sta (with_bits (record w'.bits { initial_connection = true }) w')
              else w',
          true,
        )

  unfoldable pub init : StartEnv → StartParam → World → World × Bool
  init se param w =
      if w.bits.is_working
      then (w, false)
      else init_network se param (
          sta_ip_reset env (record (set_working true w) {
            callbacks = param.callbacks;
            sta_config = param.sta_config;
            network_info = NetworkInfo.clear w.network_info;
          }))

  abbrev pub or_not_working : World × Bool → World × Bool
  or_not_working (w, true) = (w, true)
  or_not_working (w, false) = (set_working false w, false)

  -- Every failure ends with the working bit clear.
  unfoldable pub start : StartEnv → StartParam → World → World × Bool
  start se param w =
      if not se.ecdh_init_ok then (set_working false w, false) else or_not_working (init se param w)

  -- wifi_manager_connect_async and wifi_manager_connect_async_by_wps
  unfoldable pub connect_async_by : ConnectionRequest → World → World
  unfolding msg_send_cmd_connect_sta NetworkInfo.clear
  connect_async_by req w =
      (msg_send_cmd_connect_sta env req
        (record w { network_info = NetworkInfo.clear w.network_info })).0

  unfoldable pub connect_async : World → World
  unfolding connect_async_by
  connect_async w = connect_async_by by_user w

  -- wifi_manager_disconnect_wifi, _disconnect_eth, _stop_ap, _enable_wps and _disable_wps send
  -- their order, and no more; so does wifi_manager_stop.
  unfoldable pub send_order : MessageCode → World → World
  unfolding msg_send_code
  send_order code w = (msg_send_code env code w).0

-- What wifi_manager_task does behind its loop.
unfoldable pub finish_task : World → World
finish_task w =
    let w1 = emit wifi_disconnect (emit scan_timer_stop (emit reconnect_timer_stop w)) in
    record w1 {
      bits = record w1.bits {
        is_working = false;
        wifi_connected = false;
        ap_sta_connected = false;
        ap_sta_ip_assigned = false;
        ap_started = false;
        request_sta_connect = false;
        request_restore_sta = false;
        scan = false;
        request_disconnect = false;
        ap_active = false;
      };
      sta_ip = [];
      queue_ready = false;
    }
