-- ===== src/Manager/Dispatch.antt =====
-- wifi_manager_recv_and_handle_msg: one round of the manager's task.
use esp32_wifi_manager.Common.{
  ℕ, Bool, true, false, not, ◌&&◌, Option, none, some, ◌==◌, if◌then◌else◌,
}
use esp32_wifi_manager.Manager.{
  World, Env, QueueMessage, MessageCode, msg_code_none, order_stop_and_destroy,
  order_start_wifi_scan, order_connect_eth, order_connect_sta, order_disconnect_eth,
  order_disconnect_sta, order_start_ap, order_stop_ap, event_sta_disconnected, event_scan_next,
  event_scan_done, event_sta_got_ip, event_ap_sta_connected, event_ap_sta_disconnected,
  event_ap_sta_ip_assigned, order_enable_wps, order_disable_wps, order_task_watchdog_feed,
  task_wdt_reset, task_delay, message_callback, emit, msg_clear_flag_wdog_feed_active,
}
use esp32_wifi_manager.Manager.Scan.{
  handle_cmd_start_wifi_scan, handle_ev_scan_next, handle_ev_scan_done,
}
use esp32_wifi_manager.Manager.Station.{
  handle_cmd_connect_eth, handle_cmd_connect_sta, handle_cmd_disconnect_eth,
  handle_cmd_disconnect_sta, handle_ev_sta_disconnected, handle_ev_sta_got_ip,
}
use esp32_wifi_manager.Manager.Hotspot.{
  handle_cmd_start_ap, handle_cmd_stop_ap, handle_cmd_enable_wps, handle_cmd_disable_wps,
  handle_ev_ap_sta_connected, handle_ev_ap_sta_disconnected, handle_ev_ap_sta_ip_assigned,
}

abbrev pub is_stop : MessageCode → Bool
is_stop order_stop_and_destroy = true
is_stop _ = false

module _ (env : Env) where
  -- The switch: the new state, and whether the message's callback may be called.
  unfoldable pub handle_msg : MessageCode → ℕ → World → World × Bool
  unfolding handle_cmd_start_wifi_scan handle_cmd_connect_eth handle_cmd_connect_sta
      handle_cmd_disconnect_eth handle_cmd_disconnect_sta handle_cmd_start_ap handle_cmd_stop_ap
      handle_ev_sta_disconnected handle_ev_scan_next handle_ev_scan_done handle_ev_sta_got_ip
      handle_ev_ap_sta_connected handle_ev_ap_sta_disconnected handle_ev_ap_sta_ip_assigned
      handle_cmd_enable_wps handle_cmd_disable_wps msg_clear_flag_wdog_feed_active
  handle_msg msg_code_none val w = (w, true)
  handle_msg order_stop_and_destroy val w = (w, true)
  handle_msg order_start_wifi_scan val w = (handle_cmd_start_wifi_scan env w, true)
  handle_msg order_connect_eth val w = (handle_cmd_connect_eth w, true)
  handle_msg order_connect_sta val w = (handle_cmd_connect_sta env val w, true)
  handle_msg order_disconnect_eth val w = (handle_cmd_disconnect_eth w, true)
  handle_msg order_disconnect_sta val w = (handle_cmd_disconnect_sta env w, true)
  handle_msg order_start_ap val w = (handle_cmd_start_ap (not (val == 0)) w, true)
  handle_msg order_stop_ap val w = (handle_cmd_stop_ap w, true)
  handle_msg event_sta_disconnected val w = handle_ev_sta_disconnected env val w
  handle_msg event_scan_next val w = (handle_ev_scan_next env w, true)
  handle_msg event_scan_done val w = (handle_ev_scan_done env w, true)
  handle_msg event_sta_got_ip val w = (handle_ev_sta_got_ip env w, true)
  handle_msg event_ap_sta_connected val w = (handle_ev_ap_sta_connected w, true)
  handle_msg event_ap_sta_disconnected val w = (handle_ev_ap_sta_disconnected w, true)
  handle_msg event_ap_sta_ip_assigned val w = (handle_ev_ap_sta_ip_assigned w, true)
  handle_msg order_enable_wps val w = (handle_cmd_enable_wps env w, true)
  handle_msg order_disable_wps val w = (handle_cmd_disable_wps env w, true)
  handle_msg order_task_watchdog_feed val w =
      (emit task_wdt_reset (msg_clear_flag_wdog_feed_active w), true)

  -- The result says that the task terminates. No message is an error of the queue.
  unfoldable pub recv_and_handle_msg : Option QueueMessage → World → World × Bool
  recv_and_handle_msg none w = (emit task_delay w, false)
  recv_and_handle_msg (some msg) w =
      let (w', may_call) = handle_msg msg.code msg.val w in
      (
        if w'.message_callbacks msg.code && may_call
            then emit (message_callback msg.code msg.val) w'
            else w',
        is_stop msg.code,
      )
