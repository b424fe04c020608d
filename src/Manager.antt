-- ===== src/Manager.antt =====
-- The Wi-Fi manager task: its state, its messages, and what it asks of the rest of the system
-- (src/wifi_manager_internal.h, src/include/wifi_manager_defs.h, src/wifiman_msg.c). The handlers
-- and the proofs are in the modules below.
--
-- The state that the C code keeps in globals is one record. Each call of ESP-IDF, FreeRTOS or an
-- application's callback that the code makes is an `Action` in `log`, the newest first; what such
-- a call returns is a field of `Env`.
pub mod Status
pub mod Scan
pub mod Station
pub mod Hotspot
pub mod Dispatch
pub mod Events
pub mod Lifecycle
pub mod Disconnect
pub mod Connect
pub mod ScanRun
pub mod System
pub mod Restart
pub mod ScanSync
use esp32_wifi_manager.Common.{ℕ, Bool, true, false, Option, List, ◌∷◌, Bytes, ◌==◌, if◌then◌else◌}
use esp32_wifi_manager.Common.Int.{ℤ}
use esp32_wifi_manager.AccessPoints.{ApRecord}
use esp32_wifi_manager.NetworkInfo.{NetworkInfo}

-- The bits of g_p_wifi_manager_event_group, BIT0 to BIT14.
pub record EventBits : Type 0 where
  pub is_working : Bool
  pub wifi_connected : Bool
  pub ap_sta_connected : Bool
  pub ap_sta_ip_assigned : Bool
  pub ap_started : Bool
  pub request_sta_connect : Bool
  pub request_restore_sta : Bool
  pub scan : Bool
  pub request_disconnect : Bool
  pub eth_connected : Bool
  pub ap_active : Bool
  pub block_req_from_lan_while_ap_active : Bool
  pub sta_active : Bool
  pub initial_connection : Bool
  pub cmd_sta_connect : Bool

-- message_code_e
pub data MessageCode : Type 0 where
  msg_code_none : MessageCode
  order_stop_and_destroy order_start_wifi_scan order_connect_eth order_connect_sta : MessageCode
  order_disconnect_eth order_disconnect_sta order_start_ap order_stop_ap : MessageCode
  event_sta_disconnected event_scan_next event_scan_done event_sta_got_ip : MessageCode
  event_ap_sta_connected event_ap_sta_disconnected event_ap_sta_ip_assigned : MessageCode
  order_enable_wps order_disable_wps order_task_watchdog_feed : MessageCode

-- queue_message: `val` is the parameter as a number, 0 for the NULL pointer.
pub record QueueMessage : Type 0 where
  pub code : MessageCode
  pub val : ℕ

-- connection_request_made_by_code_e; a value that the switch does not name is `other`.
pub data ConnectionRequest : Type 0 where
  by_none by_user by_auto_reconnect by_restore_connection by_wps : ConnectionRequest
  other : ℕ → ConnectionRequest

unfoldable pub conv_param_to_conn_req : ℕ → ConnectionRequest
conv_param_to_conn_req val =
    if val == 0
    then by_none
    else if val == 1
    then by_user
    else if val == 2
    then by_auto_reconnect
    else if val == 3
    then by_restore_connection
    else if val == 4
    then by_wps
    else other val

unfoldable pub conn_req_code : ConnectionRequest → ℕ
conn_req_code by_none = 0
conn_req_code by_user = 1
conn_req_code by_auto_reconnect = 2
conn_req_code by_restore_connection = 3
conn_req_code by_wps = 4
conn_req_code (other n) = n

-- The callbacks of wifi_manager_callbacks_t that the manager's task and its API call.
pub data Callback : Type 0 where
  on_connect_eth_cmd on_disconnect_eth_cmd on_disconnect_sta_cmd : Callback
  on_wps_started on_wps_stopped on_ap_started on_ap_stopped : Callback
  on_ap_sta_connected on_ap_sta_disconnected on_ap_sta_ip_assigned : Callback
  save_wifi_config_sta : Callback

-- The part of wifi_sta_config_t that the manager reads.
pub record StaConfig : Type 0 where
  pub ssid : Bytes
  pub password : Bytes

-- A call that leaves the program. A timer's delay is in milliseconds.
pub data Action : Type 0 where
  queue_send : QueueMessage → Action
  scan_timer_start scan_timer_stop reconnect_timer_stop : Action
  reconnect_timer_restart : ℕ → Action
  wifi_set_config : StaConfig → Action
  wifi_connect wifi_disconnect wifi_set_mode_apsta wifi_set_mode_sta : Action
  wifi_scan_start : ℕ → Action
  wps_enable wps_start wps_disable : Action
  dns_server_start dns_server_stop : Action
  sema_signal task_wdt_reset task_delay : Action
  callback : Callback → Action
  message_callback : MessageCode → ℕ → Action

-- wifi_manager_scan_info_t: the channels are uint8_t, the number is uint16_t.
pub record ScanInfo : Type 0 where
  pub first_chan : ℕ
  pub last_chan : ℕ
  pub cur_chan : ℕ
  pub num_access_points : ℕ

pub record World : Type 0 where
  pub bits : EventBits
  pub wps_enabled : Bool
  pub scan_info : ScanInfo
  pub ap_num : ℕ
  pub ap_records : List ApRecord
  -- g_p_scan_sync_sema is not NULL: a thread waits for the scan.
  pub scan_sync : Bool
  pub sta_config : StaConfig
  pub sta_ip : Bytes
  pub network_info : NetworkInfo
  -- gh_wifiman_msg_queue is not NULL.
  pub queue_ready : Bool
  -- g_wifiman_msg_flag_wdog_feed_active
  pub wdog_feed_active : Bool
  -- Which pointers of g_wifi_callbacks and g_wifi_cb_ptr_arr are not NULL.
  pub callbacks : Callback → Bool
  pub message_callbacks : MessageCode → Bool
  pub log : List Action

-- esp_netif_ip_info_t
pub record IpInfo : Type 0 where
  pub ip : ℕ
  pub netmask : ℕ
  pub gw : ℕ

-- What the calls return while one message is handled. `none` is an error code.
pub record Env : Type 0 where
  -- xQueueSend returns pdTRUE.
  pub queue_send_ok : Bool
  -- esp_wifi_get_country: the first channel and the number of channels, both uint8_t
  pub country : Option (ℕ × ℕ)
  pub set_config_ok : Bool
  pub wps_start_ok : Bool
  pub wps_disable_ok : Bool
  pub ip_info : Option IpInfo
  -- The address of the DHCP server, or NULL.
  pub dhcp_ip : Option ℕ
  pub scan_start_ok : Bool
  -- The records that esp_wifi_scan_get_ap_records writes.
  pub scanned : Option (List ApRecord)
  -- esp_ip4addr_ntoa
  pub ntoa : ℕ → Bytes
  -- qsort of the standard library, which sorts by a comparison
  pub qsort : (ApRecord → ApRecord → ℤ) → List ApRecord → List ApRecord

abbrev pub emit : Action → World → World
emit a w = record w { log = a ∷ w.log }

abbrev pub with_bits : EventBits → World → World
with_bits b w = record w { bits = b }

-- `if (NULL != g_wifi_callbacks.cb) g_wifi_callbacks.cb();`
unfoldable pub run_callback : Callback → World → World
run_callback c w = if w.callbacks c then emit (callback c) w else w

module _ (env : Env) where
  -- wifiman_msg_send_with_timeout: the new state, and whether the message is in the queue.
  unfoldable pub msg_send : QueueMessage → World → World × Bool
  msg_send m w =
      if w.queue_ready
      then (if env.queue_send_ok then (emit (queue_send m) w, true) else (w, false))
      else (w, false)

  -- A message with the parameter NULL or 0.
  unfoldable pub msg_send_code : MessageCode → World → World × Bool
  unfolding msg_send
  msg_send_code code w = msg_send (record { code = code; val = 0 }) w

  -- The bit is set first, whether or not the message can be sent.
  unfoldable pub msg_send_cmd_connect_sta : ConnectionRequest → World → World × Bool
  unfolding msg_send conn_req_code
  msg_send_cmd_connect_sta req w =
      msg_send (record { code = order_connect_sta; val = conn_req_code req })
        (with_bits (record w.bits { cmd_sta_connect = true }) w)

  -- wifiman_msg_send_cmd_task_watchdog_feed: at most one such message waits.
  unfoldable pub msg_send_cmd_task_watchdog_feed : World → World
  unfolding msg_send_code
  msg_send_cmd_task_watchdog_feed w =
      if w.wdog_feed_active
      then w
      else (msg_send_code order_task_watchdog_feed (record w { wdog_feed_active = true })).0

unfoldable pub msg_clear_flag_wdog_feed_active : World → World
msg_clear_flag_wdog_feed_active w = record w { wdog_feed_active = false }
