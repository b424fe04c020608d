-- ===== src/Manager/Events.antt =====
-- wifi_manager_event_handler (src/wifi_manager_internal.c): what the driver's events become.
use esp32_wifi_manager.Common.{
  ℕ, Bool, true, false, Option, none, some, [], Bytes, is_empty, truncate, ◌==◌, if◌then◌else◌,
}
use esp32_wifi_manager.Manager.{
  World, Env, StaConfig, by_auto_reconnect, by_wps, event_scan_done, event_sta_disconnected,
  event_sta_got_ip, event_ap_sta_connected, event_ap_sta_disconnected, event_ap_sta_ip_assigned,
  on_wps_stopped, wps_enable, wps_start, wps_disable, emit, with_bits, run_callback, msg_send,
  msg_send_code, msg_send_cmd_connect_sta,
}
use esp32_wifi_manager.Manager.Lifecycle.{connect_async_by}

-- wifi_event_sta_wps_er_success_t: the number of credentials, and the first of them.
pub record WpsCredentials : Type 0 where
  pub ap_cred_cnt : ℕ
  pub first_cred : StaConfig

-- The events of WIFI_EVENT and IP_EVENT; those that are only logged are one.
pub data DriverEvent : Type 0 where
  scan_done ap_start ap_sta_connected ap_sta_disconnected : DriverEvent
  sta_disconnected : ℕ → DriverEvent
  wps_er_success : Option WpsCredentials → DriverEvent
  wps_er_failed wps_er_timeout : DriverEvent
  sta_got_ip : ℕ → DriverEvent
  ap_sta_ip_assigned logged_only : DriverEvent

-- What os_calloc and esp_wifi_get_config return while WPS credentials are taken over.
pub record WpsEnv : Type 0 where
  pub calloc_ok : Bool
  pub current_config : Option StaConfig

-- wifiman_config_sta_set_ssid_and_password, with the sizes 32 and 64 of the two buffers
unfoldable pub config_sta_set_ssid_and_password : Bytes → Option Bytes → World → World
config_sta_set_ssid_and_password ssid none w = record w {
  sta_config = record { ssid = truncate 32 ssid; password = [] };
}
config_sta_set_ssid_and_password ssid (some password) w = record w {
  sta_config = record { ssid = truncate 32 ssid; password = truncate 64 password };
}

-- wifi_manager_restart_wps
unfoldable pub restart_wps : World → World
restart_wps w = emit wps_start (emit wps_enable (emit wps_disable w))

module _ (env : Env) where
  -- wifi_manager_timer_cb_reconnect: the reconnection timer has run down.
  unfoldable pub timer_cb_reconnect : World → World
  unfolding msg_send_cmd_connect_sta
  timer_cb_reconnect w = (msg_send_cmd_connect_sta env by_auto_reconnect w).0

  -- `conf` is the configuration read from the driver, all zero where it was not read; the test
  -- for a name is on it.
  abbrev connect_if_named : StaConfig → StaConfig → World → World
  connect_if_named conf cred w =
      if is_empty conf.ssid
      then w
      else connect_async_by env by_wps (
          config_sta_set_ssid_and_password (truncate 32 cred.ssid)
            (some (truncate 64 cred.password)) w)

  abbrev zero_config : StaConfig
  zero_config = record { ssid = []; password = [] }

  -- The part that needs the temporary buffer.
  abbrev take_credentials : Option WpsCredentials → Option StaConfig → World → World
  take_credentials (some evt) current w =
      if evt.ap_cred_cnt == 0 then w else connect_if_named zero_config evt.first_cred w
  take_credentials none none w = w
  take_credentials none (some conf) w = connect_if_named conf conf w

  unfoldable pub on_wps_er_success : WpsEnv → Option WpsCredentials → World → World
  unfolding run_callback config_sta_set_ssid_and_password connect_async_by
  on_wps_er_success wps p_evt w =
      let w' = run_callback on_wps_stopped (record (emit wps_disable w) { wps_enabled = false }) in
      if wps.calloc_ok then take_credentials p_evt wps.current_config w' else w'

  unfoldable pub event_handler : WpsEnv → DriverEvent → World → World
  unfolding on_wps_er_success restart_wps msg_send msg_send_code
  event_handler wps scan_done w = (msg_send_code env event_scan_done w).0
  event_handler wps ap_start w = with_bits (record w.bits { ap_started = true }) w
  event_handler wps ap_sta_connected w = (msg_send_code env event_ap_sta_connected w).0
  event_handler wps ap_sta_disconnected w = (msg_send_code env event_ap_sta_disconnected w).0
  event_handler wps (sta_disconnected reason) w =
      (msg_send env (record { code = event_sta_disconnected; val = reason }) w).0
  event_handler wps (wps_er_success p_evt) w = on_wps_er_success wps p_evt w
  event_handler wps wps_er_failed w = restart_wps w
  event_handler wps wps_er_timeout w = restart_wps w
  event_handler wps (sta_got_ip ip) w =
      (msg_send env (record { code = event_sta_got_ip; val = ip }) w).0
  event_handler wps ap_sta_ip_assigned w = (msg_send_code env event_ap_sta_ip_assigned w).0
  event_handler wps logged_only w = w
