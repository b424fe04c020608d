-- ===== src/Manager/Disconnect.antt =====
-- What losing the connection does, and what is reported of it.
use esp32_wifi_manager.Common.{
  ℕ, ◌≡◌, refl, ap, ◌∙◌, true, false, arith, List, [], ◌∷◌, ◌+◌, suc, length, ◌==◌, if◌then◌else◌,
}
use esp32_wifi_manager.NetworkInfo.{failed_attempt, lost_connection}
use esp32_wifi_manager.Manager.{
  World, Env, MessageCode, Action, reconnect_timer_restart, msg_code_none,
}
use esp32_wifi_manager.Manager.Station.{
  handle_cmd_connect_sta, handle_ev_sta_disconnected, reason_mic_failure,
}
use esp32_wifi_manager.Manager.Events.{timer_cb_reconnect}
use esp32_wifi_manager.Manager.Connect.{connects}
use esp32_wifi_manager.Manager.Dispatch.{handle_msg}

-- Handling a message leaves the request to disconnect clear, if it was clear.
pub handle_msg-request_disconnect :
    (env : Env) (code : MessageCode) (val : ℕ) (w : World)
    → w.bits.request_disconnect ≡ false
    → (handle_msg env code val w).0.bits.request_disconnect ≡ false
unfolding handle_msg
handle_msg-request_disconnect env msg_code_none val w h = h
handle_msg-request_disconnect env _ val w h = ground arith

-- The reconnection timer's starts among some actions.
abbrev pub timer_restarts : List Action → List ℕ
timer_restarts [] = []
timer_restarts (reconnect_timer_restart ms ∷ rest) = ms ∷ timer_restarts rest
timer_restarts (_ ∷ rest) = timer_restarts rest

module _ (env : Env) (reason : ℕ) (w : World) where
  -- Whatever the reason and the bits, a disconnection ends with the bits clear that say that the
  -- station is active or connected, that a scan runs, that this is the first connection, or that
  -- Ethernet is connected, and with the name of the configured network in the status.
  pub handle_ev_sta_disconnected-bits :
      let b = (handle_ev_sta_disconnected env reason w).0.bits in
      (b.sta_active ≡ false)
      × (b.wifi_connected ≡ false)
      × (b.eth_connected ≡ false)
      × (b.scan ≡ false)
      × (b.initial_connection ≡ false)
      × ((handle_ev_sta_disconnected env reason w).0.network_info.ssid ≡ w.sta_config.ssid)
  unfolding handle_ev_sta_disconnected
  handle_ev_sta_disconnected-bits = ground arith

  -- A connection that the user requested and that fails is not tried again: the request is
  -- cleared, the failure is reported, and no timer is started and no message sent.
  pub failed_attempt_not_retried :
      w.bits.request_sta_connect ≡ true
      → w.bits.request_restore_sta ≡ false
      → let after = (handle_ev_sta_disconnected env reason w).0 in
        (after.log ≡ w.log)
        × (after.bits.request_sta_connect ≡ false)
        × (after.network_info.update_reason_code ≡ failed_attempt)
  unfolding handle_ev_sta_disconnected
  failed_attempt_not_retried a b = ground arith

-- The delay of the reconnection timer behind a loss of the connection, in milliseconds.
abbrev pub delay : ℕ → ℕ
delay reason = if reason == reason_mic_failure then 70000 else 1000

-- The code of a request by the reconnection timer.
abbrev pub auto_code : ℕ
auto_code = 2

module _ (env : Env) where
  -- The driver reports that the connection is lost, the timer runs down, and the order that it sends
  -- is handled.
  unfoldable pub lose_and_retry : ℕ → World → World
  lose_and_retry reason w =
      handle_cmd_connect_sta env auto_code
        (timer_cb_reconnect env (handle_ev_sta_disconnected env reason w).0)

  -- Losses, each with its reason, one behind the other.
  abbrev pub lose_and_retry_all : List ℕ → World → World
  lose_and_retry_all [] w = w
  lose_and_retry_all (reason ∷ reasons) w = lose_and_retry_all reasons (lose_and_retry reason w)

-- The station is active, no request of the user is pending, and WPS is off.
pub record IsUndisturbed (w : World) : Type 0 where
  pub active : w.bits.sta_active ≡ true
  pub no_request : w.bits.request_sta_connect ≡ false
  pub no_disconnect : w.bits.request_disconnect ≡ false
  pub no_wps : w.wps_enabled ≡ false
  pub queue : w.queue_ready ≡ true

abbrev pub delays : List ℕ → List ℕ → List ℕ
delays [] before = before
delays (reason ∷ reasons) before = delays reasons (delay reason ∷ before)

lost :
    (env : Env) (reason : ℕ) (w : World)
    → IsUndisturbed w
    → let after = (handle_ev_sta_disconnected env reason w).0 in
      (timer_restarts after.log ≡ delay reason ∷ timer_restarts w.log)
      × (connects after.log ≡ connects w.log)
      × (after.network_info.update_reason_code ≡ lost_connection)
      × (after.bits.sta_active ≡ false)
      × (after.bits.request_sta_connect ≡ false)
      × (after.wps_enabled ≡ false)
      × (after.queue_ready ≡ true)
unfolding handle_ev_sta_disconnected
lost env reason w h = ground arith

retried :
    (env : Env) (w : World)
    → w.bits.sta_active ≡ false
    → w.bits.request_sta_connect ≡ false
    → w.wps_enabled ≡ false
    → w.queue_ready ≡ true
    → env.queue_send_ok ≡ true
    → env.set_config_ok ≡ true
    → let after = handle_cmd_connect_sta env auto_code (timer_cb_reconnect env w) in
      IsUndisturbed after
      × (timer_restarts after.log ≡ timer_restarts w.log)
      × (connects after.log ≡ suc (connects w.log))
      × (after.network_info ≡ w.network_info)
unfolding handle_cmd_connect_sta timer_cb_reconnect
retried env w inactive request wps queue sends takes = ground arith

lose_and_retry_lem :
    (env : Env) (reason : ℕ) (w : World)
    → IsUndisturbed w
    → env.queue_send_ok ≡ true
    → env.set_config_ok ≡ true
    → IsUndisturbed (lose_and_retry env reason w)
      × (timer_restarts (lose_and_retry env reason w).log ≡ delay reason ∷ timer_restarts w.log)
      × (connects (lose_and_retry env reason w).log ≡ suc (connects w.log))
unfolding lose_and_retry
lose_and_retry_lem env reason w h sends takes =
    let (timer, calls, why, inactive, request, wps, queue) = lost env reason w h in
    let (again, timer', calls', _) =
      retried env (handle_ev_sta_disconnected env reason w).0 inactive request wps queue sends
        takes in
    (again, timer' ∙ timer, calls' ∙ ap suc calls)

-- A station that is active, with no request to connect or to disconnect pending and WPS off, never
-- gives up: however often and for whatever reasons the connection is lost, behind each loss, once the
-- timer has run down and its order is handled, esp_wifi_connect has been called once more, and the
-- timer was started once, with 70 s behind a MIC failure and 1 s behind any other reason; the station
-- is again in the same condition. This is for a queue that takes the orders and a configuration that
-- the driver takes, and with no other message in between.
pub lost_connections_are_retried :
    (env : Env) (reasons : List ℕ) (w : World)
    → IsUndisturbed w
    → env.queue_send_ok ≡ true
    → env.set_config_ok ≡ true
    → let after = lose_and_retry_all env reasons w in
      IsUndisturbed after
      × (timer_restarts after.log ≡ delays reasons (timer_restarts w.log))
      × (connects after.log ≡ length reasons + connects w.log)
lost_connections_are_retried env [] w h sends takes = (h, refl, omega arith)
lost_connections_are_retried env (reason ∷ reasons) w h sends takes =
    let (again, timer, calls) = lose_and_retry_lem env reason w h sends takes in
    let (end, timers, all_calls) =
      lost_connections_are_retried env reasons (lose_and_retry env reason w) again sends takes in
    (end, timers ∙ ap (delays reasons) timer, omega (arith, all_calls, calls))
