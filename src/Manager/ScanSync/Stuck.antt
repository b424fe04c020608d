-- ===== src/Manager/ScanSync/Stuck.antt =====
-- A scan whose order cannot be sent (wifi_manager_scan_sync, src/wifi_manager_internal.c), and what
-- the manager and the other threads do behind it.
use esp32_wifi_manager.Common.{
  ℕ, ◌≡◌, ap, ◌∙◌, Bool, true, false, Option, none, some, not, if◌then◌else◌, arith,
}
use esp32_wifi_manager.NetworkInfo.{UpdateReason, connection_ok}
use esp32_wifi_manager.Manager.{
  World, Env, MessageCode, QueueMessage, IpInfo, Callback, ConnectionRequest, by_user,
  msg_code_none, order_disconnect_sta, on_disconnect_sta_cmd, wifi_disconnect, reconnect_timer_stop,
  emit, msg_send, msg_send_cmd_connect_sta, run_callback, with_bits,
}
use esp32_wifi_manager.Manager.Status.{
  sta_ip_reset, update_network_connection_info, update_time_sync_info,
}
use esp32_wifi_manager.Manager.Station.{handle_cmd_disconnect_sta}
use esp32_wifi_manager.Manager.Dispatch.{handle_msg, recv_and_handle_msg}
use esp32_wifi_manager.Manager.Lifecycle.{
  StartEnv, StartParam, init_start_wifi, reconnect_sta, init_network, init, or_not_working, start,
  connect_async_by, send_order, finish_task,
}
use esp32_wifi_manager.Manager.Events.{
  WpsEnv, DriverEvent, event_handler, timer_cb_reconnect, scan_done,
}
use esp32_wifi_manager.Manager.System.{
  Step, round, driver, request, reconnect_timer, order, ethernet, time_sync, begin, finish,
}
use esp32_wifi_manager.Manager.ScanSync.{ScanEnv, scan_sync}

-- The semaphore of a scan is there.
abbrev pub IsStuck : World → Type 0
IsStuck w = w.scan_sync ≡ true

run_callback-IsStuck : (c : Callback) (w : World) → IsStuck w → IsStuck (run_callback c w)
unfolding run_callback
run_callback-IsStuck c w h = ground arith

connect_message-IsStuck :
    (env : Env) (req : ConnectionRequest) (w : World)
    → IsStuck w
    → IsStuck (msg_send_cmd_connect_sta env req w).0
unfolding msg_send_cmd_connect_sta
connect_message-IsStuck env req w h = ground arith

if_world-IsStuck : (b : Bool) (x y : World) → IsStuck x → IsStuck y → IsStuck (if b then x else y)
if_world-IsStuck true x y hx hy = hx
if_world-IsStuck false x y hx hy = hy

disconnect-IsStuck : (env : Env) (w : World) → IsStuck w → IsStuck (handle_cmd_disconnect_sta env w)
unfolding handle_cmd_disconnect_sta
disconnect-IsStuck env w h =
    let w1 = emit reconnect_timer_stop w in
    let w2 = with_bits (record w1.bits { request_disconnect = true; sta_active = false }) w1 in
    let w3 = run_callback on_disconnect_sta_cmd (emit wifi_disconnect w2) in
    let w4 = with_bits (record w3.bits { request_disconnect = false }) w3 in
    let stuck : IsStuck w4 =
      run_callback-IsStuck on_disconnect_sta_cmd (emit wifi_disconnect w2) h in
    if_world-IsStuck w.bits.request_sta_connect (msg_send_cmd_connect_sta env by_user w4).0 w4
      (connect_message-IsStuck env by_user w4 stuck) stuck

handle_msg-IsStuck :
    (env : Env) (code : MessageCode) (val : ℕ) (w : World)
    → IsStuck w
    → IsStuck (handle_msg env code val w).0
unfolding handle_msg
handle_msg-IsStuck env msg_code_none val w h = h
handle_msg-IsStuck env order_disconnect_sta val w h = disconnect-IsStuck env w h
handle_msg-IsStuck env _ val w h = ground arith

round-IsStuck :
    (env : Env) (msg : Option QueueMessage) (w : World)
    → IsStuck w
    → IsStuck (recv_and_handle_msg env msg w).0
unfolding recv_and_handle_msg
round-IsStuck env none w h = h
round-IsStuck env (some msg) w h = ground (arith, handle_msg-IsStuck env msg.code msg.val w h)

driver-IsStuck :
    (env : Env) (wps : WpsEnv) (e : DriverEvent) (w : World)
    → IsStuck w
    → IsStuck (event_handler env wps e w)
unfolding event_handler
driver-IsStuck env wps scan_done w h = ground arith
driver-IsStuck env wps _ w h = ground arith

ethernet-IsStuck :
    (env : Env) (reason : UpdateReason) (ip : Option IpInfo) (dhcp : Option ℕ) (w : World)
    → IsStuck w
    → IsStuck (update_network_connection_info env reason none ip dhcp w)
unfolding update_network_connection_info
ethernet-IsStuck env connection_ok none dhcp w h = h
ethernet-IsStuck env connection_ok (some i) dhcp w h = h
ethernet-IsStuck env _ ip dhcp w h = h

or_not_working-IsStuck :
    (env : Env) (r : World × Bool) → IsStuck r.0 → IsStuck (or_not_working env r).0
or_not_working-IsStuck env (w, true) h = h
or_not_working-IsStuck env (w, false) h = h

reconnect_sta-IsStuck : (env : Env) (w : World) → IsStuck w → IsStuck (reconnect_sta env w)
unfolding reconnect_sta
reconnect_sta-IsStuck env w h = ground arith

init_start_wifi-IsStuck : (ok : Bool) (w : World) → IsStuck w → IsStuck (init_start_wifi ok w)
unfolding init_start_wifi
init_start_wifi-IsStuck true w h = h
init_start_wifi-IsStuck false w h = h

connect_or_not-IsStuck :
    (env : Env) (connect : Bool) (w : World)
    → IsStuck w
    → IsStuck (
        if connect
        then reconnect_sta env (with_bits (record w.bits { initial_connection = true }) w)
        else w)
connect_or_not-IsStuck env true w h =
    reconnect_sta-IsStuck env (with_bits (record w.bits { initial_connection = true }) w) h
connect_or_not-IsStuck env false w h = h

if-IsStuck :
    (b : Bool) (x y : World × Bool) → IsStuck x.0 → IsStuck y.0 → IsStuck (if b then x else y).0
if-IsStuck true x y hx hy = hx
if-IsStuck false x y hx hy = hy

start-IsStuck :
    (env : Env) (se : StartEnv) (param : StartParam) (w : World)
    → IsStuck w
    → IsStuck (start env se param w).0
unfolding start init init_network sta_ip_reset
start-IsStuck env se param w h = if-IsStuck (not se.ecdh_init_ok) _ _ h (
    or_not_working-IsStuck env (init env se param w) (
      if-IsStuck w.bits.is_working _ _ h (
        if-IsStuck (not se.event_loop_ok) _ _ h (
          if-IsStuck (not se.netif_ap_ok) _ _ h (
            if-IsStuck (not se.netif_sta_ok) _ _ h (
              connect_or_not-IsStuck env param.flag_connect_sta _
                (init_start_wifi-IsStuck se.queue_create_ok _ h)))))))

Step-IsStuck : {t u : World} → Step t u → IsStuck t → IsStuck u
unfolding connect_async_by timer_cb_reconnect send_order update_time_sync_info finish_task
Step-IsStuck (round env msg w) h = round-IsStuck env msg w h
Step-IsStuck (driver env wps e w) h = driver-IsStuck env wps e w h
Step-IsStuck (request env req w) h = ground arith
Step-IsStuck (reconnect_timer env w) h = ground arith
Step-IsStuck (order env code w) h = ground arith
Step-IsStuck (ethernet env reason ip dhcp w) h = ethernet-IsStuck env reason ip dhcp w h
Step-IsStuck (time_sync is_valid w) h = h
Step-IsStuck (begin env se param w) h = start-IsStuck env se param w h
Step-IsStuck (finish w) h = h

-- What happens behind a call: further calls, and steps of the manager and of the other threads, in
-- any order.
pub data Later (s : World) : World → Type 0 where
  at_once : Later s s
  scan : {t : World} (env : Env) (e : ScanEnv) → Later s t → Later s (scan_sync env e t).0
  step : {t u : World} → Later s t → Step t u → Later s u

scan_sync_busy : (env : Env) (e : ScanEnv) (w : World) → IsStuck w → scan_sync env e w ≡ (w, none)
unfolding scan_sync
scan_sync_busy env e w h = ground arith

scan_sync_unsent :
    (env : Env) (e : ScanEnv) (w : World)
    → env.queue_send_ok ≡ false
    → w.scan_sync ≡ false
    → IsStuck (scan_sync env e w).0
unfolding scan_sync msg_send
scan_sync_unsent env e w h k = ground arith

Later-IsStuck : {s t : World} → Later s t → IsStuck s → IsStuck t
Later-IsStuck at_once h = h
Later-IsStuck (scan env e before) h =
    let k = Later-IsStuck before h in ap (λ r. r.0.scan_sync) (scan_sync_busy env e _ k) ∙ k
Later-IsStuck (step before st) h = Step-IsStuck st (Later-IsStuck before h)

-- If the order to scan cannot be sent once, the semaphore stays, and no later call gives access
-- points: not behind any calls, rounds of the manager, events of the driver, requests, starts and
-- ends of the manager in between, and not when messages can be sent again.
pub scan_sync_never_again :
    (env : Env) (e : ScanEnv) (w t : World) (env' : Env) (e' : ScanEnv)
    → env.queue_send_ok ≡ false
    → w.scan_sync ≡ false
    → Later (scan_sync env e w).0 t
    → scan_sync env' e' t ≡ (t, none)
scan_sync_never_again env e w t env' e' h k later =
    scan_sync_busy env' e' t (Later-IsStuck later (scan_sync_unsent env e w h k))
