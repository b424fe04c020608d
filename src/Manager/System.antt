-- ===== src/Manager/System.antt =====
-- The manager among the other threads, as steps that may come in any order: a round of its task
-- with any message, an event of the driver, the reconnection timer, a request of the application or of the HTTP server,
-- Ethernet coming or going, and starting and stopping.
use esp32_wifi_manager.Common.{
  ℕ, ◌≡◌, refl, ◌↔◌, Bool, true, false, Option, none, some, arith, not, if◌then◌else◌,
}
use esp32_wifi_manager.NetworkInfo.{UpdateReason, connection_ok, user_disconnect}
use esp32_wifi_manager.Manager.{
  World, Env, MessageCode, QueueMessage, IpInfo, ConnectionRequest, with_bits,
}
use esp32_wifi_manager.Manager.Status.{
  sta_ip_reset, update_network_connection_info, update_time_sync_info,
}
use esp32_wifi_manager.Manager.Station.{handle_ev_sta_disconnected}
use esp32_wifi_manager.Manager.Dispatch.{recv_and_handle_msg}
use esp32_wifi_manager.Manager.Lifecycle.{
  StartEnv, StartParam, init_start_wifi, reconnect_sta, init_network, init, or_not_working, start,
  connect_async_by, send_order, finish_task,
}
use esp32_wifi_manager.Manager.Events.{
  WpsEnv, DriverEvent, event_handler, timer_cb_reconnect, scan_done,
}
use esp32_wifi_manager.Manager.Disconnect.{handle_msg-request_disconnect}

pub data Step : World → World → Type 0 where
  round :
      (env : Env) (msg : Option QueueMessage) (w : World) → Step w (recv_and_handle_msg env msg w).0
  driver :
      (env : Env) (wps : WpsEnv) (e : DriverEvent) (w : World) → Step w (event_handler env wps e w)
  request : (env : Env) (req : ConnectionRequest) (w : World) → Step w (connect_async_by env req w)
  reconnect_timer : (env : Env) (w : World) → Step w (timer_cb_reconnect env w)
  order : (env : Env) (code : MessageCode) (w : World) → Step w (send_order env code w)
  ethernet :
      (env : Env) (reason : UpdateReason) (ip : Option IpInfo) (dhcp : Option ℕ) (w : World)
      → Step w (update_network_connection_info env reason none ip dhcp w)
  time_sync : (is_valid : Bool) (w : World) → Step w (update_time_sync_info is_valid w)
  begin :
      (env : Env) (se : StartEnv) (param : StartParam) (w : World) → Step w (start env se param w).0
  finish : (w : World) → Step w (finish_task w)

pub data Reach (s : World) : World → Type 0 where
  here : Reach s s
  next : {t u : World} → Reach s t → Step t u → Reach s u

-- No request to disconnect is pending between two steps.
abbrev pub IsQuiet : World → Type 0
IsQuiet w = w.bits.request_disconnect ≡ false

round-IsQuiet :
    (env : Env) (msg : Option QueueMessage) (w : World)
    → IsQuiet w
    → IsQuiet (recv_and_handle_msg env msg w).0
unfolding recv_and_handle_msg
round-IsQuiet env none w h = h
round-IsQuiet env (some msg) w h =
    ground (arith, handle_msg-request_disconnect env msg.code msg.val w h)

driver-IsQuiet :
    (env : Env) (wps : WpsEnv) (e : DriverEvent) (w : World)
    → IsQuiet w
    → IsQuiet (event_handler env wps e w)
unfolding event_handler
driver-IsQuiet env wps scan_done w h = ground arith
driver-IsQuiet env wps _ w h = ground arith

ethernet-IsQuiet :
    (env : Env) (reason : UpdateReason) (ip : Option IpInfo) (dhcp : Option ℕ) (w : World)
    → IsQuiet w
    → IsQuiet (update_network_connection_info env reason none ip dhcp w)
unfolding update_network_connection_info
ethernet-IsQuiet env connection_ok none dhcp w h = h
ethernet-IsQuiet env connection_ok (some i) dhcp w h = h
ethernet-IsQuiet env _ ip dhcp w h = h

or_not_working-IsQuiet :
    (env : Env) (r : World × Bool) → IsQuiet r.0 → IsQuiet (or_not_working env r).0
or_not_working-IsQuiet env (w, true) h = h
or_not_working-IsQuiet env (w, false) h = h

reconnect_sta-IsQuiet : (env : Env) (w : World) → IsQuiet w → IsQuiet (reconnect_sta env w)
unfolding reconnect_sta
reconnect_sta-IsQuiet env w h = ground arith

init_start_wifi-IsQuiet : (ok : Bool) (w : World) → IsQuiet w → IsQuiet (init_start_wifi ok w)
unfolding init_start_wifi
init_start_wifi-IsQuiet true w h = h
init_start_wifi-IsQuiet false w h = h

connect_or_not-IsQuiet :
    (env : Env) (connect : Bool) (w : World)
    → IsQuiet w
    → IsQuiet (
        if connect
        then reconnect_sta env (with_bits (record w.bits { initial_connection = true }) w)
        else w)
connect_or_not-IsQuiet env true w h =
    reconnect_sta-IsQuiet env (with_bits (record w.bits { initial_connection = true }) w) h
connect_or_not-IsQuiet env false w h = h

if-IsQuiet :
    (b : Bool) (x y : World × Bool) → IsQuiet x.0 → IsQuiet y.0 → IsQuiet (if b then x else y).0
if-IsQuiet true x y hx hy = hx
if-IsQuiet false x y hx hy = hy

init_network-IsQuiet :
    (env : Env) (se : StartEnv) (param : StartParam) (w : World)
    → IsQuiet w
    → IsQuiet (init_network env se param w).0
unfolding init_network
init_network-IsQuiet env se param w h =
    let w' = init_start_wifi se.queue_create_ok w in
    if-IsQuiet (not se.event_loop_ok) _ _ h (
      if-IsQuiet (not se.netif_ap_ok) _ _ h (
        if-IsQuiet (not se.netif_sta_ok) _ _ h (
          connect_or_not-IsQuiet env param.flag_connect_sta w'
            (init_start_wifi-IsQuiet se.queue_create_ok w h))))

init-IsQuiet :
    (env : Env) (se : StartEnv) (param : StartParam) (w : World)
    → IsQuiet w
    → IsQuiet (init env se param w).0
unfolding init sta_ip_reset
init-IsQuiet env se param w h =
    if-IsQuiet w.bits.is_working _ _ h (init_network-IsQuiet env se param _ h)

start-IsQuiet :
    (env : Env) (se : StartEnv) (param : StartParam) (w : World)
    → IsQuiet w
    → IsQuiet (start env se param w).0
unfolding start
start-IsQuiet env se param w h =
    if-IsQuiet (not se.ecdh_init_ok) _ _ h
      (or_not_working-IsQuiet env (init env se param w) (init-IsQuiet env se param w h))

Step-IsQuiet : {t u : World} → Step t u → IsQuiet t → IsQuiet u
unfolding connect_async_by timer_cb_reconnect send_order update_time_sync_info finish_task
Step-IsQuiet (round env msg w) h = round-IsQuiet env msg w h
Step-IsQuiet (driver env wps e w) h = driver-IsQuiet env wps e w h
Step-IsQuiet (request env req w) h = ground arith
Step-IsQuiet (reconnect_timer env w) h = ground arith
Step-IsQuiet (order env code w) h = ground arith
Step-IsQuiet (ethernet env reason ip dhcp w) h = ethernet-IsQuiet env reason ip dhcp w h
Step-IsQuiet (time_sync is_valid w) h = h
Step-IsQuiet (begin env se param w) h = start-IsQuiet env se param w h
Step-IsQuiet (finish w) h = refl

pub Reach-IsQuiet : {s t : World} → IsQuiet s → Reach s t → IsQuiet t
Reach-IsQuiet h here = h
Reach-IsQuiet h (next r st) = Step-IsQuiet st (Reach-IsQuiet h r)

reports_user_disconnect_iff :
    (env : Env) (reason : ℕ) (w : World)
    → IsQuiet w
    → ((handle_ev_sta_disconnected env reason w).0.network_info.update_reason_code
        ≡ user_disconnect)
      ↔ ((w.bits.request_sta_connect ≡ true) × (w.bits.request_restore_sta ≡ true))
unfolding handle_ev_sta_disconnected
reports_user_disconnect_iff env reason w h = (λ e. ground arith, λ e. ground arith)

-- From any state with no pending request to disconnect, and after any steps in any order, a
-- disconnection is reported as the user's exactly if the bits for a requested and for a restored
-- connection are both set: an order to disconnect alone is never reported as the user's.
pub user_disconnect_needs_reconnect :
    (s t : World) (env : Env) (reason : ℕ)
    → IsQuiet s
    → Reach s t
    → ((handle_ev_sta_disconnected env reason t).0.network_info.update_reason_code
        ≡ user_disconnect)
      ↔ ((t.bits.request_sta_connect ≡ true) × (t.bits.request_restore_sta ≡ true))
user_disconnect_needs_reconnect s t env reason h r =
    reports_user_disconnect_iff env reason t (Reach-IsQuiet h r)
