-- ===== src/Manager/Restart.antt =====
-- Starting twice and starting again (src/wifi_manager.c, src/wifi_manager_internal.c).
use esp32_wifi_manager.Common.{
  Bool, true, false, not, is_empty, ◌≡◌, refl, ap, ◌∙◌, ℕ, arith, if◌then◌else◌,
}
use esp32_wifi_manager.Manager.{
  World, Env, QueueMessage, with_bits, msg_send, msg_send_code, msg_send_cmd_connect_sta,
  order_disconnect_sta,
}
use esp32_wifi_manager.Manager.Station.{handle_cmd_connect_sta}
use esp32_wifi_manager.Manager.Status.{sta_ip_reset, sta_ip_set}
use esp32_wifi_manager.Manager.Lifecycle.{
  StartEnv, StartParam, set_working, init_start_wifi, reconnect_sta, init_network, init,
  or_not_working, start, finish_task,
}

-- The bits IS_WORKING and STA_ACTIVE are the same in both states.
abbrev Keeps : World → World → Type 0
Keeps w u = (u.bits.is_working ≡ w.bits.is_working) × (u.bits.sta_active ≡ w.bits.sta_active)

if_holds : {A : Type 0} (P : A → Type 0) (b : Bool) (x y : A) → P x → P y → P (if b then x else y)
if_holds P true x y hx hy = hx
if_holds P false x y hx hy = hy

msg_send-Keeps : (env : Env) (m : QueueMessage) (w : World) → Keeps w (msg_send env m w).0
unfolding msg_send
msg_send-Keeps env m w =
    if_holds (λ (r : World × Bool). Keeps w r.0) w.queue_ready _ _
      (if_holds (λ (r : World × Bool). Keeps w r.0) env.queue_send_ok _ _ (refl, refl) (refl, refl))
      (refl, refl)

reconnect_sta-Keeps : (env : Env) (w : World) → Keeps w (reconnect_sta env w)
unfolding reconnect_sta msg_send_cmd_connect_sta
reconnect_sta-Keeps env w =
    if_holds (Keeps w) (is_empty w.sta_config.ssid) _ _ (refl, refl)
      (msg_send-Keeps env _ (with_bits (record w.bits { cmd_sta_connect = true }) w))

init_start_wifi-Keeps : (ok : Bool) (w : World) → Keeps w (init_start_wifi ok w)
unfolding init_start_wifi
init_start_wifi-Keeps true w = (refl, refl)
init_start_wifi-Keeps false w = (refl, refl)

connect_or_not-Keeps :
    (env : Env) (connect : Bool) (w u : World)
    → Keeps w u
    → Keeps w (
        if connect
        then reconnect_sta env (with_bits (record u.bits { initial_connection = true }) u)
        else u)
connect_or_not-Keeps env true w u h =
    let k = reconnect_sta-Keeps env (with_bits (record u.bits { initial_connection = true }) u) in
    (k.0 ∙ h.0, k.1 ∙ h.1)
connect_or_not-Keeps env false w u h = h

init_network-Keeps :
    (env : Env) (se : StartEnv) (param : StartParam) (w : World)
    → Keeps w (init_network env se param w).0
unfolding init_network
init_network-Keeps env se param w =
    if_holds (λ (r : World × Bool). Keeps w r.0) (not se.event_loop_ok) _ _ (refl, refl)
      (if_holds (λ (r : World × Bool). Keeps w r.0) (not se.netif_ap_ok) _ _ (refl, refl)
        (if_holds (λ (r : World × Bool). Keeps w r.0) (not se.netif_sta_ok) _ _ (refl, refl)
          (connect_or_not-Keeps env param.flag_connect_sta w (init_start_wifi se.queue_create_ok w)
            (init_start_wifi-Keeps se.queue_create_ok w))))

succeeds_only_else :
    (b : Bool) (w : World) (r : World × Bool)
    → r.0.bits.is_working ≡ true
    → (if b then (w, false) else r).1 ≡ true
    → (if b then (w, false) else r).0.bits.is_working ≡ true
succeeds_only_else true w r k h = cc
succeeds_only_else false w r k h = k

init_is_working :
    (env : Env) (se : StartEnv) (param : StartParam) (w : World)
    → (init env se param w).1 ≡ true
    → (init env se param w).0.bits.is_working ≡ true
unfolding init sta_ip_reset sta_ip_set
init_is_working env se param w h =
    succeeds_only_else w.bits.is_working w _ (init_network-Keeps env se param _).0 h

init_sta_active :
    (env : Env) (se : StartEnv) (param : StartParam) (w : World)
    → (init env se param w).0.bits.sta_active ≡ w.bits.sta_active
unfolding init sta_ip_reset sta_ip_set
init_sta_active env se param w =
    if_holds (λ (r : World × Bool). r.0.bits.sta_active ≡ w.bits.sta_active) w.bits.is_working _ _
      refl (init_network-Keeps env se param _).1

or_not_working_lem :
    (env : Env) (r : World × Bool)
    → ((r.1 ≡ true) → r.0.bits.is_working ≡ true)
    → ((or_not_working env r).0.bits.is_working ≡ (or_not_working env r).1)
      × ((or_not_working env r).0.bits.sta_active ≡ r.0.bits.sta_active)
or_not_working_lem env (w, true) h = (h refl, refl)
or_not_working_lem env (w, false) h = (refl, refl)

-- After `wifi_manager_start` the bit IS_WORKING is set exactly if the start succeeded, whichever
-- call of the system failed and whatever the state was before.
pub start_is_working :
    (env : Env) (se : StartEnv) (param : StartParam) (w : World)
    → (start env se param w).0.bits.is_working ≡ (start env se param w).1
unfolding start
start_is_working env se param w =
    if_holds (λ (r : World × Bool). r.0.bits.is_working ≡ r.1) (not se.ecdh_init_ok) _ _ refl
      (or_not_working_lem env (init env se param w) (init_is_working env se param w)).0

if_true : {A : Type 0} (b : Bool) (x y : A) → b ≡ true → (if b then x else y) ≡ x
if_true true x y h = refl
if_true false x y h = cc

init_while_working :
    (env : Env) (se : StartEnv) (param : StartParam) (w : World)
    → w.bits.is_working ≡ true
    → init env se param w ≡ (w, false)
unfolding init
init_while_working env se param w h = if_true w.bits.is_working _ _ h

-- A start while the manager is working fails, and does nothing but clear the bit IS_WORKING.
pub start_while_working :
    (env : Env) (se : StartEnv) (param : StartParam) (w : World)
    → w.bits.is_working ≡ true
    → start env se param w ≡ (set_working false w, false)
unfolding start
start_while_working env se param w h =
    if_holds (λ (r : World × Bool). r ≡ (set_working false w, false)) (not se.ecdh_init_ok) _ _ refl
      (ap (or_not_working env) (init_while_working env se param w h))

start_sta_active :
    (env : Env) (se : StartEnv) (param : StartParam) (w : World)
    → (start env se param w).0.bits.sta_active ≡ w.bits.sta_active
unfolding start
start_sta_active env se param w =
    if_holds (λ (r : World × Bool). r.0.bits.sta_active ≡ w.bits.sta_active) (not se.ecdh_init_ok) _
      _ refl
      ((or_not_working_lem env (init env se param w) (init_is_working env se param w)).1
        ∙ init_sta_active env se param w)

connect_active :
    (env : Env) (w : World) (val : ℕ)
    → w.bits.sta_active ≡ true
    → (handle_cmd_connect_sta env val w).log ≡ (msg_send_code env order_disconnect_sta w).0.log
unfolding handle_cmd_connect_sta
connect_active env w val h = ground arith

-- The end of the task leaves the station marked as active if it was. A connect order that is
-- handled after the next start then asks for a disconnect, and calls neither
-- `esp_wifi_set_config` nor `esp_wifi_connect`.
pub stop_then_connect :
    (env env' : Env) (se : StartEnv) (param : StartParam) (w : World) (val : ℕ)
    → w.bits.sta_active ≡ true
    → (handle_cmd_connect_sta env' val (start env se param (finish_task w)).0).log
      ≡ (msg_send_code env' order_disconnect_sta (start env se param (finish_task w)).0).0.log
unfolding finish_task
stop_then_connect env env' se param w val h =
    connect_active env' (start env se param (finish_task w)).0 val
      (start_sta_active env se param (finish_task w) ∙ h)
