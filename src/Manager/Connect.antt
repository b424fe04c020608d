-- ===== src/Manager/Connect.antt =====
-- Sequences of rounds that connect the station: a switch of networks, and a first connection.
use esp32_wifi_manager.Common.{
  ℕ, suc, ◌≡◌, ap, refl, Bool-cases, inl, inr, ◌∙◌, true, false, List, [], ◌∷◌, arith,
}
use esp32_wifi_manager.NetworkInfo.{user_disconnect, failed_attempt}
use esp32_wifi_manager.Manager.{
  World, Env, Action, QueueMessage, wifi_connect, wifi_disconnect, queue_send,
  on_disconnect_sta_cmd, order_connect_sta, order_disconnect_sta,
}
use esp32_wifi_manager.Manager.Station.{
  handle_cmd_connect_sta, handle_cmd_disconnect_sta, handle_ev_sta_disconnected,
}

-- How often esp_wifi_connect is called.
abbrev pub connects : List Action → ℕ
connects [] = 0
connects (wifi_connect ∷ rest) = suc (connects rest)
connects (_ ∷ rest) = connects rest

-- The messages that are sent and the calls of the driver that connect and disconnect, the newest
-- first.
abbrev pub orders : List Action → List Action
orders [] = []
orders (queue_send m ∷ rest) = queue_send m ∷ orders rest
orders (wifi_connect ∷ rest) = wifi_connect ∷ orders rest
orders (wifi_disconnect ∷ rest) = wifi_disconnect ∷ orders rest
orders (_ ∷ rest) = orders rest

-- A request of the user, whose code is 1.
abbrev pub user_code : ℕ
user_code = 1

abbrev pub connect_message : QueueMessage
connect_message = record { code = order_connect_sta; val = user_code }

abbrev pub disconnect_message : QueueMessage
disconnect_message = record { code = order_disconnect_sta; val = 0 }

module _ (env : Env) (w : World) where
  -- The user asks for a network while the station is active.
  unfoldable pub after_request : World
  after_request = handle_cmd_connect_sta env user_code w

  -- The order to disconnect that this sends.
  unfoldable pub after_order : World
  after_order = handle_cmd_disconnect_sta env after_request

  -- The driver's event comes first, then the order to connect.
  unfoldable pub after_event : ℕ → World
  after_event reason = (handle_ev_sta_disconnected env reason after_order).0

  unfoldable pub after_switch : ℕ → World
  after_switch reason = handle_cmd_connect_sta env user_code (after_event reason)

  -- The order to connect comes first, then the driver's event.
  unfoldable pub after_late_event : ℕ → World
  after_late_event reason =
      (handle_ev_sta_disconnected env reason (handle_cmd_connect_sta env user_code after_order)).0

-- The user's request at an active station.
request_active :
    (env : Env) (w : World)
    → w.bits.sta_active ≡ true
    → w.queue_ready ≡ true
    → env.queue_send_ok ≡ true
    → let after = handle_cmd_connect_sta env user_code w in
      (after.bits.request_sta_connect ≡ true)
      × (after.bits.request_restore_sta ≡ true)
      × (after.queue_ready ≡ true)
      × (after.log ≡ queue_send disconnect_message ∷ w.log)
unfolding handle_cmd_connect_sta
request_active env w active ready sends = rw (active, ready, sends) (refl, refl, refl, refl)

-- The order to disconnect, with the request of the user pending.
order_pending :
    (env : Env) (w : World)
    → w.bits.request_sta_connect ≡ true
    → w.bits.request_restore_sta ≡ true
    → w.queue_ready ≡ true
    → env.queue_send_ok ≡ true
    → let after = handle_cmd_disconnect_sta env w in
      (after.bits.sta_active ≡ false)
      × (after.bits.request_sta_connect ≡ true)
      × (after.bits.request_restore_sta ≡ true)
      × (after.bits.cmd_sta_connect ≡ true)
      × (orders after.log ≡ queue_send connect_message ∷ wifi_disconnect ∷ orders w.log)
      × (connects after.log ≡ connects w.log)
unfolding handle_cmd_disconnect_sta
order_pending env w request restore ready sends =
    elim (Bool-cases (w.callbacks on_disconnect_sta_cmd)) [
      | inl e ↦ rw (e, request, restore, ready, sends) (refl, refl, refl, refl, refl, refl)
      | inr e ↦ rw (e, request, restore, ready, sends) (refl, refl, refl, refl, refl, refl)
    ]

module _ (env : Env) (w : World) (active : w.bits.sta_active ≡ true) (ready : w.queue_ready ≡ true)
    (sends : env.queue_send_ok ≡ true) where
  after_order_lem :
      ((after_order env w).bits.sta_active ≡ false)
      × ((after_order env w).bits.request_sta_connect ≡ true)
      × ((after_order env w).bits.request_restore_sta ≡ true)
      × ((after_order env w).bits.cmd_sta_connect ≡ true)
      × (orders (after_order env w).log
          ≡ queue_send connect_message
            ∷ wifi_disconnect
            ∷ queue_send disconnect_message
            ∷ orders w.log)
      × (connects (after_order env w).log ≡ connects w.log)
  unfolding after_order after_request
  after_order_lem =
      let (request, restore, ready', log) = request_active env w active ready sends in
      let (inactive, request', restore', cmd, msgs, calls) =
        order_pending env (after_request env w) request restore ready' sends in
      (
        inactive,
        request',
        restore',
        cmd,
        msgs ∙ ap (λ l. queue_send connect_message ∷ wifi_disconnect ∷ orders l) log,
        calls ∙ ap connects log,
      )

-- The event of a disconnection that the user waits for, with the order to connect on its way.
expected_event :
    (env : Env) (w : World) (reason : ℕ)
    → w.bits.request_sta_connect ≡ true
    → w.bits.request_restore_sta ≡ true
    → w.bits.cmd_sta_connect ≡ true
    → let after = (handle_ev_sta_disconnected env reason w).0 in
      (after.network_info.update_reason_code ≡ user_disconnect)
      × (after.bits.sta_active ≡ false)
      × (after.log ≡ w.log)
unfolding handle_ev_sta_disconnected
expected_event env w reason a b c = ground arith

-- The order of the user at an inactive station.
connect_inactive :
    (env : Env) (w : World)
    → w.bits.sta_active ≡ false
    → env.set_config_ok ≡ true
    → let after = handle_cmd_connect_sta env user_code w in
      (orders after.log ≡ wifi_connect ∷ orders w.log)
      × (connects after.log ≡ suc (connects w.log))
      × (after.bits.sta_active ≡ true)
      × (after.bits.request_sta_connect ≡ true)
      × (after.bits.request_restore_sta ≡ false)
      × (after.bits.cmd_sta_connect ≡ false)
unfolding handle_cmd_connect_sta
connect_inactive env w h k = ground arith

-- An event that finds the user's request, and no restored connection.
unexpected_event :
    (env : Env) (w : World) (reason : ℕ)
    → w.bits.request_sta_connect ≡ true
    → w.bits.request_restore_sta ≡ false
    → let after = (handle_ev_sta_disconnected env reason w).0 in
      (after.network_info.update_reason_code ≡ failed_attempt)
      × (after.bits.request_sta_connect ≡ false)
      × (after.bits.sta_active ≡ false)
      × (after.log ≡ w.log)
unfolding handle_ev_sta_disconnected
unexpected_event env w reason a b = ground arith

module _ (env : Env) (w : World) (reason : ℕ) (active : w.bits.sta_active ≡ true)
    (ready : w.queue_ready ≡ true) (sends : env.queue_send_ok ≡ true)
    (takes : env.set_config_ok ≡ true) where
  -- The user of an active station asks for a network. If the driver's event of the disconnection is
  -- handled between the two orders that follow, what is done is, in this order: the order to
  -- disconnect is sent, the driver is told to disconnect, one order to connect is sent, and the
  -- driver is told to connect; nothing else is sent and no other connection made or taken down. The
  -- disconnection is reported as the user's, and at the end the station is active and the request of
  -- the user is still pending. This is for a queue that takes the messages and a configuration that
  -- the driver takes.
  pub switch_network :
      let w3 = after_event env w reason in
      let w4 = after_switch env w reason in
      (w3.network_info.update_reason_code ≡ user_disconnect)
      × (orders w4.log
          ≡ wifi_connect
            ∷ queue_send connect_message
            ∷ wifi_disconnect
            ∷ queue_send disconnect_message
            ∷ orders w.log)
      × (w4.bits.sta_active ≡ true)
      × (w4.bits.request_sta_connect ≡ true)
      × (w4.bits.request_restore_sta ≡ false)
  unfolding after_switch after_event
  switch_network =
      let (inactive, request, restore, cmd, msgs, calls) =
        after_order_lem env w active ready sends in
      let (why, inactive', log) =
        expected_event env (after_order env w) reason request restore cmd in
      let (msgs', calls', on, request', restore', _) =
        connect_inactive env (after_event env w reason) inactive' takes in
      (
        why,
        msgs' ∙ ap (λ l. wifi_connect ∷ orders l) log ∙ ap (λ l. wifi_connect ∷ l) msgs,
        on,
        request',
        restore',
      )

  -- In the other order, where the driver's event is handled behind the order to connect, the
  -- connection that has just been asked of the driver is reported as failed, the request of the
  -- user is cleared, and the station is taken for inactive.
  pub switch_network_late_event :
      let w4 = after_late_event env w reason in
      (connects w4.log ≡ suc (connects w.log))
      × (w4.network_info.update_reason_code ≡ failed_attempt)
      × (w4.bits.request_sta_connect ≡ false)
      × (w4.bits.sta_active ≡ false)
  unfolding after_late_event
  switch_network_late_event =
      let (inactive, request, restore, cmd, msgs, calls) =
        after_order_lem env w active ready sends in
      let w3 = handle_cmd_connect_sta env user_code (after_order env w) in
      let (msgs', calls', on, request', restore', _) =
        connect_inactive env (after_order env w) inactive takes in
      let (why, cleared, off, log) = unexpected_event env w3 reason request' restore' in
      (ap connects log ∙ calls' ∙ ap suc calls, why, cleared, off)
