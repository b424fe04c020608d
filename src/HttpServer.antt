-- ===== src/HttpServer.antt =====
-- The task of the HTTP server (src/http_server.c): its start and stop, its signals, and its loop.
--
-- Each call out of the file is a `Call` in `log`, the newest first; what a call returns is a field of
-- `TaskEnv` or of a round. The semaphore that the writes wait for and the log are not in the model.
pub mod Lifecycle
use esp32_wifi_manager.Common.{
  ℕ, ◌*◌, ◌/◌, Bool, true, false, ◌||◌, Option, none, some, List, [], ◌∷◌, ltb, ◌==◌, if◌then◌else◌,
}
use esp32_wifi_manager.Os.{OsSignal}

-- http_server_sig_e
pub data Sig : Type 0 where
  sig_stop sig_task_watchdog_feed sig_user_req_1 sig_user_req_2 : Sig

-- http_server_conv_to_sig_num
abbrev pub conv_to_sig_num : Sig → ℕ
conv_to_sig_num sig_stop = 0
conv_to_sig_num sig_task_watchdog_feed = 1
conv_to_sig_num sig_user_req_1 = 2
conv_to_sig_num sig_user_req_2 = 3

-- http_server_conv_from_sig_num; another number fails its assertion.
abbrev pub conv_from_sig_num : ℕ → Option Sig
conv_from_sig_num n =
    if n == 0
    then some sig_stop
    else if n == 1
    then some sig_task_watchdog_feed
    else if n == 2
    then some sig_user_req_1
    else if n == 3
    then some sig_user_req_2
    else none

-- http_server_user_req_code_e
pub data UserReqCode : Type 0 where
  req_code_1 req_code_2 : UserReqCode

pub data Call : Type 0 where
  mutex_lock mutex_unlock task_create : Call
  signal_send : ℕ → Call
  netconn_new netconn_bind netconn_listen netconn_set_recvtimeout : Call
  timer_create : ℕ → Call
  wdt_add timer_start wdt_reset wdt_delete timer_stop timer_delete : Call
  user_req_callback : UserReqCode → Call
  accept_and_handle_conn netconn_close netconn_delete : Call

-- The state of the signals, and the calls.
pub record Task (S : Type 0) : Type 0 where
  pub os : S
  pub log : List Call

-- What the calls of http_server_task return, and whether the application has a callback for requests
-- of a user; `wdt_timeout_s` is CONFIG_ESP_TASK_WDT_TIMEOUT_S, if a watchdog is configured.
pub record TaskEnv : Type 0 where
  pub conn_ok : Bool
  pub listen_ok : Bool
  pub has_callback : Bool
  pub wdt_timeout_s : Option ℕ

-- http_server_get_task_wdog_feed_period_ms
abbrev pub wdog_feed_period_ms : Option ℕ → ℕ
wdog_feed_period_ms none = 1000
wdog_feed_period_ms (some timeout_s) =
    let period = timeout_s * 1000 / 3 in if ltb 1000 period then 1000 else period

-- wifi_manager_cb_on_user_req
abbrev pub cb_on_user_req : Bool → UserReqCode → List Call → List Call
cb_on_user_req true code log = user_req_callback code ∷ log
cb_on_user_req false code log = log

-- One signal of the switch in http_server_handle_sig_events.
abbrev pub handle_sig : Bool → Option Sig → List Call → List Call
handle_sig cb none log = log
handle_sig cb (some sig_stop) log = log
handle_sig cb (some sig_task_watchdog_feed) log = wdt_reset ∷ log
handle_sig cb (some sig_user_req_1) log = cb_on_user_req cb req_code_1 log
handle_sig cb (some sig_user_req_2) log = cb_on_user_req cb req_code_2 log

abbrev pub is_stop : Option Sig → Bool
is_stop (some sig_stop) = true
is_stop _ = false

-- http_server_handle_sig_events: all the signals are handled, also behind the one to stop.
unfoldable pub handle_sig_events : Bool → List ℕ → List Call → List Call × Bool
handle_sig_events cb [] log = (log, false)
handle_sig_events cb (n ∷ sigs) log =
    let more = handle_sig_events cb sigs (handle_sig cb (conv_from_sig_num n) log) in
    (more.0, is_stop (conv_from_sig_num n) || more.1)

module _ {S : Type 0} (sig : OsSignal S) where
  abbrev pub call : Call → Task S → Task S
  call c t = record t { log = c ∷ t.log }

  -- http_server_start: with a server that works the mutex is given back twice, and a task is
  -- created all the same.
  unfoldable pub start : Task S → Task S
  start t =
      let locked = call mutex_lock t in
      call task_create (
        call mutex_unlock
          (if sig.is_any_thread_registered t.os then call mutex_unlock locked else locked))

  -- A signal is sent only while a thread is registered.
  unfoldable pub send_if_working : Sig → Task S → Task S
  send_if_working n t =
      let locked = call mutex_lock t in
      call mutex_unlock (
        if sig.is_any_thread_registered t.os
        then call (signal_send (conv_to_sig_num n)) locked
        else locked)

  -- http_server_stop
  unfoldable pub stop : Task S → Task S
  unfolding send_if_working
  stop t = send_if_working sig_stop t

  abbrev pub sig_of_req : UserReqCode → Sig
  sig_of_req req_code_1 = sig_user_req_1
  sig_of_req req_code_2 = sig_user_req_2

  -- http_server_user_req
  unfoldable pub user_req : UserReqCode → Task S → Task S
  unfolding send_if_working
  user_req code t = send_if_working (sig_of_req code) t

  -- http_server_sig_register_cur_thread
  unfoldable pub sig_register_cur_thread : Task S → Task S × Bool
  sig_register_cur_thread t =
      let r = sig.register_cur_thread t.os in
      (record { os = r.0; log = mutex_unlock ∷ mutex_lock ∷ t.log }, r.1)

  -- http_server_sig_unregister_cur_thread
  unfoldable pub sig_unregister_cur_thread : Task S → Task S
  sig_unregister_cur_thread t = record {
    os = sig.unregister_cur_thread t.os;
    log = mutex_unlock ∷ mutex_lock ∷ t.log;
  }

  -- The loop of http_server_task, over the signals that have come before each round: the state, and
  -- whether it has stopped.
  unfoldable pub task_loop : Bool → List (List ℕ) → Task S → Task S × Bool
  unfolding handle_sig_events
  task_loop cb [] t = (t, false)
  task_loop cb (sigs ∷ rounds) t =
      let r = handle_sig_events cb sigs t.log in
      let more = task_loop cb rounds (record t { log = accept_and_handle_conn ∷ r.0 }) in
      if r.1 then (record t { log = r.0 }, true) else more

  -- What follows the loop.
  unfoldable pub close_server : Task S → Task S
  unfolding sig_unregister_cur_thread
  close_server t = sig_unregister_cur_thread (record t {
    log = netconn_delete ∷ netconn_close ∷ timer_delete ∷ timer_stop ∷ wdt_delete ∷ t.log;
  })

  abbrev pub close_if_stopped : Task S × Bool → Task S × Bool
  close_if_stopped (t, true) = (close_server t, true)
  close_if_stopped (t, false) = (t, false)

  -- From the start of listening on: the timer of the watchdog, and the loop.
  unfoldable pub run_server : TaskEnv → List (List ℕ) → Task S → Task S × Bool
  unfolding task_loop close_server
  run_server env rounds t = close_if_stopped (
      task_loop env.has_callback rounds (record t {
        log =
            timer_start
            ∷ wdt_add
            ∷ timer_create (wdog_feed_period_ms env.wdt_timeout_s)
            ∷ netconn_set_recvtimeout
            ∷ t.log;
      }))

  -- Behind the registration: a connection that cannot be made, or on which the server cannot listen,
  -- ends the task as it is.
  unfoldable pub listen : TaskEnv → List (List ℕ) → Task S → Task S × Bool
  unfolding run_server
  listen env rounds t =
      let made = record t { log = netconn_new ∷ t.log } in
      let listening = record t { log = netconn_listen ∷ netconn_bind ∷ netconn_new ∷ t.log } in
      if env.conn_ok
      then (if env.listen_ok then run_server env rounds listening else (listening, true))
      else (made, true)

  abbrev pub listen_if : TaskEnv → List (List ℕ) → Task S × Bool → Task S × Bool
  listen_if env rounds (t, true) = listen env rounds t
  listen_if env rounds (t, false) = (t, true)

  -- http_server_task: the state, and whether it has ended.
  unfoldable pub task : TaskEnv → List (List ℕ) → Task S → Task S × Bool
  unfolding sig_register_cur_thread listen
  task env rounds t = listen_if env rounds (sig_register_cur_thread t)
