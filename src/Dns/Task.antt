-- ===== src/Dns/Task.antt =====
-- The life of the DNS server (src/dns_server.c): its start and stop, its signals, and its task from
-- the registration to the end, with what each failure gives back.
use esp32_wifi_manager.Common.{
  ℕ, Bool, true, false, ◌||◌, Option, none, some, List, [], ◌∷◌, Bytes, ◌==◌, if◌then◌else◌,
}
use esp32_wifi_manager.Os.{OsSignal}
use esp32_wifi_manager.Dns.{Round, task_loop}

-- dns_server_sig_e
pub data Sig : Type 0 where
  sig_stop sig_task_watchdog_feed : Sig

-- dns_server_conv_to_sig_num
abbrev pub conv_to_sig_num : Sig → ℕ
conv_to_sig_num sig_stop = 0
conv_to_sig_num sig_task_watchdog_feed = 1

-- dns_server_conv_from_sig_num; another number fails its assertion.
abbrev pub conv_from_sig_num : ℕ → Option Sig
conv_from_sig_num n =
    if n == 0 then some sig_stop else if n == 1 then some sig_task_watchdog_feed else none

pub data Call : Type 0 where
  mutex_lock mutex_unlock task_create : Call
  signal_send : ℕ → Call
  socket_open socket_close buf_alloc buf_free : Call
  timer_create wdt_add timer_start wdt_reset wdt_delete timer_stop timer_delete : Call
  send_to : Bytes → Call

pub record Task (S : Type 0) : Type 0 where
  pub os : S
  pub log : List Call

-- What socket, setsockopt, bind, os_calloc and os_task_create give, and the address of the hotspot.
pub record TaskEnv : Type 0 where
  pub socket_ok : Bool
  pub timeout_ok : Bool
  pub bind_ok : Bool
  pub mem_ok : Bool
  pub ip_resolved : Bytes

-- dns_server_handle_sig: what it calls, and whether to stop
abbrev pub handle_sig : Option Sig → List Call × Bool
handle_sig (some sig_stop) = ([], true)
handle_sig (some sig_task_watchdog_feed) = (wdt_reset ∷ [], false)
handle_sig none = ([], false)

-- dns_server_handle_sig_events: whether to stop, once all signals are handled
unfoldable pub handle_sig_events : List ℕ → Bool
handle_sig_events [] = false
handle_sig_events (n ∷ sigs) = (handle_sig (conv_from_sig_num n)).1 || handle_sig_events sigs

-- The signals that have come before a round of the loop, and what it receives.
pub record Input : Type 0 where
  pub sigs : List ℕ
  pub received : Option Bytes

unfoldable pub rounds_of : List Input → List Round
unfolding handle_sig_events
rounds_of [] = []
rounds_of (i ∷ rest) =
    record { stop = handle_sig_events i.sigs; received = i.received } ∷ rounds_of rest

abbrev pub sends : List Bytes → List Call → List Call
sends [] log = log
sends (b ∷ rest) log = sends rest (send_to b ∷ log)

module _ {S : Type 0} (sig : OsSignal S) where
  -- dns_server_start: the task is created, and whether that succeeded
  unfoldable pub start : Bool → Task S → Task S × Bool
  start ok t = (record t { log = task_create ∷ t.log }, ok)

  -- dns_server_stop
  unfoldable pub stop : Task S → Task S
  stop t =
      if sig.is_any_thread_registered t.os
      then record t {
        log = mutex_unlock ∷ signal_send (conv_to_sig_num sig_stop) ∷ mutex_lock ∷ t.log;
      }
      else record t { log = mutex_unlock ∷ mutex_lock ∷ t.log }

  -- dns_server_sig_register_cur_thread
  unfoldable pub sig_register_cur_thread : Task S → Task S × Bool
  sig_register_cur_thread t =
      let r = sig.register_cur_thread t.os in
      (record { os = r.0; log = mutex_unlock ∷ mutex_lock ∷ t.log }, r.1)

  -- dns_server_sig_unregister_cur_thread
  unfoldable pub sig_unregister_cur_thread : Task S → Task S
  sig_unregister_cur_thread t = record {
    os = sig.unregister_cur_thread t.os;
    log = mutex_unlock ∷ mutex_lock ∷ t.log;
  }

  -- The end of a task that has a socket only.
  abbrev pub give_up : Task S → Task S
  give_up t = sig_unregister_cur_thread (record t { log = socket_close ∷ t.log })

  -- What follows the loop.
  abbrev pub finish : Task S → Task S
  finish t =
      sig_unregister_cur_thread (record t {
        log = socket_close ∷ timer_delete ∷ timer_stop ∷ wdt_delete ∷ buf_free ∷ t.log;
      })

  abbrev pub finish_if : Bool → Task S → Task S × Bool
  finish_if true t = (finish t, true)
  finish_if false t = (t, false)

  -- The timer of the watchdog, and the loop.
  unfoldable pub run_server : TaskEnv → List Input → Task S → Task S × Bool
  unfolding rounds_of task_loop sig_unregister_cur_thread
  run_server env inputs t =
      let r = task_loop env.ip_resolved (rounds_of inputs) in
      finish_if r.1
        (record t { log = sends r.0 (timer_start ∷ wdt_add ∷ timer_create ∷ buf_alloc ∷ t.log) })

  -- Behind the registration.
  unfoldable pub open_socket : TaskEnv → List Input → Task S → Task S × Bool
  unfolding run_server sig_unregister_cur_thread
  open_socket env inputs t =
      let opened = record t { log = socket_open ∷ t.log } in
      if env.socket_ok
      then (if env.timeout_ok
          then (if env.bind_ok
              then (if env.mem_ok then run_server env inputs opened else (give_up opened, true))
              else (give_up opened, true))
          else (give_up opened, true))
      else (sig_unregister_cur_thread t, true)

  abbrev pub open_if : TaskEnv → List Input → Task S × Bool → Task S × Bool
  open_if env inputs (t, true) = open_socket env inputs t
  open_if env inputs (t, false) = (t, true)

  -- dns_server_task: the state, and whether it has ended
  unfoldable pub task : TaskEnv → List Input → Task S → Task S × Bool
  unfolding sig_register_cur_thread open_socket
  task env inputs t = open_if env inputs (sig_register_cur_thread t)
