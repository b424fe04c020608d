-- ===== src/HttpServer/Lifecycle.antt =====
-- How a task of the HTTP server ends, and what that means for the next one.
use esp32_wifi_manager.Common.{
  ℕ, ◌+◌, ◌≡◌, refl, ap, ◌∙◌, Bool, true, false, ◌||◌, ◌&&◌, List, [], ◌∷◌, Bool-cases, inl, inr,
  ◌==◌, arith,
}
use esp32_wifi_manager.Os.{OsSignal, IsOsSignal}
use esp32_wifi_manager.HttpServer.{
  Call, mutex_lock, mutex_unlock, netconn_listen, netconn_close, netconn_delete, timer_stop,
  timer_delete, wdt_delete, Task, TaskEnv, is_stop, conv_from_sig_num, handle_sig,
  handle_sig_events, sig_register_cur_thread, sig_unregister_cur_thread, task_loop, close_server,
  close_if_stopped, run_server, listen, task,
}

-- Whether the signal to stop is among the signals of a round, and of some round.
abbrev pub has_stop : List ℕ → Bool
has_stop [] = false
has_stop (n ∷ sigs) = (n == 0) || has_stop sigs

abbrev pub any_stop : List (List ℕ) → Bool
any_stop [] = false
any_stop (sigs ∷ rounds) = has_stop sigs || any_stop rounds

is_stop-conv : (n : ℕ) → is_stop (conv_from_sig_num n) ≡ (n == 0)
is_stop-conv n = ground arith

handle_sig_events-stop :
    (cb : Bool) (sigs : List ℕ) (log : List Call)
    → (handle_sig_events cb sigs log).1 ≡ has_stop sigs
unfolding handle_sig_events
handle_sig_events-stop cb [] log = refl
handle_sig_events-stop cb (n ∷ sigs) log = rw (is_stop-conv n) (
    ap (λ b. (n == 0) || b)
      (handle_sig_events-stop cb sigs (handle_sig cb (conv_from_sig_num n) log)))

or_right : (b c : Bool) → b ≡ false → (b || c) ≡ true → c ≡ true
or_right true c f h = cc
or_right false c f h = h

-- How often the server has begun to listen.
abbrev pub listens : List Call → ℕ
listens [] = 0
listens (netconn_listen ∷ log) = 1 + listens log
listens (_ ∷ log) = listens log

module _ {S : Type 0} (sig : OsSignal S) (laws : IsOsSignal S sig) where
  task_loop-stops :
      (cb : Bool) (rounds : List (List ℕ)) (t : Task S)
      → any_stop rounds ≡ true
      → (task_loop sig cb rounds t).1 ≡ true
  unfolding task_loop
  task_loop-stops cb [] t h = cc
  task_loop-stops cb (sigs ∷ rounds) t h = elim (Bool-cases (has_stop sigs)) [
    | inl now ↦ rw (handle_sig_events-stop cb sigs t.log, now) refl
    | inr later ↦
        rw (handle_sig_events-stop cb sigs t.log, later)
          (task_loop-stops cb rounds _ (or_right (has_stop sigs) (any_stop rounds) later h))
  ]

  -- Tasks that are started one behind the other.
  abbrev pub run_tasks : List (TaskEnv × List (List ℕ)) → Task S → Task S
  run_tasks [] t = t
  run_tasks (r ∷ rest) t = run_tasks rest (task sig r.0 r.1 t).0

  task-refused :
      (env : TaskEnv) (rounds : List (List ℕ)) (t : Task S)
      → sig.is_any_thread_registered t.os ≡ true
      → task sig env rounds t ≡ (record t { log = mutex_unlock ∷ mutex_lock ∷ t.log }, true)
  unfolding task sig_register_cur_thread
  task-refused env rounds t taken = rw (laws.refuses t.os taken) refl

  run_tasks-refused :
      (l : List (TaskEnv × List (List ℕ))) (t : Task S)
      → sig.is_any_thread_registered t.os ≡ true
      → listens (run_tasks l t).log ≡ listens t.log
  run_tasks-refused [] t taken = refl
  run_tasks-refused (r ∷ rest) t taken =
      ap (λ x. listens (run_tasks rest x.0).log) (task-refused r.0 r.1 t taken)
      ∙ (run_tasks-refused rest (record t { log = mutex_unlock ∷ mutex_lock ∷ t.log }) taken)

  failed_listen :
      (env : TaskEnv) (rounds : List (List ℕ)) (t : Task S)
      → (env.conn_ok && env.listen_ok) ≡ false
      → (listen sig env rounds t).0.os ≡ t.os
  unfolding listen
  failed_listen env rounds t h = elim (Bool-cases env.conn_ok) [
    | inr no_conn ↦ rw no_conn refl
    | inl conn ↦ elim (Bool-cases env.listen_ok) [
      | inr no_listen ↦ rw (conn, no_listen) refl
      | inl both ↦ cc
    ]
  ]

  -- If the first task cannot make its connection, or cannot listen on it, the server is lost until a
  -- restart: the task ends without giving its registration back, and no later task, whatever its
  -- calls return, ever listens. That is with signals that keep what they promise.
  pub failed_listen_is_final :
      (env : TaskEnv) (rounds : List (List ℕ)) (t : Task S) (l : List (TaskEnv × List (List ℕ)))
      → sig.is_any_thread_registered t.os ≡ false
      → (env.conn_ok && env.listen_ok) ≡ false
      → listens (run_tasks l (task sig env rounds t).0).log ≡ listens (task sig env rounds t).0.log
  unfolding task sig_register_cur_thread
  failed_listen_is_final env rounds t l free h =
      let r = laws.registers t.os free in
      run_tasks-refused l (task sig env rounds t).0 (
        rw r.0 (
          rw
            (failed_listen env rounds
              (record {
                os = (sig.register_cur_thread t.os).0;
                log = mutex_unlock ∷ mutex_lock ∷ t.log;
              })
              h)
            r.1))

  -- The end of a task: it has stopped, no thread is registered, and its last calls have stopped the
  -- timer, closed and deleted the connection.
  abbrev pub IsClosed : Task S × Bool → Type 0
  IsClosed r =
      (r.1 ≡ true)
      × (sig.is_any_thread_registered r.0.os ≡ false)
      × ((before : List Call) × (r.0.log
            ≡ mutex_unlock ∷ mutex_lock ∷ netconn_delete ∷ netconn_close ∷ timer_delete ∷ timer_stop
              ∷ wdt_delete ∷ before))

  close_if_stopped-IsClosed : (r : Task S × Bool) → r.1 ≡ true → IsClosed (close_if_stopped sig r)
  unfolding close_server sig_unregister_cur_thread
  close_if_stopped-IsClosed (t, true) h = (refl, laws.unregisters t.os, (t.log, refl))
  close_if_stopped-IsClosed (t, false) h = cc

  run_server-IsClosed :
      (env : TaskEnv) (rounds : List (List ℕ)) (t : Task S)
      → any_stop rounds ≡ true
      → IsClosed (run_server sig env rounds t)
  unfolding run_server
  run_server-IsClosed env rounds t stop =
      close_if_stopped-IsClosed _ (task_loop-stops env.has_callback rounds _ stop)

  listen-IsClosed :
      (env : TaskEnv) (rounds : List (List ℕ)) (t : Task S)
      → env.conn_ok ≡ true
      → env.listen_ok ≡ true
      → any_stop rounds ≡ true
      → IsClosed (listen sig env rounds t)
  unfolding listen
  listen-IsClosed env rounds t conn lis stop =
      rw (conn, lis) (run_server-IsClosed env rounds _ stop)

  -- A task that can listen ends once the signal to stop has come in one of its rounds, among whatever
  -- signals: its last calls stop the timer, close and delete the connection, and no thread is
  -- registered any more. That is with signals that keep what they promise.
  pub stop_frees_server :
      (env : TaskEnv) (rounds : List (List ℕ)) (t : Task S)
      → sig.is_any_thread_registered t.os ≡ false
      → env.conn_ok ≡ true
      → env.listen_ok ≡ true
      → any_stop rounds ≡ true
      → IsClosed (task sig env rounds t)
  unfolding task sig_register_cur_thread
  stop_frees_server env rounds t free conn lis stop =
      rw ((laws.registers t.os free).0) (listen-IsClosed env rounds _ conn lis stop)
