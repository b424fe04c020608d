-- ===== src/Dns/Released.antt =====
-- The task of the DNS server gives back what it has taken (src/dns_server.c).
use esp32_wifi_manager.Common.{
  ℕ, ◌+◌, ◌≡◌, refl, Bool, true, false, List, [], ◌∷◌, Bytes, Bool-cases, inl, inr, arith,
}
use esp32_wifi_manager.Os.{OsSignal, IsOsSignal}
use esp32_wifi_manager.Dns.{task_loop}
use esp32_wifi_manager.Dns.Task.{
  Call, send_to, socket_open, socket_close, buf_alloc, buf_free, timer_create, wdt_add, timer_start,
  Task, TaskEnv, Input, rounds_of, sends, sig_register_cur_thread, sig_unregister_cur_thread,
  give_up, finish_if, run_server, open_socket, task,
}

-- What is opened and what is given back.
abbrev pub is_open : Call → ℕ
is_open socket_open = 1
is_open _ = 0

abbrev pub is_close : Call → ℕ
is_close socket_close = 1
is_close _ = 0

abbrev pub is_alloc : Call → ℕ
is_alloc buf_alloc = 1
is_alloc _ = 0

abbrev pub is_free : Call → ℕ
is_free buf_free = 1
is_free _ = 0

abbrev pub count : (Call → ℕ) → List Call → ℕ
count p [] = 0
count p (c ∷ log) = p c + count p log

-- A log in which as much is given back as taken.
abbrev pub IsBalanced : List Call → Type 0
IsBalanced log = (count is_open log ≡ count is_close log) × (count is_alloc log ≡ count is_free log)

count-sends :
    (p : Call → ℕ) (l : List Bytes) (log : List Call)
    → ((b : Bytes) → p (send_to b) ≡ 0)
    → count p (sends l log) ≡ count p log
count-sends p [] log h = refl
count-sends p (b ∷ l) log h = omega (arith, count-sends p l (send_to b ∷ log) h, h b)

module _ {S : Type 0} (sig : OsSignal S) (laws : IsOsSignal S sig) where
  -- No thread is registered, and all is given back.
  abbrev pub IsReleased : Task S → Type 0
  IsReleased t = (sig.is_any_thread_registered t.os ≡ false) × IsBalanced t.log

  abbrev ReleasedIfEnded : Task S × Bool → Type 0
  ReleasedIfEnded r = r.1 ≡ true → IsReleased r.0

  finish_if-ReleasedIfEnded :
      (b : Bool) (l : List Bytes) (t : Task S)
      → IsBalanced t.log
      → ReleasedIfEnded (
          finish_if sig b (record t {
            log = sends l (timer_start ∷ wdt_add ∷ timer_create ∷ buf_alloc ∷ socket_open ∷ t.log);
          }))
  unfolding sig_unregister_cur_thread
  finish_if-ReleasedIfEnded false l t bal h = cc
  finish_if-ReleasedIfEnded true l t bal h =
      let log = timer_start ∷ wdt_add ∷ timer_create ∷ buf_alloc ∷ socket_open ∷ t.log in
      let o = count-sends is_open l log (λ _. refl) in
      let c = count-sends is_close l log (λ _. refl) in
      let a = count-sends is_alloc l log (λ _. refl) in
      let f = count-sends is_free l log (λ _. refl) in
      (laws.unregisters t.os, (omega (arith, o, c, bal.0), omega (arith, a, f, bal.1)))

  give_up-IsReleased :
      (t : Task S)
      → IsBalanced t.log
      → IsReleased (give_up sig (record t { log = socket_open ∷ t.log }))
  unfolding sig_unregister_cur_thread
  give_up-IsReleased t bal = (laws.unregisters t.os, (omega (arith, bal.0), omega (arith, bal.1)))

  unregister-IsReleased :
      (t : Task S) → IsBalanced t.log → IsReleased (sig_unregister_cur_thread sig t)
  unfolding sig_unregister_cur_thread
  unregister-IsReleased t bal =
      (laws.unregisters t.os, (omega (arith, bal.0), omega (arith, bal.1)))

  open_socket-ReleasedIfEnded :
      (env : TaskEnv) (inputs : List Input) (t : Task S)
      → IsBalanced t.log
      → ReleasedIfEnded (open_socket sig env inputs t)
  unfolding open_socket run_server
  open_socket-ReleasedIfEnded env inputs t bal = elim (Bool-cases env.socket_ok) [
    | inr bad ↦ rw bad (λ _. unregister-IsReleased t bal)
    | inl so ↦ elim (Bool-cases env.timeout_ok) [
      | inr bad ↦ rw (so, bad) (λ _. give_up-IsReleased t bal)
      | inl to ↦ elim (Bool-cases env.bind_ok) [
        | inr bad ↦ rw (so, to, bad) (λ _. give_up-IsReleased t bal)
        | inl bi ↦ elim (Bool-cases env.mem_ok) [
          | inr bad ↦ rw (so, to, bi, bad) (λ _. give_up-IsReleased t bal)
          | inl me ↦
              let r = task_loop env.ip_resolved (rounds_of inputs) in
              rw (so, to, bi, me) (finish_if-ReleasedIfEnded r.1 r.0 t bal)
        ]
      ]
    ]
  ]

  -- Whichever of its steps fails, a task of the DNS server that ends has given back all that it took:
  -- the socket is closed as often as it was opened, the buffer freed as often as it was allocated, and
  -- no thread is registered, so that the next task can begin. That is with signals that keep what
  -- they promise, and for a task that is the only one.
  pub task-IsReleased :
      (env : TaskEnv) (inputs : List Input) (t : Task S)
      → sig.is_any_thread_registered t.os ≡ false
      → IsBalanced t.log
      → (task sig env inputs t).1 ≡ true
      → IsReleased (task sig env inputs t).0
  unfolding task sig_register_cur_thread
  task-IsReleased env inputs t free bal =
      rw ((laws.registers t.os free).0)
        (open_socket-ReleasedIfEnded env inputs _ (omega (arith, bal.0), omega (arith, bal.1)))
