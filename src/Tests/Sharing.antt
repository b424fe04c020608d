-- ===== src/Tests/Sharing.antt =====
-- Runs of the theorems on threads that share a record, and the race of the first use.
use esp32_wifi_manager.Common.{
  ℕ, zero, suc, ◌+◌, ◌*◌, ◌≡◌, refl, arith, true, false, none, List, [], ◌∷◌,
}
use esp32_wifi_manager.Shared.{outside, check, Shared, moved, do_action_with_timeout}
use esp32_wifi_manager.Shared.Steps.{
  call, run, Steps, done, then_step, one_by_one, has_pointer, IsAtRest,
}
use esp32_wifi_manager.Shared.Turns.{Steps-one_pointer, Steps-one_by_one}

abbrev fresh : Shared ℕ
fresh = record { mutex_created = true; holder = none; value = 3; places = λ _. outside; turns = [] }

abbrev add_then_double : List (ℕ → ℕ)
add_then_double = (λ n. n + 1) ∷ (λ n. n * 2) ∷ []

at_rest : IsAtRest fresh
at_rest = record { created = refl; free = refl; nobody_inside = λ _. refl; no_turns = refl }

-- The next statement of a thread.
abbrev next : ℕ → Shared ℕ → Shared ℕ
next thread s = do_action_with_timeout thread false (s.places thread) s

abbrev next_with_mutex : ℕ → Shared ℕ → Shared ℕ
next_with_mutex thread s = do_action_with_timeout thread true (s.places thread) s

abbrev called : Shared ℕ
called = moved 1 (check add_then_double) fresh

-- The first thread has the mutex; the second calls too, and waits for it in vain.
abbrev locked : Shared ℕ
locked = next_with_mutex 1 (next 1 called)

abbrev both : Shared ℕ
both = moved 2 (check add_then_double) locked

abbrev in_vain : Shared ℕ
in_vain = next 2 (next 2 both)

-- Its callback gets NULL, and the first thread's callback runs.
abbrev over : Shared ℕ
over = next 1 (next 2 (next 2 (next 1 (next 2 (next 1 (next 2 (next 1 in_vain)))))))

run_one : {s t : Shared ℕ} (thread : ℕ) → Steps s t → Steps s (next thread t)
run_one {s} {t} thread steps = then_step s t (next thread t) steps (run thread false t (λ k. cc))

to_in_vain : Steps fresh in_vain
unfolding do_action_with_timeout
to_in_vain = run_one 2 (
    run_one 2 (
      then_step fresh locked both
        (then_step fresh (next 1 called) locked
          (run_one 1
            (then_step fresh fresh called (done fresh) (call 1 add_then_double fresh refl)))
          (run 1 true (next 1 called) (λ _. refl)))
        (call 2 add_then_double locked refl)))

to_over : Steps fresh over
to_over =
    run_one 1
      (run_one 2 (run_one 2 (run_one 1 (run_one 2 (run_one 1 (run_one 2 (run_one 1 to_in_vain)))))))

all_outside : (thread : ℕ) → over.places thread ≡ outside
unfolding do_action_with_timeout
all_outside zero = refl
all_outside (suc zero) = refl
all_outside (suc (suc zero)) = refl
all_outside (suc (suc (suc n))) = ground arith

Steps-one_by_one_example : (over.holder ≡ none) × (over.value ≡ one_by_one over.turns fresh.value)
Steps-one_by_one_example = Steps-one_by_one {A = ℕ} fresh over at_rest to_over all_outside

Steps-one_pointer_example : ◌≡◌ {A = ℕ} 1 1
unfolding do_action_with_timeout
Steps-one_pointer_example = Steps-one_pointer {A = ℕ} fresh in_vain 1 1 at_rest to_in_vain refl refl

-- Two threads that both find no mutex: each creates it, and both get the pointer.
abbrev no_mutex : Shared ℕ
no_mutex = record fresh { mutex_created = false }

abbrev both_checked : Shared ℕ
both_checked =
    next 2 (next 1 (moved 2 (check add_then_double) (moved 1 (check add_then_double) no_mutex)))

abbrev raced : Shared ℕ
raced = next_with_mutex 2 (next 2 (next_with_mutex 1 (next 1 both_checked)))

first_use_race : (has_pointer (raced.places 1) ≡ true) × (has_pointer (raced.places 2) ≡ true)
unfolding do_action_with_timeout
first_use_race = (refl, refl)
