-- ===== src/Shared/Steps.antt =====
-- The interleavings of threads that run actions on a shared record, and what they are compared with.
use esp32_wifi_manager.Common.{ℕ, ◌≡◌, Bool, true, false, none, List, [], ◌∷◌}
use esp32_wifi_manager.Shared.{
  Place, outside, check, callback, unlock, Shared, moved, do_action_with_timeout,
}

-- One step of some thread: a call of an action by a thread that runs none, or the next statement of
-- a thread, where the mutex may be granted only while no thread has it.
pub data Step {A : Type 0} : Shared A → Shared A → Type 0 where
  call :
      (thread : ℕ) (cb : List (A → A)) (s : Shared A)
      → s.places thread ≡ outside
      → Step s (moved thread (check cb) s)
  run :
      (thread : ℕ) (granted : Bool) (s : Shared A)
      → (granted ≡ true → s.holder ≡ none)
      → Step s (do_action_with_timeout thread granted (s.places thread) s)

pub data Steps {A : Type 0} : Shared A → Shared A → Type 0 where
  done : (s : Shared A) → Steps s s
  then_step : (s t u : Shared A) → Steps s t → Step t u → Steps s u

abbrev pub write_all : {A : Type 0} → List (A → A) → A → A
write_all [] v = v
write_all (w ∷ ws) v = write_all ws (w v)

-- The same actions, each as a whole.
abbrev pub one_by_one : {A : Type 0} → List (List (A → A)) → A → A
one_by_one [] v = v
one_by_one (cb ∷ turns) v = write_all cb (one_by_one turns v)

-- Whether a thread has the pointer.
abbrev pub has_pointer : {A : Type 0} → Place A → Bool
has_pointer (callback got ws) = got
has_pointer (unlock got) = got
has_pointer _ = false

-- The mutex exists and no thread has it or runs an action.
pub record IsAtRest {A : Type 0} (s : Shared A) : Type 0 where
  pub created : s.mutex_created ≡ true
  pub free : s.holder ≡ none
  pub nobody_inside : (thread : ℕ) → s.places thread ≡ outside
  pub no_turns : s.turns ≡ []
