-- ===== src/Shared/InTurn.antt =====
-- The invariant of threads that share a record: the pointer goes with the mutex, and the writes that
-- are left complete the turns.
use esp32_wifi_manager.Common.{
  ℕ, ◌≡◌, refl, sym, ap, ◌∙◌, Bool, true, false, Option, none, some, List, [], ◌∷◌, ◌==◌,
  if◌then◌else◌, Bool-cases, inl, inr, arith,
}
use mathlib.Core.Path.{subst}
use esp32_wifi_manager.Shared.{
  Place, outside, check, create, lock, callback, unlock, Shared, go_to, moved, lock_with_timeout,
  check_mutex, callback_step, unlock_mutex, do_action_with_timeout,
}
use esp32_wifi_manager.Shared.Steps.{
  Step, call, run, Steps, done, then_step, write_all, one_by_one, has_pointer, IsAtRest,
}

-- What a thread's callback has still to write through the pointer.
abbrev pub left : {A : Type 0} → Place A → List (A → A)
left (callback true ws) = ws
left _ = []

abbrev pub creates : {A : Type 0} → Place A → Bool
creates (create cb) = true
creates _ = false

-- A thread at this place fits the holder of the mutex: it has the pointer exactly if it has the
-- mutex; and it does not create the mutex.
pub record Fits {A : Type 0} (holder : Option ℕ) (thread : ℕ) (place : Place A) : Type 0 where
  pub has : has_pointer place ≡ true → holder ≡ some thread
  pub had : holder ≡ some thread → has_pointer place ≡ true
  pub no_creation : creates place ≡ false

abbrev pub pending : {A : Type 0} → Option ℕ → (ℕ → Place A) → List (A → A)
pending none places = []
pending (some thread) places = left (places thread)

-- The invariant, for a record with a value before the first turn.
pub record IsInTurn {A : Type 0} (v0 : A) (s : Shared A) : Type 0 where
  pub created : s.mutex_created ≡ true
  pub fits : (u : ℕ) → Fits s.holder u (s.places u)
  pub completes : write_all (pending s.holder s.places) s.value ≡ one_by_one s.turns v0

==_self : (n : ℕ) → (n == n) ≡ true
==_self n = ground arith

some_eq : (t u : ℕ) → ◌≡◌ {A = Option ℕ} (some t) (some u) → (u == t) ≡ true
some_eq t u e = let same : t ≡ u = cc in rw same (==_self u)

not_both : {b : Bool} → b ≡ true → b ≡ false → ⊥
not_both p q = cc

module _ {A : Type 0} where
  -- The places of all threads, where one moves and perhaps takes or gives back the mutex.
  moved-Fits :
      (thread : ℕ) (place : Place A) (holder : Option ℕ) (s : Shared A)
      → Fits holder thread place
      → ((u : ℕ)
          → (u == thread) ≡ false
          → Fits s.holder u (s.places u)
          → Fits holder u (s.places u))
      → ((u : ℕ) → Fits s.holder u (s.places u))
      → (u : ℕ) → Fits holder u (go_to thread place s.places u)
  moved-Fits thread place holder s new others before u = elim (Bool-cases (u == thread)) [
    | inl same ↦ let e : u ≡ thread = ground arith in rw same (rw e new)
    | inr other ↦ rw other (others u other (before u))
  ]

  pending-other :
      (holder : Option ℕ) (thread : ℕ) (place : Place A) (places : ℕ → Place A)
      → (holder ≡ some thread → ⊥)
      → pending holder (go_to thread place places) ≡ pending holder places
  pending-other none thread place places h = refl
  pending-other (some u) thread place places h = elim (Bool-cases (u == thread)) [
    | inl same ↦ let e : u ≡ thread = ground arith in absurd (h (ap some e))
    | inr other ↦ rw other refl
  ]

  pending_self :
      (thread : ℕ) (place : Place A) (places : ℕ → Place A)
      → pending (some thread) (go_to thread place places) ≡ left place
  pending_self thread place places = rw (==_self thread) refl

  pending-held :
      (thread : ℕ) (place : Place A) (s : Shared A)
      → s.holder ≡ some thread
      → s.places thread ≡ place
      → pending s.holder s.places ≡ left place
  pending-held thread place s held e = ap (λ o. pending o s.places) held ∙ ap left e

module _ {A : Type 0} (v0 : A) (s : Shared A) (h : IsInTurn v0 s) where
  fits_at : (thread : ℕ) (place : Place A) → s.places thread ≡ place → Fits s.holder thread place
  fits_at thread place e = subst (Fits s.holder thread) e (h.fits thread)

  -- A move of a thread that has no pointer before and behind it.
  stay :
      (thread : ℕ) (from to : Place A)
      → s.places thread ≡ from
      → has_pointer from ≡ false
      → has_pointer to ≡ false
      → creates to ≡ false
      → IsInTurn v0 (moved thread to s)
  stay thread from to e nothing nothing' created =
      let free : s.holder ≡ some thread → ⊥ =
        λ k. not_both ((fits_at thread from e).had k) nothing in
      record {
        created = h.created;
        fits =
            moved-Fits thread to s.holder s
              (record {
                has = λ k. absurd (not_both k nothing');
                had = λ k. absurd (free k);
                no_creation = created;
              })
              (λ u other f. f) h.fits;
        completes =
            ap (λ l. write_all l s.value) (pending-other s.holder thread to s.places free)
            ∙ h.completes;
      }

  check-IsInTurn :
      (thread : ℕ) (cb : List (A → A))
      → s.places thread ≡ check cb
      → IsInTurn v0 (check_mutex thread cb s)
  unfolding check_mutex
  check-IsInTurn thread cb e =
      subst (λ (b : Bool). IsInTurn v0 (moved thread (if b then lock cb else create cb) s))
        (sym h.created) (stay thread (check cb) (lock cb) e refl refl refl)

  lock-IsInTurn :
      (thread : ℕ) (granted : Bool) (cb : List (A → A))
      → s.places thread ≡ lock cb
      → (granted ≡ true → s.holder ≡ none)
      → IsInTurn v0 (lock_with_timeout thread granted cb s)
  unfolding lock_with_timeout
  lock-IsInTurn thread false cb e free = stay thread (lock cb) (callback false cb) e refl refl refl
  lock-IsInTurn thread true cb e free =
      let nobody = free refl in
      record {
        created = h.created;
        fits =
            moved-Fits thread (callback true cb) (some thread) s
              (record { has = λ _. refl; had = λ _. refl; no_creation = refl })
              (λ u other f. record {
                has = λ k. cc (f.has k, nobody);
                had = λ k. absurd (not_both (some_eq thread u k) other);
                no_creation = f.no_creation;
              })
              h.fits;
        completes =
            ap (λ l. write_all l s.value) (pending_self thread (callback true cb) s.places)
            ∙ ap (write_all cb)
                (ap (λ o. write_all (pending o s.places) s.value) (sym nobody) ∙ h.completes);
      }

  -- A move of the thread that has the mutex and keeps it.
  keep :
      (thread : ℕ) (from to : Place A) (v : A)
      → s.places thread ≡ from
      → has_pointer from ≡ true
      → has_pointer to ≡ true
      → creates to ≡ false
      → write_all (left to) v ≡ write_all (left from) s.value
      → IsInTurn v0 (moved thread to (record s { value = v }))
  keep thread from to v e given given' created same =
      let held = (fits_at thread from e).has given in
      record {
        created = h.created;
        fits =
            moved-Fits thread to s.holder s
              (record { has = λ _. held; had = λ _. given'; no_creation = created })
              (λ u other f. f) h.fits;
        completes =
            ap (λ o. write_all (pending o (go_to thread to s.places)) v) held
            ∙ ap (λ l. write_all l v) (pending_self thread to s.places)
            ∙ same
            ∙ sym (ap (λ l. write_all l s.value) (pending-held thread from s held e))
            ∙ h.completes;
      }

  callback-IsInTurn :
      (thread : ℕ) (got : Bool) (ws : List (A → A))
      → s.places thread ≡ callback got ws
      → IsInTurn v0 (callback_step thread got ws s)
  unfolding callback_step
  callback-IsInTurn thread true [] e =
      keep thread (callback true []) (unlock true) s.value e refl refl refl refl
  callback-IsInTurn thread false [] e =
      stay thread (callback false []) (unlock false) e refl refl refl
  callback-IsInTurn thread true (w ∷ ws) e =
      keep thread (callback true (w ∷ ws)) (callback true ws) (w s.value) e refl refl refl refl
  callback-IsInTurn thread false (w ∷ ws) e =
      stay thread (callback false (w ∷ ws)) (callback false ws) e refl refl refl

  unlock-IsInTurn :
      (thread : ℕ) (got : Bool)
      → s.places thread ≡ unlock got
      → IsInTurn v0 (unlock_mutex thread got s)
  unfolding unlock_mutex
  unlock-IsInTurn thread false e = stay thread (unlock false) outside e refl refl refl
  unlock-IsInTurn thread true e =
      let held = (fits_at thread (unlock true) e).has refl in
      record {
        created = h.created;
        fits =
            moved-Fits thread outside none s
              (record { has = λ k. cc; had = λ k. cc; no_creation = refl })
              (λ u other f. record {
                has = λ k. absurd (not_both (some_eq thread u (sym held ∙ f.has k)) other);
                had = λ k. cc;
                no_creation = f.no_creation;
              })
              h.fits;
        completes =
            sym (ap (λ l. write_all l s.value) (pending-held thread (unlock true) s held e))
            ∙ h.completes;
      }

  run-IsInTurn :
      (thread : ℕ) (granted : Bool) (place : Place A)
      → s.places thread ≡ place
      → (granted ≡ true → s.holder ≡ none)
      → IsInTurn v0 (do_action_with_timeout thread granted place s)
  unfolding do_action_with_timeout
  run-IsInTurn thread granted outside e free = h
  run-IsInTurn thread granted (check cb) e free = check-IsInTurn thread cb e
  run-IsInTurn thread granted (create cb) e free =
      absurd (not_both refl (fits_at thread (create cb) e).no_creation)
  run-IsInTurn thread granted (lock cb) e free = lock-IsInTurn thread granted cb e free
  run-IsInTurn thread granted (callback got ws) e free = callback-IsInTurn thread got ws e
  run-IsInTurn thread granted (unlock got) e free = unlock-IsInTurn thread got e

Step-IsInTurn : {A : Type 0} (v0 : A) {s t : Shared A} → Step s t → IsInTurn v0 s → IsInTurn v0 t
Step-IsInTurn v0 (call thread cb s e) h = stay v0 s h thread outside (check cb) e refl refl refl
Step-IsInTurn v0 (run thread granted s free) h =
    run-IsInTurn v0 s h thread granted (s.places thread) refl free

pub Steps-IsInTurn :
    {A : Type 0} (v0 : A) {s t : Shared A} → Steps s t → IsInTurn v0 s → IsInTurn v0 t
Steps-IsInTurn v0 (done s) h = h
Steps-IsInTurn v0 (then_step s t u steps step) h = Step-IsInTurn v0 step (Steps-IsInTurn v0 steps h)

pub IsAtRest-IsInTurn : {A : Type 0} (s : Shared A) → IsAtRest s → IsInTurn s.value s
IsAtRest-IsInTurn s h = record {
  created = h.created;
  fits = λ u. record {
    has = λ k. absurd (not_both k (ap has_pointer (h.nobody_inside u)));
    had = λ k. cc (k, h.free);
    no_creation = ap creates (h.nobody_inside u);
  };
  completes =
      ap (λ o. write_all (pending o s.places) s.value) h.free
      ∙ sym (ap (λ l. one_by_one l s.value) h.no_turns);
}

pub free_of_idle :
    {A : Type 0} (holder : Option ℕ) (places : ℕ → Place A)
    → ((u : ℕ) → Fits holder u (places u))
    → ((u : ℕ) → places u ≡ outside)
    → holder ≡ none
free_of_idle none places fits idle = refl
free_of_idle (some u) places fits idle =
    absurd (not_both ((fits u).had refl) (ap has_pointer (idle u)))
