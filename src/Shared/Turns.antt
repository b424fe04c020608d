-- ===== src/Shared/Turns.antt =====
-- However threads interleave, the actions on a shared record happen one behind the other.
use esp32_wifi_manager.Common.{ℕ, ◌≡◌, sym, ap, ◌∙◌, true, none}
use esp32_wifi_manager.Shared.{outside, Shared}
use esp32_wifi_manager.Shared.Steps.{Steps, write_all, one_by_one, has_pointer, IsAtRest}
use esp32_wifi_manager.Shared.InTurn.{pending, Steps-IsInTurn, IsAtRest-IsInTurn, free_of_idle}

-- Once the mutex exists, and from where no thread runs an action, never more than one thread at a
-- time has the pointer to the record, however the statements of the threads interleave.
pub Steps-one_pointer :
    {A : Type 0} (s t : Shared A) (u v : ℕ)
    → IsAtRest s
    → Steps s t
    → has_pointer (t.places u) ≡ true
    → has_pointer (t.places v) ≡ true
    → u ≡ v
Steps-one_pointer s t u v rest steps hu hv =
    let h = Steps-IsInTurn s.value steps (IsAtRest-IsInTurn s rest) in
    cc ((h.fits u).has hu, (h.fits v).has hv)

-- Once the mutex exists, and from where no thread runs an action: however the statements of the
-- threads interleave and whichever locks time out, when again no thread runs an action the mutex is
-- free, and the record is what the actions that got the mutex make of it one by one, each as a whole,
-- in the order in which they got it.
pub Steps-one_by_one :
    {A : Type 0} (s t : Shared A)
    → IsAtRest s
    → Steps s t
    → ((thread : ℕ) → t.places thread ≡ outside)
    → (t.holder ≡ none) × (t.value ≡ one_by_one t.turns s.value)
Steps-one_by_one s t rest steps idle =
    let h = Steps-IsInTurn s.value steps (IsAtRest-IsInTurn s rest) in
    let free = free_of_idle t.holder t.places h.fits idle in
    (free, ap (λ o. write_all (pending o t.places) t.value) (sym free) ∙ h.completes)
