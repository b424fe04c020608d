-- ===== src/Shared.antt =====
-- A record that threads share behind a mutex (src/json_network_info.c): what a thread does that runs
-- an action on it, one statement at a time, so that threads may interleave between any two.
--
-- A callback is the list of its writes, each a function of the record; one that gets the pointer
-- NULL writes nothing. The mutex is that of the system: it is given to one thread at a time.
pub mod InTurn
pub mod Steps
pub mod Turns
use esp32_wifi_manager.Common.{
  ℕ, Bool, true, false, Option, none, some, List, [], ◌∷◌, ◌==◌, if◌then◌else◌,
}

-- Where a thread is in json_network_info_do_action_with_timeout, with the callback's writes that are
-- left, and behind the lock with whether it has the pointer: `check` and `create` are the first
-- statement of json_network_info_lock_with_timeout, `lock` is its second.
pub data Place (A : Type 0) : Type 0 where
  outside : Place A
  check : List (A → A) → Place A
  create : List (A → A) → Place A
  lock : List (A → A) → Place A
  callback : Bool → List (A → A) → Place A
  unlock : Bool → Place A

-- The mutex, with the thread that has it, the record, and the place of each thread. `turns` are the
-- actions in the order in which they got the mutex, the newest first: it is not in the code.
pub record Shared (A : Type 0) : Type 0 where
  pub mutex_created : Bool
  pub holder : Option ℕ
  pub value : A
  pub places : ℕ → Place A
  pub turns : List (List (A → A))

module _ {A : Type 0} where
  abbrev pub go_to : ℕ → Place A → (ℕ → Place A) → ℕ → Place A
  go_to thread place places u = if u == thread then place else places u

  abbrev pub moved : ℕ → Place A → Shared A → Shared A
  moved thread place s = record s { places = go_to thread place s.places }

  -- json_network_info_lock_with_timeout, behind the check: the pointer is given only with the mutex.
  unfoldable pub lock_with_timeout : ℕ → Bool → List (A → A) → Shared A → Shared A
  lock_with_timeout thread granted cb s =
      if granted
      then moved thread (callback true cb) (record s { holder = some thread; turns = cb ∷ s.turns })
      else moved thread (callback false cb) s

  -- `if (NULL == g_json_network_mutex)`
  unfoldable pub check_mutex : ℕ → List (A → A) → Shared A → Shared A
  check_mutex thread cb s = moved thread (if s.mutex_created then lock cb else create cb) s

  -- os_mutex_create_static, which makes the one mutex anew: no thread has it.
  unfoldable pub create_mutex : ℕ → List (A → A) → Shared A → Shared A
  create_mutex thread cb s =
      moved thread (lock cb) (record s { mutex_created = true; holder = none })

  -- A write of the callback, or its return.
  unfoldable pub callback_step : ℕ → Bool → List (A → A) → Shared A → Shared A
  callback_step thread got [] s = moved thread (unlock got) s
  callback_step thread got (w ∷ ws) s =
      moved thread (callback got ws) (if got then record s { value = w s.value } else s)

  -- json_network_info_unlock, which gives back the mutex only if the pointer was given
  unfoldable pub unlock_mutex : ℕ → Bool → Shared A → Shared A
  unlock_mutex thread got s = moved thread outside (if got then record s { holder = none } else s)

  -- json_network_info_do_action_with_timeout and its variants for the callback's parameter: the
  -- thread's next statement. Whether the mutex is granted counts at the lock only.
  unfoldable pub do_action_with_timeout : ℕ → Bool → Place A → Shared A → Shared A
  unfolding lock_with_timeout check_mutex create_mutex callback_step unlock_mutex
  do_action_with_timeout thread granted outside s = s
  do_action_with_timeout thread granted (check cb) s = check_mutex thread cb s
  do_action_with_timeout thread granted (create cb) s = create_mutex thread cb s
  do_action_with_timeout thread granted (lock cb) s = lock_with_timeout thread granted cb s
  do_action_with_timeout thread granted (callback got ws) s = callback_step thread got ws s
  do_action_with_timeout thread granted (unlock got) s = unlock_mutex thread got s
