-- ===== src/Os.antt =====
-- The signals of a task, as the two servers use them: a library below the program, given as a record
-- of its operations and a record of what it promises.
use esp32_wifi_manager.Common.{◌≡◌, Bool, true, false}

-- os_signal_register_cur_thread, os_signal_unregister_cur_thread and
-- os_signal_is_any_thread_registered, on the library's own state
pub record OsSignal (S : Type 0) : Type 0 where
  pub register_cur_thread : S → S × Bool
  pub unregister_cur_thread : S → S
  pub is_any_thread_registered : S → Bool

-- One thread at most is registered for a signal, until it is unregistered.
pub record IsOsSignal (S : Type 0) (sig : OsSignal S) : Type 0 where
  pub registers :
      (s : S)
      → sig.is_any_thread_registered s ≡ false
      → ((sig.register_cur_thread s).1 ≡ true)
        × (sig.is_any_thread_registered (sig.register_cur_thread s).0 ≡ true)
  pub refuses :
      (s : S) → sig.is_any_thread_registered s ≡ true → sig.register_cur_thread s ≡ (s, false)
  pub unregisters : (s : S) → sig.is_any_thread_registered (sig.unregister_cur_thread s) ≡ false
