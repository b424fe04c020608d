-- ===== src/Recv/Bounds.antt =====
-- The buffer of a request is never written beyond its end, its size is bounded, and its text ends.
use esp32_wifi_manager.Common.{
  ℕ, ◌+◌, ◌≡◌, Bool, true, List, [], ◌∷◌, Bytes, length, is_some, arith,
}
use esp32_wifi_manager.Recv.{Ctx, RecvEnv, NetEvent, netbuf, recv_error, timeout, resize}
use esp32_wifi_manager.Recv.Sizes.{IsBounded, IsFresh}
use esp32_wifi_manager.Recv.Ends.{EndsIn}

module _ (env : RecvEnv) where
  -- A frame that is taken leaves a buffer behind.
  abbrev HasBuffer : Ctx × Bool → Type 0
  HasBuffer r = r.1 ≡ true → is_some r.0.req_buf ≡ true

  resize-HasBuffer : (c : Ctx) → is_some c.req_buf ≡ true → HasBuffer (resize env c)
  unfolding resize
  resize-HasBuffer c s h = ground arith

-- How many bytes the frames of an event have.
abbrev pub sizes : List Bytes → ℕ
sizes [] = 0
sizes (frame ∷ frames) = length frame + sizes frames

abbrev pub event_size : NetEvent → ℕ
event_size (netbuf frames) = sizes frames
event_size recv_error = 0
event_size timeout = 0

-- How many bytes come.
abbrev pub received : List NetEvent → ℕ
received [] = 0
received (e ∷ es) = event_size e + received es

-- The invariant of a run that may go on, behind `n` bytes.
abbrev Holds : ℕ → Ctx × Bool → Type 0
Holds n r = IsBounded r.0 × EndsIn n r.0 × (r.1 ≡ true → IsFresh r.0)
