-- ===== src/Recv/Store.antt =====
-- What the copy of a frame keeps, and what follows it.
use esp32_wifi_manager.Common.{
  ℕ, suc, ◌+◌, ◌≤◌, ◌≡◌, refl, Bool, true, false, Option, none, some, [], ◌∷◌, ◌++◌, Bytes, length,
  length-append, append_assoc, take, ltb, Bool-cases, inl, inr, arith,
}
use native.Mathlib.Nat.{le_trans}
use esp32_wifi_manager.Recv.{
  Ctx, RecvEnv, c_str, body_at, cells, alloc, append_frame, note_body, find_header, store_frame,
  store_if, handle_received_buf,
}
use esp32_wifi_manager.Recv.Sizes.{
  IsBounded, IsFresh, length-take-le, length-c_str, body_at-le, alloc-IsBounded,
  handle_completed-IsBounded,
}

-- A copy that fits keeps the bounds, and the text is not longer than its length says.
append_frame-IsBounded :
    (frame : Bytes) (c : Ctx)
    → IsBounded c
    → c.accum_len + length frame ≤ c.req_buf_size
    → IsBounded (append_frame frame c)
      × (length (c_str (cells (append_frame frame c).req_buf)) ≤ (append_frame frame c).accum_len)
unfolding append_frame
append_frame-IsBounded frame c b le =
    let t = take c.accum_len (cells c.req_buf) in
    let lt = length-take-le c.accum_len (cells c.req_buf) in
    let size : length (t ++ (frame ++ 0 ∷ [])) ≤ suc (c.accum_len + length frame) =
      omega (arith, lt, length-append {0} t (frame ++ 0 ∷ []), length-append {0} frame (0 ∷ [])) in
    let text : length (c_str (t ++ (frame ++ 0 ∷ []))) ≤ c.accum_len + length frame =
      rw (← append_assoc t frame (0 ∷ []))
        (omega (arith, lt, length-c_str (t ++ frame), length-append {0} t frame)) in
    (
      record {
        fits = le;
        written = omega (arith, size, le);
        size_le = b.size_le;
        header_le = b.header_le;
      },
      text,
    )

note_body-IsBounded :
    (o : Option ℕ) (c : Ctx)
    → IsBounded c
    → c.is_header_completed ≡ false
    → ((n : ℕ) → o ≡ some n → n ≤ c.accum_len)
    → IsBounded (note_body o c)
note_body-IsBounded none c b h k = b
note_body-IsBounded (some n) c b h k =
    let le = k n refl in
    let size : c.req_buf_size ≤ 4096 = ground (arith, b.size_le) in
    record {
      fits = b.fits;
      written = b.written;
      size_le = omega arith;
      header_le = omega (arith, b.fits);
    }

find_header-IsBounded :
    (c : Ctx)
    → IsBounded c
    → length (c_str (cells c.req_buf)) ≤ c.accum_len
    → IsBounded (find_header c)
unfolding find_header
find_header-IsBounded c b le = elim (Bool-cases c.is_header_completed) [
  | inl e ↦ simp e b
  | inr e ↦ simp e (
      note_body-IsBounded (body_at (c_str (cells c.req_buf))) c b e
        (λ n h. le_trans (body_at-le (c_str (cells c.req_buf)) n h) le))
]

module _ (env : RecvEnv) where
  store_frame-IsBounded :
      (frame : Bytes) (c : Ctx) → IsBounded c → IsBounded (store_frame env frame c).0
  unfolding store_frame
  store_frame-IsBounded frame c b =
      elim (Bool-cases (ltb c.req_buf_size (c.accum_len + length frame))) [
        | inl e ↦ rw e b
        | inr e ↦
            let (b1, le) = append_frame-IsBounded frame c b (ground arith) in
            let b2 = find_header-IsBounded (append_frame frame c) b1 le in
            rw e (elim (Bool-cases (find_header (append_frame frame c)).is_header_completed) [
              | inl d ↦
                  simp d (handle_completed-IsBounded env (find_header (append_frame frame c)) b2 d)
              | inr d ↦ simp d b2
            ])
      ]

  store_if-IsBounded :
      (frame : Bytes) (r : Ctx × Bool) → IsBounded r.0 → IsBounded (store_if env frame r).0
  store_if-IsBounded frame (c, true) b = store_frame-IsBounded frame c b
  store_if-IsBounded frame (c, false) b = b

  pub handle_received_buf-IsBounded :
      (frame : Bytes) (c : Ctx)
      → IsBounded c
      → IsFresh c
      → IsBounded (handle_received_buf env frame c).0
  unfolding handle_received_buf
  handle_received_buf-IsBounded frame c b f =
      store_if-IsBounded frame (alloc env c.req_buf (length frame) c)
        (alloc-IsBounded env c.req_buf (length frame) c refl b f)
