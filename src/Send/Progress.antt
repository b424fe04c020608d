-- ===== src/Send/Progress.antt =====
-- A connection that takes something at each attempt gets all that is sent.
use esp32_wifi_manager.Common.{
  ℕ, zero, suc, ◌+◌, ◌-◌, ◌≤◌, ◌<◌, ◌≡◌, refl, sym, ap, ◌∙◌, true, false, some, List, [], ◌∷◌, ◌++◌,
  append_assoc, append-nil, Bytes, length, take, drop, is_empty, All, ◌==◌, Bool-cases, inl, inr,
  arith,
}
use esp32_wifi_manager.Send.{
  Attempt, err_ok, Conn, WriteResult, written, round_end, write_loop, write, File, read_chunk,
  block_len, fatfs_loop, write_content_from_fatfs,
}
use esp32_wifi_manager.Send.Prefix.{take-drop}

-- An attempt that takes at least a byte, in time.
pub record IsGood (a : Attempt) : Type 0 where
  pub is_ok : a.err ≡ err_ok
  pub has_room : 0 < a.room
  pub in_time : a.late ≡ false

length-drop : {A : Type 0} (n : ℕ) (s : List A) → length (drop n s) ≡ length s - n
length-drop zero s = omega arith
length-drop (suc n) [] = omega arith
length-drop (suc n) (x ∷ s) = omega (arith, length-drop n s)

-- The write has sent `buf`, and the attempts behind it are good ones, and enough for `more` bytes.
pub record HasSent (buf sent : Bytes) (more : ℕ) (r : WriteResult × Conn) : Type 0 where
  pub done : r.0 ≡ written
  pub all_sent : r.1.sent ≡ sent ++ buf
  pub all_good : All IsGood r.1.attempts
  pub enough : more ≤ length r.1.attempts

empty_left : (n : ℕ) (s : Bytes) → is_empty (drop n s) ≡ true → take n s ≡ s
empty_left zero [] h = refl
empty_left zero (x ∷ s) h = cc
empty_left (suc n) [] h = refl
empty_left (suc n) (x ∷ s) h = ap (λ t. x ∷ t) (empty_left n s h)

some_left : (s : Bytes) → is_empty s ≡ false → 0 < length s
some_left [] h = cc
some_left (x ∷ s) h = omega arith

HasSent-part :
    (n : ℕ) (s sent : Bytes) (more : ℕ) (r : WriteResult × Conn)
    → HasSent (drop n s) (sent ++ take n s) more r
    → HasSent s sent more r
HasSent-part n s sent more r h = record {
  done = h.done;
  all_sent =
      h.all_sent ∙ append_assoc sent (take n s) (drop n s) ∙ ap (λ t. sent ++ t) (take-drop n s);
  all_good = h.all_good;
  enough = h.enough;
}

write_loop_good :
    (attempts : List Attempt) (buf sent : Bytes) (more : ℕ)
    → All IsGood attempts
    → 0 < length buf
    → length buf + more ≤ length attempts
    → HasSent buf sent more (write_loop attempts buf sent)
unfolding write_loop round_end
write_loop_good [] buf sent more good pos le = absurd (omega arith)
write_loop_good (a ∷ rest) buf sent more (g, good) pos le =
    let n = a.room in
    elim (Bool-cases (is_empty (drop n buf))) [
      | inl e ↦
          rw (g.is_ok, g.in_time, e)
            record {
              done = refl;
              all_sent = ap (λ t. sent ++ t) (empty_left n buf e);
              all_good = good;
              enough = omega arith;
            }
      | inr ne ↦
          let left = drop n buf in
          let now = sent ++ take n buf in
          rw (g.is_ok, g.in_time, ne)
            (HasSent-part n buf sent more (write_loop rest left now) (
              write_loop_good rest left now more good (some_left left ne)
                (omega (arith, length-drop n buf, g.has_room))))
    ]

-- While each attempt takes at least a byte and is in time, and there are as many attempts as bytes,
-- a write ends, says that it has written, and has put the whole buffer behind what was sent; the
-- attempts that are left are as many as the bytes that are to come (`more`).
pub write_good :
    (buf : Bytes) (c : Conn) (more : ℕ)
    → All IsGood c.attempts
    → 0 < length buf
    → length buf + more ≤ length c.attempts
    → HasSent buf c.sent more (write buf c)
unfolding write
write_good buf c more good pos le = write_loop_good c.attempts buf c.sent more good pos le

-- A file with these bytes: a read gives as many as are asked for, as far as there are.
pub record IsFile (file : File) (bytes : Bytes) : Type 0 where
  pub reads : (off n : ℕ) → file.read off n ≡ some (take n (drop off bytes))

length-take : {A : Type 0} (n : ℕ) (s : List A) → n ≤ length s → length (take n s) ≡ n
length-take zero s h = refl
length-take (suc n) [] h = absurd (omega arith)
length-take (suc n) (x ∷ s) h = ap suc (length-take n s (omega arith))

drop_all : {A : Type 0} (n : ℕ) (s : List A) → length s ≤ n → drop n s ≡ []
drop_all zero [] h = refl
drop_all zero (x ∷ s) h = absurd (omega arith)
drop_all (suc n) [] h = refl
drop_all (suc n) (x ∷ s) h = drop_all n s (omega arith)

take_nil : (n : ℕ) → take {A = ℕ} n [] ≡ []
take_nil zero = refl
take_nil (suc n) = refl

take-drop_add : (off n : ℕ) (s : Bytes) → take n (drop off s) ++ drop (off + n) s ≡ drop off s
take-drop_add zero n s = let e : 0 + n ≡ n = omega arith in rw e (take-drop n s)
take-drop_add (suc off) n [] =
    let e : suc off + n ≡ suc (off + n) = omega arith in rw e (ap (λ t. t ++ []) (take_nil n))
take-drop_add (suc off) n (x ∷ s) =
    let e : suc off + n ≡ suc (off + n) = omega arith in rw e (take-drop_add off n s)

module _ (file : File) (bytes : Bytes) (isf : IsFile file bytes) where
  chunk : (off n : ℕ) → off + n ≤ length bytes → length (take n (drop off bytes)) ≡ n
  chunk off n le = length-take n (drop off bytes) (omega (arith, length-drop off bytes))

  read_chunk_file :
      (off n : ℕ)
      → off + n ≤ length bytes
      → read_chunk n (file.read off n) ≡ some (take n (drop off bytes))
  read_chunk_file off n le =
      let l = chunk off n le in
      let same : (length (take n (drop off bytes)) == n) ≡ true = ground (arith, l) in
      rw (isf.reads off n, same) refl

  fatfs_loop_good :
      (fuel off rem : ℕ) (c : Conn)
      → rem < fuel
      → off + rem ≡ length bytes
      → All IsGood c.attempts
      → rem ≤ length c.attempts
      → (fatfs_loop file fuel off rem c).sent ≡ c.sent ++ drop off bytes
  unfolding fatfs_loop
  fatfs_loop_good zero off rem c lt e good le = absurd (omega arith)
  fatfs_loop_good (suc fuel) off zero c lt e good le =
      rw (drop_all off bytes (omega arith)) (sym (append-nil c.sent))
  fatfs_loop_good (suc fuel) off (suc r) c lt e good le =
      let rem = suc r in
      let n = block_len rem in
      let n_le : n ≤ rem = ground arith in
      let n_pos : 0 < n = ground arith in
      let b = take n (drop off bytes) in
      let l : length b ≡ n = chunk off n (omega arith) in
      let h = write_good b c (rem - n) good (omega arith) (omega arith) in
      let more : (suc r == 0) ≡ false = ground arith in
      rw (more, read_chunk_file off n (omega arith), h.done)
        (fatfs_loop_good fuel (off + n) (rem - n) (write b c).1 (omega arith) (omega arith)
            h.all_good h.enough
          ∙ ap (λ t. t ++ drop (off + n) bytes) h.all_sent
          ∙ append_assoc c.sent b (drop (off + n) bytes)
          ∙ ap (λ t. c.sent ++ t) (take-drop_add off n bytes))

-- A file is sent in blocks of 1536 bytes, and what is sent is the file, byte for byte: where memory
-- is there, its reads give its bytes, and the connection takes something at each of as many
-- attempts as there are bytes.
pub write_content_from_fatfs_whole :
    (file : File) (bytes : Bytes) (isf : IsFile file bytes) (c : Conn)
    → All IsGood c.attempts
    → length bytes ≤ length c.attempts
    → (write_content_from_fatfs true file (length bytes) c).sent ≡ c.sent ++ bytes
unfolding write_content_from_fatfs
write_content_from_fatfs_whole file bytes isf c good le =
    fatfs_loop_good file bytes isf (suc (length bytes)) 0 (length bytes) c (omega arith)
      (omega arith) good le
