-- ===== src/Send/Prefix.antt =====
-- What goes to the connection is the start of what is sent, whatever lwIP answers.
use esp32_wifi_manager.Common.{
  ℕ, zero, suc, ◌≡◌, refl, sym, ap, ◌∙◌, List, [], ◌∷◌, ◌++◌, append_assoc, append-nil, Bytes, take,
  drop, arith,
}
use esp32_wifi_manager.Send.{
  Attempt, LwipErr, err_ok, err_wouldblock, err_other, Conn, WriteResult, written, write_failed,
  waiting, Round, stop, go_on, round_end, or_else, attempt_end, attempt_takes, write_loop, write,
}

pub take-drop : (n : ℕ) (s : Bytes) → take n s ++ drop n s ≡ s
take-drop zero s = refl
take-drop (suc n) [] = refl
take-drop (suc n) (x ∷ s) = ap (λ t. x ∷ t) (take-drop n s)

-- What is left to send behind a result.
abbrev pub IsSent : WriteResult → Bytes → Type 0
IsSent written q = q ≡ []
IsSent write_failed q = Unit
IsSent waiting q = Unit

-- A part of the buffer has been sent, behind what was there; all of it where it was written.
abbrev pub IsPrefix : Bytes → Bytes → WriteResult × Conn → Type 0
IsPrefix sent buf r =
    (p : Bytes) × (q : Bytes) × (r.1.sent ≡ sent ++ p) × (p ++ q ≡ buf) × IsSent r.0 q

round_end_full : (a : Attempt) (left : Bytes) → round_end a left ≡ stop written → left ≡ []
unfolding round_end
round_end_full a [] h = refl
round_end_full a (x ∷ left) h = ground arith

attempt_end_full :
    (e : LwipErr) (a : Attempt) (left : Bytes) → attempt_end e a left ≡ stop written → left ≡ []
attempt_end_full err_ok a left h = round_end_full a left h
attempt_end_full err_wouldblock a left h = round_end_full a left h
attempt_end_full err_other a left h = cc

or_else-IsPrefix :
    (d : Round) (n : ℕ) (buf sent : Bytes) (rest : List Attempt) (more : WriteResult × Conn)
    → (d ≡ stop written → drop n buf ≡ [])
    → IsPrefix (sent ++ take n buf) (drop n buf) more
    → IsPrefix sent buf
        (or_else d (written, record { sent = sent ++ take n buf; attempts = rest }) more)
or_else-IsPrefix (stop written) n buf sent rest more full h =
    (take n buf, drop n buf, refl, take-drop n buf, full refl)
or_else-IsPrefix (stop write_failed) n buf sent rest more full h =
    (take n buf, drop n buf, refl, take-drop n buf, tt)
or_else-IsPrefix (stop waiting) n buf sent rest more full h =
    (take n buf, drop n buf, refl, take-drop n buf, tt)
or_else-IsPrefix go_on n buf sent rest more full (p, q, e, k, s) =
    let t = take n buf in
    (
      t ++ p,
      q,
      e ∙ append_assoc sent t p,
      append_assoc t p q ∙ ap (λ u. t ++ u) k ∙ take-drop n buf,
      s,
    )

write_loop-IsPrefix :
    (attempts : List Attempt) (buf sent : Bytes) → IsPrefix sent buf (write_loop attempts buf sent)
unfolding write_loop
write_loop-IsPrefix [] buf sent = ([], buf, sym (append-nil sent), refl, tt)
write_loop-IsPrefix (a ∷ rest) buf sent =
    let n = attempt_takes a.err a.room in
    or_else-IsPrefix (attempt_end a.err a (drop n buf)) n buf sent rest
      (write_loop rest (drop n buf) (sent ++ take n buf)) (attempt_end_full a.err a (drop n buf))
      (write_loop-IsPrefix rest (drop n buf) (sent ++ take n buf))

-- Whatever lwIP answers, a write puts a part of the buffer on the connection, from its start and
-- behind what was sent before; where it says that it has written, it is the whole buffer.
pub write-prefix : (buf : Bytes) (c : Conn) → IsPrefix c.sent buf (write buf c)
unfolding write
write-prefix buf c = write_loop-IsPrefix c.attempts buf c.sent
