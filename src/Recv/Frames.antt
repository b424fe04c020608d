-- ===== src/Recv/Frames.antt =====
-- What one frame of a request does: the contexts while the parts of a request arrive.
use esp32_wifi_manager.Common.{
  ℕ, zero, suc, ◌+◌, ◌≤◌, ◌<◌, ◌≡◌, refl, sym, ap, ◌∙◌, Bool, true, false, none, some, [], ◌∷◌,
  ◌++◌, Bytes, codes, length, length-append, append_assoc, take, ltb, ◌==◌, if◌then◌else◌,
  Bool-cases, inl, inr, arith,
}
use esp32_wifi_manager.Http.{Field, header_get_field}
use esp32_wifi_manager.Recv.{
  Ctx, RecvEnv, initial_ctx, max_content_size, c_str, body_at, alloc_first, alloc_more, cut_excess,
  resize, handle_request_content_len, append_frame, find_header, finish_if_full, handle_completed,
  store_frame, handle_received_buf,
}
use esp32_wifi_manager.Recv.Find.{
  body_at_part, HasNoNul, c_str-append, c_str_whole, HasNoNul-part, take-length, take_all,
}

-- The contexts while the parts of a request arrive: `p` is the text so far.
abbrev with_text : Bytes → ℕ → Ctx
with_text p size = record initial_ctx {
  req_buf = some (p ++ 0 ∷ []);
  req_buf_size = size;
  accum_len = length p;
}

-- Before the end of the header.
abbrev pub in_header : Bytes → Ctx
in_header p = with_text p (length p)

-- In the content, of which `m` bytes are announced.
abbrev pub in_content : ℕ → ℕ → Bytes → Ctx
in_content h m p = record (with_text p (h + m)) {
  header_len = h;
  content_len = m;
  expected_len = h + m;
  is_header_completed = true;
}

abbrev pub finished : ℕ → ℕ → Bytes → Ctx
finished h m p = record (in_content h m p) { is_ready = true }

append_text :
    (p f : Bytes) (c : Ctx)
    → c.req_buf ≡ some (p ++ 0 ∷ [])
    → c.accum_len ≡ length p
    → append_frame f c
      ≡ record c { req_buf = some ((p ++ f) ++ 0 ∷ []); accum_len = length (p ++ f) }
unfolding append_frame
append_text p f c b a = simp (b, a, take-length p (0 ∷ []), length-append, append_assoc)

append_first :
    (f : Bytes)
    → append_frame f (record initial_ctx { req_buf = some []; req_buf_size = length f })
      ≡ in_header f
unfolding append_frame
append_first f = ap (λ k. record (in_header f) { accum_len = k }) (omega arith)

module _ (env : RecvEnv) (h m : ℕ) (pos : 0 < m) where
  -- A frame within the content, with more to come.
  pub content_frame :
      (p f : Bytes)
      → length (p ++ f) < h + m
      → handle_received_buf env f (in_content h m p) ≡ (in_content h m (p ++ f), true)
  unfolding handle_received_buf alloc_more store_frame find_header handle_completed finish_if_full
  content_frame p f lt =
      let l = length-append {0} p f in
      let not_full : (h + m == length p) ≡ false = ground (arith, l) in
      let fits : ltb (h + m) (length p + length f) ≡ false = ground (arith, l) in
      let announced : (m == 0) ≡ false = ground arith in
      let more : ltb (length (p ++ f)) (h + m) ≡ true = ground arith in
      rw (not_full, fits, append_text p f (in_content h m p) refl refl, announced, more) refl

  -- The last one.
  pub last_frame :
      (p f : Bytes)
      → length p < h + m
      → length (p ++ f) ≡ h + m
      → handle_received_buf env f (in_content h m p) ≡ (finished h m (p ++ f), true)
  unfolding handle_received_buf alloc_more store_frame find_header handle_completed finish_if_full
  last_frame p f lt eq =
      let l = length-append {0} p f in
      let not_full : (h + m == length p) ≡ false = ground arith in
      let fits : ltb (h + m) (length p + length f) ≡ false = ground (arith, l) in
      let announced : (m == 0) ≡ false = ground arith in
      let full : ltb (length (p ++ f)) (h + m) ≡ false = ground arith in
      rw (not_full, fits, append_text p f (in_content h m p) refl refl, announced, full) refl

-- The memory that the pieces need is there.
abbrev pub HasMemory : RecvEnv → Type 0
HasMemory env = (n : ℕ) → env.mem_ok n ≡ true

-- What is known of a request: `head` ends with the first empty line, and announces a content of
-- `body`, which is not empty.
pub record IsRequest (env : RecvEnv) (head body : Bytes) (field : Field) : Type 0 where
  pub no_nul : HasNoNul (head ++ body)
  pub head_end : body_at (head ++ body) ≡ some (length head)
  pub head_field : header_get_field head (codes "Content-Length:") ≡ some field
  pub announces : env.strtoul field.ptr ≡ length body
  pub not_empty : 0 < length body
  pub small : length body ≤ 11434

module _ (env : RecvEnv) (mem : HasMemory env) (head body : Bytes) (field : Field)
    (req : IsRequest env head body field) where
  -- The header is complete: the buffer gets the size of the request.
  content_known :
      (t : Bytes)
      → length t ≤ length head + length body
      → handle_request_content_len env
          (length body)
          (record (in_header t) { header_len = length head; is_header_completed = true })
        ≡ (in_content (length head) (length body) t, true)
  unfolding handle_request_content_len cut_excess resize
  content_known t le =
      let n = length head + length body in
      let allowed : ltb max_content_size (length body) ≡ false = ground (arith, req.small) in
      let no_excess : ltb n (length t) ≡ false = ground arith in
      let kept : take n (t ++ 0 ∷ []) ≡ take n (t ++ 0 ∷ []) = refl in
      elim (Bool-cases (length t == n)) [
        | inl eq ↦
            let same : length t ≡ n = ground (arith, eq) in
            rw (allowed, no_excess, eq)
              (ap
                (λ k.
                  (record (in_content (length head) (length body) t) { req_buf_size = k }, true))
                same)
        | inr ne ↦
            let all =
              take_all (suc n) (t ++ 0 ∷ []) (omega (arith, length-append {0} t (0 ∷ []))) in
            rw (allowed, no_excess, ne, mem (suc n), all) refl
      ]

  take_part : (n : ℕ) (t u : Bytes) → n ≤ length t → take n (t ++ u) ≡ take n t
  take_part zero t u le = refl
  take_part (suc n) [] u le = absurd (omega arith)
  take_part (suc n) (x ∷ t) u le = ap (λ r. x ∷ r) (take_part n t u (omega arith))

  head_part :
      (t q : Bytes)
      → t ++ q ≡ head ++ body
      → length head ≤ length t
      → c_str (take (length head) (t ++ 0 ∷ [])) ≡ head
  head_part t q e le =
      ap c_str (
        take_part (length head) t (0 ∷ []) le
        ∙ sym (take_part (length head) t q le)
        ∙ ap (take (length head)) e
        ∙ take-length head body)
      ∙ c_str_whole head (HasNoNul-part head body req.no_nul)

  -- What the header's end leads to, with the content so far in `t`.
  abbrev pub outcome : Bytes → Ctx × Bool
  outcome t =
      if ltb (length t) (length head + length body)
      then (in_content (length head) (length body) t, true)
      else (finished (length head) (length body) t, true)

  handle_head :
      (t q : Bytes)
      → t ++ q ≡ head ++ body
      → length head ≤ length t
      → handle_completed env
          (record (in_header t) { header_len = length head; is_header_completed = true })
        ≡ outcome t
  unfolding handle_completed finish_if_full
  handle_head t q e le =
      let within : length t ≤ length head + length body =
        omega (arith, ap length e, length-append {0} t q, length-append {0} head body) in
      rw (head_part t q e le, req.head_field, req.announces, content_known t within) refl

  part_no_nul : (t q : Bytes) → t ++ q ≡ head ++ body → HasNoNul t
  part_no_nul t q e = HasNoNul-part t q (rw e req.no_nul)

  -- A frame is stored while the header is not complete; `c` has the room for it.
  store_header :
      (f t q : Bytes) (c : Ctx)
      → t ++ q ≡ head ++ body
      → ltb c.req_buf_size (c.accum_len + length f) ≡ false
      → append_frame f c ≡ in_header t
      → store_frame env f c
        ≡ (if ltb (length t) (length head) then (in_header t, true) else outcome t)
  unfolding store_frame find_header
  store_header f t q c e room app =
      let text = c_str-append t [] (part_no_nul t q e) in
      let found = body_at_part t q (length head) (ap body_at e ∙ req.head_end) in
      elim (Bool-cases (ltb (length t) (length head))) [
        | inl lt ↦
            let none_yet : body_at t ≡ none = found.1 (ground arith) in
            rw (room, app, text, none_yet, lt) refl
        | inr ge ↦
            let le : length head ≤ length t = ground arith in
            rw (room, app, text, found.0 le, ge) (handle_head t q e le)
      ]

  abbrev pub stored : Bytes → Ctx × Bool
  stored t = if ltb (length t) (length head) then (in_header t, true) else outcome t

  pub first_frame :
      (f q : Bytes)
      → f ++ q ≡ head ++ body
      → length f ≤ 4096
      → handle_received_buf env f initial_ctx ≡ stored f
  unfolding handle_received_buf alloc_first
  first_frame f q e le =
      let c = record initial_ctx { req_buf = some []; req_buf_size = length f } in
      let allowed : ltb 4096 (length f) ≡ false = ground arith in
      rw (allowed, mem (suc (length f))) (store_header f f q c e (ground arith) (append_first f))

  pub header_frame :
      (p f q : Bytes)
      → (p ++ f) ++ q ≡ head ++ body
      → length p + length f ≤ 4096
      → handle_received_buf env f (in_header p) ≡ stored (p ++ f)
  unfolding handle_received_buf alloc_more
  header_frame p f q e le =
      let c = with_text p (length p + length f) in
      let allowed : ltb 4096 (length p + length f) ≡ false = ground arith in
      let full : (length p == length p) ≡ true = ground arith in
      rw (full, allowed, mem (suc (length p + length f)))
        (store_header f (p ++ f) q c e (ground arith) (
          append_text p f c refl refl
          ∙ ap (λ k. record (with_text (p ++ f) k) { req_buf = some ((p ++ f) ++ 0 ∷ []) })
              (sym (length-append {0} p f))))
