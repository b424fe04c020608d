-- ===== src/Recv/EndsKept.antt =====
-- The steps of the reception keep the end of the text in its place (src/http_server_accept_and_handle_conn.c).
use esp32_wifi_manager.Common.{
  ℕ, suc, ◌+◌, ◌≤◌, ◌<◌, ◌≡◌, refl, ◌∙◌, sym, inl, inr, Bool, true, false, Option, none, some, [],
  ◌∷◌, ◌++◌, Bytes, codes, length, length-append, append_assoc, take, ltb, ◌==◌, if◌then◌else◌,
  is_some, Bool-cases, arith,
}
use mathlib.Core.Path.{subst}
use esp32_wifi_manager.Http.{Field, header_get_field}
use esp32_wifi_manager.Recv.{
  Ctx, RecvEnv, max_content_size, c_str, body_at, cells, alloc_first, alloc_more, alloc, cut_excess,
  resize, handle_request_content_len, append_frame, note_body, find_header, finish_if_full,
  finish_content, on_content_len, handle_completed, store_frame, store_if, handle_received_buf,
}
use esp32_wifi_manager.Recv.Sizes.{IsFresh}
use esp32_wifi_manager.Recv.Ends.{
  Ends, EndsIn, Ends-mono, Ends-le, length-take, le-length-take, get_elem?-take, get_elem?-end,
}

append_frame-Ends :
    (frame b : Bytes) (n : ℕ) (c : Ctx)
    → c.req_buf ≡ some b
    → c.accum_len ≤ n
    → c.accum_len ≤ length b
    → EndsIn (n + length frame) (append_frame frame c)
unfolding append_frame
append_frame-Ends frame b n c e le inside =
    let t = take c.accum_len (cells c.req_buf) ++ frame in
    let taken : length (take c.accum_len (cells c.req_buf)) ≡ c.accum_len =
      length-take c.accum_len (cells c.req_buf) (rw e inside) in
    let size : length t ≡ c.accum_len + length frame =
      omega (arith, taken, length-append {0} (take c.accum_len (cells c.req_buf)) frame) in
    let joined = append_assoc (take c.accum_len (cells c.req_buf)) frame (0 ∷ []) in
    (
      omega arith,
      rw (← joined) (omega (arith, size, length-append {0} t (0 ∷ []))),
      inl (rw (← joined, ← size) (get_elem?-end t)),
    )

note_body-same :
    (o : Option ℕ) (c : Ctx)
    → ((note_body o c).req_buf ≡ c.req_buf) × ((note_body o c).accum_len ≡ c.accum_len)
note_body-same none c = (refl, refl)
note_body-same (some n) c = (refl, refl)

if-EndsIn : (n : ℕ) (b : Bool) (c d : Ctx) → EndsIn n c → EndsIn n d → EndsIn n (if b then c else d)
if-EndsIn n true c d hc hd = hc
if-EndsIn n false c d hc hd = hd

note_body-EndsIn : (n : ℕ) (o : Option ℕ) (c : Ctx) → EndsIn n c → EndsIn n (note_body o c)
note_body-EndsIn n none c h = h
note_body-EndsIn n (some k) c h = h

find_header-EndsIn : (n : ℕ) (c : Ctx) → EndsIn n c → EndsIn n (find_header c)
unfolding find_header
find_header-EndsIn n c h =
    if-EndsIn n c.is_header_completed c _ h
      (note_body-EndsIn n (body_at (c_str (cells c.req_buf))) c h)

take_expected :
    (n a e : ℕ) (o : Option Bytes)
    → is_some o ≡ true
    → a ≤ e
    → Ends n o a
    → Ends n (some (take (suc e) (cells o))) a
take_expected n a e none s le h = cc
take_expected n a e (some b) s le (h, inside, inl ended) = (
  h,
  le-length-take a (suc e) b inside (omega arith),
  inl (get_elem?-take a (suc e) b (omega arith) ∙ ended),
)
take_expected n a e (some b) s le (h, inside, inr cut) =
    (h, le-length-take a (suc e) b inside (omega arith), inr cut)

cut_Ends : (n a e : ℕ) (o : Option Bytes) → e < a → Ends n o a → Ends n o e
cut_Ends n a e none lt h = omega (arith, h)
cut_Ends n a e (some b) lt (h, inside, _) = (omega arith, omega arith, inr (omega arith))

module _ (env : RecvEnv) (n : ℕ) where
  abbrev Keeps : Ctx × Bool → Type 0
  Keeps r = EndsIn n r.0

  if-Keeps : (b : Bool) (r s : Ctx × Bool) → Keeps r → Keeps s → Keeps (if b then r else s)
  if-Keeps true r s hr hs = hr
  if-Keeps false r s hr hs = hs

  resize-Keeps :
      (c : Ctx)
      → is_some c.req_buf ≡ true
      → c.accum_len ≤ c.expected_len
      → EndsIn n c
      → Keeps (resize env c)
  unfolding resize
  resize-Keeps c s le h = if-Keeps (c.req_buf_size == c.expected_len) _ _ h (
      if-Keeps (env.mem_ok (suc c.expected_len)) _ _
        (take_expected n c.accum_len c.expected_len c.req_buf s le h)
        (Ends-le n c.req_buf c.accum_len h))

  cut_and_resize :
      (c : Ctx) → is_some c.req_buf ≡ true → EndsIn n c → Keeps (resize env (cut_excess c))
  unfolding cut_excess
  cut_and_resize c s h = elim (Bool-cases (ltb c.expected_len c.accum_len)) [
    | inl more ↦
        let lt : c.expected_len < c.accum_len = ground arith in
        simp more (
          resize-Keeps (record c { accum_len = c.expected_len }) s (omega arith)
            (cut_Ends n c.accum_len c.expected_len c.req_buf lt h))
    | inr all ↦ simp all (resize-Keeps c s (ground arith) h)
  ]

  content_len-Keeps :
      (m : ℕ) (c : Ctx)
      → is_some c.req_buf ≡ true
      → EndsIn n c
      → Keeps (handle_request_content_len env m c)
  unfolding handle_request_content_len
  content_len-Keeps m c s h =
      if-Keeps (ltb max_content_size m) _ _ h
        (cut_and_resize (record c { content_len = m; expected_len = c.header_len + m }) s h)

  finish_if_full-Keeps : (c : Ctx) → EndsIn n c → Keeps (finish_if_full c)
  unfolding finish_if_full
  finish_if_full-Keeps c h = if-Keeps (ltb c.accum_len c.expected_len) _ _ h h

  finish_content-Keeps : (r : Ctx × Bool) → Keeps r → Keeps (finish_content r)
  finish_content-Keeps (c, true) h = finish_if_full-Keeps c h
  finish_content-Keeps (c, false) h = h

  on_content_len-Keeps :
      (o : Option Field) (c : Ctx)
      → is_some c.req_buf ≡ true
      → EndsIn n c
      → Keeps (on_content_len env o c)
  on_content_len-Keeps none c s h = h
  on_content_len-Keeps (some f) c s h =
      finish_content-Keeps _ (content_len-Keeps (env.strtoul f.ptr) c s h)

  handle_completed-Keeps :
      (c : Ctx) → is_some c.req_buf ≡ true → EndsIn n c → Keeps (handle_completed env c)
  unfolding handle_completed
  handle_completed-Keeps c s h =
      if-Keeps (c.content_len == 0) _ _
        (on_content_len-Keeps
          (header_get_field (c_str (take c.header_len (cells c.req_buf))) (codes "Content-Length:"))
          c s h)
        (finish_if_full-Keeps c h)

note_body-is_some : (o : Option ℕ) (c : Ctx) → is_some (note_body o c).req_buf ≡ is_some c.req_buf
note_body-is_some none c = refl
note_body-is_some (some k) c = refl

find_header-is_some : (c : Ctx) → is_some c.req_buf ≡ true → is_some (find_header c).req_buf ≡ true
unfolding find_header
find_header-is_some c s = elim (Bool-cases c.is_header_completed) [
  | inl e ↦ simp e s
  | inr e ↦ simp e (note_body-is_some (body_at (c_str (cells c.req_buf))) c ∙ s)
]

first_fits : (a k : ℕ) → ltb k (a + k) ≡ true → a ≡ 0 → ⊥
first_fits a k full empty = ground arith

Ends-of_some :
    (n : ℕ) (b : Bytes) (c : Ctx) → c.req_buf ≡ some b → EndsIn n c → Ends n (some b) c.accum_len
Ends-of_some n b c e h = subst (λ o. Ends n o c.accum_len) e h

module _ (env : RecvEnv) (frame : Bytes) (n : ℕ) where
  store_frame-Keeps :
      (b : Bytes) (c : Ctx)
      → c.req_buf ≡ some b
      → c.accum_len ≤ n
      → c.accum_len ≤ length b
      → (ltb c.req_buf_size (c.accum_len + length frame) ≡ true → EndsIn (n + length frame) c)
      → EndsIn (n + length frame) (store_frame env frame c).0
  unfolding store_frame
  store_frame-Keeps b c e le inside no_room =
      let c' = find_header (append_frame frame c) in
      let there : is_some c'.req_buf ≡ true =
        find_header-is_some (append_frame frame c) (unfold append_frame in refl) in
      let h =
        find_header-EndsIn (n + length frame) (append_frame frame c)
          (append_frame-Ends frame b n c e le inside) in
      elim (Bool-cases (ltb c.req_buf_size (c.accum_len + length frame))) [
        | inl full ↦ simp full (no_room full)
        | inr room ↦ simp room (
            if-Keeps env (n + length frame) c'.is_header_completed _ _
              (handle_completed-Keeps env (n + length frame) c' there h) h)
      ]

  first-Keeps :
      (c : Ctx)
      → c.req_buf ≡ none
      → c.accum_len ≡ 0
      → EndsIn (n + length frame) (store_if env frame (alloc_first env (length frame) c)).0
  unfolding alloc_first
  first-Keeps c e empty =
      let c' = record c { is_header_completed = false } in
      let nothing : EndsIn (n + length frame) c' =
        subst (λ o. Ends (n + length frame) o c.accum_len) (sym e) (omega (arith, empty)) in
      elim (Bool-cases (ltb 4096 (length frame))) [
        | inl big ↦ simp big nothing
        | inr small ↦ elim (Bool-cases (env.mem_ok (suc (length frame)))) [
          | inr no_memory ↦ simp (small, no_memory) nothing
          | inl memory ↦
              simp (small, memory)
                (store_frame-Keeps [] (record c' { req_buf = some []; req_buf_size = length frame })
                  refl (omega (arith, empty)) (omega (arith, empty))
                  (λ full. absurd (first_fits c.accum_len (length frame) full empty)))
        ]
      ]

  more-Keeps :
      (b : Bytes) (c : Ctx)
      → c.req_buf ≡ some b
      → EndsIn n c
      → EndsIn (n + length frame) (store_if env frame (alloc_more env (length frame) c)).0
  unfolding alloc_more
  more-Keeps b c e h =
      let (le, inside, _) = Ends-of_some n b c e h in
      let later : EndsIn (n + length frame) c =
        Ends-mono n (n + length frame) c.req_buf c.accum_len (omega arith) h in
      elim (Bool-cases (c.req_buf_size == c.accum_len)) [
        | inr room ↦ simp room (store_frame-Keeps b c e le inside (λ _. later))
        | inl full ↦ elim (Bool-cases (ltb 4096 (c.req_buf_size + length frame))) [
          | inl big ↦ simp (full, big) later
          | inr small ↦ elim (Bool-cases (env.mem_ok (suc (c.req_buf_size + length frame)))) [
            | inr no_memory ↦ simp (full, small, no_memory) (omega (arith, le))
            | inl memory ↦
                simp (full, small, memory)
                  (store_frame-Keeps b (record c { req_buf_size = c.req_buf_size + length frame }) e
                    le inside (λ _. later))
          ]
        ]
      ]

  alloc-Keeps :
      (o : Option Bytes) (c : Ctx)
      → c.req_buf ≡ o
      → IsFresh c
      → EndsIn n c
      → EndsIn (n + length frame) (store_if env frame (alloc env o (length frame) c)).0
  alloc-Keeps none c e f h =
      first-Keeps c e
        (subst (λ (o : Option Bytes). (if is_some o then 0 else c.accum_len) ≡ 0) e f.empty)
  alloc-Keeps (some b) c e f h = more-Keeps b c e h

  pub handle_received_buf-Keeps :
      (c : Ctx)
      → IsFresh c
      → EndsIn n c
      → EndsIn (n + length frame) (handle_received_buf env frame c).0
  unfolding handle_received_buf
  handle_received_buf-Keeps c f h = alloc-Keeps c.req_buf c refl f h
