-- ===== src/Recv/Whole.antt =====
-- A request that arrives in pieces: however it is divided, it is put together byte for byte.
use esp32_wifi_manager.Common.{
  ℕ, ◌+◌, ◌≤◌, ◌<◌, ◌≡◌, refl, sym, ap, ◌∙◌, Bool, true, false, List, [], ◌∷◌, ◌++◌, Bytes, length,
  length-append, append_assoc, take, All, ltb, if◌then◌else◌, Bool-cases, inl, inr, arith,
}
use esp32_wifi_manager.Http.{Field}
use esp32_wifi_manager.Recv.{
  Ctx, RecvEnv, initial_ctx, NetEvent, netbuf, handle_received_buf, recv_fragments, recv_and_handle,
  serve,
}
use esp32_wifi_manager.Recv.Find.{take-length, take_all}
use esp32_wifi_manager.Recv.Frames.{
  in_header, in_content, finished, HasMemory, IsRequest, content_frame, last_frame, first_frame,
  header_frame, outcome, stored,
}

abbrev pub concat : List Bytes → Bytes
concat [] = []
concat (f ∷ fs) = f ++ concat fs

-- Each frame comes in a netbuf of its own.
abbrev pub events : List Bytes → List NetEvent
events [] = []
events (f ∷ fs) = netbuf (f ∷ []) ∷ events fs

if_running : (c x : Ctx) (b : Bool) → b ≡ false → (if b then c else x) ≡ x
if_running c x true h = cc
if_running c x false h = refl

serve_step :
    (env : RecvEnv) (f : Bytes) (fs : List Bytes) (c x : Ctx)
    → c.is_ready ≡ false
    → handle_received_buf env f c ≡ (x, true)
    → serve env (events (f ∷ fs)) c ≡ serve env (events fs) x
unfolding serve recv_and_handle recv_fragments
serve_step env f fs c x r e = rw e (if_running c _ c.is_ready r)

serve_ready :
    (env : RecvEnv) (fs : List Bytes) (c : Ctx) → c.is_ready ≡ true → serve env (events fs) c ≡ c
unfolding serve
serve_ready env [] c r = refl
serve_ready env (f ∷ fs) c r = ground arith

whole_part : (t q w : Bytes) → t ++ q ≡ w → length t ≡ length w → t ≡ w
whole_part t q w e l =
    sym (take-length t q) ∙ ap (take (length t)) e ∙ take_all (length t) w (omega arith)

lt_of_ltb : (a b : ℕ) → ltb a b ≡ true → a < b
lt_of_ltb a b h = ground arith

ltb_of_le : (a b : ℕ) → b ≤ a → ltb a b ≡ false
ltb_of_le a b h = ground arith

le_of_ltb : (a b : ℕ) → ltb a b ≡ false → b ≤ a
le_of_ltb a b h = ground arith

module _ (env : RecvEnv) (mem : HasMemory env) (head body : Bytes) (field : Field)
    (req : IsRequest env head body field) where
  abbrev complete : Ctx
  complete = finished (length head) (length body) (head ++ body)

  total : length (head ++ body) ≡ length head + length body
  total = length-append {0} head body

  -- A part that has the whole length is the whole.
  finish_run :
      (t : Bytes) (fs : List Bytes)
      → t ++ concat fs ≡ head ++ body
      → length head + length body ≤ length t
      → serve env (events fs) (finished (length head) (length body) t) ≡ complete
  finish_run t fs e le =
      let l : length t ≡ length (head ++ body) =
        omega (arith, ap length e, length-append {0} t (concat fs), total) in
      serve_ready env fs _ refl
      ∙ ap (finished (length head) (length body)) (whole_part t (concat fs) (head ++ body) e l)

  content_run :
      (fs : List Bytes) (p : Bytes)
      → p ++ concat fs ≡ head ++ body
      → length p < length head + length body
      → serve env (events fs) (in_content (length head) (length body) p) ≡ complete
  content_run [] p e lt = absurd (omega (arith, ap length e, length-append {0} p [], total))
  content_run (f ∷ fs) p e lt =
      let h = length head in
      let m = length body in
      let e' : (p ++ f) ++ concat fs ≡ head ++ body = append_assoc p f (concat fs) ∙ e in
      elim (Bool-cases (ltb (length (p ++ f)) (h + m))) [
        | inl more ↦
            serve_step env f fs (in_content h m p) (in_content h m (p ++ f)) refl
              (content_frame env h m req.not_empty p f (ground arith))
            ∙ content_run fs (p ++ f) e' (ground arith)
        | inr last ↦
            let eq : length (p ++ f) ≡ h + m = omega (
              arith,
              le_of_ltb (length (p ++ f)) (h + m) last,
              ap length e',
              length-append {0} (p ++ f) (concat fs),
              total,
            ) in
            serve_step env f fs (in_content h m p) (finished h m (p ++ f)) refl
              (last_frame env h m req.not_empty p f lt eq)
            ∙ finish_run (p ++ f) fs e' (omega (arith, eq))
      ]

  -- Behind the frame that ends the header.
  outcome_run :
      (c : Ctx) (f t : Bytes) (fs : List Bytes)
      → c.is_ready ≡ false
      → t ++ concat fs ≡ head ++ body
      → handle_received_buf env f c ≡ outcome env mem head body field req t
      → serve env (events (f ∷ fs)) c ≡ complete
  outcome_run c f t fs r e h = elim (Bool-cases (ltb (length t) (length head + length body))) [
    | inl more ↦
        serve_step env f fs c (in_content (length head) (length body) t) r (h ∙ rw more refl)
        ∙ content_run fs t e (ground arith)
    | inr last ↦
        serve_step env f fs c (finished (length head) (length body) t) r (h ∙ rw last refl)
        ∙ finish_run t fs e (le_of_ltb (length t) (length head + length body) last)
  ]

  -- The largest frame, for which there is room behind any part of the header.
  module _ (frame_max : ℕ) (room : length head + frame_max ≤ 4096) where
    abbrev IsSmallFrame : Bytes → Type 0
    IsSmallFrame f = length f ≤ frame_max

    stored_run :
        (fs : List Bytes) (p f : Bytes) (c : Ctx)
        → c.is_ready ≡ false
        → p ++ concat fs ≡ head ++ body
        → All IsSmallFrame fs
        → handle_received_buf env f c ≡ stored env mem head body field req p
        → serve env (events (f ∷ fs)) c ≡ complete
    stored_run [] p f c r e small h =
        let ge : ltb (length p) (length head) ≡ false =
          ltb_of_le (length p) (length head)
            (omega (arith, ap length e, length-append {0} p [], total)) in
        outcome_run c f p [] r e (h ∙ rw ge refl)
    stored_run (g ∷ fs) p f c r e small h = elim (Bool-cases (ltb (length p) (length head))) [
      | inl lt ↦
          serve_step env f (g ∷ fs) c (in_header p) r (h ∙ rw lt refl)
          ∙ stored_run fs (p ++ g) g (in_header p) refl (append_assoc p g (concat fs) ∙ e) small.1 (
              header_frame env mem head body field req p g (concat fs)
                (append_assoc p g (concat fs) ∙ e)
                (omega (arith, lt_of_ltb (length p) (length head) lt, small.0)))
      | inr ge ↦ outcome_run c f p (g ∷ fs) r e (h ∙ rw ge refl)
    ]

-- However a request with a content is divided into frames, the server ends with the same context:
-- ready, with the header's length, the content's length and the whole text with its terminator in
-- the buffer. That is under the conditions that memory is there, that the first frame has at most
-- 4096 bytes, that the others are so small that each finds room behind a part of the header, and
-- that the header announces the content that is sent.
pub serve_frames :
    (env : RecvEnv) (mem : HasMemory env) (head body : Bytes) (field : Field)
    (req : IsRequest env head body field) (frame_max : ℕ) (f : Bytes) (fs : List Bytes)
    → length head + frame_max ≤ 4096
    → length f ≤ 4096
    → All (λ g. length g ≤ frame_max) fs
    → f ++ concat fs ≡ head ++ body
    → serve env (events (f ∷ fs)) initial_ctx ≡ finished (length head) (length body) (head ++ body)
serve_frames env mem head body field req frame_max f fs room le small e =
    stored_run env mem head body field req frame_max room fs f f initial_ctx refl e small
      (first_frame env mem head body field req f (concat fs) e le)
