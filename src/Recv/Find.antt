-- ===== src/Recv/Find.antt =====
-- The end of the header, as it is found in the part of a request that has arrived.
use mathlib.Core.Option
use esp32_wifi_manager.Common.{
  ℕ, zero, suc, ◌≤◌, ◌<◌, ◌≡◌, ◌≢◌, refl, sym, ap, ◌∙◌, true, false, Option, none, some, [], ◌∷◌,
  ◌++◌, Bytes, length, take, All, ◌==◌, Bool-cases, inl, inr, arith,
}
use esp32_wifi_manager.Http.{starts_with}
use esp32_wifi_manager.Recv.{crlf_crlf, c_str, body_at}

starts_with-append :
    (p u v : Bytes) → length p ≤ length u → starts_with p (u ++ v) ≡ starts_with p u
unfolding starts_with
starts_with-append [] u v h = refl
starts_with-append (x ∷ p) [] v h = absurd (omega arith)
starts_with-append (x ∷ p) (y ∷ u) v h = ground (arith, starts_with-append p u v)

starts_with_short : (p u : Bytes) → length u < length p → starts_with p u ≡ false
unfolding starts_with
starts_with_short [] u h = absurd (omega arith)
starts_with_short (x ∷ p) [] h = refl
starts_with_short (x ∷ p) (y ∷ u) h = ground (arith, starts_with_short p u)

body_at_short : (u : Bytes) → length u < 4 → body_at u ≡ none
unfolding body_at
body_at_short [] h = refl
body_at_short (c ∷ u) h =
    rw (starts_with_short crlf_crlf (c ∷ u) h, body_at_short u (omega arith)) refl

-- What `body_at` says of a part, where the end of the header is at `n` in the whole.
abbrev Agrees : Bytes → ℕ → Type 0
Agrees u n = (n ≤ length u → body_at u ≡ some n) × (length u < n → body_at u ≡ none)

Agrees-head : (c : ℕ) (u v : Bytes) → starts_with crlf_crlf (c ∷ (u ++ v)) ≡ true → Agrees (c ∷ u) 4
unfolding body_at
Agrees-head c u v h = (
  λ le. rw (sym (starts_with-append crlf_crlf (c ∷ u) v le) ∙ h) refl,
  λ lt. body_at_short (c ∷ u) lt,
)

starts_with_part : (p u v : Bytes) → starts_with p (u ++ v) ≡ false → starts_with p u ≡ false
unfolding starts_with
starts_with_part [] u v h = h
starts_with_part (x ∷ p) [] v h = refl
starts_with_part (x ∷ p) (y ∷ u) v h = ground (arith, starts_with_part p u v)

Agrees-tail :
    (c : ℕ) (u : Bytes) (n : ℕ)
    → starts_with crlf_crlf (c ∷ u) ≡ false
    → Agrees u n
    → Agrees (c ∷ u) (suc n)
unfolding body_at
Agrees-tail c u n h (yes_, no_) =
    (λ le. rw (h, yes_ (omega arith)) refl, λ lt. rw (h, no_ (omega arith)) refl)

map-suc : (o : Option ℕ) (n : ℕ) → Option.map suc o ≡ some n → (m : ℕ) × (o ≡ some m) × (n ≡ suc m)
map-suc none n h = cc
map-suc (some m) n h = (m, refl, ground arith)

body_at_cons :
    (c : ℕ) (s : Bytes)
    → starts_with crlf_crlf (c ∷ s) ≡ false
    → body_at (c ∷ s) ≡ Option.map suc (body_at s)
unfolding body_at
body_at_cons c s h = rw h refl

body_at_found :
    (c : ℕ) (s : Bytes) → starts_with crlf_crlf (c ∷ s) ≡ true → body_at (c ∷ s) ≡ some 4
unfolding body_at
body_at_found c s h = rw h refl

absurd_none : (n : ℕ) → body_at [] ≡ some n → 0 < n
unfolding body_at
absurd_none n h = cc

body_at_pos : (s : Bytes) (n : ℕ) → body_at s ≡ some n → 0 < n
body_at_pos [] n h = absurd_none n h
body_at_pos (c ∷ s) n h = elim (Bool-cases (starts_with crlf_crlf (c ∷ s))) [
  | inl e ↦ let four : 4 ≡ n = ground (arith, h, body_at_found c s e) in omega arith
  | inr e ↦
      let (m, k, eq) = map-suc (body_at s) n (sym (body_at_cons c s e) ∙ h) in omega (arith, eq)
]

pub body_at_part : (u v : Bytes) (n : ℕ) → body_at (u ++ v) ≡ some n → Agrees u n
body_at_part [] v n h =
    (λ le. absurd (omega (arith, body_at_pos v n h)), λ lt. unfold body_at in refl)
body_at_part (c ∷ u) v n h = elim (Bool-cases (starts_with crlf_crlf (c ∷ (u ++ v)))) [
  | inl e ↦
      let four : 4 ≡ n = ground (arith, h, body_at_found c (u ++ v) e) in
      rw (← four) (Agrees-head c u v e)
  | inr e ↦
      let (m, k, eq) = map-suc (body_at (u ++ v)) n (sym (body_at_cons c (u ++ v) e) ∙ h) in
      rw eq (Agrees-tail c u m (starts_with_part crlf_crlf (c ∷ u) v e) (body_at_part u v m k))
]

-- A text without a 0 is read whole.
abbrev pub HasNoNul : Bytes → Type 0
HasNoNul = All (λ c. c ≢ 0)

pub c_str-append : (s t : Bytes) → HasNoNul s → c_str (s ++ 0 ∷ t) ≡ s
unfolding c_str
c_str-append [] t h = refl
c_str-append (c ∷ s) t h =
    let c_ne : (c == 0) ≡ false = ground (arith, h.0) in
    rw c_ne (ap (λ r. c ∷ r) (c_str-append s t h.1))

pub c_str_whole : (s : Bytes) → HasNoNul s → c_str s ≡ s
unfolding c_str
c_str_whole [] h = refl
c_str_whole (c ∷ s) h =
    let c_ne : (c == 0) ≡ false = ground (arith, h.0) in
    rw c_ne (ap (λ r. c ∷ r) (c_str_whole s h.1))

pub HasNoNul-part : (s t : Bytes) → HasNoNul (s ++ t) → HasNoNul s
HasNoNul-part [] t h = tt
HasNoNul-part (c ∷ s) t h = (h.0, HasNoNul-part s t h.1)

pub take-length : (s t : Bytes) → take (length s) (s ++ t) ≡ s
take-length [] t = refl
take-length (c ∷ s) t = ap (λ r. c ∷ r) (take-length s t)

pub take_all : (n : ℕ) (s : Bytes) → length s ≤ n → take n s ≡ s
take_all zero [] h = refl
take_all zero (x ∷ s) h = ground arith
take_all (suc n) [] h = refl
take_all (suc n) (x ∷ s) h = ap (λ t. x ∷ t) (take_all n s (omega arith))
