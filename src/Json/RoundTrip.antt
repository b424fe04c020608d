-- ===== src/Json/RoundTrip.antt =====
-- The texts of Json read back: strings, numbers, and the list of access points.
use esp32_wifi_manager.Common.{
  ℕ, zero, suc, ◌+◌, ◌*◌, ◌/◌, ◌%◌, ◌≤◌, ◌<◌, ◌≡◌, refl, ap, ◌∙◌, inl, inr, Bool, true, false, ◌||◌,
  none, some, List, [], ◌∷◌, ◌++◌, append_assoc, Bytes, codes, length, take, All, ltb, leb, ◌==◌,
  ==_iff, Bool-cases, if◌then◌else◌, arith,
}
use esp32_wifi_manager.Common.Int.{ℤ, pos, negsuc}
use esp32_wifi_manager.AccessPoints.{ApRecord}
use esp32_wifi_manager.Json.{
  hex_digit, print_char, print_chars, print_escaped_string, decimal, print_int, print_ap, print_aps,
  access_points_generate,
}
use esp32_wifi_manager.Json.Read.{
  normal, hex, emit, hex_value, unescape, advance, prepend, read_chars, is_digit, read_digits,
  read_nat, read_int, expect, positive, negative, read_ap, read_aps, read_list,
}

hex_value-hex_digit : (d : ℕ) → d < 16 → hex_value (hex_digit d) ≡ some d
unfolding hex_value hex_digit
hex_value-hex_digit d h = ground arith

unescape_self : (c : ℕ) → ((c == b'\\') || (c == b'"')) ≡ true → unescape c ≡ emit c
unfolding unescape
unescape_self c h = ground arith

advance_plain :
    (c : ℕ) → ((c == b'\\') || (c == b'"')) ≡ false → leb 32 c ≡ true → advance normal c ≡ emit c
unfolding advance
advance_plain c h k = ground arith

zero_times : (n : ℕ) → 0 * 16 + n ≡ n
zero_times n = omega arith

read_hex :
    (h l : ℕ) (r : Bytes)
    → h < 16
    → l < 16
    → read_chars (hex 1 0) (hex_digit h ∷ hex_digit l ∷ r)
      ≡ prepend (h * 16 + l) (read_chars normal r)
unfolding read_chars
read_hex h l r hh hl = rw (hex_value-hex_digit h hh, zero_times h, hex_value-hex_digit l hl)

-- Whether a text reads as the byte `c`, whatever follows.
abbrev ReadsAs : ℕ → Bytes → Type 0
ReadsAs c t = (r : Bytes) → read_chars normal (t ++ r) ≡ prepend c (read_chars normal r)

if_ReadsAs :
    (c : ℕ) (b : Bool) (x y : Bytes)
    → (b ≡ true → ReadsAs c x)
    → (b ≡ false → ReadsAs c y)
    → ReadsAs c (if b then x else y)
if_ReadsAs c true x y hx hy = hx refl
if_ReadsAs c false x y hx hy = hy refl

-- A short escape of one certain byte.
short_ReadsAs : (c d e : ℕ) → unescape e ≡ emit d → (c == d) ≡ true → ReadsAs c (b'\\' ∷ e ∷ [])
unfolding read_chars advance
short_ReadsAs c d e u h r = rw (u, (==_iff c d).0 h) refl

self_ReadsAs : (c : ℕ) → ((c == b'\\') || (c == b'"')) ≡ true → ReadsAs c (b'\\' ∷ c ∷ [])
unfolding read_chars advance
self_ReadsAs c h r = rw (unescape_self c h) refl

plain_ReadsAs :
    (c : ℕ) → ((c == b'\\') || (c == b'"')) ≡ false → leb 32 c ≡ true → ReadsAs c (c ∷ [])
unfolding read_chars
plain_ReadsAs c h k r = rw (advance_plain c h k) refl

control_ReadsAs :
    (c : ℕ)
    → leb 32 c ≡ false
    → ReadsAs c (b'\\' ∷ b'u' ∷ b'0' ∷ b'0' ∷ hex_digit (c / 16) ∷ hex_digit (c % 16) ∷ [])
unfolding read_chars advance unescape hex_value
control_ReadsAs c h r =
    let lt : c < 32 = ground arith in
    read_hex (c / 16) (c % 16) r (omega arith) (omega arith)
    ∙ ap (λ d. prepend d (read_chars normal r)) (omega arith)

print_char-ReadsAs : (c : ℕ) → ReadsAs c (print_char c)
unfolding print_char unescape
print_char-ReadsAs c = if_ReadsAs c _ _ _ (self_ReadsAs c) λ q.
    if_ReadsAs c _ _ _ (short_ReadsAs c 8 b'b' refl) λ _.
      if_ReadsAs c _ _ _ (short_ReadsAs c 12 b'f' refl) λ _.
        if_ReadsAs c _ _ _ (short_ReadsAs c 10 b'n' refl) λ _.
          if_ReadsAs c _ _ _ (short_ReadsAs c 13 b'r' refl) λ _.
            if_ReadsAs c _ _ _ (short_ReadsAs c 9 b't' refl)
              λ _. if_ReadsAs c _ _ _ (plain_ReadsAs c q) (control_ReadsAs c)

-- Any string reads back from its escaped text, up to the closing quote, and the rest is left.
pub read-print_chars : (s rest : Bytes) → read_chars normal (print_chars s ++ rest) ≡ some (s, rest)
unfolding print_chars
read-print_chars [] rest = unfold read_chars advance in refl
read-print_chars (c ∷ s) rest =
    ap (read_chars normal) (append_assoc (print_char c) (print_chars s) rest)
    ∙ print_char-ReadsAs c (print_chars s ++ rest)
    ∙ ap (prepend c) (read-print_chars s rest)

-- What `decimal` prints with `f` further digits.
abbrev pub limit : ℕ → ℕ
limit zero = 10
limit (suc f) = 10 * limit f

read_digit :
    (n d : ℕ) (t : Bytes) → d < 10 → read_digits n ((b'0' + d) ∷ t) ≡ read_digits (n * 10 + d) t
unfolding read_digits
read_digit n d t h =
    let digit : is_digit (b'0' + d) ≡ true = ground arith in
    rw digit (ap (λ k. read_digits (n * 10 + k) t) (omega arith))

read_digits-decimal :
    (f n : ℕ) (t : Bytes) → n < limit f → read_digits 0 (decimal f n ++ t) ≡ read_digits n t
unfolding decimal
read_digits-decimal zero n t h =
    read_digit 0 (n % 10) t (omega arith) ∙ ap (λ k. read_digits k t) (omega arith)
read_digits-decimal (suc f) n t h = elim (Bool-cases (ltb n 10)) [
  | inl e ↦ rw e (read_digit 0 n t (ground arith) ∙ ap (λ k. read_digits k t) (omega arith))
  | inr e ↦ rw e (
      ap (read_digits 0) (append_assoc (decimal f (n / 10)) ((b'0' + n % 10) ∷ []) t)
      ∙ read_digits-decimal f (n / 10) ((b'0' + n % 10) ∷ t) (omega arith)
      ∙ read_digit (n / 10) (n % 10) t (omega arith)
      ∙ ap (λ k. read_digits k t) (omega arith))
]

-- A text begins with a digit.
abbrev DigitFirst : Bytes → Type 0
DigitFirst t = (d : ℕ) × (s : Bytes) × (t ≡ d ∷ s) × (is_digit d ≡ true)

decimal-DigitFirst : (f n : ℕ) → DigitFirst (decimal f n)
unfolding decimal
decimal-DigitFirst zero n = (b'0' + n % 10, [], refl, ground arith)
decimal-DigitFirst (suc f) n = elim (Bool-cases (ltb n 10)) [
  | inl e ↦ (b'0' + n, [], rw e, ground arith)
  | inr e ↦
      let (d, s, eq, digit) = decimal-DigitFirst f (n / 10) in
      (d, s ++ (b'0' + n % 10) ∷ [], rw (e, eq), digit)
]

read_nat_first :
    (d : ℕ) (s t u : Bytes)
    → t ≡ d ∷ s
    → is_digit d ≡ true
    → read_nat (t ++ u) ≡ read_digits 0 (t ++ u)
unfolding read_nat
read_nat_first d s t u eq digit = rw (eq, digit) refl

read_nat-decimal :
    (f n : ℕ) → n < limit f → (t : Bytes) → read_nat (decimal f n ++ t) ≡ read_digits n t
read_nat-decimal f n h t =
    let (d, s, eq, digit) = decimal-DigitFirst f n in
    read_nat_first d s (decimal f n) t eq digit ∙ read_digits-decimal f n t h

read_int_first :
    (d : ℕ) (s t u : Bytes)
    → t ≡ d ∷ s
    → is_digit d ≡ true
    → read_int (t ++ u) ≡ positive (read_nat (t ++ u))
unfolding read_int
read_int_first d s t u eq digit =
    let no_sign : (d == b'-') ≡ false = ground arith in rw (eq, no_sign) refl

-- A text that does not go on with a digit.
abbrev EndsNumber : Bytes → Type 0
EndsNumber t = (n : ℕ) → read_digits n t ≡ some (n, t)

-- The integers whose digits `print_int` has room for.
abbrev pub IsSmall : ℤ → Type 0
IsSmall (pos n) = n < limit 9
IsSmall (negsuc n) = suc n < limit 9

read_int-print_int :
    (z : ℤ) (t : Bytes) → IsSmall z → EndsNumber t → read_int (print_int z ++ t) ≡ some (z, t)
unfolding print_int
read_int-print_int (pos n) t h e =
    let (d, s, eq, digit) = decimal-DigitFirst 9 n in
    read_int_first d s (decimal 9 n) t eq digit ∙ ap positive (read_nat-decimal 9 n h t ∙ e n)
read_int-print_int (negsuc n) t h e =
    let number = read_nat-decimal 9 (suc n) h t ∙ e (suc n) in unfold read_int in ap negative number

-- What the driver's types hold: a channel in uint8_t, a signal in int8_t, an enumeration.
pub record InRange (a : ApRecord) : Type 0 where
  pub primary_lt : a.primary < 256
  pub authmode_lt : a.authmode < 256
  pub rssi_small : IsSmall a.rssi

rssi_read :
    (a : ApRecord)
    → IsSmall a.rssi
    → (t : Bytes)
    → read_int (print_int a.rssi ++ (codes ",\"auth\":" ++ t))
      ≡ some (a.rssi, codes ",\"auth\":" ++ t)
unfolding read_digits
rssi_read a h t = read_int-print_int a.rssi (codes ",\"auth\":" ++ t) h (λ n. refl)

pub read_ap-print_ap :
    (a : ApRecord) (rest : Bytes) → InRange a → read_ap (print_ap a ++ rest) ≡ some (a, rest)
unfolding print_ap read_ap print_escaped_string expect read_digits
read_ap-print_ap a rest r = simp (
  append_assoc,
  read-print_chars,
  read_nat-decimal 9 a.primary (omega (arith, r.primary_lt)),
  read_nat-decimal 9 a.authmode (omega (arith, r.authmode_lt)),
  rssi_read a r.rssi_small,
)

abbrev pub AllInRange : List ApRecord → Type 0
AllInRange = All InRange

read_aps-print_aps :
    (f : ℕ) (x : ApRecord) (xs : List ApRecord)
    → length (x ∷ xs) ≤ f
    → AllInRange (x ∷ xs)
    → read_aps f (print_aps (x ∷ xs) ++ codes "]\n") ≡ some (x ∷ xs, [])
unfolding print_aps read_aps expect
read_aps-print_aps zero x xs h r = absurd (omega arith)
read_aps-print_aps (suc f) x [] h r =
    simp (append_assoc, λ (rest : Bytes). read_ap-print_ap x rest r.0)
read_aps-print_aps (suc f) x (y ∷ ys) h r =
    simp (append_assoc, λ (rest : Bytes). read_ap-print_ap x rest r.0)
      (simp (read_aps-print_aps f y ys (omega arith) r.1))

print_aps_not_empty :
    (x : ApRecord) (xs : List ApRecord) (t : Bytes)
    → expect (codes "]\n") (print_aps (x ∷ xs) ++ t) ≡ none
unfolding expect print_aps print_ap
print_aps_not_empty x [] t = refl
print_aps_not_empty x (_ ∷ _) t = refl

length-take : (n : ℕ) (xs : List ApRecord) → length (take n xs) ≤ n
length-take zero xs = omega arith
length-take (suc n) [] = omega arith
length-take (suc n) (x ∷ xs) = omega (arith, length-take n xs)

All-take : (n : ℕ) (xs : List ApRecord) → AllInRange xs → AllInRange (take n xs)
All-take zero xs h = tt
All-take (suc n) [] h = tt
All-take (suc n) (x ∷ xs) h = (h.0, All-take n xs h.1)

-- The text of any list of access points, whose numbers are in the range of their C types, is read
-- back as the first MAX_AP_NUM of them, every name byte for byte, and nothing is left over.
pub read_list-access_points_generate :
    (aps : List ApRecord)
    → AllInRange aps
    → read_list 30 (access_points_generate aps) ≡ some (take 30 aps, [])
unfolding access_points_generate read_list expect print_aps
read_list-access_points_generate [] r = refl
read_list-access_points_generate (x ∷ xs) r =
    rw (print_aps_not_empty x (take 29 xs) (codes "]\n")) (
      read_aps-print_aps 30 x (take 29 xs) (omega (arith, length-take 29 xs))
        (r.0, All-take 29 xs r.1))
