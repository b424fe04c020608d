-- ===== src/Json/Read.antt =====
-- A reader of JSON strings, numbers and of the list of access points, by the grammar of JSON
-- (RFC 8259): it knows nothing of how the texts were printed.
use esp32_wifi_manager.Common.{
  ℕ, zero, suc, ◌+◌, ◌-◌, ◌*◌, Bool, ◌&&◌, ◌||◌, Option, none, some, List, [], ◌∷◌, Bytes, codes,
  ltb, leb, ◌==◌, if◌then◌else◌,
}
use esp32_wifi_manager.Common.Int.{ℤ, pos, negsuc}
use esp32_wifi_manager.AccessPoints.{ApRecord}

-- A reader returns what it has read and the rest.
abbrev pub Reader : Type 0 → Type 0
Reader A = Bytes → Option (A × Bytes)

-- Where in a string the reader is; `hex k n` has read a part of a \u escape, and k digits are left.
pub data State : Type 0 where
  normal escaped : State
  hex : ℕ → ℕ → State

pub data Next : Type 0 where
  stop bad : Next
  emit : ℕ → Next
  go : State → Next

unfoldable pub hex_value : ℕ → Option ℕ
hex_value c =
    if leb b'0' c && leb c b'9'
    then some (c - b'0')
    else if leb b'a' c && leb c b'f'
    then some (10 + (c - b'a'))
    else none

abbrev pub after_digit : ℕ → ℕ → Option ℕ → Next
after_digit k n none = bad
after_digit zero n (some d) = emit (n * 16 + d)
after_digit (suc k) n (some d) = go (hex k (n * 16 + d))

unfoldable pub unescape : ℕ → Next
unescape c =
    if (c == b'"') || (c == b'\\') || (c == b'/')
    then emit c
    else if c == b'b'
    then emit 8
    else if c == b'f'
    then emit 12
    else if c == b'n'
    then emit 10
    else if c == b'r'
    then emit 13
    else if c == b't'
    then emit 9
    else if c == b'u'
    then go (hex 3 0)
    else bad

unfoldable pub advance : State → ℕ → Next
unfolding unescape hex_value
advance normal c =
    if c == b'"' then stop else if c == b'\\' then go escaped else if ltb c 32 then bad else emit c
advance escaped c = unescape c
advance (hex k n) c = after_digit k n (hex_value c)

abbrev pub prepend : ℕ → Option (Bytes × Bytes) → Option (Bytes × Bytes)
prepend c none = none
prepend c (some (s, rest)) = some (c ∷ s, rest)

abbrev pub follow : Next → Bytes → (State → Option (Bytes × Bytes)) → Option (Bytes × Bytes)
follow stop rest more = some ([], rest)
follow bad rest more = none
follow (emit c) rest more = prepend c (more normal)
follow (go st) rest more = more st

-- The string from behind its opening quote, and the rest behind the closing one.
unfoldable pub read_chars : State → Reader Bytes
unfolding advance
read_chars st [] = none
read_chars st (c ∷ s) = follow (advance st c) s (λ st'. read_chars st' s)

abbrev pub is_digit : ℕ → Bool
is_digit c = leb b'0' c && leb c b'9'

-- A number from the digits read so far.
unfoldable pub read_digits : ℕ → Reader ℕ
read_digits n [] = some (n, [])
read_digits n (c ∷ s) =
    let more = read_digits (n * 10 + (c - b'0')) s in if is_digit c then more else some (n, c ∷ s)

-- One digit at least.
unfoldable pub read_nat : Reader ℕ
unfolding read_digits
read_nat [] = none
read_nat (c ∷ s) = if is_digit c then read_digits 0 (c ∷ s) else none

abbrev pub negative : Option (ℕ × Bytes) → Option (ℤ × Bytes)
negative (some (suc n, rest)) = some (negsuc n, rest)
negative _ = none

abbrev pub positive : Option (ℕ × Bytes) → Option (ℤ × Bytes)
positive none = none
positive (some (n, rest)) = some (pos n, rest)

unfoldable pub read_int : Reader ℤ
read_int [] = none
read_int (c ∷ s) = if c == b'-' then negative (read_nat s) else positive (read_nat (c ∷ s))

-- What follows a given text.
unfoldable pub expect : Bytes → Bytes → Option Bytes
expect [] s = some s
expect (_ ∷ _) [] = none
expect (c ∷ t) (d ∷ s) = let more = expect t s in if c == d then more else none

infixl 5 ◌>>=◌
abbrev pub ◌>>=◌ : {A B : Type 0} → Option A → (A → Option B) → Option B
none >>= f = none
some a >>= f = f a

-- The object of an access point, its members in the order of the page that reads them.
unfoldable pub read_ap : Reader ApRecord
read_ap s = expect (codes "{\"ssid\":\"") s >>= λ s1. read_chars normal s1 >>= λ r1.
    expect (codes ",\"chan\":") r1.1 >>= λ s2. read_nat s2 >>= λ r2.
    expect (codes ",\"rssi\":") r2.1 >>= λ s3. read_int s3 >>= λ r3.
    expect (codes ",\"auth\":") r3.1 >>= λ s4. read_nat s4 >>= λ r4.
    expect (codes "}") r4.1 >>= λ s5.
    some (record { ssid = r1.0; primary = r2.0; rssi = r3.0; authmode = r4.0 }, s5)

-- Objects with commas between them and white space behind, up to the bracket; the fuel bounds
-- their number.
unfoldable pub read_aps : ℕ → Reader (List ApRecord)
read_aps zero s = none
read_aps (suc f) s = read_ap s >>= λ r. (elim r.1 [
  | [] ↦ none
  | c ∷ s' ↦
      if c == b','
      then (expect (codes "\n") s' >>= λ s''. read_aps f s'' >>= λ rs. some (r.0 ∷ rs.0, rs.1))
      else (expect (codes "\n]\n") (c ∷ s') >>= λ rest. some (r.0 ∷ [], rest))
])

unfoldable pub read_list : ℕ → Reader (List ApRecord)
read_list fuel s = expect (codes "[") s >>= λ s'. (elim (expect (codes "]\n") s') [
  | some rest ↦ some ([], rest)
  | none ↦ read_aps fuel s'
])
