-- ===== src/Dns/Answered.antt =====
-- A resolver, written from the rules of DNS, and what it makes of the server's answers.
use mathlib.Core.Option
use esp32_wifi_manager.Common.{
  ℕ, zero, suc, ◌+◌, ◌*◌, ◌/◌, ◌%◌, ◌≤◌, ◌<◌, ◌≡◌, refl, ap, ◌∙◌, true, false, ◌&&◌, ◌||◌, Option,
  none, some, List, [], ◌∷◌, ◌++◌, Bytes, bytes_eq, bytes_eq_refl, length, length-append,
  append_assoc, take, drop, All, ltb, leb, ◌==◌, if◌then◌else◌, arith,
}
use esp32_wifi_manager.Recv.Find.{take-length}
use esp32_wifi_manager.Dns.{handle_req}

-- A name: its labels, each behind its length, and a 0.
abbrev pub name_text : List Bytes → Bytes → Bytes
name_text [] rest = 0 ∷ rest
name_text (l ∷ ls) rest = length l ∷ (l ++ name_text ls rest)

abbrev with_label : Bytes → Option (List Bytes × Bytes) → Option (List Bytes × Bytes)
with_label l none = none
with_label l (some (ls, rest)) = some (l ∷ ls, rest)

-- A name of at most `n` labels, and what stands behind it; a length of 64 and more is no label's.
read_name : ℕ → Bytes → Option (List Bytes × Bytes)
read_name zero s = none
read_name (suc n) [] = none
read_name (suc n) (c ∷ s) =
    let more = with_label (take c s) (read_name n (drop c s)) in
    if c == 0 then some ([], s) else if leb 64 c || ltb (length s) c then none else more

-- The address in a record for a name that points to the question's: type A, class IN, 4 bytes.
abbrev read_record : Bytes → Option Bytes
read_record (p0 ∷ p1 ∷ t0 ∷ t1 ∷ c0 ∷ c1 ∷ ttl0 ∷ ttl1 ∷ ttl2 ∷ ttl3 ∷ n0 ∷ n1 ∷ ip) =
    if bytes_eq (p0 ∷ p1 ∷ t0 ∷ t1 ∷ c0 ∷ c1 ∷ n0 ∷ n1 ∷ [])
        (0xC0 ∷ 12 ∷ 0 ∷ 1 ∷ 0 ∷ 1 ∷ 0 ∷ 4 ∷ [])
      && (length ip == 4)
    then some ip
    else none
read_record _ = none

abbrev read_question : Option (List Bytes × Bytes) → Option (List Bytes × Bytes)
read_question none = none
read_question (some (labels, rest)) = Option.map (λ ip. (labels, ip)) (read_record (drop 4 rest))

-- What a resolver takes from an answer to the query with an identifier: a response whose code is 0,
-- which says that there is no error, and which is not cut, to one question with one answer and no
-- other record.
pub resolve : ℕ → ℕ → Bytes → Option (List Bytes × Bytes)
resolve id0 id1 (i0 ∷ i1 ∷ f0 ∷ f1 ∷ qd0 ∷ qd1 ∷ an0 ∷ an1 ∷ ns0 ∷ ns1 ∷ ar0 ∷ ar1 ∷ rest) =
    if bytes_eq (i0 ∷ i1 ∷ f0 ∷ qd0 ∷ qd1 ∷ an0 ∷ an1 ∷ ns0 ∷ ns1 ∷ ar0 ∷ ar1 ∷ [])
        (id0 ∷ id1 ∷ 0x84 ∷ 0 ∷ 1 ∷ 0 ∷ 1 ∷ 0 ∷ 0 ∷ 0 ∷ 0 ∷ [])
      && (f1 % 16 == 0)
    then read_question (read_name 40 rest)
    else none
resolve id0 id1 _ = none

-- A query for the address of a name: one question of type A and class IN.
abbrev pub query : ℕ → ℕ → ℕ → ℕ → List Bytes → Bytes
query id0 id1 flags0 flags1 labels =
    id0
    ∷ id1
    ∷ flags0
    ∷ flags1
    ∷ 0
    ∷ 1
    ∷ 0
    ∷ 0
    ∷ 0
    ∷ 0
    ∷ 0
    ∷ 0
    ∷ name_text labels (0 ∷ 1 ∷ 0 ∷ 1 ∷ [])

pub record IsLabel (l : Bytes) : Type 0 where
  pub not_empty : 0 < length l
  pub short : length l < 64

drop-length : (s t : Bytes) → drop (length s) (s ++ t) ≡ t
drop-length [] t = refl
drop-length (x ∷ s) t = drop-length s t

name_text-append : (ls : List Bytes) (s t : Bytes) → name_text ls s ++ t ≡ name_text ls (s ++ t)
name_text-append [] s t = refl
name_text-append (l ∷ ls) s t =
    ap (λ u. length l ∷ u)
      (append_assoc l (name_text ls s) t ∙ ap (λ u. l ++ u) (name_text-append ls s t))

read_name-name_text :
    (n : ℕ) (ls : List Bytes) (rest : Bytes)
    → length ls < n
    → All IsLabel ls
    → read_name n (name_text ls rest) ≡ some (ls, rest)
unfolding read_name
read_name-name_text zero ls rest lt h = absurd (omega arith)
read_name-name_text (suc n) [] rest lt h = refl
read_name-name_text (suc n) (l ∷ ls) rest lt (hl, h) =
    let t = name_text ls rest in
    let some_left : (length l == 0) ≡ false = ground (arith, hl.not_empty) in
    let no_pointer : leb 64 (length l) ≡ false = ground (arith, hl.short) in
    let within : ltb (length (l ++ t)) (length l) ≡ false = ground (arith, length-append {0} l t) in
    rw
      (
        some_left,
        no_pointer,
        within,
        take-length l t,
        drop-length l t,
        read_name-name_text n ls rest (omega arith) h,
      )
      refl

le-length-name_text :
    (ls : List Bytes) (rest : Bytes)
    → All IsLabel ls
    → 2 * length ls + 1 + length rest ≤ length (name_text ls rest)
le-length-name_text [] rest h = omega arith
le-length-name_text (l ∷ ls) rest (hl, h) =
    omega
      (arith, hl.not_empty, le-length-name_text ls rest h, length-append {0} l (name_text ls rest))

-- The type and the class of a question for an address.
abbrev in_a : Bytes
in_a = 0 ∷ 1 ∷ 0 ∷ 1 ∷ []

abbrev answer_text : ℕ → ℕ → List Bytes → Bytes → Bytes
answer_text id0 id1 labels ip =
    name_text labels (in_a ++ (0xC0 ∷ 0x0C ∷ 0 ∷ 1 ∷ 0 ∷ 1 ∷ 0 ∷ 0 ∷ 0 ∷ 0 ∷ 0 ∷ 4 ∷ ip))

read_record_ip :
    (ip : Bytes)
    → length ip ≡ 4
    → read_record (0xC0 ∷ 0x0C ∷ 0 ∷ 1 ∷ 0 ∷ 1 ∷ 0 ∷ 0 ∷ 0 ∷ 0 ∷ 0 ∷ 4 ∷ ip) ≡ some ip
unfolding bytes_eq
read_record_ip ip h = let four : (length ip == 4) ≡ true = ground arith in rw four refl

-- A query of type A and class IN for one name and with no other record, whatever its identifier and
-- its flags, is answered if it has at most 80 bytes; a resolver takes the answer for the response to
-- this query, with the response code 0, and finds the name and the address of the access point in
-- it; the answer has at most 96 bytes.
pub resolve-handle_req :
    (ip : Bytes) (id0 id1 flags0 flags1 : ℕ) (labels : List Bytes)
    → length ip ≡ 4
    → All IsLabel labels
    → length (query id0 id1 flags0 flags1 labels) ≤ 80
    → (r : Bytes) × (handle_req ip (query id0 id1 flags0 flags1 labels) ≡ some r)
      × (resolve id0 id1 r ≡ some (labels, ip))
      × (length r ≤ 96)
unfolding handle_req resolve
resolve-handle_req ip id0 id1 flags0 flags1 labels four h le =
    let q = query id0 id1 flags0 flags1 labels in
    let rest = 0xC0 ∷ 0x0C ∷ 0 ∷ 1 ∷ 0 ∷ 1 ∷ 0 ∷ 0 ∷ 0 ∷ 0 ∷ 0 ∷ 4 ∷ ip in
    let long : ltb (length q) 12 ≡ false = ground arith in
    let short : ltb 80 (length q) ≡ false = ground arith in
    let r =
      id0
      ∷ id1
      ∷ 0x84
      ∷ (flags1 / 16) * 16
      ∷ 0
      ∷ 1
      ∷ 0
      ∷ 1
      ∷ 0
      ∷ 0
      ∷ 0
      ∷ 0
      ∷ (name_text labels in_a ++ rest) in
    let no_error : (((flags1 / 16) * 16) % 16 == 0) ≡ true = ground arith in
    let few = le-length-name_text labels in_a h in
    (
      r,
      rw (long, short) refl,
      rw
          (
            no_error,
            bytes_eq_refl (id0 ∷ id1 ∷ 0x84 ∷ 0 ∷ 1 ∷ 0 ∷ 1 ∷ 0 ∷ 0 ∷ 0 ∷ 0 ∷ []),
            name_text-append labels in_a rest,
            read_name-name_text 40 labels (in_a ++ rest) (omega (arith, few)) h,
            read_record_ip ip four,
          )
          refl,
      omega (arith, length-append {0} (name_text labels in_a) rest),
    )
