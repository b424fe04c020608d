-- ===== src/AccessPoints/Unique.antt =====
-- ap_list_clear_identical_aps: what is left is unique, and nothing is lost.
use esp32_wifi_manager.Common.{
  ℕ, zero, suc, ◌+◌, ◌-◌, ◌≤◌, ◌≡◌, refl, sym, ap, ◌∙◌, inl, inr, Bool, true, false, ◌&&◌, Option,
  none, some, List, [], ◌∷◌, arith, Bytes, bytes_eq, bytes_eq_iff, is_empty, length, All,
  if◌then◌else◌, Bool-cases,
}
use esp32_wifi_manager.Common.Int.{ℤ, max_ℤ}
use esp32_wifi_manager.AccessPoints.{
  ApRecord, cleared, is_open, bool_eq, same_network, clear_identical_ap, clear_row, clear_round,
  clear_rounds, clear_identical_aps,
}

-- The record names the network: the name `s`, open or not.
abbrev pub names : Bytes → Bool → ApRecord → Bool
names s o x = bytes_eq s x.ssid && bool_eq o (is_open x)

abbrev pub stronger : ℤ → Option ℤ → Option ℤ
stronger a none = some a
stronger a (some b) = some (max_ℤ a b)

-- The strongest signal of a network among some records; `none` if it is not among them.
unfoldable pub best : Bytes → Bool → List ApRecord → Option ℤ
best s o [] = none
best s o (x ∷ xs) = let rest = best s o xs in if names s o x then stronger x.rssi rest else rest

-- No two named records are of one network.
abbrev pub IsUnique : List ApRecord → Type 0
IsUnique [] = Unit
IsUnique (x ∷ xs) = (is_empty x.ssid ≡ false → All (λ y. same_network x y ≡ false) xs) × IsUnique xs

max_ℤ_assoc : (a b c : ℤ) → max_ℤ (max_ℤ a b) c ≡ max_ℤ a (max_ℤ b c)
max_ℤ_assoc a b c = ground arith

stronger_assoc : (a b : ℤ) (o : Option ℤ) → stronger (max_ℤ a b) o ≡ stronger a (stronger b o)
stronger_assoc a b none = refl
stronger_assoc a b (some c) = ap some (max_ℤ_assoc a b c)

names-cleared : (s : Bytes) (o : Bool) → is_empty s ≡ false → names s o cleared ≡ false
unfolding bytes_eq
names-cleared [] o h = cc
names-cleared (c ∷ s) o h = refl

names_of_same :
    (s : Bytes) (o : Bool) (a d : ApRecord) → same_network a d ≡ true → names s o a ≡ names s o d
names_of_same s o a d h =
    ground (arith, bytes_eq_iff a.ssid d.ssid, bytes_eq_iff s a.ssid, bytes_eq_iff s d.ssid)

same_network-cleared : (a : ApRecord) → is_empty a.ssid ≡ false → same_network a cleared ≡ false
same_network-cleared a h = names-cleared a.ssid (is_open a) h

-- The records after one pair is compared.
module _ (a d : ApRecord) where
  clear_identical_ap-same :
      same_network a d ≡ true
      → clear_identical_ap a d ≡ (record a { rssi = max_ℤ a.rssi d.rssi }, cleared)
  unfolding clear_identical_ap
  clear_identical_ap-same h = rw h

  clear_identical_ap-other : same_network a d ≡ false → clear_identical_ap a d ≡ (a, d)
  unfolding clear_identical_ap
  clear_identical_ap-other h = rw h

-- The strongest signal does not change when a pair is compared.
best-clear_identical_ap :
    (s : Bytes) (o : Bool) (a d : ApRecord) (xs : List ApRecord)
    → is_empty s ≡ false
    → best s o ((clear_identical_ap a d).0 ∷ (clear_identical_ap a d).1 ∷ xs)
      ≡ best s o (a ∷ d ∷ xs)
unfolding best
best-clear_identical_ap s o a d xs h = elim (Bool-cases (same_network a d)) [
  | inl same ↦ rw (clear_identical_ap-same a d same) (
      ground (
        arith,
        names-cleared s o h,
        names_of_same s o a d same,
        stronger_assoc a.rssi d.rssi (best s o xs),
      ))
  | inr other ↦ rw (clear_identical_ap-other a d other)
]

stronger_left_comm :
    (a b : ℤ) (o : Option ℤ) → stronger a (stronger b o) ≡ stronger b (stronger a o)
stronger_left_comm a b none = ground arith
stronger_left_comm a b (some c) = ground arith

best-swap :
    (s : Bytes) (o : Bool) (x y : ApRecord) (xs : List ApRecord)
    → best s o (x ∷ y ∷ xs) ≡ best s o (y ∷ x ∷ xs)
unfolding best
best-swap s o x y xs = ground (arith, stronger_left_comm x.rssi y.rssi (best s o xs))

pub best-cons :
    (s : Bytes) (o : Bool) (x : ApRecord) (xs ys : List ApRecord)
    → best s o xs ≡ best s o ys
    → best s o (x ∷ xs) ≡ best s o (x ∷ ys)
unfolding best
best-cons s o x xs ys h = rw h

-- The inner loop keeps the strongest signal of every network.
best-clear_row :
    (s : Bytes) (o : Bool) (a : ApRecord) (ds : List ApRecord)
    → is_empty s ≡ false
    → best s o ((clear_row a ds).0 ∷ (clear_row a ds).1) ≡ best s o (a ∷ ds)
unfolding clear_row
best-clear_row s o a [] h = refl
best-clear_row s o a (d ∷ ds) h =
    let (a', d') = clear_identical_ap a d in
    let (a'', ds') = clear_row a' ds in
    best-swap s o a'' d' ds'
    ∙ best-cons s o d' (a'' ∷ ds') (a' ∷ ds) (best-clear_row s o a' ds h)
    ∙ best-swap s o d' a' ds
    ∙ best-clear_identical_ap s o a d ds h

best-clear_round :
    (s : Bytes) (o : Bool) (a : ApRecord) (ds : List ApRecord)
    → is_empty s ≡ false
    → best s o ((clear_round a ds).0 ∷ (clear_round a ds).1) ≡ best s o (a ∷ ds)
unfolding clear_round
best-clear_round s o a ds h = elim (Bool-cases (is_empty a.ssid)) [
  | inl e ↦ rw e
  | inr e ↦ rw e (best-clear_row s o a ds h)
]

best-clear_rounds :
    (s : Bytes) (o : Bool) (n : ℕ) (xs : List ApRecord)
    → is_empty s ≡ false
    → best s o (clear_rounds n xs) ≡ best s o xs
unfolding clear_rounds
best-clear_rounds s o zero xs h = refl
best-clear_rounds s o (suc n) [] h = refl
best-clear_rounds s o (suc n) (x ∷ xs) h =
    let (x', xs') = clear_round x xs in
    best-cons s o x' (clear_rounds n xs') xs' (best-clear_rounds s o n xs' h)
    ∙ best-clear_round s o x xs h

-- For every network with a name, the strongest signal after the call is the strongest before.
pub best-clear_identical_aps :
    (s : Bytes) (o : Bool) (xs : List ApRecord)
    → is_empty s ≡ false
    → best s o (clear_identical_aps xs) ≡ best s o xs
unfolding clear_identical_aps
best-clear_identical_aps s o xs h = best-clear_rounds s o (length xs - 1) xs h

-- Records that are of another network than `a` stay so.
module _ (a : ApRecord) (named : is_empty a.ssid ≡ false) where
  abbrev Other : ApRecord → Type 0
  Other y = same_network a y ≡ false

  Other-clear_identical_ap :
      (x d : ApRecord)
      → Other x
      → Other d
      → Other (clear_identical_ap x d).0 × Other (clear_identical_ap x d).1
  Other-clear_identical_ap x d hx hd = elim (Bool-cases (same_network x d)) [
    | inl same ↦ rw (clear_identical_ap-same x d same) (hx, same_network-cleared a named)
    | inr other ↦ rw (clear_identical_ap-other x d other) (hx, hd)
  ]

  Other-clear_row :
      (x : ApRecord) (ds : List ApRecord)
      → Other x
      → All Other ds
      → Other (clear_row x ds).0 × All Other (clear_row x ds).1
  unfolding clear_row
  Other-clear_row x [] hx hs = (hx, hs)
  Other-clear_row x (d ∷ ds) hx hs =
      let (hx', hd') = Other-clear_identical_ap x d hx hs.0 in
      let (hx'', hs') = Other-clear_row (clear_identical_ap x d).0 ds hx' hs.1 in (hx'', (hd', hs'))

  Other-clear_round :
      (x : ApRecord) (ds : List ApRecord)
      → Other x
      → All Other ds
      → Other (clear_round x ds).0 × All Other (clear_round x ds).1
  unfolding clear_round
  Other-clear_round x ds hx hs = elim (Bool-cases (is_empty x.ssid)) [
    | inl e ↦ rw e (hx, hs)
    | inr e ↦ rw e (Other-clear_row x ds hx hs)
  ]

  Other-clear_rounds : (n : ℕ) (xs : List ApRecord) → All Other xs → All Other (clear_rounds n xs)
  unfolding clear_rounds
  Other-clear_rounds zero xs h = h
  Other-clear_rounds (suc n) [] h = h
  Other-clear_rounds (suc n) (x ∷ xs) h =
      let (hx, hs) = Other-clear_round x xs h.0 h.1 in
      (hx, Other-clear_rounds n (clear_round x xs).1 hs)

same_network_left :
    (a b y : ApRecord)
    → a.ssid ≡ b.ssid
    → a.authmode ≡ b.authmode
    → same_network a y ≡ same_network b y
same_network_left a b y e f = rw (e, f)

-- The two records are of one network by name and authentication.
abbrev SameKey : ApRecord → ApRecord → Type 0
SameKey a b = (a.ssid ≡ b.ssid) × (a.authmode ≡ b.authmode)

-- A pair, and then a row, keeps the source's key and leaves no record of its network behind it.
-- The key is that of any record `k`, so that the row's recursion keeps it.
module _ (k : ApRecord) (named : is_empty k.ssid ≡ false) where
  clear_identical_ap-Other :
      (a d : ApRecord)
      → SameKey k a
      → SameKey k (clear_identical_ap a d).0 × Other k named (clear_identical_ap a d).1
  clear_identical_ap-Other a d e = elim (Bool-cases (same_network a d)) [
    | inl same ↦ rw (clear_identical_ap-same a d same) (e, same_network-cleared k named)
    | inr other ↦
        rw (clear_identical_ap-other a d other) (e, same_network_left k a d e.0 e.1 ∙ other)
  ]

  clear_row-Other :
      (a : ApRecord) (ds : List ApRecord)
      → SameKey k a
      → SameKey k (clear_row a ds).0 × All (Other k named) (clear_row a ds).1
  unfolding clear_row
  clear_row-Other a [] e = (e, tt)
  clear_row-Other a (d ∷ ds) e =
      let (e', o) = clear_identical_ap-Other a d e in
      let (e'', os) = clear_row-Other (clear_identical_ap a d).0 ds e' in (e'', (o, os))

-- A name that a record has after a round it had before.
empty-clear_round :
    (a : ApRecord) (ds : List ApRecord)
    → is_empty (clear_round a ds).0.ssid ≡ false
    → (is_empty a.ssid ≡ false) × (clear_round a ds ≡ clear_row a ds)
unfolding clear_round
empty-clear_round a ds h = ground arith

All-Other_key :
    (k b : ApRecord) (nk : is_empty k.ssid ≡ false) (nb : is_empty b.ssid ≡ false)
    → SameKey k b
    → (xs : List ApRecord) → All (Other k nk) xs
    → All (Other b nb) xs
All-Other_key k b nk nb e [] h = tt
All-Other_key k b nk nb e (x ∷ xs) h =
    (sym (same_network_left k b x e.0 e.1) ∙ h.0, All-Other_key k b nk nb e xs h.1)

clear_round-Other :
    (a : ApRecord) (ds : List ApRecord) (named : is_empty (clear_round a ds).0.ssid ≡ false)
    → All (Other (clear_round a ds).0 named) (clear_round a ds).1
clear_round-Other a ds named =
    let (n, e) = empty-clear_round a ds named in
    let (key, others) = clear_row-Other a n a ds (refl, refl) in
    rw e (All-Other_key a (clear_row a ds).0 n (rw (← e) named) key (clear_row a ds).1 others)

length-clear_row : (a : ApRecord) (ds : List ApRecord) → length (clear_row a ds).1 ≡ length ds
unfolding clear_row
length-clear_row a [] = refl
length-clear_row a (d ∷ ds) = ap suc (length-clear_row (clear_identical_ap a d).0 ds)

length-clear_round : (a : ApRecord) (ds : List ApRecord) → length (clear_round a ds).1 ≡ length ds
unfolding clear_round
length-clear_round a ds = ground (arith, length-clear_row a ds)

clear_rounds-IsUnique :
    (n : ℕ) (xs : List ApRecord) → length xs ≤ n + 1 → IsUnique (clear_rounds n xs)
unfolding clear_rounds
clear_rounds-IsUnique zero [] h = tt
clear_rounds-IsUnique zero (x ∷ []) h = (λ _. tt, tt)
clear_rounds-IsUnique zero (x ∷ y ∷ xs) h = absurd (omega arith)
clear_rounds-IsUnique (suc n) [] h = tt
clear_rounds-IsUnique (suc n) (x ∷ xs) h =
    let (x', xs') = clear_round x xs in
    (
      λ named. Other-clear_rounds x' named n xs' (clear_round-Other x xs named),
      clear_rounds-IsUnique n xs' (omega (arith, length-clear_round x xs)),
    )

-- After the call no two named records are of one network.
pub clear_identical_aps-IsUnique : (xs : List ApRecord) → IsUnique (clear_identical_aps xs)
unfolding clear_identical_aps
clear_identical_aps-IsUnique xs = clear_rounds-IsUnique (length xs - 1) xs (omega arith)

length-clear_rounds : (n : ℕ) (xs : List ApRecord) → length (clear_rounds n xs) ≡ length xs
unfolding clear_rounds
length-clear_rounds zero xs = refl
length-clear_rounds (suc n) [] = refl
length-clear_rounds (suc n) (x ∷ xs) =
    ap suc (length-clear_rounds n (clear_round x xs).1 ∙ length-clear_round x xs)

pub length-clear_identical_aps : (xs : List ApRecord) → length (clear_identical_aps xs) ≡ length xs
unfolding clear_identical_aps
length-clear_identical_aps xs = length-clear_rounds (length xs - 1) xs
