-- ===== src/AccessPoints/Filter.antt =====
-- ap_list_filter_unique: what a scan shows after its records are made unique.
use esp32_wifi_manager.Common.{
  ℕ, ◌≡◌, refl, ◌∙◌, inl, inr, Bool, false, none, ◌&&◌, if◌then◌else◌, List, [], ◌∷◌, ◌++◌, arith,
  Bytes, bytes_eq, is_empty, length, All, Bool-cases,
}
use esp32_wifi_manager.AccessPoints.{
  ApRecord, bool_eq, is_open, same_network, clear_identical_aps, filter_unique,
}
use esp32_wifi_manager.AccessPoints.Unique.{
  names, best, best-cons, IsUnique, best-clear_identical_aps, clear_identical_aps-IsUnique,
}
use esp32_wifi_manager.AccessPoints.Reorder.{named, IsNamed, IsBlank, reorder_lem}

-- No two of the records are of one network.
abbrev pub IsDistinct : List ApRecord → Type 0
IsDistinct [] = Unit
IsDistinct (x ∷ xs) = All (λ y. same_network x y ≡ false) xs × IsDistinct xs

All-named {κ} : (P : ApRecord → Type κ) (xs : List ApRecord) → All P xs → All P (named xs)
unfolding named
All-named P [] h = tt
All-named P (x ∷ xs) h = elim (Bool-cases (is_empty x.ssid)) [
  | inl e ↦ rw e (All-named P xs h.1)
  | inr e ↦ rw e (h.0, All-named P xs h.1)
]

named-IsNamed : (xs : List ApRecord) → All IsNamed (named xs)
unfolding named
named-IsNamed [] = tt
named-IsNamed (x ∷ xs) = elim (Bool-cases (is_empty x.ssid)) [
  | inl e ↦ rw e (named-IsNamed xs)
  | inr e ↦ rw e (e, named-IsNamed xs)
]

named-IsDistinct : (xs : List ApRecord) → IsUnique xs → IsDistinct (named xs)
unfolding named
named-IsDistinct [] h = tt
named-IsDistinct (x ∷ xs) h = elim (Bool-cases (is_empty x.ssid)) [
  | inl e ↦ rw e (named-IsDistinct xs h.1)
  | inr e ↦ rw e (All-named (λ y. same_network x y ≡ false) xs (h.0 e), named-IsDistinct xs h.1)
]

names-blank :
    (s : Bytes) (o : Bool) (x : ApRecord) → is_empty s ≡ false → IsBlank x → names s o x ≡ false
unfolding bytes_eq
names-blank s o x h b = ground arith

best-named :
    (s : Bytes) (o : Bool) (xs : List ApRecord)
    → is_empty s ≡ false
    → best s o (named xs) ≡ best s o xs
unfolding named best
best-named s o [] h = refl
best-named s o (x ∷ xs) h = elim (Bool-cases (is_empty x.ssid)) [
  | inl e ↦ rw (e, names-blank s o x h e) (best-named s o xs h)
  | inr e ↦ rw e (best-cons s o x (named xs) xs (best-named s o xs h))
]

no_name_of : (n : Bytes) (b : Bool) → is_empty n ≡ false → (bytes_eq [] n && b) ≡ false
unfolding bytes_eq
no_name_of [] b h = cc
no_name_of (_ ∷ _) b h = refl

no_name : (x : ApRecord) (o : Bool) → is_empty x.ssid ≡ false → names [] o x ≡ false
unfolding bytes_eq
no_name x o h = no_name_of x.ssid (bool_eq o (is_open x)) h

best-no_name : (o : Bool) (xs : List ApRecord) → best [] o (named xs) ≡ none
unfolding named best
best-no_name o [] = refl
best-no_name o (x ∷ xs) = elim (Bool-cases (is_empty x.ssid)) [
  | inl e ↦ rw e (best-no_name o xs)
  | inr e ↦ rw (e, no_name x o e) (best-no_name o xs)
]

strongest_named :
    (s : Bytes) (o : Bool) (ys xs : List ApRecord)
    → (is_empty s ≡ false → best s o ys ≡ best s o xs)
    → best s o (named ys) ≡ (if is_empty s then none else best s o xs)
strongest_named [] o ys xs h = best-no_name o ys
strongest_named (c ∷ s) o ys xs h = best-named (c ∷ s) o ys refl ∙ h refl

strongest_none : (s : Bytes) (o : Bool) → best s o [] ≡ (if is_empty s then none else best s o [])
unfolding best
strongest_none [] o = refl
strongest_none (_ ∷ _) o = refl

-- What the list shows of some scanned records: `shown` at the front of the array, each with a
-- name, no two of one network, and each network with the strongest of its signals; nothing is shown
-- under the empty name.
pub record Shows (xs arr : List ApRecord) (n : ℕ) : Type 0 where
  pub shown : List ApRecord
  pub blanks : List ApRecord
  pub split : arr ≡ shown ++ blanks
  pub count : n ≡ length shown
  pub named_all : All IsNamed shown
  pub blank_all : All IsBlank blanks
  pub distinct : IsDistinct shown
  pub strongest :
      (s : Bytes) (o : Bool) → best s o shown ≡ (if is_empty s then none else best s o xs)

-- For any scanned records, the array that `filter_unique` leaves begins with as many named
-- records as it returns, no two of them of one network (name, and open or not); behind them no
-- record has a name; and for every name but the empty one, and every kind of authentication, the
-- strongest signal shown is the strongest signal scanned, so that a network is shown exactly if it
-- was scanned.
pub filter_unique-Shows : (xs : List ApRecord) → Shows xs (filter_unique xs).0 (filter_unique xs).1
unfolding filter_unique
filter_unique-Shows [] = record {
  shown = [];
  blanks = [];
  split = refl;
  count = refl;
  named_all = tt;
  blank_all = tt;
  distinct = tt;
  strongest = strongest_none;
}
filter_unique-Shows (x ∷ rest) =
    let xs = x ∷ rest in
    let cleared_aps = clear_identical_aps xs in
    let (bs, hs, e, n) = reorder_lem cleared_aps in
    record {
      shown = named cleared_aps;
      blanks = bs;
      split = e;
      count = n;
      named_all = named-IsNamed cleared_aps;
      blank_all = hs;
      distinct = named-IsDistinct cleared_aps (clear_identical_aps-IsUnique xs);
      strongest = λ s o. strongest_named s o cleared_aps xs (best-clear_identical_aps s o xs);
    }
