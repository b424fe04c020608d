-- ===== src/AccessPoints/Reorder.antt =====
-- ap_list_reorder: the named records move to the front, in their order.
use esp32_wifi_manager.Common.{
  ℕ, zero, suc, ◌+◌, ◌≡◌, refl, sym, ap, ◌∙◌, inl, inr, true, false, Option, none, some, List, [],
  ◌∷◌, ◌++◌, arith, is_empty, set, get_elem?, length, length-append, All, All-append, if◌then◌else◌,
  Bool-cases,
}
use esp32_wifi_manager.AccessPoints.{
  ApRecord, cleared, mark_free, Reordering, find_first_free_slot, reorder_step, reorder_from,
  reorder,
}
use mathlib.Core.List.{append_assoc, append-nil}

-- The records that have a name.
unfoldable pub named : List ApRecord → List ApRecord
named [] = []
named (x ∷ xs) = let rest = named xs in if is_empty x.ssid then rest else x ∷ rest

abbrev pub IsNamed : ApRecord → Type 0
IsNamed x = is_empty x.ssid ≡ false

abbrev pub IsBlank : ApRecord → Type 0
IsBlank x = is_empty x.ssid ≡ true

-- The first free slot behind some named records.
abbrev slot : ℕ → List ApRecord → Option ℕ
slot n [] = none
slot n (_ ∷ _) = some n

find_first_free_slot_lem :
    (kept rest : List ApRecord) (b : ApRecord)
    → All IsNamed kept
    → IsBlank b
    → find_first_free_slot (kept ++ b ∷ rest) ≡ some (length kept)
unfolding find_first_free_slot
find_first_free_slot_lem [] rest b ks h = rw h
find_first_free_slot_lem (x ∷ kept) rest b ks h =
    rw (ks.0, find_first_free_slot_lem kept rest b ks.1 h)

get_elem?-middle :
    (xs ys : List ApRecord) (y : ApRecord) (i : ℕ)
    → i ≡ length xs
    → get_elem? (xs ++ y ∷ ys) i ≡ some y
get_elem?-middle [] ys y zero e = refl
get_elem?-middle [] ys y (suc i) e = absurd (omega arith)
get_elem?-middle (x ∷ xs) ys y zero e = absurd (omega arith)
get_elem?-middle (x ∷ xs) ys y (suc i) e = get_elem?-middle xs ys y i (omega arith)

set-middle :
    (xs ys : List ApRecord) (y z : ApRecord) (i : ℕ)
    → i ≡ length xs
    → set (xs ++ y ∷ ys) i z ≡ xs ++ z ∷ ys
set-middle [] ys y z zero e = refl
set-middle [] ys y z (suc i) e = absurd (omega arith)
set-middle (x ∷ xs) ys y z zero e = absurd (omega arith)
set-middle (x ∷ xs) ys y z (suc i) e = rw (set-middle xs ys y z i (omega arith))

-- The loop's variables when the records so far are `kept`, named, and behind them `blanks`.
abbrev reordering : List ApRecord → List ApRecord → List ApRecord → Reordering
reordering kept blanks todo = record {
  arr = kept ++ (blanks ++ todo);
  num_unique_aps = length kept + length todo;
  first_free = slot (length kept) blanks;
}

get_elem?-reordering :
    (kept blanks todo : List ApRecord) (x : ApRecord) (i : ℕ)
    → i ≡ length kept + length blanks
    → get_elem? (kept ++ (blanks ++ x ∷ todo)) i ≡ some x
get_elem?-reordering kept blanks todo x i e =
    rw (← append_assoc)
      (get_elem?-middle (kept ++ blanks) todo x i (e ∙ sym (length-append kept blanks)))

mark_free-slot :
    (n i : ℕ) (blanks : List ApRecord) (x : ApRecord)
    → i ≡ n + length blanks
    → mark_free (slot n blanks) i ≡ slot n (blanks ++ x ∷ [])
mark_free-slot n i [] x e = ap some (omega arith)
mark_free-slot n i (b ∷ bs) x e = refl

-- A record with no name stays where it is.
reorder_step-blank :
    (kept blanks todo : List ApRecord) (x : ApRecord) (i : ℕ)
    → i ≡ length kept + length blanks
    → IsBlank x
    → reorder_step (reordering kept blanks (x ∷ todo)) i (some x)
      ≡ reordering kept (blanks ++ x ∷ []) todo
unfolding reorder_step
reorder_step-blank kept blanks todo x i e h =
    rw (h, append_assoc) (ground (arith, mark_free-slot (length kept) i blanks x e))

-- The array after a move: the record is behind the kept ones, its old slot is blank.
set-set_move :
    (kept bs todo : List ApRecord) (b x z : ApRecord) (i : ℕ)
    → i ≡ length kept + length (b ∷ bs)
    → set (set (kept ++ (b ∷ bs ++ x ∷ todo)) (length kept) x) i z
      ≡ (kept ++ x ∷ []) ++ ((bs ++ z ∷ []) ++ todo)
set-set_move kept bs todo b x z i e = rw (set-middle kept (bs ++ x ∷ todo) b x (length kept) refl) (
    ap (λ l. set l i z) (sym (append_assoc kept (x ∷ bs) (x ∷ todo)))
    ∙ set-middle (kept ++ x ∷ bs) todo x z i (e ∙ sym (length-append kept (x ∷ bs)))
    ∙ simp append_assoc)

slot-next :
    (kept bs todo : List ApRecord) (x z : ApRecord)
    → All IsNamed kept
    → IsNamed x
    → All IsBlank bs
    → IsBlank z
    → find_first_free_slot ((kept ++ x ∷ []) ++ ((bs ++ z ∷ []) ++ todo))
      ≡ slot (length (kept ++ x ∷ [])) (bs ++ z ∷ [])
slot-next kept [] todo x z ks nx hs hz =
    find_first_free_slot_lem (kept ++ x ∷ []) todo z (All-append IsNamed kept (x ∷ []) ks (nx, tt))
      hz
slot-next kept (b ∷ bs) todo x z ks nx hs hz =
    find_first_free_slot_lem (kept ++ x ∷ []) ((bs ++ z ∷ []) ++ todo) b
      (All-append IsNamed kept (x ∷ []) ks (nx, tt)) hs.0

-- A named record moves to the first blank slot, if there is one.
reorder_step-named :
    (kept blanks todo : List ApRecord) (x : ApRecord) (i : ℕ)
    → i ≡ length kept + length blanks
    → All IsNamed kept
    → All IsBlank blanks
    → IsNamed x
    → (blanks' : List ApRecord) × All IsBlank blanks'
      × (length blanks' ≡ length blanks)
      × (reorder_step (reordering kept blanks (x ∷ todo)) i (some x)
          ≡ reordering (kept ++ x ∷ []) blanks' todo)
unfolding reorder_step
reorder_step-named kept [] todo x i e ks bs h =
    ([], tt, refl, rw (h, append_assoc, length-append) (ground arith))
reorder_step-named kept (b ∷ bs) todo x i e ks hs h = (
  bs ++ cleared ∷ [],
  All-append IsBlank bs (cleared ∷ []) hs.1 (refl, tt),
  length-append bs (cleared ∷ []) ∙ omega arith,
  rw
      (
        h,
        set-set_move kept bs todo b x cleared i e,
        slot-next kept bs todo x cleared ks h hs.1 refl,
        length-append,
      )
      (ground arith),
)

reorder_from-suc :
    (n i : ℕ) (r r' : Reordering) (x : ApRecord)
    → get_elem? r.arr i ≡ some x
    → reorder_step r i (some x) ≡ r'
    → reorder_from (suc n) i r ≡ reorder_from n (suc i) r'
unfolding reorder_from
reorder_from-suc n i r r' x h k = rw h (ap (reorder_from n (suc i)) k)

-- The whole loop, from `kept` and `blanks` on.
reorder_from_lem :
    (todo kept blanks : List ApRecord) (i : ℕ)
    → i ≡ length kept + length blanks
    → All IsNamed kept
    → All IsBlank blanks
    → (blanks' : List ApRecord) × All IsBlank blanks'
      × (reorder_from (length todo) i (reordering kept blanks todo)
          ≡ reordering (kept ++ named todo) blanks' [])
unfolding named
reorder_from_lem [] kept blanks i e ks hs = (blanks, hs, unfold reorder_from in simp append-nil)
reorder_from_lem (x ∷ todo) kept blanks i e ks hs =
    let at = get_elem?-reordering kept blanks todo x i e in
    elim (Bool-cases (is_empty x.ssid)) [
      | inl h ↦
          let blanks' = blanks ++ x ∷ [] in
          let (bs, hbs, r) =
            reorder_from_lem todo kept blanks' (suc i) (rw length-append (omega arith)) ks
              (All-append IsBlank blanks (x ∷ []) hs (h, tt)) in
          (
            bs,
            hbs,
            rw h (
                reorder_from-suc (length todo) i (reordering kept blanks (x ∷ todo))
                  (reordering kept blanks' todo) x at (reorder_step-blank kept blanks todo x i e h)
                ∙ r),
          )
      | inr h ↦
          let kept' = kept ++ x ∷ [] in
          let (blanks', hs', len, step) = reorder_step-named kept blanks todo x i e ks hs h in
          let (bs, hbs, r) =
            reorder_from_lem todo kept' blanks' (suc i) (rw length-append (omega arith))
              (All-append IsNamed kept (x ∷ []) ks (h, tt)) hs' in
          (
            bs,
            hbs,
            rw h (
                reorder_from-suc (length todo) i (reordering kept blanks (x ∷ todo))
                  (reordering kept' blanks' todo) x at step
                ∙ r
                ∙ ap (λ l. reordering l bs []) (append_assoc kept (x ∷ []) (named todo))),
          )
    ]

reorder-reordering :
    (arr : List ApRecord) → reorder arr ≡ reorder_from (length arr) 0 (reordering [] [] arr)
unfolding reorder
reorder-reordering arr =
    ap
      (λ n.
        reorder_from (length arr) 0 (record { arr = arr; num_unique_aps = n; first_free = none }))
      (omega arith)

-- The array is its named records in their order, and behind them records with no name; the count
-- is that of the named records.
pub reorder_lem :
    (arr : List ApRecord)
    → (blanks : List ApRecord) × All IsBlank blanks
      × ((reorder arr).arr ≡ named arr ++ blanks)
      × ((reorder arr).num_unique_aps ≡ length (named arr))
reorder_lem arr =
    let (blanks, hs, e) = reorder_from_lem arr [] [] 0 (omega arith) tt tt in
    let e' = reorder-reordering arr ∙ e in
    (blanks, hs, ap (λ r. r.arr) e' ∙ simp append-nil, ap (λ r. r.num_unique_aps) e' ∙ omega arith)
