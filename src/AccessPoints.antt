-- ===== src/AccessPoints.antt =====
-- The list of scanned access points (src/access_points_list.c): the records that a scan leaves in
-- an array are made unique by name and kind of authentication, moved to the front, and sorted.
-- A record has the fields that the code reads; `ssid` is the C string in the record's buffer. The
-- array is a list, and the number of records that the functions take is its length.
pub mod Unique
pub mod Reorder
pub mod Filter
pub mod Sort
use esp32_wifi_manager.Common.{
  ℕ, zero, suc, ◌-◌, Bool, true, false, ◌&&◌, Option, none, some, List, [], ◌∷◌, Bytes, bytes_eq,
  is_empty, length, get_elem?, set, ◌==◌, if◌then◌else◌,
}
use esp32_wifi_manager.Common.Int.{ℤ, pos, ltb_ℤ}

-- wifi_ap_record_t: `rssi` is an int8_t, `authmode` an enum whose WIFI_AUTH_OPEN is 0.
pub record ApRecord : Type 0 where
  pub ssid : Bytes
  pub primary : ℕ
  pub rssi : ℤ
  pub authmode : ℕ

-- memset(p_wifi_ap, 0, sizeof(*p_wifi_ap))
abbrev pub cleared : ApRecord
cleared = record { ssid = []; primary = 0; rssi = pos 0; authmode = 0 }

abbrev pub is_open : ApRecord → Bool
is_open ap = ap.authmode == 0

-- `==` on two C truth values
abbrev pub bool_eq : Bool → Bool → Bool
bool_eq true b = b
bool_eq false true = false
bool_eq false false = true

abbrev pub same_network : ApRecord → ApRecord → Bool
same_network a b = bytes_eq a.ssid b.ssid && bool_eq (is_open a) (is_open b)

-- Both records after the call, the source first.
unfoldable pub clear_identical_ap : ApRecord → ApRecord → ApRecord × ApRecord
clear_identical_ap src dst =
    if same_network src dst
    then (record src { rssi = if ltb_ℤ src.rssi dst.rssi then dst.rssi else src.rssi }, cleared)
    else (src, dst)

-- The inner loop, over the records behind `ap`.
unfoldable pub clear_row : ApRecord → List ApRecord → ApRecord × List ApRecord
clear_row ap [] = (ap, [])
clear_row ap (d ∷ ds) =
    let (ap', d') = clear_identical_ap ap d in
    let (ap'', ds') = clear_row ap' ds in (ap'', d' ∷ ds')

-- One round of the outer loop: a record with no name is skipped.
unfoldable pub clear_round : ApRecord → List ApRecord → ApRecord × List ApRecord
clear_round ap rest = if is_empty ap.ssid then (ap, rest) else clear_row ap rest

-- The outer loop, by the rounds that are left.
unfoldable pub clear_rounds : ℕ → List ApRecord → List ApRecord
clear_rounds zero arr = arr
clear_rounds (suc n) [] = []
clear_rounds (suc n) (ap ∷ rest) =
    let (ap', rest') = clear_round ap rest in ap' ∷ clear_rounds n rest'

unfoldable pub clear_identical_aps : List ApRecord → List ApRecord
unfolding clear_rounds
clear_identical_aps arr = clear_rounds (length arr - 1) arr

-- The index of the first record with no name; NULL is `none`.
unfoldable pub find_first_free_slot : List ApRecord → Option ℕ
find_first_free_slot [] = none
find_first_free_slot (ap ∷ rest) =
    let later = find_first_free_slot rest in
    if is_empty ap.ssid then some 0 else elim later [ none ↦ none | some j ↦ some (suc j) ]

-- The variables of the loop of ap_list_reorder; `first_free` is the pointer as an index.
pub record Reordering : Type 0 where
  pub arr : List ApRecord
  pub num_unique_aps : ℕ
  pub first_free : Option ℕ

-- `if (NULL == p_first_free) p_first_free = p_ap;`
abbrev pub mark_free : Option ℕ → ℕ → Option ℕ
mark_free none i = some i
mark_free (some f) i = some f

-- A named record is moved to the free slot, if there is one.
unfoldable pub move_to_free : Reordering → ℕ → ApRecord → Option ℕ → Reordering
unfolding find_first_free_slot
move_to_free r i ap none = r
move_to_free r i ap (some f) =
    let arr' = set (set r.arr f ap) i cleared in
    record r { arr = arr'; first_free = find_first_free_slot arr' }

-- The body of the loop, at a record that is in the array.
unfoldable pub reorder_step : Reordering → ℕ → Option ApRecord → Reordering
unfolding move_to_free
reorder_step r i none = r
reorder_step r i (some ap) =
    if is_empty ap.ssid
    then record r { num_unique_aps = r.num_unique_aps - 1; first_free = mark_free r.first_free i }
    else move_to_free r i ap r.first_free

-- The loop, by the rounds that are left.
unfoldable pub reorder_from : ℕ → ℕ → Reordering → Reordering
unfolding reorder_step
reorder_from zero i r = r
reorder_from (suc n) i r = reorder_from n (suc i) (reorder_step r i (get_elem? r.arr i))

unfoldable pub reorder : List ApRecord → Reordering
unfolding reorder_from
reorder arr =
    reorder_from (length arr) 0
      (record { arr = arr; num_unique_aps = length arr; first_free = none })

-- The array after the call, and the number of unique records. `num_aps` is 0 for an empty array.
unfoldable pub filter_unique : List ApRecord → List ApRecord × ℕ
unfolding clear_identical_aps reorder
filter_unique [] = ([], 0)
filter_unique (ap ∷ rest) =
    let r = reorder (clear_identical_aps (ap ∷ rest)) in (r.arr, r.num_unique_aps)
