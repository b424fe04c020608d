-- ===== src/AccessPoints/Sort.antt =====
-- ap_list_sort_by_rssi: the strongest signal first. qsort is the standard library's.
use esp32_wifi_manager.Common.{
  ℕ, zero, suc, ◌+◌, ◌-◌, List, ◌++◌, take, drop, is_empty, leb, if◌then◌else◌,
}
use esp32_wifi_manager.Common.Int.{ℤ, pos, negsuc, pos_part, neg_part}
use esp32_wifi_manager.AccessPoints.{ApRecord}

-- a - b, as an integer.
abbrev pub sub_ℕ : ℕ → ℕ → ℤ
sub_ℕ a b = if leb b a then pos (a - b) else negsuc (b - a - 1)

-- The sign says which record stands first. INT16_MIN is -32768.
unfoldable pub compare_by_rssi : ApRecord → ApRecord → ℤ
compare_by_rssi item1 item2 =
    if is_empty item2.ssid
    then negsuc 32767
    else sub_ℕ (pos_part item2.rssi + neg_part item1.rssi)
        (pos_part item1.rssi + neg_part item2.rssi)

-- The first `num_aps` records are sorted in place.
unfoldable pub sort_by_rssi :
    ((ApRecord → ApRecord → ℤ) → List ApRecord → List ApRecord) → List ApRecord → ℕ → List ApRecord
sort_by_rssi qsort arr zero = arr
sort_by_rssi qsort arr (suc n) = qsort compare_by_rssi (take (suc n) arr) ++ drop (suc n) arr
