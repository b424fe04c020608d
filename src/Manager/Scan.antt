-- ===== src/Manager/Scan.antt =====
-- Scanning (src/wifi_manager_handle_msg.c): one channel after another, with a timer between.
use esp32_wifi_manager.Common.{
  ℕ, ◌+◌, ◌%◌, Bool, true, false, Option, none, some, List, ◌++◌, take, drop, length, ltb, leb,
  if◌then◌else◌,
}
use esp32_wifi_manager.AccessPoints.{ApRecord, filter_unique}
use esp32_wifi_manager.AccessPoints.Sort.{sort_by_rssi}
use esp32_wifi_manager.Manager.{
  World, Env, ScanInfo, event_scan_done, wifi_scan_start, scan_timer_start, sema_signal, emit,
  with_bits, msg_send_code,
}

abbrev pub max_ap_num : ℕ
max_ap_num = 30

-- `cur_chan` is a uint8_t. The result says that the scan is finished.
unfoldable pub scan_next : World → World × Bool
scan_next w =
    let chan = (w.scan_info.cur_chan + 1) % 256 in
    let w' = record w { scan_info = record w.scan_info { cur_chan = chan } } in
    if ltb w.scan_info.last_chan chan then (w', true) else (emit scan_timer_start w', false)

-- wifi_manger_notify_scan_done
unfoldable pub notify_scan_done : World → World
notify_scan_done w =
    let w' = with_bits (record w.bits { scan = false }) w in
    if w.scan_sync then emit sema_signal w' else w'

-- The channels of the country, or the default ones.
abbrev country_or_default : Option (ℕ × ℕ) → ℕ × ℕ
country_or_default none = (1, 13)
country_or_default (some c) = c

-- `last_chan` is the uint8_t of schan + nchan - 1.
abbrev pub scan_info_of : ℕ × ℕ → ScanInfo
scan_info_of (schan, nchan) = record {
  first_chan = schan;
  last_chan = (schan + nchan + 255) % 256;
  cur_chan = 0;
  num_access_points = 0;
}

-- esp_wifi_scan_get_ap_records writes behind the first MAX_AP_NUM records, at most as many.
abbrev pub write_scanned : List ApRecord → List ApRecord → List ApRecord
write_scanned found aps =
    let new = take max_ap_num found in
    take max_ap_num aps ++ (new ++ drop (max_ap_num + length new) aps)

module _ (env : Env) where
  abbrev after_first_channel : World × Bool → World
  after_first_channel (w, true) = (msg_send_code env event_scan_done w).0
  after_first_channel (w, false) = w

  unfoldable pub handle_cmd_start_wifi_scan : World → World
  unfolding scan_next msg_send_code
  handle_cmd_start_wifi_scan w =
      if w.bits.scan
      then w
      else after_first_channel (
          scan_next (record w {
            bits = record w.bits { scan = true };
            scan_info = scan_info_of (country_or_default env.country);
          }))

  unfoldable pub handle_ev_scan_next : World → World
  unfolding notify_scan_done
  handle_ev_scan_next w =
      let w' = emit (wifi_scan_start w.scan_info.cur_chan) w in
      if env.scan_start_ok then w' else notify_scan_done w'

  -- All records, the old and the new, are made unique, and the named ones are sorted.
  unfoldable pub store_scanned : List ApRecord → World → World
  unfolding filter_unique sort_by_rssi
  store_scanned found w =
      let (arr, n) = filter_unique (write_scanned found w.ap_records) in
      record w {
        ap_records = sort_by_rssi env.qsort arr n;
        ap_num = n;
        scan_info = record w.scan_info {
          num_access_points = if leb max_ap_num n then max_ap_num else n;
        };
      }

  abbrev pub after_channel : World × Bool → World
  after_channel (w, true) = notify_scan_done w
  after_channel (w, false) = w

  abbrev on_scanned : Option (List ApRecord) → World → World
  on_scanned none w = notify_scan_done w
  on_scanned (some found) w = after_channel (scan_next (store_scanned found w))

  unfoldable pub handle_ev_scan_done : World → World
  unfolding notify_scan_done scan_next store_scanned
  handle_ev_scan_done w = on_scanned env.scanned w
