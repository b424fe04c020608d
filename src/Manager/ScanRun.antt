-- ===== src/Manager/ScanRun.antt =====
-- A whole scan: the channels that it visits, and its end.
use esp32_wifi_manager.Common.{
  ℕ, zero, suc, ◌+◌, ◌<◌, ◌≡◌, refl, ap, ◌∙◌, true, false, some, List, [], ◌∷◌, ◌++◌, arith,
}
use esp32_wifi_manager.AccessPoints.{ApRecord}
use esp32_wifi_manager.Manager.{World, Env, Action, wifi_scan_start}
use esp32_wifi_manager.Manager.Scan.{
  scan_next, store_scanned, notify_scan_done, handle_cmd_start_wifi_scan, handle_ev_scan_next,
  handle_ev_scan_done,
}

-- The channels on which scans are started, the newest first.
abbrev pub channels : List Action → List ℕ
channels [] = []
channels (wifi_scan_start c ∷ rest) = c ∷ channels rest
channels (_ ∷ rest) = channels rest

-- n, n - 1, ..., 1
unfoldable pub countdown : ℕ → List ℕ
countdown zero = []
countdown (suc n) = suc n ∷ countdown n

-- The timer fires, and the driver reports that the channel is scanned.
unfoldable pub scan_round : Env → World → World
unfolding handle_ev_scan_next handle_ev_scan_done
scan_round env w = handle_ev_scan_done env (handle_ev_scan_next env w)

unfoldable pub scan_rounds : Env → ℕ → World → World
unfolding scan_round
scan_rounds env zero w = w
scan_rounds env (suc n) w = scan_round env (scan_rounds env n w)

module _ (env : Env) (w : World) (found : List ApRecord) where
  -- Storing the records of a channel changes neither the bits nor the channels nor the log.
  store_scanned_keeps :
      let w' = store_scanned env found w in
      (w'.bits ≡ w.bits)
      × (w'.log ≡ w.log)
      × (w'.scan_info.cur_chan ≡ w.scan_info.cur_chan)
      × (w'.scan_info.last_chan ≡ w.scan_info.last_chan)
  unfolding store_scanned
  store_scanned_keeps = (refl, refl, refl, refl)

-- The scan is on channel `c` of `last`, behind the channels of `before`.
record IsScanning (c last : ℕ) (before : List ℕ) (w : World) : Type 0 where
  scanning : w.bits.scan ≡ true
  at : w.scan_info.cur_chan ≡ c
  until : w.scan_info.last_chan ≡ last
  visited : channels w.log ≡ before

module _ (env : Env) (found : List ApRecord) (starts : env.scan_start_ok ≡ true)
    (gets : env.scanned ≡ some found) where
  round_next :
      (c last : ℕ) (before : List ℕ) (w : World)
      → c < last
      → last < 255
      → IsScanning c last before w
      → IsScanning (suc c) last (c ∷ before) (scan_round env w)
  unfolding scan_next scan_round notify_scan_done
  round_next c last before w lt small s = rw (starts, gets) (ground arith)

  round_last :
      (c : ℕ) (before : List ℕ) (w : World)
      → c < 255
      → IsScanning c c before w
      → let after = scan_round env w in
        (after.bits.scan ≡ false) × (channels after.log ≡ c ∷ before)
  unfolding scan_next scan_round notify_scan_done
  round_last c before w small s = rw (starts, gets) (ground arith)

  rounds_IsScanning :
      (k last : ℕ) (w : World)
      → k < last
      → last < 255
      → IsScanning 1 last (channels w.log) w
      → IsScanning (suc k) last (countdown k ++ channels w.log) (scan_rounds env k w)
  unfolding scan_rounds countdown
  rounds_IsScanning zero last w lt small s = s
  rounds_IsScanning (suc k) last w lt small s =
      round_next (suc k) last (countdown k ++ channels w.log) (scan_rounds env k w) lt small
        (rounds_IsScanning k last w (omega arith) small s)

start_IsScanning :
    (env : Env) (schan nchan last : ℕ) (w : World)
    → w.bits.scan ≡ false
    → env.country ≡ some (schan, nchan)
    → schan + nchan ≡ suc last
    → 0 < last
    → last < 255
    → IsScanning 1 last (channels w.log) (handle_cmd_start_wifi_scan env w)
      × (channels (handle_cmd_start_wifi_scan env w).log ≡ channels w.log)
unfolding handle_cmd_start_wifi_scan scan_next
start_IsScanning env schan nchan last w idle c sum pos small = rw (idle, c) (ground arith)

-- A scan that is ordered while none runs, in a country whose last channel is between 1 and 254,
-- visits the channels 1, 2, ... up to the last one, each once and in this order, and then it is
-- over; while a channel is left it is not. This is where the driver starts each scan and gives
-- its records. The country's first channel plays no part.
pub scan_visits_channels :
    (env : Env) (schan nchan last k : ℕ) (found : List ApRecord) (w : World)
    → w.bits.scan ≡ false
    → env.country ≡ some (schan, nchan)
    → schan + nchan ≡ suc last
    → k < last
    → last < 255
    → env.scan_start_ok ≡ true
    → env.scanned ≡ some found
    → let started = handle_cmd_start_wifi_scan env w in
      (channels (scan_rounds env last started).log ≡ countdown last ++ channels w.log)
      × ((scan_rounds env last started).bits.scan ≡ false)
      × ((scan_rounds env k started).bits.scan ≡ true)
scan_visits_channels env schan nchan zero k found w idle c sum lt small starts gets =
    absurd (omega arith)
scan_visits_channels env schan nchan (suc m) k found w idle c sum lt small starts gets =
    let started = handle_cmd_start_wifi_scan env w in
    let (s, log) = start_IsScanning env schan nchan (suc m) w idle c sum (omega arith) small in
    let s' = rw (← log) at s in
    let running = rounds_IsScanning env found starts gets in
    let (over, visited) =
      round_last env found starts gets (suc m) (countdown m ++ channels started.log)
        (scan_rounds env m started) small (running m (suc m) started (omega arith) small s') in
    (
      unfold scan_rounds countdown in visited ∙ ap (λ l. suc m ∷ countdown m ++ l) log,
      unfold scan_rounds in over,
      (running k (suc m) started lt small s').scanning,
    )
