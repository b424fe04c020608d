-- ===== src/Manager/ScanSync.antt =====
-- A scan for a request that waits for its result (wifi_manager_scan_sync,
-- src/wifi_manager_internal.c). What the other threads do while it waits for the semaphore is a
-- function of the world, and so is whether there is memory for the text.
pub mod Stuck
use esp32_wifi_manager.Common.{
  ◌≡◌, refl, ap, ◌∙◌, Bool, true, false, Option, none, some, List, [], ◌∷◌, Bytes, take,
  if◌then◌else◌, arith,
}
use esp32_wifi_manager.Json.{access_points_generate}
use esp32_wifi_manager.Manager.{World, Env, order_start_wifi_scan, msg_send, msg_send_code}

-- What happens while the request waits, and behind the wait: the mutex and the memory for the text.
pub record ScanEnv : Type 0 where
  pub wait : World → World
  pub json_ok : Bool

-- wifi_manager_generate_json_access_points
unfoldable pub generate_json_access_points : ScanEnv → World → Option Bytes
generate_json_access_points e w =
    if e.json_ok then some (access_points_generate (take w.ap_num w.ap_records)) else none

abbrev pub end_scan : ScanEnv → World → World × Option Bytes
end_scan e w = let w' = record w { scan_sync = false } in (w', generate_json_access_points e w')

abbrev pub await_scan : ScanEnv → World × Bool → World × Option Bytes
await_scan e (w, false) = (w, none)
await_scan e (w, true) = end_scan e (e.wait w)

module _ (env : Env) where
  -- wifi_manager_scan_sync
  unfoldable pub scan_sync : ScanEnv → World → World × Option Bytes
  unfolding msg_send_code generate_json_access_points
  scan_sync e w =
      if w.scan_sync
      then (w, none)
      else await_scan e (msg_send_code env order_start_wifi_scan (record w { scan_sync = true }))
