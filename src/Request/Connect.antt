-- ===== src/Request/Connect.antt =====
-- The connection that a POST of connect.json orders (src/http_server_handle_req.c).
use esp32_wifi_manager.Common.{
  ℕ, zero, suc, ◌≤◌, ◌<◌, true, Option, none, some, [], ◌∷◌, Bytes, codes, length, take, ◌≡◌, refl,
  ap, arith,
}
use esp32_wifi_manager.NetworkInfo
use esp32_wifi_manager.Manager.{World, Env, by_user, msg_send_cmd_connect_sta}
use esp32_wifi_manager.Manager.Lifecycle.{connect_async, connect_async_by}
use esp32_wifi_manager.Manager.Events.{config_sta_set_ssid_and_password}
use esp32_wifi_manager.Auth.Check.{Libs, resp_err}
use esp32_wifi_manager.Request.{
  fits, ssid_password_of, parse_ssid_password, store_login, connect_to, connect_with, connect_as,
  post_connect_json,
}

take_all : (n : ℕ) (s : Bytes) → length s ≤ n → take n s ≡ s
take_all zero [] h = refl
take_all zero (x ∷ s) h = ground arith
take_all (suc n) [] h = refl
take_all (suc n) (x ∷ s) h = ap (λ t. x ∷ t) (take_all n s (omega (arith, h)))

fits_lem : (size : ℕ) (s : Bytes) → length s < size → fits size (some s) ≡ true
fits_lem size s h = ground arith

ssid_too_long :
    (ssid : Bytes) (o : Option (Option Bytes))
    → 32 ≤ length ssid
    → ssid_password_of (some (some ssid)) o ≡ none
ssid_too_long ssid none h = refl
ssid_too_long ssid (some password) h = ground arith

store_login_lem :
    (env : Env) (ssid password : Bytes) (w : World)
    → length ssid < 32
    → length password < 64
    → store_login env ssid (some password) w
      ≡ record w { sta_config = record { ssid = ssid; password = password } }
unfolding store_login config_sta_set_ssid_and_password
store_login_lem env ssid password w hs hp =
    rw (take_all 31 ssid (omega arith), take_all 63 password (omega arith)) refl

connect_to_lem :
    (env : Env) (ssid password : Bytes) (w : World)
    → length ssid < 32
    → length password < 64
    → connect_to env ssid (some password) w
      ≡ (msg_send_cmd_connect_sta env by_user (record w {
        sta_config = record { ssid = ssid; password = password };
        network_info = NetworkInfo.clear w.network_info;
      })).0
unfolding connect_to connect_async connect_async_by NetworkInfo.clear
connect_to_lem env ssid password w hs hp =
    ap (λ w'. connect_async env (record w' { network_info = NetworkInfo.clear w'.network_info }))
      (store_login_lem env ssid password w hs hp)

-- A name shorter than 32 bytes and a password shorter than 64, posted from the access point, are
-- answered with 200: they are the configuration byte for byte, the network information is
-- cleared, and one order of the user to connect is sent, and nothing else.
pub post_connect_json_lem :
    (env : Env) (libs : Libs) (body : Bytes) (get : Bytes → Option (Option Bytes))
    (ssid password : Bytes) (w : World)
    → libs.parse_json body ≡ some get
    → get (codes "ssid") ≡ some (some ssid)
    → get (codes "password") ≡ some (some password)
    → length ssid < 32
    → length password < 64
    → post_connect_json env libs body w ≡ (
      (msg_send_cmd_connect_sta env by_user (record w {
        sta_config = record { ssid = ssid; password = password };
        network_info = NetworkInfo.clear w.network_info;
      })).0,
      resp_err 200,
    )
unfolding post_connect_json parse_ssid_password connect_as connect_with
post_connect_json_lem env libs body get ssid password w hj hs hp ls lp = simp (
  hj,
  hs,
  hp,
  fits_lem 32 ssid ls,
  fits_lem 64 password lp,
  connect_to_lem env ssid password w ls lp,
)

-- A name of 32 bytes or more is refused, and nothing changes, although a network's name may have
-- 32 bytes.
pub long_ssid_is_refused :
    (env : Env) (libs : Libs) (body : Bytes) (get : Bytes → Option (Option Bytes)) (ssid : Bytes)
    (w : World)
    → libs.parse_json body ≡ some get
    → get (codes "ssid") ≡ some (some ssid)
    → 32 ≤ length ssid
    → post_connect_json env libs body w ≡ (w, resp_err 400)
unfolding post_connect_json parse_ssid_password connect_as
long_ssid_is_refused env libs body get ssid w hj hs ls =
    simp (hj, hs, ssid_too_long ssid (get (codes "password")) ls)
