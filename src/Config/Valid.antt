-- ===== src/Config/Valid.antt =====
-- What every configuration satisfies, and what becomes of the stored one.
use esp32_wifi_manager.Common.{
  ℕ, zero, suc, ◌≤◌, ◌≡◌, refl, true, false, Option, none, some, [], ◌∷◌, Bytes, bytes_eq_refl,
  length, take, is_empty, ◌==◌, Bool-cases, inl, inr, arith,
}
use esp32_wifi_manager.Config.{
  Kconfig, ApConfig, HostInfo, Config, Configs, checked_authmode, default_config_init,
  default_config_set,
}
use esp32_wifi_manager.Config.Stored.{
  deprecated_blob, Blob, BlobSettings, Nvs, NvsEnv, convert, blob_of, convert_unless_deprecated,
  blob_read, mark, mark_deprecated,
}

-- The access point is open exactly if it has no password.
abbrev pub IsOpenIffEmpty : ApConfig → Type 0
IsOpenIffEmpty a = (a.authmode == 0) ≡ is_empty a.password

-- The values that the driver accepts, and strings that fit their buffers of 32 and 64 bytes.
pub record IsValid (c : Config) : Type 0 where
  pub open_iff_empty : IsOpenIffEmpty c.ap.wifi_config_ap
  pub channel_le : c.ap.wifi_config_ap.channel ≤ 14
  pub hidden_le : c.ap.wifi_config_ap.ssid_hidden ≤ 1
  pub bandwidth_pos : 1 ≤ c.ap.wifi_settings_ap.ap_bandwidth
  pub bandwidth_le : c.ap.wifi_settings_ap.ap_bandwidth ≤ 2
  pub power_save_le : c.sta.wifi_settings_sta.sta_power_save ≤ 2
  pub ssid_fits : length c.sta.wifi_config_sta.ssid ≤ 31
  pub password_fits : length c.sta.wifi_config_sta.password ≤ 63

length-take-le : (n : ℕ) (s : Bytes) → length (take n s) ≤ n
length-take-le zero s = omega arith
length-take-le (suc n) [] = omega arith
length-take-le (suc n) (x ∷ s) = omega (arith, length-take-le n s)

checked_authmode_lem : (a : ApConfig) → IsOpenIffEmpty (checked_authmode a)
unfolding checked_authmode
checked_authmode_lem a = ground arith

-- However a default configuration is made, from the build's settings or from what an application
-- gives, the access point that it describes is open exactly if it has no password.
pub default_config_init-open_when_empty :
    (k : Kconfig) (ssid : Bytes) (host : HostInfo) (c : Config) (s : Configs)
    → IsOpenIffEmpty (default_config_init k ssid host s).default_config.ap.wifi_config_ap
      × IsOpenIffEmpty (default_config_set c s).default_config.ap.wifi_config_ap
unfolding default_config_init default_config_set
default_config_init-open_when_empty k ssid host c s =
    (ground arith, checked_authmode_lem c.ap.wifi_config_ap)

-- Whatever bytes earlier firmware has stored, what is made of them over a valid default
-- configuration is valid: its channel, its flags and its enumerations are values of the driver, its
-- strings fit, and the access point stays open exactly if it has no password.
pub convert-IsValid : (b : Blob) (d : Config) → IsValid d → IsValid (convert b d)
unfolding convert
convert-IsValid b d v = record {
  open_iff_empty = v.open_iff_empty;
  channel_le = ground arith;
  hidden_le = ground arith;
  bandwidth_pos = ground (arith, v.bandwidth_pos);
  bandwidth_le = ground (arith, v.bandwidth_le);
  power_save_le = ground (arith, v.power_save_le);
  ssid_fits = length-take-le 31 b.sta_ssid;
  password_fits = length-take-le 63 b.sta_password;
}

-- The namespace with its settings marked.
abbrev marked : Nvs → BlobSettings → Nvs
marked n w = record n { settings = some (record w { ap_ssid = deprecated_blob }) }

mark_done :
    (e : NvsEnv) (n : Nvs) (o : Option BlobSettings)
    → (mark e n o).1 ≡ true
    → (w : BlobSettings) × ((mark e n o).0 ≡ marked n w)
mark_done e n none h = cc
mark_done e n (some w) h = (w, ground arith)

marked_read :
    (d : Config) (ssid password : Option Bytes) (w : BlobSettings)
    → convert_unless_deprecated d
        (blob_of ssid password (some (record w { ap_ssid = deprecated_blob })))
      ≡ none
marked_read d none password w = refl
marked_read d (some s) none w = refl
marked_read d (some s) (some p) w = rw (bytes_eq_refl deprecated_blob) refl

closed_fails : (e : NvsEnv) (n : Nvs) → e.open_ok ≡ false → (mark_deprecated e n).1 ≡ false
unfolding mark_deprecated
closed_fails e n bad = rw bad refl

mark_deprecated_done :
    (e : NvsEnv) (n : Nvs)
    → (mark_deprecated e n).1 ≡ true
    → (w : BlobSettings) × ((mark_deprecated e n).0 ≡ marked n w)
unfolding mark_deprecated
mark_deprecated_done e n h = elim (Bool-cases e.open_ok) [
  | inl ok ↦ rw ok (mark_done e n n.settings (rw ok at h))
  | inr bad ↦ absurd (cc (closed_fails e n bad))
]

read_marked :
    (e : NvsEnv) (d : Config) (n : Nvs) (w : BlobSettings) → blob_read e (marked n w) d ≡ none
unfolding blob_read
read_marked e d n w = elim (Bool-cases e.open_ok) [
  | inl ok ↦ rw ok (marked_read d n.ssid n.password w)
  | inr bad ↦ rw bad refl
]

mark_marked :
    (e : NvsEnv) (n : Nvs) (w : BlobSettings) → mark_deprecated e (marked n w) ≡ (marked n w, false)
unfolding mark_deprecated
mark_marked e n w = elim (Bool-cases e.open_ok) [ inl ok ↦ rw ok refl | inr bad ↦ rw bad refl ]

-- Once the stored configuration has been marked as deprecated it is taken over no more: whatever
-- default there is and whichever calls of the storage succeed then, a read gives nothing, a second
-- mark fails and changes nothing. The mark leaves the other blobs as they were.
pub mark_deprecated_once :
    (e : NvsEnv) (n : Nvs) (e' : NvsEnv) (d : Config)
    → (mark_deprecated e n).1 ≡ true
    → (blob_read e' (mark_deprecated e n).0 d ≡ none)
      × (mark_deprecated e' (mark_deprecated e n).0 ≡ ((mark_deprecated e n).0, false))
      × ((mark_deprecated e n).0.ssid ≡ n.ssid)
      × ((mark_deprecated e n).0.password ≡ n.password)
mark_deprecated_once e n e' d h =
    let (w, eq) = mark_deprecated_done e n h in
    rw eq (read_marked e' d n w, mark_marked e' n w, refl, refl)
