-- ===== src/Config/Stored.antt =====
-- The configuration that earlier firmware stored (src/wifiman_cfg_blob.c,
-- src/wifiman_cfg_blob_convert.c). The storage is its three blobs; which of its calls fail is a
-- parameter.
use esp32_wifi_manager.Common.{
  ℕ, Bool, false, ◌&&◌, ◌||◌, Option, none, some, Bytes, codes, bytes_eq, truncate, leb, ◌==◌,
  if◌then◌else◌,
}
use esp32_wifi_manager.Config.{StaticIp, Config}

-- wifiman_cfg_blob_wifi_settings_t
pub record BlobSettings : Type 0 where
  pub ap_ssid : Bytes
  pub ap_pwd : Bytes
  pub ap_channel : ℕ
  pub ap_ssid_hidden : ℕ
  pub ap_bandwidth : ℕ
  pub sta_only : Bool
  pub sta_power_save : ℕ
  pub sta_static_ip : Bool
  pub sta_static_ip_config : StaticIp

-- wifiman_cfg_blob_t
pub record Blob : Type 0 where
  pub sta_ssid : Bytes
  pub sta_password : Bytes
  pub wifi_settings : BlobSettings

-- The namespace in the storage: the blobs that it has under its three keys.
pub record Nvs : Type 0 where
  pub ssid : Option Bytes
  pub password : Option Bytes
  pub settings : Option BlobSettings

-- Whether the calls of the storage succeed.
pub record NvsEnv : Type 0 where
  pub open_ok : Bool
  pub set_ok : Bool
  pub commit_ok : Bool

-- wifiman_cfg_blob_convert, over the default configuration
unfoldable pub convert : Blob → Config → Config
convert b d =
    let w = b.wifi_settings in
    record {
      ap = record {
        wifi_config_ap = record d.ap.wifi_config_ap {
          channel = if leb w.ap_channel 14 then w.ap_channel else 1;
          ssid_hidden = if w.ap_ssid_hidden == 0 then 0 else 1;
        };
        wifi_settings_ap = record d.ap.wifi_settings_ap {
          ap_bandwidth =
              if (w.ap_bandwidth == 1) || (w.ap_bandwidth == 2)
              then w.ap_bandwidth
              else d.ap.wifi_settings_ap.ap_bandwidth;
        };
      };
      sta = record d.sta {
        wifi_config_sta = record d.sta.wifi_config_sta {
          ssid = truncate 32 b.sta_ssid;
          password = truncate 64 b.sta_password;
        };
        wifi_settings_sta = record {
          sta_power_save =
              if leb w.sta_power_save 2
              then w.sta_power_save
              else d.sta.wifi_settings_sta.sta_power_save;
          sta_static_ip = w.sta_static_ip;
          sta_static_ip_config = w.sta_static_ip_config;
        };
      };
    }

abbrev pub deprecated_blob : Bytes
deprecated_blob = codes "deprecated_blob"

abbrev pub blob_of : Option Bytes → Option Bytes → Option BlobSettings → Option Blob
blob_of (some ssid) (some password) (some settings) =
    some (record { sta_ssid = ssid; sta_password = password; wifi_settings = settings })
blob_of _ _ _ = none

abbrev pub convert_unless_deprecated : Config → Option Blob → Option Config
convert_unless_deprecated d none = none
convert_unless_deprecated d (some b) =
    if bytes_eq b.wifi_settings.ap_ssid deprecated_blob then none else some (convert b d)

-- wifi_manager_cfg_blob_read; `none` is false, with the destination as it was.
unfoldable pub blob_read : NvsEnv → Nvs → Config → Option Config
unfolding bytes_eq convert
blob_read e n d =
    if e.open_ok then convert_unless_deprecated d (blob_of n.ssid n.password n.settings) else none

abbrev pub mark : NvsEnv → Nvs → Option BlobSettings → Nvs × Bool
mark e n none = (n, false)
mark e n (some w) = if bytes_eq w.ap_ssid deprecated_blob then (n, false) else (
  if e.set_ok
      then record n { settings = some (record w { ap_ssid = truncate 32 deprecated_blob }) }
      else n,
  e.set_ok && e.commit_ok,
)

-- wifi_manager_cfg_blob_mark_deprecated
unfoldable pub mark_deprecated : NvsEnv → Nvs → Nvs × Bool
unfolding bytes_eq
mark_deprecated e n = if e.open_ok then mark e n n.settings else (n, false)
