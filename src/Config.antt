-- ===== src/Config.antt =====
-- The configuration (src/wifiman_config.c): the default one and the current one, behind a mutex by
-- which each function runs whole (see Shared). Strings are the texts in their buffers.
pub mod Stored
pub mod Valid
use esp32_wifi_manager.Common.{
  ℕ, Bool, true, false, not, Option, none, some, [], ◌∷◌, Bytes, truncate, is_empty, ◌==◌,
  if◌then◌else◌,
}

-- The settings that the build gives, CONFIG_DEFAULT_AP_*.
pub record Kconfig : Type 0 where
  pub ap_password : Bytes
  pub ap_channel : ℕ
  pub ap_max_connections : ℕ
  pub ap_beacon_interval : ℕ
  pub ap_ip : Bytes
  pub ap_gateway : Bytes
  pub ap_netmask : Bytes

-- wifi_ap_config_t. The mode of authentication is 0 for WIFI_AUTH_OPEN, 3 for WIFI_AUTH_WPA2_PSK.
pub record ApConfig : Type 0 where
  pub ssid : Bytes
  pub password : Bytes
  pub ssid_len : ℕ
  pub channel : ℕ
  pub authmode : ℕ
  pub ssid_hidden : ℕ
  pub max_connection : ℕ
  pub beacon_interval : ℕ

-- wifi_settings_ap_t. The bandwidth is 1 for WIFI_BW_HT20, 2 for WIFI_BW_HT40.
pub record ApSettings : Type 0 where
  pub ap_bandwidth : ℕ
  pub ap_ip : Bytes
  pub ap_gw : Bytes
  pub ap_netmask : Bytes

-- wifi_sta_config_t, with the numbers of its further fields that are not 0 by default in every build
pub record StaWifiConfig : Type 0 where
  pub ssid : Bytes
  pub password : Bytes
  pub scan_method : ℕ
  pub bssid_set : Bool
  pub channel : ℕ
  pub listen_interval : ℕ
  pub sort_method : ℕ

-- esp_netif_ip_info_t
pub record StaticIp : Type 0 where
  pub ip : ℕ
  pub netmask : ℕ
  pub gw : ℕ

-- wifi_settings_sta_t. Power is not saved (0), or at a minimum (1) or a maximum (2).
pub record StaSettings : Type 0 where
  pub sta_power_save : ℕ
  pub sta_static_ip : Bool
  pub sta_static_ip_config : StaticIp

-- wifiman_hostinfo_t
pub record HostInfo : Type 0 where
  pub hostname : Bytes
  pub fw_ver : Bytes
  pub nrf52_fw_ver : Bytes

-- wifiman_config_t, with wifiman_config_ap_t and wifiman_config_sta_t
pub record ConfigAp : Type 0 where
  pub wifi_config_ap : ApConfig
  pub wifi_settings_ap : ApSettings

pub record ConfigSta : Type 0 where
  pub wifi_config_sta : StaWifiConfig
  pub wifi_settings_sta : StaSettings
  pub hostinfo : HostInfo

pub record Config : Type 0 where
  pub ap : ConfigAp
  pub sta : ConfigSta

-- g_wifiman_config_default and g_wifiman_config
pub record Configs : Type 0 where
  pub default_config : Config
  pub config : Config

abbrev pub auth_open : ℕ
auth_open = 0

abbrev pub auth_wpa2_psk : ℕ
auth_wpa2_psk = 3

abbrev pub zero_sta : StaWifiConfig
zero_sta = record {
  ssid = [];
  password = [];
  scan_method = 0;
  bssid_set = false;
  channel = 0;
  listen_interval = 0;
  sort_method = 0;
}

-- g_wifiman_config_default_const
abbrev pub default_const : Kconfig → Config
default_const k = record {
  ap = record {
    wifi_config_ap = record {
      ssid = [];
      password = k.ap_password;
      ssid_len = 0;
      channel = k.ap_channel;
      authmode = auth_wpa2_psk;
      ssid_hidden = 0;
      max_connection = k.ap_max_connections;
      beacon_interval = k.ap_beacon_interval;
    };
    wifi_settings_ap = record {
      ap_bandwidth = 1;
      ap_ip = k.ap_ip;
      ap_gw = k.ap_gateway;
      ap_netmask = k.ap_netmask;
    };
  };
  sta = record {
    wifi_config_sta = zero_sta;
    wifi_settings_sta = record {
      sta_power_save = 0;
      sta_static_ip = false;
      sta_static_ip_config = record { ip = 0; netmask = 0; gw = 0 };
    };
    hostinfo = record { hostname = []; fw_ver = []; nrf52_fw_ver = [] };
  };
}

abbrev pub with_ap_config : ApConfig → Config → Config
with_ap_config a c = record c { ap = record c.ap { wifi_config_ap = a } }

-- wifiman_default_config_init: the buffers have 32, 30, 33 and 33 bytes.
unfoldable pub default_config_init : Kconfig → Bytes → HostInfo → Configs → Configs
default_config_init k ssid host s =
    let c = default_const k in
    let named = record c {
      sta = record c.sta {
        hostinfo = record {
          hostname = truncate 30 host.hostname;
          fw_ver = truncate 33 host.fw_ver;
          nrf52_fw_ver = truncate 33 host.nrf52_fw_ver;
        };
      };
    } in
    record s {
      default_config =
          with_ap_config
            (record c.ap.wifi_config_ap {
              ssid = truncate 32 ssid;
              authmode = if is_empty k.ap_password then auth_open else auth_wpa2_psk;
            })
            named;
    }

-- wifiman_default_config_set
unfoldable pub checked_authmode : ApConfig → ApConfig
checked_authmode a =
    if is_empty a.password
    then (if not (a.authmode == auth_open) then record a { authmode = auth_open } else a)
    else (if a.authmode == auth_open then record a { authmode = auth_wpa2_psk } else a)

unfoldable pub default_config_set : Config → Configs → Configs
unfolding checked_authmode
default_config_set c s = record s {
  default_config = with_ap_config (checked_authmode c.ap.wifi_config_ap) c;
}

-- wifiman_config_init, wifiman_config_ap_set and wifiman_config_sta_set
unfoldable pub config_init : Config → Configs → Configs
config_init c s = record s { config = c }

unfoldable pub config_ap_set : ConfigAp → Configs → Configs
config_ap_set ap s = record s { config = record s.config { ap = ap } }

unfoldable pub config_sta_set : ConfigSta → Configs → Configs
config_sta_set sta s = record s { config = record s.config { sta = sta } }

abbrev pub password_or_empty : Option Bytes → Bytes
password_or_empty none = []
password_or_empty (some p) = p

-- wifiman_config_sta_set_ssid_and_password
unfoldable pub set_ssid_and_password : Bytes → Option Bytes → Configs → Configs
set_ssid_and_password ssid password s = record s {
  config = record s.config {
    sta = record s.config.sta {
      wifi_config_sta = record zero_sta {
        ssid = truncate 32 ssid;
        password = truncate 64 (password_or_empty password);
      };
    };
  };
}

-- wifiman_config_sta_get_ssid and wifiman_config_sta_is_ssid_configured
unfoldable pub sta_get_ssid : Configs → Bytes
sta_get_ssid s = truncate 32 s.config.sta.wifi_config_sta.ssid

unfoldable pub is_ssid_configured : Configs → Bool
unfolding sta_get_ssid
is_ssid_configured s = not (is_empty (sta_get_ssid s))

-- wifiman_config_ap_get_ip_str
unfoldable pub ap_get_ip_str : Configs → Bytes
ap_get_ip_str s = s.config.ap.wifi_settings_ap.ap_ip
