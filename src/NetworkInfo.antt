-- ===== src/NetworkInfo.antt =====
-- The connection status behind /status.json (src/json_network_info.c): what is stored, and the
-- actions that change it under its mutex. An action runs whole, so it is a function of the status.
use esp32_wifi_manager.Common.{Bool, true, false, Option, none, some, [], Bytes, truncate}

-- update_reason_code_e, with UPDATE_CONNECTION_UNDEF first
pub data UpdateReason : Type 0 where
  connection_undef connection_ok failed_attempt user_disconnect lost_connection : UpdateReason

-- network_info_str_t
pub record NetworkInfoStr : Type 0 where
  pub ip : Bytes
  pub gw : Bytes
  pub netmask : Bytes
  pub dhcp : Bytes

abbrev pub no_network : NetworkInfoStr
no_network = record { ip = []; gw = []; netmask = []; dhcp = [] }

-- json_network_info_t
pub record NetworkInfo : Type 0 where
  pub is_ssid_null : Bool
  pub is_time_valid : Bool
  pub ssid : Bytes
  pub network_info : NetworkInfoStr
  pub update_reason_code : UpdateReason
  pub extra_info : Bytes

unfoldable pub clear : NetworkInfo → NetworkInfo
clear info = record info {
  is_ssid_null = true;
  is_time_valid = false;
  ssid = [];
  network_info = no_network;
  update_reason_code = connection_undef;
}

unfoldable pub set_reason_user_disconnect : NetworkInfo → NetworkInfo
set_reason_user_disconnect info = record info { update_reason_code = user_disconnect }

abbrev set_ssid : Option Bytes → NetworkInfo → NetworkInfo
set_ssid none info = record info { ssid = []; is_ssid_null = true }
set_ssid (some ssid) info = record info { ssid = ssid; is_ssid_null = false }

abbrev set_network : Option NetworkInfoStr → NetworkInfo → NetworkInfo
set_network none info = record info { network_info = no_network }
set_network (some n) info = record info { network_info = n }

unfoldable pub update :
    Option Bytes → Option NetworkInfoStr → UpdateReason → NetworkInfo → NetworkInfo
update p_ssid p_network_info reason info =
    record (set_network p_network_info (set_ssid p_ssid info)) { update_reason_code = reason }

unfoldable pub set_time_valid : Bool → NetworkInfo → NetworkInfo
set_time_valid is_valid info = record info { is_time_valid = is_valid }

-- JSON_NETWORK_EXTRA_INFO_SIZE is 100; NULL is the empty text.
unfoldable pub set_extra_info : Option Bytes → NetworkInfo → NetworkInfo
set_extra_info none info = record info { extra_info = [] }
set_extra_info (some extra) info = record info { extra_info = truncate 100 extra }
