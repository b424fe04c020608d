-- ===== src/Manager/Status.antt =====
-- wifi_manager_update_network_connection_info (src/wifi_manager.c), which every change of the
-- connection goes through, and the tests of the event bits.
use esp32_wifi_manager.Common.{
  ℕ, Bool, true, false, ◌&&◌, ◌||◌, Option, none, some, [], Bytes, codes,
}
use esp32_wifi_manager.NetworkInfo.{
  NetworkInfo, NetworkInfoStr, UpdateReason, connection_ok, connection_undef, failed_attempt,
  user_disconnect, lost_connection,
}
use esp32_wifi_manager.NetworkInfo
use esp32_wifi_manager.Manager.{World, Env, IpInfo, reconnect_timer_stop, emit, with_bits}

-- The text that the status has while there is no address.
abbrev pub zero_network : NetworkInfoStr
zero_network = record { ip = codes "0"; gw = codes "0"; netmask = codes "0"; dhcp = [] }

abbrev pub is_connection_ok : UpdateReason → Bool
is_connection_ok connection_ok = true
is_connection_ok _ = false

module _ (env : Env) where
  -- sta_ip_safe_set; sta_ip_safe_reset is its call at 0.
  unfoldable pub sta_ip_set : ℕ → World → World
  sta_ip_set ip w = record w { sta_ip = env.ntoa ip }

  unfoldable pub sta_ip_reset : World → World
  unfolding sta_ip_set
  sta_ip_reset w = sta_ip_set 0 w

  -- The bit that a new connection sets: Ethernet's if there is no SSID.
  unfoldable pub set_connected : Option Bytes → World → World
  set_connected none w = with_bits (record w.bits { eth_connected = true }) w
  set_connected (some _) w =
      emit reconnect_timer_stop (with_bits (record w.bits { wifi_connected = true }) w)

  unfoldable pub dhcp_str : Option ℕ → Bytes
  dhcp_str none = []
  dhcp_str (some ip) = env.ntoa ip

  unfoldable pub ip_info_str : Option IpInfo → Option ℕ → NetworkInfoStr
  unfolding dhcp_str
  ip_info_str none p_dhcp_ip = zero_network
  ip_info_str (some i) p_dhcp_ip = record {
    ip = env.ntoa i.ip;
    gw = env.ntoa i.gw;
    netmask = env.ntoa i.netmask;
    dhcp = dhcp_str p_dhcp_ip;
  }

  unfoldable pub set_sta_ip : Option IpInfo → World → World
  unfolding sta_ip_set sta_ip_reset
  set_sta_ip none w = sta_ip_reset w
  set_sta_ip (some i) w = sta_ip_set i.ip w

  unfoldable pub update_network_connection_info :
      UpdateReason → Option Bytes → Option IpInfo → Option ℕ → World → World
  unfolding set_connected set_sta_ip ip_info_str sta_ip_reset NetworkInfo.update
  update_network_connection_info connection_ok p_ssid p_ip_info p_dhcp_ip w =
      let w' = set_sta_ip p_ip_info (set_connected p_ssid w) in
      record w' {
        network_info =
            NetworkInfo.update p_ssid (some (ip_info_str p_ip_info p_dhcp_ip)) connection_ok
              w'.network_info;
      }
  update_network_connection_info reason p_ssid p_ip_info p_dhcp_ip w =
      let w' = sta_ip_reset w in
      record w' {
        bits = record w'.bits { wifi_connected = false; eth_connected = false };
        network_info = NetworkInfo.update p_ssid (some zero_network) reason w'.network_info;
      }

-- wifi_manager_is_req_from_lan_blocked_while_ap_is_active
unfoldable pub is_req_from_lan_blocked_while_ap_is_active : World → Bool
is_req_from_lan_blocked_while_ap_is_active w =
    w.bits.ap_active && w.bits.block_req_from_lan_while_ap_active

-- wifi_manager_is_connected_to_wifi_or_ethernet
unfoldable pub is_connected_to_wifi_or_ethernet : World → Bool
is_connected_to_wifi_or_ethernet w = w.bits.wifi_connected || w.bits.eth_connected

-- wifi_manager_update_time_sync_info
unfoldable pub update_time_sync_info : Bool → World → World
unfolding NetworkInfo.set_time_valid
update_time_sync_info is_valid w = record w {
  network_info = NetworkInfo.set_time_valid is_valid w.network_info;
}
