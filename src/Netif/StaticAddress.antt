-- ===== src/Netif/StaticAddress.antt =====
-- A static address can be set once (wifi_manager_netif_configure_sta, src/wifi_manager_internal.c).
use esp32_wifi_manager.Common.{ℕ, ◌≡◌, refl, ◌∙◌, ◌⊎◌, Bool, true, false, some}
use esp32_wifi_manager.Config.{StaticIp, Configs}
use esp32_wifi_manager.Netif.{
  EspNetif, dhcp_init, dhcp_started, dhcp_stopped, then_do, configure_sta,
}

-- What ESP-IDF says of the client of DHCP: it is stopped once, a further stop fails with
-- ESP_ERR_ESP_NETIF_DHCP_ALREADY_STOPPED and changes nothing, and to set the address or the saving
-- of power does not start it.
pub record IsDhcpClient (S : Type 0) (n : EspNetif S) : Type 0 where
  pub stops :
      (s : S)
      → (n.dhcpc_get_status s ≡ some dhcp_started) ⊎ (n.dhcpc_get_status s ≡ some dhcp_init)
      → ((n.dhcpc_stop s).1 ≡ true) × (n.dhcpc_get_status (n.dhcpc_stop s).0 ≡ some dhcp_stopped)
  pub already_stopped :
      (s : S) → n.dhcpc_get_status s ≡ some dhcp_stopped → n.dhcpc_stop s ≡ (s, false)
  pub keeps_ip :
      (a : StaticIp) (s : S) → n.dhcpc_get_status (n.set_ip_info_sta a s).0 ≡ n.dhcpc_get_status s
  pub keeps_ps : (ps : ℕ) (s : S) → n.dhcpc_get_status (n.wifi_set_ps ps s).0 ≡ n.dhcpc_get_status s

abbrev pub has_static_ip : Configs → Bool
has_static_ip c = c.config.sta.wifi_settings_sta.sta_static_ip

module _ {S : Type 0} (n : EspNetif S) (laws : IsDhcpClient S n) where
  then_do_keeps :
      (r : S × Bool) (next : S → S)
      → n.dhcpc_get_status r.0 ≡ some dhcp_stopped
      → ((s : S)
          → n.dhcpc_get_status s ≡ some dhcp_stopped
          → n.dhcpc_get_status (next s) ≡ some dhcp_stopped)
      → n.dhcpc_get_status (then_do n r next) ≡ some dhcp_stopped
  then_do_keeps (s, true) next h k = k s h
  then_do_keeps (s, false) next h k = h

  -- Whatever else fails, the client is stopped behind a configuration with a static address.
  configure_sta-stops :
      (c : Configs) (s : S)
      → has_static_ip c ≡ true
      → (n.dhcpc_get_status s ≡ some dhcp_started) ⊎ (n.dhcpc_get_status s ≡ some dhcp_init)
      → n.dhcpc_get_status (configure_sta n c s) ≡ some dhcp_stopped
  unfolding configure_sta
  configure_sta-stops c s static on =
      let a = c.config.sta.wifi_settings_sta.sta_static_ip_config in
      let ps = c.config.sta.wifi_settings_sta.sta_power_save in
      rw static (
        then_do_keeps (n.dhcpc_stop s) _ (laws.stops s on).1 λ s1 h.
          then_do_keeps (n.set_ip_info_sta a s1) _ (laws.keeps_ip a s1 ∙ h)
            λ s2 k. laws.keeps_ps ps s2 ∙ k)

  configure_sta-stopped :
      (c : Configs) (s : S)
      → has_static_ip c ≡ true
      → n.dhcpc_get_status s ≡ some dhcp_stopped
      → configure_sta n c s ≡ s
  unfolding configure_sta
  configure_sta-stopped c s static off = rw (static, laws.already_stopped s off) refl

  -- A static address that replaces another one never takes effect: behind one configuration of the
  -- station with a static address, a second one with any static address changes nothing, since the
  -- client of DHCP cannot be stopped again, whatever else succeeds. That is for a client as ESP-IDF
  -- describes it, which runs before the first configuration or has not been started yet.
  pub static_ip_not_replaced :
      (c c' : Configs) (s : S)
      → has_static_ip c ≡ true
      → has_static_ip c' ≡ true
      → (n.dhcpc_get_status s ≡ some dhcp_started) ⊎ (n.dhcpc_get_status s ≡ some dhcp_init)
      → configure_sta n c' (configure_sta n c s) ≡ configure_sta n c s
  static_ip_not_replaced c c' s static static' on =
      configure_sta-stopped c' (configure_sta n c s) static' (configure_sta-stops c s static on)
