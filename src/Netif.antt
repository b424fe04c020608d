-- ===== src/Netif.antt =====
-- The configuration of the network interfaces (src/wifi_manager_internal.c, src/wifi_manager.c): the
-- calls of ESP-IDF in their order, of which the first that fails ends a function.
pub mod StaticAddress
use esp32_wifi_manager.Common.{ℕ, Bool, true, false, not, Option, none, some, Bytes, if◌then◌else◌}
use esp32_wifi_manager.Manager.{World, Env}
use esp32_wifi_manager.Manager.Lifecycle.{reconnect_sta}
use esp32_wifi_manager.Config.{
  StaticIp, ApConfig, ApSettings, StaSettings, Config, ConfigAp, ConfigSta, Configs, config_ap_set,
  config_sta_set,
}

-- esp_netif_dhcp_status_t
pub data DhcpStatus : Type 0 where
  dhcp_init dhcp_started dhcp_stopped : DhcpStatus

-- The functions of ESP-IDF on its own state; each gives the new state and whether it succeeded.
pub record EspNetif (S : Type 0) : Type 0 where
  pub wifi_set_mode_apsta : S → S × Bool
  pub wifi_set_mode_sta : S → S × Bool
  pub wifi_set_config_ap : ApConfig → S → S × Bool
  pub wifi_set_bandwidth : ℕ → S → S × Bool
  pub wifi_set_ps : ℕ → S → S × Bool
  pub wifi_set_ant_gpio : S → S × Bool
  pub wifi_set_ant : S → S × Bool
  -- The address of a text, esp_ip4addr_aton
  pub ip4addr_aton : Bytes → ℕ
  pub dhcps_stop : S → S × Bool
  pub dhcps_start : S → S × Bool
  pub set_ip_info_ap : StaticIp → S → S × Bool
  pub dhcpc_stop : S → S × Bool
  -- `none` is an error.
  pub dhcpc_get_status : S → Option DhcpStatus
  pub dhcpc_start : S → S × Bool
  pub set_ip_info_sta : StaticIp → S → S × Bool
  pub set_hostname : Bytes → S → S × Bool

module _ {S : Type 0} (n : EspNetif S) where
  -- `if (ESP_OK != err) { return; }`, and what follows
  abbrev pub then_do : S × Bool → (S → S) → S
  then_do (s, true) next = next s
  then_do (s, false) next = s

  -- wifi_manager_esp_wifi_configure_ap
  unfoldable pub configure_ap : Configs → S → S
  configure_ap c s = then_do (n.wifi_set_mode_apsta s) λ s1.
      then_do (n.wifi_set_config_ap c.config.ap.wifi_config_ap s1)
        λ s2. (n.wifi_set_bandwidth c.config.ap.wifi_settings_ap.ap_bandwidth s2).0

  -- wifi_manager_netif_set_default_ip
  unfoldable pub set_default_ip : Configs → S → S
  set_default_ip c s =
      let ap = c.config.ap.wifi_settings_ap in
      let ip_info : StaticIp = record {
        ip = n.ip4addr_aton ap.ap_ip;
        netmask = n.ip4addr_aton ap.ap_netmask;
        gw = n.ip4addr_aton ap.ap_gw;
      } in
      then_do (n.dhcps_stop s)
        λ s1. then_do (n.set_ip_info_ap ip_info s1) λ s2. (n.dhcps_start s2).0

  -- The client of DHCP is started if it is not.
  abbrev pub start_if : Option DhcpStatus → S → S × Bool
  start_if none s = (s, false)
  start_if (some dhcp_started) s = (s, true)
  start_if (some dhcp_init) s = n.dhcpc_start s
  start_if (some dhcp_stopped) s = n.dhcpc_start s

  -- wifi_manager_netif_configure_sta
  unfoldable pub configure_sta : Configs → S → S
  configure_sta c s =
      let sta = c.config.sta.wifi_settings_sta in
      let save_power : S → S = λ s'. (n.wifi_set_ps sta.sta_power_save s').0 in
      if sta.sta_static_ip
      then then_do (n.dhcpc_stop s)
          (λ s1. then_do (n.set_ip_info_sta sta.sta_static_ip_config s1) save_power)
      else then_do (start_if (n.dhcpc_get_status s) s) save_power

  -- wifi_manager_set_ant_config: the second call is made in any case; NULL is `false`.
  unfoldable pub set_ant_config : Bool → S → S
  set_ant_config false s = s
  set_ant_config true s = (n.wifi_set_ant (n.wifi_set_ant_gpio s).0).0

  -- wifi_manager_set_config_ap
  unfoldable pub set_config_ap : ConfigAp → Configs × S → Configs × S
  unfolding config_ap_set configure_ap
  set_config_ap ap (c, s) = let c' = config_ap_set ap c in (c', configure_ap c' s)

  -- wifi_manager_set_config_sta
  unfoldable pub set_config_sta : ConfigSta → Configs × S → Configs × S
  unfolding config_sta_set configure_sta
  set_config_sta sta (c, s) =
      let c' = config_sta_set sta c in (c', (n.wifi_set_mode_sta (configure_sta c' s)).0)

  -- The part of the configuration that the manager's state has.
  abbrev pub with_sta : ConfigSta → World → World
  with_sta sta w = record w {
    sta_config = record {
      ssid = sta.wifi_config_sta.ssid;
      password = sta.wifi_config_sta.password;
    };
  }

  -- wifi_manager_reconfigure; it returns true in any case.
  unfoldable pub reconfigure : Env → Bool → Config → Configs × S × World → Configs × S × World
  unfolding set_config_ap set_config_sta reconnect_sta
  reconfigure env connect cfg (c, s, w) =
      let r = set_config_sta cfg.sta (set_config_ap cfg.ap (c, s)) in
      (
        r.0,
        (n.set_hostname r.0.config.sta.hostinfo.hostname r.1).0,
        if connect then reconnect_sta env (with_sta cfg.sta w) else with_sta cfg.sta w,
      )
