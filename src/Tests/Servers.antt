-- ===== src/Tests/Servers.antt =====
-- Concrete runs of the theorems on the servers' tasks, a whole connection and the interfaces.
use esp32_wifi_manager.Common.{
  ℕ, ◌≡◌, refl, ◌⊎◌, inl, inr, Bool, true, false, none, some, List, [], ◌∷◌, ◌++◌, Bytes, codes,
  bytes_eq, take, drop, ltb, arith,
}
use esp32_wifi_manager.Auth.{auth_allow}
use esp32_wifi_manager.Config.{HostInfo, Configs, Config, StaticIp, default_const}
use esp32_wifi_manager.Manager.Status.{is_req_from_lan_blocked_while_ap_is_active}
use esp32_wifi_manager.Recv.Whole.{events}
use esp32_wifi_manager.Resp.{fill_auth_json}
use esp32_wifi_manager.Resp.AuthJson.{auth_text, with_versions, fill_auth_json-whole}
use esp32_wifi_manager.Accept.{NewConn, new_conn, ConnEnv, netconn_serve, accept_and_handle_conn}
use esp32_wifi_manager.Accept.Connection.{
  IsRefused, is_lock, is_unlock, is_delete, count, answered, accept_and_handle_conn-balanced,
  blocked_connection, netconn_serve-frames,
}
use esp32_wifi_manager.Os.{OsSignal, IsOsSignal}
use esp32_wifi_manager.HttpServer
use esp32_wifi_manager.HttpServer.Lifecycle.{
  listens, run_tasks, IsClosed, failed_listen_is_final, stop_frees_server,
}
use esp32_wifi_manager.Dns.Task
use esp32_wifi_manager.Dns.Released.{IsReleased, task-IsReleased}
use esp32_wifi_manager.Netif.{
  EspNetif, DhcpStatus, dhcp_init, dhcp_started, dhcp_stopped, configure_sta,
}
use esp32_wifi_manager.Netif.StaticAddress.{IsDhcpClient, static_ip_not_replaced}
use esp32_wifi_manager.Tests.Data.{env, libs, app}
use esp32_wifi_manager.Tests.Connections.{recv_env, head, field, small_request, send_env}
use esp32_wifi_manager.Tests.Requests.{get_env, crypto, lan_peer, blocking, secure, kconfig}

abbrev host : HostInfo
host = record { hostname = codes "gateway"; fw_ver = codes "1.0"; nrf52_fw_ver = codes "1.1" }

fill_auth_json-whole_example :
    fill_auth_json (λ n. ltb n 210) host auth_allow true none true
    ≡ auth_text host auth_allow true none true
fill_auth_json-whole_example =
    fill_auth_json-whole (λ n. ltb n 210) (λ n h. ground arith) host auth_allow true none true
      (record {
        hostname_fits = omega arith;
        fw_ver_fits = omega arith;
        nrf52_fw_ver_fits = omega arith;
      })
      with_versions

abbrev conn_env : ConnEnv
conn_env = record {
  recv_env = recv_env;
  send_env = send_env;
  json_fits = λ n. ltb n 210;
  host = host;
  extra_fields = λ _. [];
  behind = codes "junk";
}

abbrev frames : List Bytes
frames = drop 5 head ∷ codes "a" ∷ codes "b" ∷ []

abbrev new : NewConn
new = record {
  pcb_lost = false;
  pcb_lost_again = false;
  peer = lan_peer;
  events = events (take 5 head ∷ frames);
  conn = record { sent = []; attempts = [] };
}

netconn_serve-frames_example :
    netconn_serve env libs app get_env crypto conn_env new secure
    ≡ answered env libs app get_env crypto conn_env new (head ++ codes "ab") secure
netconn_serve-frames_example =
    netconn_serve-frames env libs app get_env crypto conn_env (λ _. refl) head (codes "ab") field
      small_request 100 (take 5 head) frames new secure refl refl refl (omega arith) (omega arith)
      (omega arith, (omega arith, (omega arith, tt))) refl

blocked_connection_example :
    ((netconn_serve env libs app get_env crypto conn_env new blocking).0 ≡ blocking)
    × IsRefused send_env new.conn
        (netconn_serve env libs app get_env crypto conn_env new blocking).1
unfolding bytes_eq is_req_from_lan_blocked_while_ap_is_active
blocked_connection_example =
    blocked_connection env libs app get_env crypto conn_env new blocking refl refl

accept_and_handle_conn-balanced_example :
    (count is_lock
        (accept_and_handle_conn env libs app get_env crypto conn_env
          (some true)
          (new_conn new)
          secure).acts
      ≡ count is_unlock
          (accept_and_handle_conn env libs app get_env crypto conn_env
            (some true)
            (new_conn new)
            secure).acts)
    × (count is_delete
          (accept_and_handle_conn env libs app get_env crypto conn_env
            (some true)
            (new_conn new)
            secure).acts
        ≡ 1)
accept_and_handle_conn-balanced_example =
    accept_and_handle_conn-balanced env libs app get_env crypto conn_env (some true) (new_conn new)
      secure

-- Signals as a flag: whether a thread is registered.
abbrev flag : OsSignal Bool
flag = record {
  register_cur_thread = λ b. (elim b [ true ↦ (true, false) | false ↦ (true, true) ]);
  unregister_cur_thread = λ _. false;
  is_any_thread_registered = λ b. b;
}

flag_registers :
    (b : Bool)
    → b ≡ false
    → ((flag.register_cur_thread b).1 ≡ true) × ((flag.register_cur_thread b).0 ≡ true)
flag_registers true h = cc
flag_registers false h = (refl, refl)

flag_refuses : (b : Bool) → b ≡ true → flag.register_cur_thread b ≡ (b, false)
flag_refuses true h = refl
flag_refuses false h = cc

flag-IsOsSignal : IsOsSignal Bool flag
flag-IsOsSignal = record {
  registers = flag_registers;
  refuses = flag_refuses;
  unregisters = λ _. refl;
}

abbrev idle : HttpServer.Task Bool
idle = record { os = false; log = [] }

abbrev good_task : HttpServer.TaskEnv
good_task = record { conn_ok = true; listen_ok = true; has_callback = true; wdt_timeout_s = some 5 }

abbrev bad_task : HttpServer.TaskEnv
bad_task = record good_task { listen_ok = false }

failed_listen_is_final_example :
    listens
      (run_tasks flag flag-IsOsSignal
        ((good_task, []) ∷ [])
        (HttpServer.task flag bad_task [] idle).0).log
    ≡ listens (HttpServer.task flag bad_task [] idle).0.log
failed_listen_is_final_example =
    failed_listen_is_final flag flag-IsOsSignal bad_task [] idle ((good_task, []) ∷ []) refl refl

stop_frees_server_example :
    IsClosed flag flag-IsOsSignal
      (HttpServer.task flag good_task ((1 ∷ []) ∷ (2 ∷ 0 ∷ []) ∷ []) idle)
stop_frees_server_example =
    stop_frees_server flag flag-IsOsSignal good_task ((1 ∷ []) ∷ (2 ∷ 0 ∷ []) ∷ []) idle refl refl
      refl refl

abbrev dns_env : Task.TaskEnv
dns_env = record {
  socket_ok = true;
  timeout_ok = true;
  bind_ok = false;
  mem_ok = true;
  ip_resolved = 10 ∷ 10 ∷ 0 ∷ 1 ∷ [];
}

abbrev dns_idle : Task.Task Bool
dns_idle = record { os = false; log = [] }

-- The socket cannot be bound.
task-IsReleased_example : IsReleased flag flag-IsOsSignal (Task.task flag dns_env [] dns_idle).0
unfolding Task.task
task-IsReleased_example =
    task-IsReleased flag flag-IsOsSignal dns_env [] dns_idle refl (refl, refl) refl

-- The client of DHCP and the address of the station; all but a second stop succeeds.
pub record Station : Type 0 where
  pub dhcp : DhcpStatus
  pub address : StaticIp

abbrev stop_dhcp : Station → DhcpStatus → Station × Bool
stop_dhcp s dhcp_stopped = (s, false)
stop_dhcp s _ = (record s { dhcp = dhcp_stopped }, true)

abbrev netif : EspNetif Station
netif = record {
  wifi_set_mode_apsta = λ s. (s, true);
  wifi_set_mode_sta = λ s. (s, true);
  wifi_set_config_ap = λ _ s. (s, true);
  wifi_set_bandwidth = λ _ s. (s, true);
  wifi_set_ps = λ _ s. (s, true);
  wifi_set_ant_gpio = λ s. (s, true);
  wifi_set_ant = λ s. (s, true);
  ip4addr_aton = λ _. 0;
  dhcps_stop = λ s. (s, true);
  dhcps_start = λ s. (s, true);
  set_ip_info_ap = λ _ s. (s, true);
  dhcpc_stop = λ s. stop_dhcp s s.dhcp;
  dhcpc_get_status = λ s. some s.dhcp;
  dhcpc_start = λ s. (record s { dhcp = dhcp_started }, true);
  set_ip_info_sta = λ a s. (record s { address = a }, true);
  set_hostname = λ _ s. (s, true);
}

stop_dhcp_stops :
    (s : Station) (d : DhcpStatus)
    → (some d ≡ some dhcp_started) ⊎ (some d ≡ some dhcp_init)
    → ((stop_dhcp s d).1 ≡ true) × (some ((stop_dhcp s d).0.dhcp) ≡ some dhcp_stopped)
stop_dhcp_stops s dhcp_init on = (refl, refl)
stop_dhcp_stops s dhcp_started on = (refl, refl)
stop_dhcp_stops s dhcp_stopped (inl h) = cc
stop_dhcp_stops s dhcp_stopped (inr h) = cc

stop_dhcp_again :
    (s : Station) (d : DhcpStatus) → some d ≡ some dhcp_stopped → stop_dhcp s d ≡ (s, false)
stop_dhcp_again s dhcp_stopped h = refl
stop_dhcp_again s dhcp_started h = cc
stop_dhcp_again s dhcp_init h = cc

netif-IsDhcpClient : IsDhcpClient Station netif
netif-IsDhcpClient = record {
  stops = λ s on. stop_dhcp_stops s s.dhcp on;
  already_stopped = λ s off. stop_dhcp_again s s.dhcp off;
  keeps_ip = λ a s. refl;
  keeps_ps = λ ps s. refl;
}

-- A configuration with the static address 10.0.0.n.
abbrev static : ℕ → Config
static n = record (default_const kconfig) {
  sta = record (default_const kconfig).sta {
    wifi_settings_sta = record {
      sta_power_save = 0;
      sta_static_ip = true;
      sta_static_ip_config = record { ip = n; netmask = 24; gw = 1 };
    };
  };
}

abbrev with_static : ℕ → Configs
with_static n = record { default_config = default_const kconfig; config = static n }

abbrev fresh : Station
fresh = record { dhcp = dhcp_started; address = record { ip = 0; netmask = 0; gw = 0 } }

static_ip_not_replaced_example :
    configure_sta netif (with_static 3) (configure_sta netif (with_static 2) fresh)
    ≡ configure_sta netif (with_static 2) fresh
static_ip_not_replaced_example =
    static_ip_not_replaced netif netif-IsDhcpClient (with_static 2) (with_static 3) fresh refl refl
      (inl refl)

-- The first address stays.
first_address_stays :
    (configure_sta netif (with_static 3) (configure_sta netif (with_static 2) fresh)).address.ip ≡ 2
unfolding configure_sta
first_address_stays = refl
