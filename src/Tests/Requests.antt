-- ===== src/Tests/Requests.antt =====
-- Concrete runs of the theorems on requests, the configuration and the name server.
use esp32_wifi_manager.Common.{
  ℕ, ◌≤◌, ◌≡◌, refl, Bool, true, false, Option, none, some, [], ◌∷◌, ◌++◌, Bytes, codes, bytes_eq,
  length, replicate, if◌then◌else◌, ◌==◌, arith,
}
use esp32_wifi_manager.Tests.Data.{
  env, connected, bits, libs, lan_ip, request, app, server, start_env, start_param,
}
use esp32_wifi_manager.Http.{header_get_field, after_name, field_value, unquoted}
use esp32_wifi_manager.Http.Parse.{parse}
use esp32_wifi_manager.Http.Parse.RoundTrip.{
  Avoids, request_line, request_text, IsRequestText, parsed, parse-request_text,
}
use esp32_wifi_manager.Ecdh.{Crypto, EncryptedReq}
use esp32_wifi_manager.Ecdh.RoundTrip.{IsEncryption, pad}
use esp32_wifi_manager.Manager.{World}
use esp32_wifi_manager.Manager.Lifecycle.{start, finish_task}
use esp32_wifi_manager.Manager.System.{begin, finish}
use esp32_wifi_manager.Manager.ScanSync.{ScanEnv, scan_sync}
use esp32_wifi_manager.Manager.ScanSync.Stuck.{Later, at_once, step, scan_sync_never_again}
use esp32_wifi_manager.Request.{HttpReq, handle_req_post}
use esp32_wifi_manager.Request.Get.{GetEnv}
use esp32_wifi_manager.Request.Handle.{
  SecureServer, with_server, strncmp_eq, parse_encrypted_req, handle_req_post_with_ecdh_key,
}
use esp32_wifi_manager.Request.Encrypted.{encrypted_post-eq}
use esp32_wifi_manager.Serve.{Peer, http_req_of, serve_handle_req}
use esp32_wifi_manager.Serve.Lan.{OnlyByApp, lan_keeps_manager}
use esp32_wifi_manager.Config.{Kconfig, Config, default_const}
use esp32_wifi_manager.Config.Stored.{Blob, Nvs, NvsEnv, convert, blob_read, mark_deprecated}
use esp32_wifi_manager.Config.Valid.{IsValid, convert-IsValid, mark_deprecated_once}
use esp32_wifi_manager.Dns.{handle_req}
use esp32_wifi_manager.Dns.Answered.{query, resolve, resolve-handle_req}

abbrev avoids : ℕ → Bytes → Bool
avoids c [] = true
avoids c (d ∷ s) = if d == c then false else avoids c s

Avoids-of_test : (c : ℕ) (s : Bytes) → avoids c s ≡ true → Avoids c s
Avoids-of_test c [] h = tt
Avoids-of_test c (d ∷ s) h = (λ e. ground arith, Avoids-of_test c s (ground arith))

abbrev host_line : Bytes
host_line = codes "Host: 10.0.0.7"

abbrev is_request_text :
    IsRequestText
      (codes "POST")
      (codes "/a")
      (some (codes "x=1"))
      (codes "HTTP/1.1")
      (host_line ∷ [])
is_request_text = record {
  cmd_word = Avoids-of_test 32 (codes "POST") refl;
  uri_word = Avoids-of_test 32 (codes "/a?x=1") refl;
  path_end = Avoids-of_test b'?' (codes "/a") refl;
  one_line = Avoids-of_test 13 (codes "POST /a?x=1 HTTP/1.1") refl;
  header_lines = (Avoids-of_test 13 host_line refl, tt);
}

abbrev line : Bytes
line = request_line (codes "POST") (codes "/a") (some (codes "x=1")) (codes "HTTP/1.1")

parse-request_text_example :
    parse (request_text line (host_line ∷ []) (codes "body"))
    ≡ parsed
        (codes "POST")
        (codes "/a")
        (some (codes "x=1"))
        (codes "HTTP/1.1")
        (host_line ∷ [])
        (codes "body")
parse-request_text_example =
    parse-request_text (codes "POST") (codes "/a") (some (codes "x=1")) (codes "HTTP/1.1")
      (host_line ∷ []) (codes "body") is_request_text

abbrev scan_env : ScanEnv
scan_env = record { wait = λ w. w; json_ok = true }

abbrev unsent : World
unsent = (scan_sync (record env { queue_send_ok = false }) scan_env connected).0

abbrev restarted : World
restarted = (start env start_env start_param (finish_task unsent)).0

unsent-restarted : Later unsent restarted
unsent-restarted =
    step (step at_once (finish unsent)) (begin env start_env start_param (finish_task unsent))

scan_sync_never_again_example : scan_sync env scan_env restarted ≡ (restarted, none)
scan_sync_never_again_example =
    scan_sync_never_again (record env { queue_send_ok = false }) scan_env connected restarted env
      scan_env refl refl unsent-restarted

abbrev pub get_env : GetEnv
get_env = record {
  scan = scan_env;
  status_locked = true;
  on_http_get = none;
  on_request_status_json = none;
}

abbrev stranger : HttpReq
stranger = record request { remote_ip = codes "10.9.9.9"; file_name = codes "ap.json" }

abbrev pub crypto : Crypto
crypto = record {
  base64_decode = λ s. some s;
  base64_encode = λ s. some s;
  sha256 = λ s. replicate 32 0;
  aes_decrypt = λ key iv s. s;
  malloc_ok = λ n. true;
  calloc_ok = true;
  setup_ok = true;
  make_params = none;
  read_public_ok = λ s. true;
  calc_secret = λ n s. none;
}

abbrev encrypted_req : EncryptedReq
encrypted_req = record { encrypted = pad (codes "{}"); iv = replicate 16 1; hash = replicate 32 0 }

abbrev member : Bytes → Option (Option Bytes)
member name =
    if bytes_eq name (codes "iv")
    then some (some encrypted_req.iv)
    else if bytes_eq name (codes "hash")
    then some (some encrypted_req.hash)
    else some (some encrypted_req.encrypted)

abbrev encrypted_header : Bytes
encrypted_header = codes "Ruuvi-Ecdh-Encrypted: true" ++ 13 ∷ 10 ∷ []

abbrev encrypted_post : HttpReq
encrypted_post = record request { header = encrypted_header }

abbrev pub secure : SecureServer
secure = record { server = server; aes_key = [] }

abbrev is_encryption :
    IsEncryption crypto [] encrypted_req (codes "{}") (replicate 16 1) (pad (codes "{}"))
is_encryption = record {
  iv_part = refl;
  iv_len = refl;
  hash_part = refl;
  hash_len = refl;
  cipher_part = refl;
  cipher_len = refl;
  deciphers = refl;
  no_nul = (λ e. omega arith, (λ e. omega arith, tt));
  fits = omega arith;
}

encrypted_post-eq_example :
    handle_req_post_with_ecdh_key env
      (record libs { parse_json = λ _. some member })
      app
      get_env
      crypto
      encrypted_post
      secure
    ≡ with_server env
        (record libs { parse_json = λ _. some member })
        app
        get_env
        crypto
        secure
        (handle_req_post env
          (record libs { parse_json = λ _. some member })
          app
          (record encrypted_post { body = codes "{}" })
          server)
unfolding strncmp_eq parse_encrypted_req bytes_eq header_get_field after_name field_value unquoted
encrypted_post-eq_example =
    encrypted_post-eq env (record libs { parse_json = λ _. some member }) app get_env crypto
      encrypted_post secure encrypted_req (codes "{}") (replicate 16 1) (pad (codes "{}")) refl refl
      (λ n. refl) is_encryption (omega arith)

abbrev pub lan_peer : Peer
lan_peer = record {
  local_ip = codes "10.0.0.7";
  remote_ip = lan_ip;
  ap_ip = codes "10.10.0.1";
  hostname_ok = true;
}

abbrev pub blocking : SecureServer
blocking = record {
  server = record server {
    wm = record connected {
      bits = record bits { ap_active = true; block_req_from_lan_while_ap_active = true };
    };
  };
  aes_key = [];
}

abbrev post_text : Bytes
post_text = request_text line (host_line ∷ []) (codes "body")

lan_keeps_manager_example :
    OnlyByApp app
      (http_req_of lan_peer true (parse post_text))
      server
      (serve_handle_req env libs app get_env crypto lan_peer post_text secure).0.server
unfolding bytes_eq parse
lan_keeps_manager_example =
    lan_keeps_manager env libs app get_env crypto lan_peer post_text secure refl refl

abbrev pub kconfig : Kconfig
kconfig = record {
  ap_password = [];
  ap_channel = 1;
  ap_max_connections = 4;
  ap_beacon_interval = 100;
  ap_ip = codes "10.10.0.1";
  ap_gateway = codes "10.10.0.1";
  ap_netmask = codes "255.255.255.0";
}

abbrev open_config : Config
open_config = record (default_const (record kconfig { ap_password = codes "12345678" })) {
  sta = (default_const kconfig).sta;
}

abbrev open_config-IsValid : IsValid open_config
open_config-IsValid = record {
  open_iff_empty = refl;
  channel_le = omega arith;
  hidden_le = omega arith;
  bandwidth_pos = omega arith;
  bandwidth_le = omega arith;
  power_save_le = omega arith;
  ssid_fits = omega arith;
  password_fits = omega arith;
}

abbrev blob : Blob
blob = record {
  sta_ssid = codes "home";
  sta_password = codes "secret";
  wifi_settings = record {
    ap_ssid = codes "old";
    ap_pwd = [];
    ap_channel = 77;
    ap_ssid_hidden = 5;
    ap_bandwidth = 9;
    sta_only = false;
    sta_power_save = 8;
    sta_static_ip = false;
    sta_static_ip_config = record { ip = 0; netmask = 0; gw = 0 };
  };
}

convert-IsValid_example : IsValid (convert blob open_config)
convert-IsValid_example = convert-IsValid blob open_config open_config-IsValid

abbrev nvs : Nvs
nvs = record {
  ssid = some blob.sta_ssid;
  password = some blob.sta_password;
  settings = some blob.wifi_settings;
}

abbrev nvs_env : NvsEnv
nvs_env = record { open_ok = true; set_ok = true; commit_ok = true }

mark_deprecated_once_example :
    (blob_read nvs_env (mark_deprecated nvs_env nvs).0 open_config ≡ none)
    × (mark_deprecated nvs_env (mark_deprecated nvs_env nvs).0
        ≡ ((mark_deprecated nvs_env nvs).0, false))
    × ((mark_deprecated nvs_env nvs).0.ssid ≡ nvs.ssid)
    × ((mark_deprecated nvs_env nvs).0.password ≡ nvs.password)
unfolding mark_deprecated
mark_deprecated_once_example = mark_deprecated_once nvs_env nvs nvs_env open_config refl

resolve-handle_req_example :
    (r : Bytes) × (handle_req
        (10 ∷ 10 ∷ 0 ∷ 1 ∷ [])
        (query 18 52 1 0 (codes "ruuvi" ∷ codes "com" ∷ []))
      ≡ some r)
    × (resolve 18 52 r ≡ some (codes "ruuvi" ∷ codes "com" ∷ [], 10 ∷ 10 ∷ 0 ∷ 1 ∷ []))
    × (length r ≤ 96)
resolve-handle_req_example =
    resolve-handle_req (10 ∷ 10 ∷ 0 ∷ 1 ∷ []) 18 52 1 0 (codes "ruuvi" ∷ codes "com" ∷ []) refl
      (
        record { not_empty = omega arith; short = omega arith },
        (record { not_empty = omega arith; short = omega arith }, tt),
      )
      (omega arith)
