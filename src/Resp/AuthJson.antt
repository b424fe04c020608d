-- ===== src/Resp/AuthJson.antt =====
-- The text of the authentication (http_server_fill_auth_json, src/http_server_resp.c) against its
-- buffer of 210 bytes.
use esp32_wifi_manager.Common.{
  ℕ, ◌+◌, ◌≤◌, ◌<◌, ◌≡◌, refl, Bool, true, false, Option, none, some, [], ◌++◌, Bytes, codes,
  length, length-append, if◌then◌else◌, arith,
}
use esp32_wifi_manager.Config.{HostInfo}
use esp32_wifi_manager.Auth.{
  AuthType, auth_allow, auth_basic, auth_digest, auth_ruuvi, auth_deny, auth_default, auth_bearer,
  auth_type_to_str,
}
use esp32_wifi_manager.Resp.{
  ver_info, lan_text, message_text, str_buf_printf, or_braces, fill_auth_json,
}

length-auth_type_to_str : (t : AuthType) → length (auth_type_to_str t) ≤ 16
unfolding auth_type_to_str
length-auth_type_to_str auth_allow = omega arith
length-auth_type_to_str auth_basic = omega arith
length-auth_type_to_str auth_digest = omega arith
length-auth_type_to_str auth_ruuvi = omega arith
length-auth_type_to_str auth_deny = omega arith
length-auth_type_to_str auth_default = omega arith
length-auth_type_to_str auth_bearer = omega arith

length-lan : (lan : Bool) → length (if lan then codes "true" else codes "false") ≤ 5
length-lan true = omega arith
length-lan false = omega arith

length-lan_text : (t : AuthType) (lan : Bool) → length (lan_text t lan) ≤ 51
length-lan_text t lan =
    simp (length-append) (omega (arith, length-auth_type_to_str t, length-lan lan))

-- What the buffers of the host's texts hold, with their terminators.
pub record FitsHost (host : HostInfo) : Type 0 where
  pub hostname_fits : length host.hostname < 30
  pub fw_ver_fits : length host.fw_ver < 33
  pub nrf52_fw_ver_fits : length host.nrf52_fw_ver < 33

-- The versions and a message are not printed together; the messages are short.
pub data IsFilled : Option Bytes → Bool → Type 0 where
  with_versions : IsFilled none true
  without_message : IsFilled none false
  with_message : (msg : Bytes) → length msg ≤ 90 → IsFilled (some msg) false

-- The name of the gateway, with which the text begins.
abbrev pub name_text : HostInfo → Bytes
name_text host = codes "{\"gateway_name\": \"" ++ host.hostname ++ codes "\""

-- The whole text.
abbrev pub auth_text : HostInfo → AuthType → Bool → Option Bytes → Bool → Bytes
auth_text host t lan msg expose =
    (((name_text host ++ ver_info expose host) ++ lan_text t lan) ++ message_text msg) ++ codes "}"

-- The parts with a message, and those with the versions, are together shorter than the buffer.
parts_fit :
    (host : HostInfo) (msg : Option Bytes) (expose : Bool)
    → FitsHost host
    → IsFilled msg expose
    → length (name_text host) + length (ver_info expose host) + length (message_text msg) ≤ 153
parts_fit host _ _ h with_versions =
    simp (length-append) (omega (arith, h.hostname_fits, h.fw_ver_fits, h.nrf52_fw_ver_fits))
parts_fit host _ _ h without_message = simp (length-append) (omega (arith, h.hostname_fits))
parts_fit host _ _ h (with_message msg le) =
    simp (length-append) (omega (arith, h.hostname_fits, le))

module _ (fits : ℕ → Bool) (holds : (n : ℕ) → n < 210 → fits n ≡ true) where
  printf_fits :
      (b s : Bytes) → length b + length s < 210 → str_buf_printf fits (some b) s ≡ some (b ++ s)
  printf_fits b s lt =
      let n : length (b ++ s) < 210 = omega (arith, length-append {0} b s) in
      rw (holds (length (b ++ s)) n) refl

  all_fit :
      (a b c d : Bytes)
      → length a + length b + length c + length d < 209
      → or_braces (
          str_buf_printf fits
            (str_buf_printf fits
              (str_buf_printf fits (str_buf_printf fits (str_buf_printf fits (some []) a) b) c)
              d)
            (codes "}"))
        ≡ (((a ++ b) ++ c) ++ d) ++ codes "}"
  all_fit a b c d lt =
      let ab = length-append {0} a b in
      let abc = length-append {0} (a ++ b) c in
      let abcd = length-append {0} ((a ++ b) ++ c) d in
      rw
        (
          printf_fits [] a (omega arith),
          printf_fits a b (omega arith),
          printf_fits (a ++ b) c (omega (arith, ab)),
          printf_fits ((a ++ b) ++ c) d (omega (arith, ab, abc)),
          printf_fits (((a ++ b) ++ c) ++ d) (codes "}") (omega (arith, ab, abc, abcd)),
        )
        refl

  -- The text of the authentication is never cut: with texts of the host that fit their own buffers,
  -- and without a message or with one of at most 90 bytes instead of the versions, the buffer has
  -- the whole text, and never the `{}` of one that does not fit. That is for a buffer that holds
  -- every text of less than 210 bytes.
  pub fill_auth_json-whole :
      (host : HostInfo) (t : AuthType) (lan : Bool) (msg : Option Bytes) (expose : Bool)
      → FitsHost host
      → IsFilled msg expose
      → fill_auth_json fits host t lan msg expose ≡ auth_text host t lan msg expose
  unfolding fill_auth_json
  fill_auth_json-whole host t lan msg expose h f =
      all_fit (name_text host) (ver_info expose host) (lan_text t lan) (message_text msg)
        (omega (arith, parts_fit host msg expose h f, length-lan_text t lan))
