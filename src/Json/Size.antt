-- ===== src/Json/Size.antt =====
-- How long the status text is, against its buffer of JSON_IP_INFO_SIZE (250) bytes.
use esp32_wifi_manager.Common.{
  ℕ, ◌+◌, ◌*◌, ◌≤◌, ◌<◌, ◌≡◌, refl, Bool, true, false, [], ◌∷◌, ◌++◌, Bytes, codes, length,
  length-append, All, is_empty, if◌then◌else◌, Bool-cases, inl, inr, arith,
}
use esp32_wifi_manager.NetworkInfo.{
  NetworkInfo, UpdateReason, connection_undef, connection_ok, failed_attempt, user_disconnect,
  lost_connection,
}
use esp32_wifi_manager.Json.{
  print_char, print_chars, print_escaped_string, print_int, update_reason_code, print_ssid,
  print_connection, status_generate, is_undef, decimal,
}

length-print_char : (c : ℕ) → (1 ≤ length (print_char c)) × (32 ≤ c → length (print_char c) ≤ 2)
unfolding print_char
length-print_char c = (ground arith, λ h. ground arith)

-- No control character.
abbrev pub IsPrintable : Bytes → Type 0
IsPrintable = All (λ c. 32 ≤ c)

length-print_chars-le : (s : Bytes) → IsPrintable s → length (print_chars s) ≤ 2 * length s + 1
unfolding print_chars
length-print_chars-le [] h = omega arith
length-print_chars-le (c ∷ s) h =
    let le : length (print_char c) ≤ 2 = (length-print_char c).1 h.0 in
    omega (arith, length-append {0} (print_char c) (print_chars s), length-print_chars-le s h.1)

le-length-print_chars : (s : Bytes) → length s + 1 ≤ length (print_chars s)
unfolding print_chars
le-length-print_chars [] = omega arith
le-length-print_chars (c ∷ s) =
    let le : 1 ≤ length (print_char c) = (length-print_char c).0 in
    omega (arith, length-append {0} (print_char c) (print_chars s), le-length-print_chars s)

length-urc :
    (u : UpdateReason)
    → (1 ≤ length (print_int (update_reason_code u)))
      × (length (print_int (update_reason_code u)) ≤ 2)
unfolding print_int update_reason_code decimal
length-urc connection_undef = omega arith
length-urc connection_ok = omega arith
length-urc failed_attempt = omega arith
length-urc user_disconnect = omega arith
length-urc lost_connection = omega arith

length-time : (b : Bool) → length (if b then codes "1" else codes "0") ≡ 1
length-time true = refl
length-time false = refl

length-print_ssid-le :
    (info : NetworkInfo)
    → length info.ssid ≤ 31
    → IsPrintable info.ssid
    → length (print_ssid info) ≤ 64
unfolding print_ssid print_escaped_string
length-print_ssid-le info h p = ground (arith, length-print_chars-le info.ssid p)

length-is_empty : (s : Bytes) → is_empty s ≡ true → length s ≡ 0
length-is_empty [] h = refl
length-is_empty (_ ∷ _) h = cc

le-length-print_ssid :
    (info : NetworkInfo)
    → info.is_ssid_null ≡ false
    → length info.ssid + 2 ≤ length (print_ssid info)
unfolding print_ssid print_escaped_string
le-length-print_ssid info h = rw h (elim (Bool-cases (is_empty info.ssid)) [
  | inl e ↦ rw e (omega (arith, length-is_empty info.ssid e))
  | inr e ↦ rw e (omega (arith, le-length-print_chars info.ssid))
])

-- The text of a connection, up to the comma before the extra information.
length-print_connection :
    (info : NetworkInfo)
    → length (print_connection info)
      ≡ 71
        + length (print_ssid info)
        + length info.network_info.ip
        + length info.network_info.netmask
        + length info.network_info.gw
        + length info.network_info.dhcp
        + length (print_int (update_reason_code info.update_reason_code))
        + length (if is_empty info.extra_info then [] else codes ",")
unfolding print_connection
length-print_connection info = simp (length-append) (omega (arith, length-time info.is_time_valid))

extra_text : Bytes → Bytes
extra_text s = if is_empty s then [] else codes "\"extra\":{" ++ s ++ codes "}"

length-status :
    (info : NetworkInfo)
    → is_undef info.update_reason_code ≡ false
    → length (status_generate info)
      ≡ 3 + length (print_connection info) + length (extra_text info.extra_info)
unfolding status_generate extra_text
length-status info h = simp (h, length-append) (omega arith)

-- What the record's buffers hold: 31 bytes of a name, 15 of each address.
pub record FitsBuffers (info : NetworkInfo) : Type 0 where
  pub ssid_fits : length info.ssid ≤ 31
  pub ip_fits : length info.network_info.ip ≤ 15
  pub netmask_fits : length info.network_info.netmask ≤ 15
  pub gw_fits : length info.network_info.gw ≤ 15
  pub dhcp_fits : length info.network_info.dhcp ≤ 15

undef_status :
    (info : NetworkInfo)
    → is_undef info.update_reason_code ≡ true
    → info.extra_info ≡ []
    → length (status_generate info) ≡ 3
unfolding status_generate
undef_status info h e = rw (h, e) refl

connected_status :
    (info : NetworkInfo)
    → is_undef info.update_reason_code ≡ false
    → info.extra_info ≡ []
    → length (status_generate info)
      ≡ 74
        + length (print_ssid info)
        + length info.network_info.ip
        + length info.network_info.netmask
        + length info.network_info.gw
        + length info.network_info.dhcp
        + length (print_int (update_reason_code info.update_reason_code))
unfolding extra_text
connected_status info h e =
    let text : length (extra_text info.extra_info) ≡ 0 = rw e refl in
    let comma : length (if is_empty info.extra_info then [] else codes ",") ≡ 0 = rw e refl in
    omega (arith, length-status info h, length-print_connection info, text, comma)

-- Without extra information and without control characters in the name, the status and its
-- terminator fit in the buffer of 250 bytes, whatever the strings that the record holds.
pub status_fits :
    (info : NetworkInfo)
    → FitsBuffers info
    → IsPrintable info.ssid
    → info.extra_info ≡ []
    → length (status_generate info) < 250
status_fits info f p e = elim (Bool-cases (is_undef info.update_reason_code)) [
  | inl h ↦ omega (arith, undef_status info h e)
  | inr h ↦
      let urc : length (print_int (update_reason_code info.update_reason_code)) ≤ 2 =
        (length-urc info.update_reason_code).1 in
      omega (
        arith,
        connected_status info h e,
        length-print_ssid-le info f.ssid_fits p,
        f.ip_fits,
        f.netmask_fits,
        f.gw_fits,
        f.dhcp_fits,
      )
]

-- With extra information the buffer is too small as soon as the strings of a named connection add
-- up to 162 bytes, although their own buffers hold 190: the text that is written is cut.
pub status_too_long :
    (info : NetworkInfo)
    → is_undef info.update_reason_code ≡ false
    → info.is_ssid_null ≡ false
    → is_empty info.extra_info ≡ false
    → 162
      ≤ length info.ssid
        + length info.network_info.ip
        + length info.network_info.netmask
        + length info.network_info.gw
        + length info.network_info.dhcp
        + length info.extra_info
    → 250 ≤ length (status_generate info)
unfolding extra_text
status_too_long info h n x le =
    let text : length (extra_text info.extra_info) ≡ 10 + length info.extra_info =
      simp (x, length-append) (omega arith) in
    let comma : length (if is_empty info.extra_info then [] else codes ",") ≡ 1 = rw x refl in
    let urc : 1 ≤ length (print_int (update_reason_code info.update_reason_code)) =
      (length-urc info.update_reason_code).0 in
    omega (
      arith,
      length-status info h,
      length-print_connection info,
      le-length-print_ssid info n,
      text,
      comma,
      urc,
    )
