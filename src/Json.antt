-- ===== src/Json.antt =====
-- The JSON texts of the server: a string with its escapes (src/json.c), the list of the scanned
-- access points (src/json_access_points.c) and the status (src/json_network_info.c). The buffers
-- are taken as large enough. A reader, and what it makes of these texts, is below.
pub mod Read
pub mod RoundTrip
pub mod Size
use esp32_wifi_manager.Common.{
  ℕ, zero, suc, ◌+◌, ◌-◌, ◌/◌, ◌%◌, Bool, true, false, ◌||◌, List, [], ◌∷◌, ◌++◌, Bytes, codes,
  length, take, is_empty, ltb, leb, ◌==◌, if◌then◌else◌,
}
use esp32_wifi_manager.Common.Int.{ℤ, pos, negsuc}
use esp32_wifi_manager.AccessPoints.{ApRecord}
use esp32_wifi_manager.NetworkInfo.{
  NetworkInfo, UpdateReason, connection_undef, connection_ok, failed_attempt, user_disconnect,
  lost_connection,
}

-- A digit of `%x`, below 16.
unfoldable pub hex_digit : ℕ → ℕ
hex_digit d = if ltb d 10 then b'0' + d else b'a' + (d - 10)

-- json_print_char_escaped, on the target's unsigned char; `%04x` of a byte below 32
unfoldable pub print_char_escaped : ℕ → Bytes
unfolding hex_digit
print_char_escaped c =
    if leb 32 c
    then c ∷ []
    else b'\\' ∷ b'u' ∷ b'0' ∷ b'0' ∷ hex_digit (c / 16) ∷ hex_digit (c % 16) ∷ []

-- The switch of json_print_escaped_string.
unfoldable pub print_char : ℕ → Bytes
unfolding print_char_escaped
print_char c =
    if (c == b'\\') || (c == b'"')
    then b'\\' ∷ c ∷ []
    else if c == 8
    then b'\\' ∷ b'b' ∷ []
    else if c == 12
    then b'\\' ∷ b'f' ∷ []
    else if c == 10
    then b'\\' ∷ b'n' ∷ []
    else if c == 13
    then b'\\' ∷ b'r' ∷ []
    else if c == 9
    then b'\\' ∷ b't' ∷ []
    else print_char_escaped c

-- The loop of json_print_escaped_string, with the closing quote.
unfoldable pub print_chars : Bytes → Bytes
unfolding print_char
print_chars [] = b'"' ∷ []
print_chars (c ∷ s) = print_char c ++ print_chars s

unfoldable pub print_escaped_string : Bytes → Bytes
unfolding print_chars
print_escaped_string s = b'"' ∷ print_chars s

-- `%d` of a number below 10 ^ 10; the first argument is the number of further digits.
unfoldable pub decimal : ℕ → ℕ → Bytes
decimal zero n = (b'0' + n % 10) ∷ []
decimal (suc f) n =
    let more = decimal f (n / 10) ++ (b'0' + n % 10) ∷ [] in
    if ltb n 10 then (b'0' + n) ∷ [] else more

unfoldable pub print_int : ℤ → Bytes
print_int (pos n) = decimal 9 n
print_int (negsuc n) = b'-' ∷ decimal 9 (suc n)

-- The object of one access point, without what separates it from the next one.
unfoldable pub print_ap : ApRecord → Bytes
print_ap ap =
    codes "{\"ssid\":"
    ++ print_escaped_string ap.ssid
    ++ codes ",\"chan\":"
    ++ decimal 9 ap.primary
    ++ codes ",\"rssi\":"
    ++ print_int ap.rssi
    ++ codes ",\"auth\":"
    ++ decimal 9 ap.authmode
    ++ codes "}"

-- The loop of json_access_points_generate_str_buf.
unfoldable pub print_aps : List ApRecord → Bytes
print_aps [] = []
print_aps (ap ∷ []) = print_ap ap ++ codes "\n"
print_aps (ap ∷ next ∷ rest) = print_ap ap ++ codes ",\n" ++ print_aps (next ∷ rest)

-- json_access_points_generate: at most MAX_AP_NUM records
unfoldable pub access_points_generate : List ApRecord → Bytes
access_points_generate aps = codes "[" ++ print_aps (take 30 aps) ++ codes "]\n"

unfoldable pub update_reason_code : UpdateReason → ℤ
update_reason_code connection_undef = negsuc 0
update_reason_code connection_ok = pos 0
update_reason_code failed_attempt = pos 1
update_reason_code user_disconnect = pos 2
update_reason_code lost_connection = pos 3

-- The name in the status; an empty one is printed apart.
unfoldable pub print_ssid : NetworkInfo → Bytes
print_ssid info =
    if info.is_ssid_null
    then codes "null"
    else if is_empty info.ssid
    then codes "\"\""
    else print_escaped_string info.ssid

-- What the status says of a connection.
unfoldable pub print_connection : NetworkInfo → Bytes
print_connection info =
    codes "\"ssid\":"
    ++ print_ssid info
    ++ codes ",\"ip\":\""
    ++ info.network_info.ip
    ++ codes "\",\"netmask\":\""
    ++ info.network_info.netmask
    ++ codes "\",\"gw\":\""
    ++ info.network_info.gw
    ++ codes "\",\"dhcp\":\""
    ++ info.network_info.dhcp
    ++ codes "\",\"urc\":"
    ++ print_int (update_reason_code info.update_reason_code)
    ++ codes ",\"is_time_valid\":"
    ++ (if info.is_time_valid then codes "1" else codes "0")
    ++ (if is_empty info.extra_info then [] else codes ",")

abbrev pub is_undef : UpdateReason → Bool
is_undef connection_undef = true
is_undef _ = false

-- json_network_info_do_generate_internal
unfoldable pub status_generate : NetworkInfo → Bytes
status_generate info =
    codes "{"
    ++ (if is_undef info.update_reason_code then [] else print_connection info)
    ++ (if is_empty info.extra_info
        then []
        else codes "\"extra\":{" ++ info.extra_info ++ codes "}")
    ++ codes "}\n"
