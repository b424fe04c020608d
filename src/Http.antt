-- ===== src/Http.antt =====
-- Reading text from an HTTP request: the fields of its header (src/http_req.c), the search in a
-- stretch of text (http_server_strnstr, src/http_server_auth.c), a cookie
-- (src/http_server_auth_ruuvi.c), a token of a digest (src/http_server_auth_digest.c).
--
-- A pointer into the header is the bytes from there to its end; a stretch of it is such a pointer
-- and a length.
pub mod Parse
use mathlib.Core.Option
use esp32_wifi_manager.Common.{
  ℕ, zero, suc, ◌+◌, ◌-◌, Bool, true, false, ◌&&◌, ◌||◌, Option, none, some, [], ◌∷◌, Bytes, codes,
  length, take, drop, is_empty, ltb, leb, ◌==◌, if◌then◌else◌,
}

pub record Field : Type 0 where
  pub ptr : Bytes
  pub len : ℕ

-- tolower, for ASCII
unfoldable pub lower : ℕ → ℕ
lower c = if leb 65 c && leb c 90 then c + 32 else c

-- `0 == strncmp(s, p, strlen(p))`; with `lower` on both sides it is strncasecmp.
unfoldable pub starts_with : Bytes → Bytes → Bool
starts_with [] s = true
starts_with (_ ∷ _) [] = false
starts_with (c ∷ p) (d ∷ s) = (c == d) && starts_with p s

unfoldable pub starts_with_nocase : Bytes → Bytes → Bool
unfolding lower
starts_with_nocase [] s = true
starts_with_nocase (_ ∷ _) [] = false
starts_with_nocase (c ∷ p) (d ∷ s) = (lower c == lower d) && starts_with_nocase p s

-- strcasestr
unfoldable pub strcasestr : Bytes → Bytes → Option Bytes
unfolding starts_with_nocase
strcasestr p [] = if is_empty p then some [] else none
strcasestr p (c ∷ s) = if starts_with_nocase p (c ∷ s) then some (c ∷ s) else strcasestr p s

abbrev pub is_crlf : ℕ → Bool
is_crlf c = (c == 13) || (c == 10)

-- strpbrk(s, "\r\n"), as the distance from s
unfoldable pub find_eol : Bytes → Option ℕ
find_eol [] = none
find_eol (c ∷ s) = if is_crlf c then some 0 else Option.map suc (find_eol s)

unfoldable pub skip_spaces : Bytes → Bytes
skip_spaces [] = []
skip_spaces (c ∷ s) = if c == 32 then skip_spaces s else c ∷ s

unfoldable pub unquoted : Bytes → Option Field
unfolding find_eol
unquoted val = Option.map (λ n. record { ptr = val; len = n }) (find_eol val)

-- The closing quote is the last byte of the line.
unfoldable pub quoted_till : Bytes → Option ℕ → Option Field
unfolding starts_with
quoted_till val none = none
quoted_till val (some zero) = none
quoted_till val (some (suc n)) =
    if starts_with (34 ∷ []) (drop n val) then some (record { ptr = val; len = n }) else none

unfoldable pub field_value : Bytes → Option Field
unfolding find_eol
field_value [] = unquoted []
field_value (c ∷ s) = if c == 34 then quoted_till s (find_eol s) else unquoted (c ∷ s)

unfoldable pub after_name : Bytes → Option Bytes → Option Field
unfolding skip_spaces
after_name name none = none
after_name name (some s) = field_value (skip_spaces (drop (length name) s))

-- http_req_header_get_field: the name is looked for anywhere in the header, in any case.
unfoldable pub header_get_field : Bytes → Bytes → Option Field
unfolding strcasestr
header_get_field header name = after_name name (strcasestr name header)

-- The first of the offsets 0, …, n at which `needle` stands, the loop of http_server_strnstr.
unfoldable pub search_upto : ℕ → Bytes → Bytes → Option ℕ
unfolding starts_with
search_upto zero needle s = if starts_with needle s then some 0 else none
search_upto (suc n) needle [] = if starts_with needle [] then some 0 else none
search_upto (suc n) needle (c ∷ s) =
    if starts_with needle (c ∷ s) then some 0 else Option.map suc (search_upto n needle s)

-- http_server_strnstr, as the offset of what it finds
unfoldable pub strnstr : Bytes → Bytes → ℕ → Option ℕ
unfolding search_upto
strnstr s needle len =
    let n = take len needle in if is_empty n then some 0 else search_upto (len - length n) n s

-- The value of a `name=value` of the length `pair_len`.
abbrev pub pair_value : ℕ → Bytes → ℕ → Option ℕ → Option Bytes
pair_value buf_size s pair_len none = none
pair_value buf_size s pair_len (some d) =
    let n = (pair_len - d) - 1 in
    if ltb pair_len d
    then none
    else if n == 0
    then none
    else if leb buf_size n
    then none
    else some (take n (drop (suc d) s))

abbrev pub cookie_end : ℕ → Option ℕ → ℕ
cookie_end len none = len
cookie_end len (some n) = n

unfoldable pub cookie_at : ℕ → Field → Option ℕ → Option Bytes
unfolding strnstr
cookie_at buf_size cookies none = none
cookie_at buf_size cookies (some i) =
    let s = drop i cookies.ptr in
    let len = cookies.len - i in
    let pair_len = cookie_end len (strnstr s (codes ";") len) in
    pair_value buf_size s pair_len (strnstr s (codes "=") pair_len)

-- http_server_auth_ruuvi_get_cookie
unfoldable pub get_cookie : ℕ → Field → Bytes → Option Bytes
unfolding strnstr
get_cookie buf_size cookies name = cookie_at buf_size cookies (strnstr cookies.ptr name cookies.len)

abbrev pub token_at : ℕ → Bytes → Option ℕ → Option Bytes
token_at buf_size s none = none
token_at buf_size s (some n) = if leb buf_size n then none else some (take n s)

unfoldable pub token_after : ℕ → Field → ℕ → Bytes → Option ℕ → Option Bytes
unfolding strnstr
token_after buf_size f prefix_len suffix none = none
token_after buf_size f prefix_len suffix (some i) =
    let s = drop (i + prefix_len) f.ptr in
    token_at buf_size s (strnstr s suffix (f.len - (i + prefix_len)))

-- http_server_parse_token
unfoldable pub parse_token : ℕ → Field → Bytes → Bytes → Option Bytes
unfolding strnstr
parse_token buf_size f prefix suffix =
    token_after buf_size f (length prefix) suffix (strnstr f.ptr prefix f.len)
