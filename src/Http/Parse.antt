-- ===== src/Http/Parse.antt =====
-- The parts of a request (http_req_parse, src/http_req.c). The buffer is the text before its
-- terminator; each 0 that the code writes into it ends a part.
pub mod RoundTrip
use mathlib.Core.Option
use esp32_wifi_manager.Common.{
  ℕ, suc, ◌+◌, Bool, true, false, Option, none, some, [], ◌∷◌, Bytes, take, drop, is_empty, ◌==◌,
  if◌then◌else◌,
}
use esp32_wifi_manager.Http.{starts_with}

-- http_req_info_t; `none` is NULL.
pub record HttpReqInfo : Type 0 where
  pub is_success : Bool
  pub http_cmd : Option Bytes
  pub http_uri : Option Bytes
  pub http_uri_params : Option Bytes
  pub http_ver : Option Bytes
  pub http_header : Option Bytes
  pub http_body : Option Bytes

abbrev pub no_info : HttpReqInfo
no_info = record {
  is_success = false;
  http_cmd = none;
  http_uri = none;
  http_uri_params = none;
  http_ver = none;
  http_header = none;
  http_body = none;
}

-- strstr and strchr, as an offset
unfoldable pub strstr : Bytes → Bytes → Option ℕ
unfolding starts_with
strstr p [] = if is_empty p then some 0 else none
strstr p (c ∷ s) = if starts_with p (c ∷ s) then some 0 else Option.map suc (strstr p s)

unfoldable pub strchr : ℕ → Bytes → Option ℕ
strchr c [] = none
strchr c (d ∷ s) = if d == c then some 0 else Option.map suc (strchr c s)

-- What stands before and behind the place that was found: the first part ends `kept` bytes behind
-- its start, and the second begins `skipped` bytes behind it.
abbrev pub cut_at : Option ℕ → ℕ → ℕ → Bytes → Option (Bytes × Bytes)
cut_at none kept skipped s = none
cut_at (some i) kept skipped s = some (take (i + kept) s, drop (i + skipped) s)

abbrev pub or_else : Option (Bytes × Bytes) → Option (Bytes × Bytes) → Option (Bytes × Bytes)
or_else (some r) other = some r
or_else none other = other

unfoldable pub find_body : Bytes → Option (Bytes × Bytes)
unfolding strstr
find_body s =
    or_else (cut_at (strstr (13 ∷ 10 ∷ 13 ∷ 10 ∷ []) s) 2 4 s)
      (cut_at (strstr (10 ∷ 10 ∷ []) s) 1 2 s)

abbrev pub or_all : Bytes → Option (Bytes × Bytes) → Bytes × Bytes
or_all s none = (s, [])
or_all s (some r) = r

-- The first line and the header.
unfoldable pub find_header : Bytes → Bytes × Bytes
unfolding strstr
find_header s =
    or_all s (or_else (cut_at (strstr (13 ∷ 10 ∷ []) s) 0 2 s) (cut_at (strstr (10 ∷ []) s) 0 1 s))

abbrev pub set_uri : Bytes → Option (Bytes × Bytes) → HttpReqInfo → HttpReqInfo
set_uri uri none info = record info { is_success = true; http_uri = some uri }
set_uri uri (some (path, params)) info = record info {
  is_success = true;
  http_uri = some path;
  http_uri_params = some params;
}

abbrev pub parse_uri : Bytes → Option (Bytes × Bytes) → HttpReqInfo → HttpReqInfo
parse_uri rest none info = record info { http_uri = some rest }
parse_uri rest (some (uri, ver)) info =
    set_uri uri (cut_at (strchr b'?' uri) 0 1 uri) (record info { http_ver = some ver })

abbrev pub parse_cmd : Bytes → Option (Bytes × Bytes) → HttpReqInfo → HttpReqInfo
parse_cmd line none info = record info { http_cmd = some line }
parse_cmd line (some (cmd, rest)) info =
    parse_uri rest (cut_at (strchr 32 rest) 0 1 rest) (record info { http_cmd = some cmd })

abbrev pub parse_line : Bytes × Bytes → Bytes → HttpReqInfo
parse_line (line, header) body =
    parse_cmd line (cut_at (strchr 32 line) 0 1 line)
      (record no_info { http_header = some header; http_body = some body })

abbrev pub parse_parts : Option (Bytes × Bytes) → HttpReqInfo
parse_parts none = no_info
parse_parts (some (text, body)) = parse_line (find_header text) body

-- http_req_parse
unfoldable pub parse : Bytes → HttpReqInfo
unfolding find_body find_header strchr
parse req_buf = parse_parts (find_body req_buf)
