-- ===== src/Send/Answer.antt =====
-- The header of an answer, and the answer for each status (src/http_server_netconn_resp.c).
use esp32_wifi_manager.Common.{
  ℕ, ◌-◌, ◌^◌, Bool, true, false, Option, none, some, [], ◌∷◌, ◌++◌, Bytes, codes, is_empty, ◌==◌,
  if◌then◌else◌,
}
use esp32_wifi_manager.Json.{decimal}
use esp32_wifi_manager.Send.{Conn, SendEnv, Content, netconn_printf, write_content}

-- http_resp_code_e
pub data RespCode : Type 0 where
  code_200 code_206 code_299 code_301 code_302 code_400 code_401 code_403 code_404 code_409 code_429
        code_500 code_502 code_503 code_504 :
      RespCode

-- http_content_type_e
pub data ContentType : Type 0 where
  text_html text_plain text_css text_javascript image_png image_svg_xml application_json
        application_octet_stream :
      ContentType

pub data ContentEncoding : Type 0 where
  encoding_none encoding_gzip : ContentEncoding

-- http_server_resp_t
pub record HttpResp : Type 0 where
  pub http_resp_code : RespCode
  pub flag_no_cache : Bool
  pub flag_add_header_date : Bool
  pub content_type : ContentType
  pub content_type_param : Option Bytes
  pub content_len : ℕ
  pub content_encoding : ContentEncoding
  pub content : Content

abbrev pub crlf : Bytes
crlf = 13 ∷ 10 ∷ []

-- http_get_content_type_str
abbrev pub content_type_str : ContentType → Bytes
content_type_str text_html = codes "text/html"
content_type_str text_plain = codes "text/plain"
content_type_str text_css = codes "text/css"
content_type_str text_javascript = codes "text/javascript"
content_type_str image_png = codes "image/png"
content_type_str image_svg_xml = codes "image/svg+xml"
content_type_str application_json = codes "application/json"
content_type_str application_octet_stream = codes "application/octet-stream"

-- http_content_type_is_textual
abbrev pub is_textual : ContentType → Bool
is_textual text_html = true
is_textual text_plain = true
is_textual text_css = true
is_textual text_javascript = true
is_textual application_json = true
is_textual image_png = false
is_textual image_svg_xml = false
is_textual application_octet_stream = false

-- http_get_content_encoding_str
abbrev pub content_encoding_str : ContentEncoding → Bytes
content_encoding_str encoding_none = []
content_encoding_str encoding_gzip = codes "Content-Encoding: gzip" ++ crlf

-- http_get_cache_control_str
abbrev pub cache_control_str : Bool → Bytes
cache_control_str false = []
cache_control_str true =
    codes "Cache-Control: no-store, no-cache, must-revalidate, max-age=0"
    ++ crlf
    ++ codes "Pragma: no-cache"
    ++ crlf

abbrev pub content_type_param_str : Option Bytes → Bytes
content_type_param_str none = []
content_type_param_str (some s) = if is_empty s then [] else codes "; " ++ s

abbrev pub size_max : ℕ
size_max = 2 ^ 32 - 1

-- The line is left out where the length is not known.
abbrev pub content_len_str : ℕ → Bytes
content_len_str n = if n == size_max then [] else codes "Content-Length: " ++ decimal 9 n ++ crlf

abbrev pub status_line : ℕ → Bytes → Bytes
status_line code msg =
    codes "HTTP/1.0 "
    ++ decimal 9 code
    ++ codes " "
    ++ msg
    ++ crlf
    ++ codes "Server: Ruuvi Gateway"
    ++ crlf

-- http_server_gen_header_date_str, of the line that is made from the time
abbrev pub header_date_str : Bool → Bytes → Bytes
header_date_str true date = date
header_date_str false date = []

-- The text that http_server_netconn_resp_with_content formats. The date is always there: the flag
-- of the answer is not read.
abbrev pub header_with_content : Bytes → HttpResp → Bytes → ℕ → Bytes → Bytes
header_with_content date resp extra code msg =
    status_line code msg
    ++ header_date_str true date
    ++ codes "Content-type: "
    ++ content_type_str resp.content_type
    ++ (if is_textual resp.content_type then codes "; charset=utf-8" else [])
    ++ content_type_param_str resp.content_type_param
    ++ crlf
    ++ content_len_str resp.content_len
    ++ extra
    ++ content_encoding_str resp.content_encoding
    ++ cache_control_str resp.flag_no_cache
    ++ crlf

abbrev pub answer_without_content : ℕ → Bytes → Bytes
answer_without_content code msg =
    status_line code msg
    ++ codes "Content-type: application/json; charset=utf-8"
    ++ crlf
    ++ codes "Content-Length: 2"
    ++ crlf
    ++ crlf
    ++ codes "{}"

abbrev pub redirect_to_ap : Bytes → Bytes
redirect_to_ap ap_ip =
    status_line 302 (codes "Found")
    ++ codes "Location: http://"
    ++ ap_ip
    ++ codes "/"
    ++ crlf
    ++ crlf

abbrev pub redirect_to_auth : ℕ → Bytes → Bytes → Bytes → Bytes
redirect_to_auth code msg hostname extra =
    status_line code msg
    ++ codes "Location: http://"
    ++ hostname
    ++ codes "/#auth"
    ++ crlf
    ++ extra
    ++ crlf

module _ (env : SendEnv) where
  -- http_server_netconn_resp_with_content: the content follows also where the header was not sent.
  unfoldable pub resp_with_content : HttpResp → Bytes → ℕ → Bytes → Conn → Conn
  resp_with_content resp extra code msg c =
      write_content env resp.content_len resp.content
        (netconn_printf env.printf_mem_ok (header_with_content env.date resp extra code msg) c)

  -- http_server_netconn_resp_without_content
  unfoldable pub resp_without_content : ℕ → Bytes → Conn → Conn
  resp_without_content code msg = netconn_printf env.printf_mem_ok (answer_without_content code msg)

  -- http_server_netconn_resp_with_code
  unfoldable pub resp_with_code : Option HttpResp → ℕ → Bytes → Conn → Conn
  resp_with_code none code msg c = resp_without_content code msg c
  resp_with_code (some resp) code msg c =
      if resp.content_len == 0
      then resp_without_content code msg c
      else resp_with_content resp [] code msg c

  -- http_server_netconn_resp_302
  unfoldable pub resp_302 : Conn → Conn
  resp_302 = netconn_printf env.printf_mem_ok (redirect_to_ap env.ap_ip)

  -- http_server_netconn_resp_400, _500 and _503
  unfoldable pub resp_400 : Conn → Conn
  resp_400 = resp_with_code none 400 (codes "Bad Request")

  unfoldable pub resp_500 : Conn → Conn
  resp_500 = resp_with_code none 500 (codes "Internal Server Error")

  unfoldable pub resp_503 : Conn → Conn
  resp_503 = resp_with_code none 503 (codes "Service Unavailable")

  -- http_server_netconn_resp_without_free_resp, with the one that each status calls: HTTP/1.0 has
  -- no 206 and no 299, for which 200 is sent.
  unfoldable pub resp_for : RespCode → HttpResp → Bytes → Bytes → Conn → Conn
  resp_for code_200 resp hostname extra = resp_with_content resp extra 200 (codes "OK")
  resp_for code_206 resp hostname extra = resp_with_content resp extra 200 (codes "OK")
  resp_for code_299 resp hostname extra = resp_with_content resp extra 200 (codes "OK")
  resp_for code_301 resp hostname extra =
      netconn_printf env.printf_mem_ok
        (redirect_to_auth 301 (codes "Moved Permanently") hostname extra)
  resp_for code_302 resp hostname extra =
      netconn_printf env.printf_mem_ok (redirect_to_auth 302 (codes "Found") hostname extra)
  resp_for code_400 resp hostname extra = resp_with_code (some resp) 400 (codes "Bad Request")
  resp_for code_401 resp hostname extra = resp_with_content resp extra 401 (codes "Unauthorized")
  resp_for code_403 resp hostname extra = resp_with_content resp extra 403 (codes "Forbidden")
  resp_for code_404 resp hostname extra = resp_with_code (some resp) 404 (codes "Not Found")
  resp_for code_409 resp hostname extra = resp_with_code (some resp) 409 (codes "Conflict")
  resp_for code_429 resp hostname extra = resp_with_code (some resp) 429 (codes "Too Many Requests")
  resp_for code_500 resp hostname extra =
      resp_with_code (some resp) 500 (codes "Internal Server Error")
  resp_for code_502 resp hostname extra = resp_with_code (some resp) 502 (codes "Bad Gateway")
  resp_for code_503 resp hostname extra =
      resp_with_code (some resp) 503 (codes "Service Unavailable")
  resp_for code_504 resp hostname extra = resp_with_code (some resp) 504 (codes "Gateway timeout")

  -- http_server_netconn_resp, without what frees the content
  unfoldable pub netconn_resp : HttpResp → Bytes → Bytes → Conn → Conn
  netconn_resp r hostname extra = resp_for r.http_resp_code r hostname extra
