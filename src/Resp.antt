-- ===== src/Resp.antt =====
-- The answers that the server makes (src/http_server_resp.c): the record for each kind of content,
-- and the text of the authentication, which is printed into a buffer of 210 bytes.
pub mod AuthJson
use esp32_wifi_manager.Common.{
  ℕ, Bool, true, false, Option, none, some, List, [], ◌∷◌, ◌++◌, Bytes, codes, length, ◌==◌,
  if◌then◌else◌,
}
use esp32_wifi_manager.Config.{HostInfo}
use esp32_wifi_manager.Auth.{AuthType, auth_type_to_str}
use esp32_wifi_manager.Auth.Check.{Resp, plain, auth_json, json, of_app}
use esp32_wifi_manager.Send.{
  Content, no_content, flash_mem, static_mem, heap, fatfs, json_generator, File,
}
use esp32_wifi_manager.Send.Answer.{
  HttpResp, RespCode, code_200, code_302, code_400, code_401, code_403, code_404, code_500,
  code_503, ContentType, text_html, text_plain, application_json, ContentEncoding, encoding_none,
}

-- http_server_resp_err
abbrev pub resp_err : RespCode → HttpResp
resp_err code = record {
  http_resp_code = code;
  flag_no_cache = true;
  flag_add_header_date = true;
  content_type = text_html;
  content_type_param = none;
  content_len = 0;
  content_encoding = encoding_none;
  content = no_content;
}

-- A text without a parameter of its type and without an encoding, from the place where it is.
abbrev pub text_resp : RespCode → ContentType → Content → ℕ → HttpResp
text_resp code type content len = record {
  http_resp_code = code;
  flag_no_cache = true;
  flag_add_header_date = true;
  content_type = type;
  content_type_param = none;
  content_len = len;
  content_encoding = encoding_none;
  content = content;
}

-- http_server_resp_200_json
abbrev pub resp_200_json : Bytes → HttpResp
resp_200_json s = text_resp code_200 application_json (static_mem s) (length s)

-- http_server_resp_json_in_heap
abbrev pub resp_json_in_heap : RespCode → Bytes → HttpResp
resp_json_in_heap code s = text_resp code application_json (heap s) (length s)

-- http_server_resp_json_generator; the size is what json_stream_gen_calc_size gives.
abbrev pub resp_json_generator : RespCode → List (Option Bytes) → ℕ → HttpResp
resp_json_generator code chunks size = text_resp code application_json (json_generator chunks) size

-- http_server_resp_text_in_heap
abbrev pub resp_text_in_heap : RespCode → Bytes → HttpResp
resp_text_in_heap code s = text_resp code text_plain (heap s) (length s)

-- http_server_resp_err_json_in_static_mem
abbrev pub resp_err_json_in_static_mem : RespCode → Bytes → HttpResp
resp_err_json_in_static_mem code s = text_resp code application_json (static_mem s) (length s)

-- http_server_resp_err_json_in_heap; a NULL pointer is `none`.
abbrev pub resp_err_json_in_heap : RespCode → Option Bytes → HttpResp
resp_err_json_in_heap code none = resp_err code
resp_err_json_in_heap code (some s) = text_resp code application_json (heap s) (length s)

-- http_server_resp_401_json and http_server_resp_403_json
abbrev pub resp_auth_json : RespCode → Option Bytes → HttpResp
resp_auth_json code none = resp_err code
resp_auth_json code (some s) = resp_err_json_in_static_mem code s

-- The data that an application gives, with its type, its encoding and its length.
pub record Data : Type 0 where
  pub content_type : ContentType
  pub content_type_param : Option Bytes
  pub content_len : ℕ
  pub content_encoding : ContentEncoding
  pub flag_no_cache : Bool

abbrev pub data_resp : RespCode → Data → Bool → Content → HttpResp
data_resp code d date content = record {
  http_resp_code = code;
  flag_no_cache = d.flag_no_cache;
  flag_add_header_date = date;
  content_type = d.content_type;
  content_type_param = d.content_type_param;
  content_len = d.content_len;
  content_encoding = d.content_encoding;
  content = content;
}

-- http_server_resp_data_in_flash
abbrev pub resp_data_in_flash : Data → Bytes → HttpResp
resp_data_in_flash d s = data_resp code_200 d false (flash_mem s)

-- http_server_resp_data_in_static_mem
abbrev pub resp_data_in_static_mem : Data → Bool → Bytes → HttpResp
resp_data_in_static_mem d date s = data_resp code_200 d date (static_mem s)

-- http_server_resp_200_data_in_heap
abbrev pub resp_200_data_in_heap : Data → Bool → Bytes → HttpResp
resp_200_data_in_heap d date s = data_resp code_200 d date (heap s)

-- http_server_resp_data_from_file
abbrev pub resp_data_from_file : RespCode → Data → File → HttpResp
resp_data_from_file code d file = data_resp code d false (fatfs file)

-- http_server_resp_get_content_ptr_if_in_memory
unfoldable pub content_if_in_memory : HttpResp → Option (Bytes × ℕ)
content_if_in_memory r = elim r.content [
  | flash_mem s ↦ some (s, r.content_len)
  | static_mem s ↦ some (s, r.content_len)
  | heap s ↦ some (s, r.content_len)
  | no_content ↦ none
  | fatfs file ↦ none
  | json_generator chunks ↦ none
]

-- What http_server_resp_free gives back.
pub data Freed : Type 0 where
  nothing heap_block file_descriptor generator : Freed

unfoldable pub resp_free : HttpResp → Freed
resp_free r = elim r.content [
  | heap s ↦ heap_block
  | fatfs file ↦ file_descriptor
  | json_generator chunks ↦ generator
  | no_content ↦ nothing
  | flash_mem s ↦ nothing
  | static_mem s ↦ nothing
]

abbrev pub ver_info : Bool → HostInfo → Bytes
ver_info false host = []
ver_info true host =
    codes ", \"fw_ver\": \""
    ++ host.fw_ver
    ++ codes "\", \"nrf52_fw_ver\": \""
    ++ host.nrf52_fw_ver
    ++ codes "\""

abbrev pub lan_text : AuthType → Bool → Bytes
lan_text t lan =
    codes ", \"lan_auth_type\": \""
    ++ auth_type_to_str t
    ++ codes "\", \"lan\": "
    ++ (if lan then codes "true" else codes "false")

abbrev pub message_text : Option Bytes → Bytes
message_text none = []
message_text (some msg) = codes ", \"message\": \"" ++ msg ++ codes "\""

-- What is left in the buffer; "{}" if a part did not fit.
abbrev pub or_braces : Option Bytes → Bytes
or_braces none = codes "{}"
or_braces (some buf) = buf

-- `fits n` is whether g_auth_json, of HTTP_SERVER_RESP_JSON_AUTH_BUF_SIZE bytes, holds a text of n
-- bytes, by str_buf.
module _ (fits : ℕ → Bool) where
  -- str_buf_printf behind what is in the buffer; `none` from the first part that does not fit.
  abbrev pub str_buf_printf : Option Bytes → Bytes → Option Bytes
  str_buf_printf none s = none
  str_buf_printf (some buf) s = if fits (length (buf ++ s)) then some (buf ++ s) else none

  -- http_server_fill_auth_json; a part that is left out is printed as the empty text.
  unfoldable pub fill_auth_json : HostInfo → AuthType → Bool → Option Bytes → Bool → Bytes
  unfolding auth_type_to_str
  fill_auth_json host t lan msg expose =
      let b0 =
        str_buf_printf (some []) (codes "{\"gateway_name\": \"" ++ host.hostname ++ codes "\"") in
      let b1 = str_buf_printf b0 (ver_info expose host) in
      let b2 = str_buf_printf b1 (lan_text t lan) in
      let b3 = str_buf_printf b2 (message_text msg) in or_braces (str_buf_printf b3 (codes "}"))

  -- The code of an answer as the enumeration has it; one that it does not have is sent as 503.
  abbrev pub resp_code_of : ℕ → RespCode
  resp_code_of n =
      if n == 200
      then code_200
      else if n == 302
      then code_302
      else if n == 400
      then code_400
      else if n == 401
      then code_401
      else if n == 403
      then code_403
      else if n == 404
      then code_404
      else if n == 500
      then code_500
      else code_503

  -- The record for an answer of the handlers: an empty object with 200, no content with another
  -- code, the text of the authentication, another text of JSON, or what the application gives.
  unfoldable pub http_resp_of : HostInfo → Resp → HttpResp
  unfolding fill_auth_json
  http_resp_of host r = elim r.body [
    | plain ↦
        if r.http_resp_code == 200
        then resp_200_json (codes "{}")
        else resp_err (resp_code_of r.http_resp_code)
    | auth_json t lan msg expose ↦
        resp_auth_json (resp_code_of r.http_resp_code) (some (fill_auth_json host t lan msg expose))
    | json s ↦ resp_json_in_heap (resp_code_of r.http_resp_code) s
    | of_app resp ↦ resp
  ]
