-- ===== src/Request/Handle.antt =====
-- A request by its method (http_server_handle_req, src/http_server_handle_req.c): the key of the
-- encryption that a GET may ask for, and the body of a POST, which may be encrypted.
use esp32_wifi_manager.Common.{
  ℕ, zero, suc, Bool, true, false, ◌&&◌, Option, none, some, [], ◌∷◌, Bytes, codes, bytes_eq,
  length, take, ltb, leb, ◌==◌, if◌then◌else◌,
}
use esp32_wifi_manager.Http.{Field, header_get_field}
use esp32_wifi_manager.Ecdh.{Crypto, EncryptedReq, decrypt, handshake}
use esp32_wifi_manager.Manager.{Env}
use esp32_wifi_manager.Auth.Check.{Libs, Resp, resp_err}
use esp32_wifi_manager.Request.{Server, HttpReq, App, handle_req_post, handle_req_delete}
use esp32_wifi_manager.Request.Get.{GetEnv, handle_req_get}

-- The state with the key of the encryption, g_http_server_ecdh_aes_key.
pub record SecureServer : Type 0 where
  pub server : Server
  pub aes_key : Bytes

-- What the answer says of the encryption: the server's public key.
pub record Answer : Type 0 where
  pub resp : Resp
  pub pub_key : Option Bytes

abbrev pub plain_answer : Resp → Answer
plain_answer resp = record { resp = resp; pub_key = none }

-- `0 == strncmp(a, b, n)`
unfoldable pub strncmp_eq : ℕ → Bytes → Bytes → Bool
strncmp_eq zero a b = true
strncmp_eq (suc n) [] [] = true
strncmp_eq (suc n) [] (_ ∷ _) = false
strncmp_eq (suc n) (_ ∷ _) [] = false
strncmp_eq (suc n) (x ∷ a) (y ∷ b) = (x == y) && strncmp_eq n a b

abbrev pub says_true : Option Field → Bool
says_true none = false
says_true (some f) = strncmp_eq f.len f.ptr (codes "true")

abbrev pub max_unencrypted_content_size : ℕ
max_unencrypted_content_size = 8192

-- http_server_json_get_string_val_ptr
abbrev pub string_val : Option (Option Bytes) → Option Bytes
string_val none = none
string_val (some o) = o

abbrev pub all_strings : Option Bytes → Option Bytes → Option Bytes → Option EncryptedReq
all_strings (some e) (some iv) (some hash) = some (record { encrypted = e; iv = iv; hash = hash })
all_strings _ _ _ = none

-- http_server_parse_encrypted_req
unfoldable pub parse_encrypted_req : Option (Bytes → Option (Option Bytes)) → Option EncryptedReq
parse_encrypted_req none = none
parse_encrypted_req (some get) =
    all_strings (string_val (get (codes "encrypted"))) (string_val (get (codes "iv")))
      (string_val (get (codes "hash")))

abbrev pub within_size : Option Bytes → Option Bytes
within_size none = none
within_size (some b) = if ltb max_unencrypted_content_size (length b) then none else some b

module _ (env : Env) (libs : Libs) (app : App) (g : GetEnv) (crypto : Crypto) where
  abbrev pub decrypt_req : Bytes → Option EncryptedReq → Option Bytes
  decrypt_req key none = none
  decrypt_req key (some req) = decrypt crypto key req

  -- http_server_decrypt
  unfoldable pub decrypt_body : Bytes → Bytes → Option Bytes
  unfolding parse_encrypted_req decrypt
  decrypt_body key body = decrypt_req key (parse_encrypted_req (libs.parse_json body))

  -- The body that a POST is handled with; `none` if it is refused.
  unfoldable pub body_of : Bytes → HttpReq → Option Bytes
  unfolding header_get_field strncmp_eq decrypt_body
  body_of key r = within_size (
      if says_true (header_get_field r.header (codes "Ruuvi-Ecdh-Encrypted:"))
      then decrypt_body key r.body
      else some r.body)

  abbrev pub with_server : SecureServer → Server × Resp → SecureServer × Answer
  with_server s (server, resp) = (record s { server = server }, plain_answer resp)

  abbrev pub post_with_body : HttpReq → SecureServer → Option Bytes → SecureServer × Answer
  post_with_body r s none = (s, plain_answer (resp_err 400))
  post_with_body r s (some body) =
      with_server s (handle_req_post env libs app (record r { body = body }) s.server)

  -- http_server_handle_req_post_with_ecdh_key
  unfoldable pub handle_req_post_with_ecdh_key : HttpReq → SecureServer → SecureServer × Answer
  unfolding body_of handle_req_post
  handle_req_post_with_ecdh_key r s = post_with_body r s (body_of s.aes_key r)

  abbrev pub agreed : SecureServer × Answer → Option (Bytes × Bytes) → SecureServer × Answer
  agreed (s, a) none = (s, plain_answer (resp_err 500))
  agreed (s, a) (some (key, pub_key)) =
      (record s { aes_key = key }, record a { pub_key = some pub_key })

  -- http_server_handle_ruuvi_ecdh_pub_key: the text of a public key has 88 bytes at most.
  unfoldable pub exchange_keys : Option Field → SecureServer × Answer → SecureServer × Answer
  unfolding handshake
  exchange_keys none r = r
  exchange_keys (some f) r =
      agreed r (if leb 89 f.len then none else handshake crypto (take f.len f.ptr))

  -- http_server_handle_req_get_with_ecdh_key
  unfoldable pub handle_req_get_with_ecdh_key : HttpReq → SecureServer → SecureServer × Answer
  unfolding handle_req_get header_get_field exchange_keys
  handle_req_get_with_ecdh_key r s =
      exchange_keys (header_get_field r.header (codes "Ruuvi-Ecdh-Pub-Key:"))
        (with_server s (handle_req_get env libs g r s.server))

  -- http_server_handle_req, behind the choice of the path
  unfoldable pub handle_req : Bytes → HttpReq → SecureServer → SecureServer × Answer
  unfolding bytes_eq handle_req_get_with_ecdh_key handle_req_delete handle_req_post_with_ecdh_key
  handle_req cmd r s =
      if bytes_eq cmd (codes "GET")
      then handle_req_get_with_ecdh_key r s
      else if bytes_eq cmd (codes "DELETE")
      then with_server s (handle_req_delete env libs app r s.server)
      else if bytes_eq cmd (codes "POST")
      then handle_req_post_with_ecdh_key r s
      else (s, plain_answer (resp_err 400))
