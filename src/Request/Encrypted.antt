-- ===== src/Request/Encrypted.antt =====
-- A body that is encrypted (http_server_handle_req_post_with_ecdh_key, src/http_server_handle_req.c).
use esp32_wifi_manager.Common.{
  ℕ, ◌≤◌, ◌≡◌, refl, true, false, some, Bytes, codes, length, ltb, arith,
}
use esp32_wifi_manager.Http.{header_get_field}
use esp32_wifi_manager.Ecdh.{Crypto, EncryptedReq}
use esp32_wifi_manager.Ecdh.RoundTrip.{IsEncryption, decrypt-IsEncryption}
use esp32_wifi_manager.Manager.{Env}
use esp32_wifi_manager.Auth.Check.{Libs}
use esp32_wifi_manager.Request.{HttpReq, App, handle_req_post}
use esp32_wifi_manager.Request.Get.{GetEnv}
use esp32_wifi_manager.Request.Handle.{
  SecureServer, says_true, parse_encrypted_req, decrypt_body, body_of, with_server,
  handle_req_post_with_ecdh_key,
}

module _ (env : Env) (libs : Libs) (app : App) (g : GetEnv) (crypto : Crypto) where
  -- A POST whose header says that its body is encrypted, and whose body is the JSON of what a client
  -- encrypts with the key of the handshake, is handled exactly as the same POST with the plain text
  -- for its body, where memory is there and the text has at most 8192 bytes.
  pub encrypted_post-eq :
      (r : HttpReq) (s : SecureServer) (req : EncryptedReq) (plain iv cipher : Bytes)
      → says_true (header_get_field r.header (codes "Ruuvi-Ecdh-Encrypted:")) ≡ true
      → parse_encrypted_req (libs.parse_json r.body) ≡ some req
      → ((n : ℕ) → crypto.malloc_ok n ≡ true)
      → IsEncryption crypto s.aes_key req plain iv cipher
      → length plain ≤ 8192
      → handle_req_post_with_ecdh_key env libs app g crypto r s
        ≡ with_server env libs app g crypto s
            (handle_req_post env libs app (record r { body = plain }) s.server)
  unfolding handle_req_post_with_ecdh_key body_of decrypt_body
  encrypted_post-eq r s req plain iv cipher says json mem e le =
      let within : ltb 8192 (length plain) ≡ false = ground arith in
      rw (says, json, decrypt-IsEncryption crypto s.aes_key req plain iv cipher mem e, within) refl
