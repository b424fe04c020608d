-- ===== src/Ecdh.antt =====
-- The encryption of a request's body (src/http_server_ecdh.c): the handshake that agrees on a key,
-- and the decryption of a body. The functions of mbedtls, and the memory, are parameters.
pub mod RoundTrip
use esp32_wifi_manager.Common.{
  ℕ, zero, suc, ◌+◌, ◌-◌, ◌*◌, ◌/◌, ◌%◌, Bool, true, false, not, ◌&&◌, ◌||◌, Option, none, some, [],
  ◌∷◌, Bytes, bytes_eq, length, take, drop, ltb, leb, ◌==◌, if◌then◌else◌,
}
use esp32_wifi_manager.Recv.{c_str}

-- mbedtls and the heap. `none` is an error code.
pub record Crypto : Type 0 where
  pub base64_decode : Bytes → Option Bytes
  pub base64_encode : Bytes → Option Bytes
  pub sha256 : Bytes → Bytes
  -- mbedtls_aes_crypt_cbc with a key and an initial vector
  pub aes_decrypt : Bytes → Bytes → Bytes → Bytes
  pub malloc_ok : ℕ → Bool
  pub calloc_ok : Bool
  pub setup_ok : Bool
  -- mbedtls_ecdh_make_params: the message for the client, with a private number of the server's.
  pub make_params : Option (Bytes × ℕ)
  pub read_public_ok : Bytes → Bool
  -- mbedtls_ecdh_calc_secret, of the private number and the client's public key
  pub calc_secret : ℕ → Bytes → Option Bytes

-- http_server_ecdh_encrypted_req_t
pub record EncryptedReq : Type 0 where
  pub encrypted : Bytes
  pub iv : Bytes
  pub hash : Bytes

abbrev pub max_encrypted_len : ℕ
max_encrypted_len = 20 * 1024

abbrev pub block_size : ℕ
block_size = 16

abbrev pub sized : ℕ → Option Bytes → Option Bytes
sized n none = none
sized n (some b) = if length b == n then some b else none

infixl 5 ◌>>=◌ ◌>>◌
abbrev pub ◌>>=◌ : {A B : Type 0} → Option A → (A → Option B) → Option B
none >>= f = none
some a >>= f = f a

abbrev pub ◌>>◌ : {B : Type 0} → Option (Unit {0}) → Option B → Option B
m >> k = m >>= λ _. k

abbrev pub guard : Bool → Option (Unit {0})
guard true = some tt
guard false = none

-- p_buf[buf_size - 1]. In an empty buffer there is no such byte; the code reaches this only where
-- the heap gives memory for 0 bytes, and is taken to refuse there.
unfoldable pub last : Bytes → Option ℕ
last [] = none
last (c ∷ []) = some c
last (c ∷ d ∷ s) = last (d ∷ s)

module _ (c : Crypto) where
  -- http_server_ecdh_b64_decode_aes_iv, _hash and _pub_key: the size must be exact.
  unfoldable pub decode_sized : ℕ → Bytes → Option Bytes
  decode_sized n s = sized n (c.base64_decode s)

  -- http_server_ecdh_b64_decode
  unfoldable pub b64_decode : Bytes → Option Bytes
  b64_decode s = do
    b ← c.base64_decode s
    guard (leb (length b) max_encrypted_len && c.malloc_ok (length b))
    some b

  -- The padding that the last byte tells is cut off.
  unfoldable pub unpad : Bytes → Option Bytes
  unfolding last
  unpad b = do
    pad_len ← last b
    guard (leb pad_len block_size && leb pad_len (length b))
    some (take (length b - pad_len) b)

  -- http_server_ecdh_aes_decrypt
  unfoldable pub aes_decrypt : Bytes → Bytes → Bytes → Option Bytes
  unfolding unpad
  aes_decrypt key iv b = unpad (c.aes_decrypt key iv b)

  -- http_server_ecdh_decrypt: the text ends at the first 0, if there is one.
  unfoldable pub decrypt : Bytes → EncryptedReq → Option Bytes
  unfolding decode_sized b64_decode aes_decrypt bytes_eq c_str
  decrypt key req = do
    iv ← decode_sized 16 req.iv
    hash ← decode_sized 32 req.hash
    encrypted ← b64_decode req.encrypted
    guard (length encrypted % block_size == 0)
    guard (c.malloc_ok (length encrypted))
    plain ← aes_decrypt key iv encrypted
    guard (bytes_eq (c.sha256 plain) hash)
    guard (c.malloc_ok (length (c_str plain) + 1))
    some (c_str plain)

  -- http_server_ecdh_handshake: the new key, and the server's public key. A public key has 65
  -- bytes, and stands behind 4 bytes of the message; its text has 88.
  unfoldable pub handshake : Bytes → Option (Bytes × Bytes)
  unfolding decode_sized
  handshake pub_key_cli = do
    guard c.calloc_ok
    cli ← decode_sized 65 pub_key_cli
    guard c.setup_ok
    (message, private) ← c.make_params
    guard (length message == 69)
    srv ← sized 88 (c.base64_encode (drop 4 message))
    guard (c.read_public_ok (65 ∷ cli))
    secret ← sized 32 (c.calc_secret private cli)
    some (take 32 (c.sha256 secret), srv)
