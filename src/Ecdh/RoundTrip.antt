-- ===== src/Ecdh/RoundTrip.antt =====
-- A body that a client encrypts is decrypted to what it was.
use esp32_wifi_manager.Common.{
  ℕ, zero, suc, ◌+◌, ◌-◌, ◌*◌, ◌%◌, ◌≤◌, ◌≡◌, refl, ap, ◌∙◌, true, some, [], ◌∷◌, ◌++◌, Bytes,
  bytes_eq_refl, length, length-append, replicate, leb, ◌==◌, arith,
}
use esp32_wifi_manager.Recv.Find.{HasNoNul, c_str_whole, take-length}
use esp32_wifi_manager.Ecdh.{
  Crypto, EncryptedReq, max_encrypted_len, sized, last, decode_sized, b64_decode, unpad,
  aes_decrypt, decrypt,
}

-- PKCS #7: each of the bytes that fill the last block is their number, from 1 to 16.
abbrev pub pad_len : Bytes → ℕ
pad_len b = 16 - length b % 16

abbrev pub pad : Bytes → Bytes
pad b = b ++ replicate (pad_len b) (pad_len b)

length-replicate : (n x : ℕ) → length (replicate n x) ≡ n
length-replicate zero x = refl
length-replicate (suc n) x = ap suc (length-replicate n x)

length-pad : (b : Bytes) → length (pad b) ≡ length b + pad_len b
length-pad b =
    length-append {0} b (replicate (pad_len b) (pad_len b))
    ∙ ap (λ n. length b + n) (length-replicate (pad_len b) (pad_len b))

last-replicate : (n x : ℕ) → last (replicate (suc n) x) ≡ some x
unfolding last
last-replicate zero x = refl
last-replicate (suc n) x = last-replicate n x

last-append : (b : Bytes) (c : ℕ) (s : Bytes) → last (b ++ c ∷ s) ≡ last (c ∷ s)
unfolding last
last-append [] c s = refl
last-append (d ∷ []) c s = refl
last-append (d ∷ e ∷ b) c s = last-append (e ∷ b) c s

last-pad : (b : Bytes) → last (pad b) ≡ some (pad_len b)
last-pad b =
    let n = pad_len b in
    let e : n ≡ suc (n - 1) = omega arith in
    ap (λ k. last (b ++ replicate k n)) e
    ∙ last-append b n (replicate (n - 1) n)
    ∙ last-replicate (n - 1) n

-- What a client sends for the text `plain`: the three parts in base64, of which the first is what
-- AES makes of the padded text.
pub record IsEncryption (c : Crypto) (key : Bytes) (req : EncryptedReq) (plain iv cipher : Bytes)
    : Type 0 where
  pub iv_part : c.base64_decode req.iv ≡ some iv
  pub iv_len : length iv ≡ 16
  pub hash_part : c.base64_decode req.hash ≡ some (c.sha256 plain)
  pub hash_len : length (c.sha256 plain) ≡ 32
  pub cipher_part : c.base64_decode req.encrypted ≡ some cipher
  pub cipher_len : length cipher ≡ length (pad plain)
  pub deciphers : c.aes_decrypt key iv cipher ≡ pad plain
  pub no_nul : HasNoNul plain
  pub fits : length plain + 16 ≤ max_encrypted_len

unpad-pad : (c : Crypto) (b : Bytes) → unpad c (pad b) ≡ some b
unfolding unpad
unpad-pad c b =
    let l = length-pad b in
    let small : leb (pad_len b) 16 ≡ true = ground arith in
    let within : leb (pad_len b) (length (pad b)) ≡ true = ground (arith, l) in
    let kept : length (pad b) - pad_len b ≡ length b = omega (arith, l) in
    rw (last-pad b, small, within, kept)
      (ap some (take-length b (replicate (pad_len b) (pad_len b))))

sized_ok : (n : ℕ) (b : Bytes) → length b ≡ n → sized n (some b) ≡ some b
sized_ok n b h = let same : (length b == n) ≡ true = ground arith in rw same refl

-- What a client encrypts with the key of the handshake, a text without a 0 that is padded by the
-- rules of PKCS #7 and sent with its hash, is decrypted to exactly this text, where memory is there.
pub decrypt-IsEncryption :
    (c : Crypto) (key : Bytes) (req : EncryptedReq) (plain iv cipher : Bytes)
    → ((n : ℕ) → c.malloc_ok n ≡ true)
    → IsEncryption c key req plain iv cipher
    → decrypt c key req ≡ some plain
unfolding decrypt decode_sized b64_decode aes_decrypt
decrypt-IsEncryption c key req plain iv cipher mem e =
    let l = length-pad plain in
    let fits : leb (length cipher) (20 * 1024) ≡ true = ground (arith, l, e.cipher_len, e.fits) in
    let blocks : (length cipher % 16 == 0) ≡ true = ground (arith, l, e.cipher_len) in
    rw
      (
        e.iv_part,
        sized_ok 16 iv e.iv_len,
        e.hash_part,
        sized_ok 32 (c.sha256 plain) e.hash_len,
        e.cipher_part,
        fits,
        mem (length cipher),
        blocks,
        mem (length cipher),
        e.deciphers,
        unpad-pad c plain,
        bytes_eq_refl (c.sha256 plain),
        c_str_whole plain e.no_nul,
        mem (length plain + 1),
      )
      refl
