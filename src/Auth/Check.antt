-- ===== src/Auth/Check.antt =====
-- The decision on a request's authorisation (src/http_server_handle_req_get_auth.c), with the
-- answers that it gives (src/http_server_resp.c) and the digest (src/http_server_auth_digest.c).
use esp32_wifi_manager.Common.{
  ℕ, ◌-◌, Bool, true, false, not, ◌&&◌, ◌||◌, Option, none, some, ◌++◌, Bytes, codes, bytes_eq,
  take, drop, is_empty, if◌then◌else◌,
}
use esp32_wifi_manager.Http.{Field, starts_with, header_get_field, parse_token}
use esp32_wifi_manager.Send.Answer.{HttpResp}
use esp32_wifi_manager.Auth.{
  Auth, AuthInfo, DigestReq, AuthType, auth_allow, auth_basic, auth_digest, auth_ruuvi, auth_deny,
  auth_default, auth_bearer, auth_type_eq, add_authorized_session, has_session, get_session_id,
}

-- What the other libraries return while one request is handled: the hashes of mbedtls, the random
-- numbers of the system, the memory, and cJSON. The extra fields of the answer's header are not in
-- the model.
pub record Libs : Type 0 where
  -- wifiman_md5_calc_hex_str
  pub md5_hex : Bytes → Bytes
  -- SHA-256 of random bytes, in hexadecimal; empty if it failed.
  pub new_challenge : Bytes
  -- The sixteen random letters of a session's identifier.
  pub new_session_id : Bytes
  pub alloc_ok : Bool
  -- http_server_auth_ruuvi_gen_hashed_password: the hash of challenge, colon and password.
  pub hash_password : Bytes → Bytes → Option Bytes
  -- cJSON_Parse; its result gives for a name cJSON_GetObjectItem, and cJSON_GetStringValue of it.
  pub parse_json : Bytes → Option (Bytes → Option (Option Bytes))

-- An answer: its code, and what its body says. `auth_json` is the text of
-- http_server_fill_auth_json, without the host's name; `plain` is `{}` with the code 200, and no
-- content with another; `of_app` is what the application's callback gives.
pub data Body : Type 0 where
  plain : Body
  auth_json : AuthType → Bool → Option Bytes → Bool → Body
  json : Bytes → Body
  of_app : HttpResp → Body

pub record Resp : Type 0 where
  pub http_resp_code : ℕ
  pub body : Body

abbrev pub resp_err : ℕ → Resp
resp_err code = record { http_resp_code = code; body = plain }

abbrev pub resp_200_auth : AuthType → Bool → Resp
resp_200_auth t lan = record { http_resp_code = 200; body = auth_json t lan none true }

abbrev pub resp_401_auth : AuthType → Option Bytes → Resp
resp_401_auth t msg = record { http_resp_code = 401; body = auth_json t true msg false }

abbrev pub resp_403_auth_deny : Resp
resp_403_auth_deny = record { http_resp_code = 403; body = auth_json auth_deny true none false }

-- http_server_handle_req_auth_param_t, without the host's name
pub record AuthParam : Type 0 where
  pub from_lan : Bool
  pub check_rw : Bool
  pub header : Bytes
  pub remote_ip : Bytes

pub data ApiKey : Type 0 where
  not_used allowed prohibited : ApiKey

unfoldable pub key_matches : Bytes → Field → Bool
unfolding bytes_eq
key_matches key token = not (is_empty key) && bytes_eq (take token.len token.ptr) key

unfoldable pub bearer_token : Option Field → Option Field
unfolding starts_with
bearer_token none = none
bearer_token (some f) =
    if starts_with (codes "Bearer ") f.ptr
    then some (record { ptr = drop 7 f.ptr; len = f.len - 7 })
    else none

unfoldable pub check_token : Bool → AuthInfo → Option Field → ApiKey
unfolding bytes_eq
check_token check_rw i none = not_used
check_token check_rw i (some token) =
    if key_matches i.auth_api_key_rw token
    then allowed
    else if not check_rw && key_matches i.auth_api_key token
    then allowed
    else prohibited

-- http_server_handle_req_check_auth_bearer
unfoldable pub check_auth_bearer : Bytes → Bool → AuthInfo → ApiKey
unfolding header_get_field starts_with bytes_eq
check_auth_bearer header check_rw i =
    check_token check_rw i (bearer_token (header_get_field header (codes "Authorization:")))

-- The password follows `Basic `; no user name is compared.
unfoldable pub basic_ok : Bytes → Option Field → Bool
unfolding starts_with bytes_eq
basic_ok pass none = false
basic_ok pass (some f) =
    starts_with (codes "Basic ") f.ptr && bytes_eq (take (f.len - 6) (drop 6 f.ptr)) pass

abbrev pub quote : Bytes
quote = codes "\""

-- A token that is found is written to its member.
abbrev pub put_token : (Bytes → DigestReq → DigestReq) → DigestReq → Option Bytes → DigestReq × Bool
put_token write r none = (r, false)
put_token write r (some t) = (write t r, true)

-- `if (!http_server_parse_token(...)) return false;`, of a token that ends with a text
abbrev pub next_token :
    Field
    → ℕ
    → Bytes
    → Bytes
    → (Bytes → DigestReq → DigestReq)
    → DigestReq × Bool
    → DigestReq × Bool
next_token f size prefix suffix write (r, false) = (r, false)
next_token f size prefix suffix write (r, true) =
    put_token write r (parse_token size f prefix suffix)

-- The tokens of http_server_parse_digest_authorization_str in its order. Those before the first that
-- is missing or too long are written; the others stay.
unfoldable pub parse_tokens : Field → DigestReq → DigestReq × Bool
unfolding parse_token
parse_tokens f r0 =
    let r1 =
      next_token f 65 (codes "username=\"") quote (λ t r. record r { username = t }) (r0, true) in
    let r2 = next_token f 65 (codes "realm=\"") quote (λ t r. record r { realm = t }) r1 in
    let r3 = next_token f 81 (codes "nonce=\"") quote (λ t r. record r { nonce = t }) r2 in
    let r4 = next_token f 65 (codes "uri=\"") quote (λ t r. record r { uri = t }) r3 in
    let r5 = next_token f 33 (codes "qop=") (codes ",") (λ t r. record r { qop = t }) r4 in
    let r6 = next_token f 17 (codes "nc=") (codes ",") (λ t r. record r { nc = t }) r5 in
    let r7 = next_token f 33 (codes "cnonce=\"") quote (λ t r. record r { cnonce = t }) r6 in
    let r8 = next_token f 65 (codes "response=\"") quote (λ t r. record r { response = t }) r7 in
    next_token f 81 (codes "opaque=\"") quote (λ t r. record r { opaque = t }) r8

unfoldable pub parse_digest : Field → DigestReq → DigestReq × Bool
unfolding parse_tokens starts_with
parse_digest f r = if starts_with (codes "Digest ") f.ptr then parse_tokens f r else (r, false)

module _ (c : Libs) where
  -- http_server_resp_401_auth_digest; its random nonce is hashed as a challenge is.
  abbrev pub resp_401_digest : Resp
  resp_401_digest =
      if is_empty c.new_challenge then resp_err 503 else resp_401_auth auth_digest none

  abbrev pub colon : Bytes
  colon = codes ":"

  -- The hash that the answer must have. The method is GET whatever the request's is, and the
  -- nonce is the one that the request gives.
  abbrev pub digest_response : Bytes → DigestReq → Bytes
  digest_response pass r = c.md5_hex (
      pass
      ++ colon
      ++ r.nonce
      ++ colon
      ++ r.nc
      ++ colon
      ++ r.cnonce
      ++ colon
      ++ r.qop
      ++ colon
      ++ c.md5_hex (codes "GET:" ++ r.uri))

  -- What follows the parsing, for the request in `g_auth.digest` and whether it is complete.
  unfoldable pub check_digest : AuthInfo → Bool → DigestReq × Bool → Resp
  unfolding bytes_eq
  check_digest i lan (r, false) = resp_401_digest
  check_digest i lan (r, true) =
      if not (bytes_eq r.username i.auth_user)
      then resp_401_digest
      else if not c.alloc_ok
      then resp_err 503
      else if bytes_eq r.response (digest_response i.auth_pass r)
      then resp_200_auth auth_digest lan
      else resp_401_digest

  -- http_server_handle_req_get_auth_digest
  unfoldable pub get_auth_digest : Bool → Option Field → Auth → Auth × Resp
  unfolding parse_digest check_digest
  get_auth_digest lan none a = (a, resp_401_digest)
  get_auth_digest lan (some f) a =
      let r = parse_digest f a.digest in (record a { digest = r.0 }, check_digest a.info lan r)

  -- http_server_login_session_init
  unfoldable pub login_session_init : Bytes → Auth → Auth
  login_session_init remote_ip a = record a {
    login_session = record {
      challenge = c.new_challenge;
      session_id = c.new_session_id;
      remote_ip = remote_ip;
    };
  }

  -- http_server_resp_401_auth_ruuvi_with_new_session_id
  unfoldable pub resp_401_new_session : Bytes → AuthType → Option Bytes → Auth → Auth × Resp
  unfolding login_session_init
  resp_401_new_session remote_ip t msg a = (
    login_session_init remote_ip a,
    if is_empty c.new_challenge then resp_err 503 else resp_401_auth t msg,
  )

  -- http_server_resp_200_auth_allow_with_new_session_id
  unfoldable pub resp_200_allow_new_session : Bytes → Auth → Auth × Resp
  unfolding login_session_init add_authorized_session
  resp_200_allow_new_session remote_ip a =
      let a' = login_session_init remote_ip a in
      if is_empty c.new_challenge
      then (a', resp_err 503)
      else (add_authorized_session c.new_session_id remote_ip a', resp_200_auth auth_allow true)

  -- A request without a session that is known: `check` tells a check from a `GET /auth`, and
  -- `has_cookie` whether there was an identifier.
  unfoldable pub no_session : AuthParam → Bool → Bool → AuthType → Auth → Auth × Resp
  unfolding resp_401_new_session resp_200_allow_new_session
  no_session p check has_cookie t a =
      if check && (has_cookie || not (auth_type_eq t auth_allow))
      then (a, resp_401_auth t none)
      else if auth_type_eq t auth_allow
      then resp_200_allow_new_session p.remote_ip a
      else resp_401_new_session p.remote_ip t none a

  unfoldable pub by_cookie : AuthParam → Bool → AuthType → Option Bytes → Auth → Auth × Resp
  unfolding no_session has_session
  by_cookie p check t none a = no_session p check false t a
  by_cookie p check t (some session_id) a =
      if has_session session_id p.remote_ip a.authorized_sessions
      then (a, resp_200_auth t p.from_lan)
      else no_session p check true t a

  -- http_server_handle_req_get_auth_ruuvi
  unfoldable pub get_auth_ruuvi : AuthParam → Bool → AuthType → Auth → Auth × Resp
  unfolding by_cookie get_session_id
  get_auth_ruuvi p check t a =
      if check && auth_type_eq t auth_allow
      then (a, resp_200_auth auth_allow p.from_lan)
      else by_cookie p check t (get_session_id p.header) a

  -- The switch of http_server_handle_req_get_or_check_auth.
  unfoldable pub by_auth_type : AuthParam → Bool → AuthType → Auth → Auth × Resp
  unfolding get_auth_ruuvi header_get_field get_auth_digest basic_ok
  by_auth_type p check auth_allow a = get_auth_ruuvi p check auth_allow a
  by_auth_type p check auth_basic a = (
    a,
    if basic_ok a.info.auth_pass (header_get_field p.header (codes "Authorization:"))
        then resp_200_auth auth_basic p.from_lan
        else resp_401_auth auth_basic none,
  )
  by_auth_type p check auth_digest a =
      get_auth_digest p.from_lan (header_get_field p.header (codes "Authorization:")) a
  by_auth_type p check auth_ruuvi a = get_auth_ruuvi p check auth_ruuvi a
  by_auth_type p check auth_deny a = (a, resp_403_auth_deny)
  by_auth_type p check auth_default a = get_auth_ruuvi p check auth_default a
  by_auth_type p check auth_bearer a = (a, resp_err 500)

  unfoldable pub by_bearer : AuthParam → ApiKey → Auth → Auth × Resp × Bool
  unfolding by_auth_type
  by_bearer p not_used a = let r = by_auth_type p true a.info.auth_type a in (r.0, r.1, false)
  by_bearer p allowed a = (a, resp_200_auth auth_bearer p.from_lan, true)
  by_bearer p prohibited a =
      (a, record { http_resp_code = 401; body = auth_json auth_bearer p.from_lan none false }, true)

  -- http_server_handle_req_check_auth; the last result is `flag_access_by_bearer_token`.
  unfoldable pub check_auth : AuthParam → Auth → Auth × Resp × Bool
  unfolding by_bearer check_auth_bearer
  check_auth p a =
      if p.from_lan
      then by_bearer p (check_auth_bearer p.header p.check_rw a.info) a
      else (a, resp_200_auth auth_allow false, false)

  -- http_server_handle_req_get_auth
  unfoldable pub get_auth : AuthParam → Auth → Auth × Resp
  unfolding by_auth_type
  get_auth p a =
      if p.from_lan
      then by_auth_type p false a.info.auth_type a
      else (a, resp_200_auth auth_allow false)
