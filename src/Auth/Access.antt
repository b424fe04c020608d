-- ===== src/Auth/Access.antt =====
-- Who gets an answer, and what a request may change (src/http_server_handle_req_get_auth.c,
-- src/http_server_handle_req_post_auth.c).
use esp32_wifi_manager.Common.{
  Bool, true, false, Option, none, some, List, [], ◌∷◌, Bytes, ◌≡◌, ◌≢◌, ◌↔◌, ◌⊎◌, refl, ap, ◌∙◌,
  inl, inr, arith, Bool-cases, codes, is_empty, bytes_eq_sound, bytes_eq_refl, if◌then◌else◌,
}
use esp32_wifi_manager.Http.{Field, header_get_field}
use esp32_wifi_manager.Auth.{
  Auth, AuthInfo, AuthType, auth_allow, auth_basic, auth_digest, auth_ruuvi, auth_deny,
  auth_default, auth_bearer, Session, is_session, has_session, cookie_of, get_session_id,
}
use esp32_wifi_manager.Auth.Check.{
  Libs, AuthParam, ApiKey, not_used, allowed, prohibited, check_auth_bearer, check_token,
  bearer_token, get_auth_ruuvi, get_auth_digest, by_cookie, by_auth_type, by_bearer, no_session,
  check_auth,
}
use esp32_wifi_manager.Auth.Post.{is_interactive}

-- Whether a cookie's identifier, if there is one, is that of a session of this address.
abbrev pub is_known : Bytes → List Session → Option Bytes → Bool
is_known remote_ip sessions none = false
is_known remote_ip sessions (some session_id) = has_session session_id remote_ip sessions

-- A session with this identifier and this address is among these.
abbrev pub InSessions : Bytes → Bytes → List Session → Type 0
InSessions session_id remote_ip [] = ⊥
InSessions session_id remote_ip (s ∷ ss) =
    ((s.session_id ≡ session_id) × (s.remote_ip ≡ remote_ip)) ⊎ InSessions session_id remote_ip ss

-- The header has the cookie of a session of this address.
abbrev pub HasLogin : Bytes → Bytes → List Session → Type 0
HasLogin header remote_ip sessions =
    (session_id : Bytes) × (cookie_of 17 (codes "RUUVISESSION")
        (header_get_field header (codes "Cookie:"))
      ≡ some session_id)
    × (session_id ≢ [])
    × InSessions session_id remote_ip sessions

not_empty : (b : Bytes) → (is_empty b ≡ false) ↔ (b ≢ [])
not_empty [] = (λ e. cc, λ h. absurd (h refl))
not_empty (x ∷ b) = (λ _ e. cc, λ _. refl)

has_session_sound :
    (session_id remote_ip : Bytes) (ss : List Session)
    → has_session session_id remote_ip ss ≡ true
    → (session_id ≢ []) × InSessions session_id remote_ip ss
unfolding has_session is_session
has_session_sound session_id remote_ip [] h = cc
has_session_sound session_id remote_ip (s ∷ ss) h =
    elim (Bool-cases (is_session session_id remote_ip s)) [
      | inl this ↦
          let id = bytes_eq_sound s.session_id session_id (ground arith) in
          let address = bytes_eq_sound s.remote_ip remote_ip (ground arith) in
          let named : is_empty s.session_id ≡ false = ground arith in
          ((not_empty session_id).0 (rw (← id) named), inl (id, address))
      | inr other ↦
          let (named, rest) = has_session_sound session_id remote_ip ss (rw other at h) in
          (named, inr rest)
    ]

has_session_complete :
    (session_id remote_ip : Bytes) (ss : List Session)
    → session_id ≢ []
    → InSessions session_id remote_ip ss
    → has_session session_id remote_ip ss ≡ true
unfolding has_session is_session
has_session_complete session_id remote_ip [] named h = elim h [ ]
has_session_complete session_id remote_ip (s ∷ ss) named (inl (id, address)) =
    rw
      (
        id,
        address,
        (not_empty session_id).1 named,
        bytes_eq_refl session_id,
        bytes_eq_refl remote_ip,
      )
      refl
has_session_complete session_id remote_ip (s ∷ ss) named (inr rest) =
    ground (arith, has_session_complete session_id remote_ip ss named rest)

is_known_iff_cookie :
    (remote_ip : Bytes) (ss : List Session) (o : Option Bytes)
    → (is_known remote_ip ss o ≡ true) ↔ (
        (session_id : Bytes) × (o ≡ some session_id)
        × (session_id ≢ [])
        × InSessions session_id remote_ip ss)
is_known_iff_cookie remote_ip ss none = (λ e. cc, λ h. absurd (cc h.1))
is_known_iff_cookie remote_ip ss (some session_id) = (
  λ e. let (named, m) = has_session_sound session_id remote_ip ss e in (session_id, refl, named, m),
  λ (named_id, e, named, m).
      let same : named_id ≡ session_id = cc in
      rw (← same) (has_session_complete named_id remote_ip ss named m),
)

is_known_iff :
    (header remote_ip : Bytes) (ss : List Session)
    → (is_known remote_ip ss (get_session_id header) ≡ true) ↔ HasLogin header remote_ip ss
unfolding get_session_id
is_known_iff header remote_ip ss =
    is_known_iff_cookie remote_ip ss
      (cookie_of 17 (codes "RUUVISESSION") (header_get_field header (codes "Cookie:")))

is_digest : (t : AuthType) → (t ≡ auth_digest) ⊎ (t ≢ auth_digest)
is_digest auth_digest = inl refl
is_digest auth_allow = inr (λ e. cc)
is_digest auth_basic = inr (λ e. cc)
is_digest auth_ruuvi = inr (λ e. cc)
is_digest auth_deny = inr (λ e. cc)
is_digest auth_default = inr (λ e. cc)
is_digest auth_bearer = inr (λ e. cc)

known_twice : {b : Bool} → b ≡ true → b ≡ false → ⊥
known_twice e f = cc

check_token-rw :
    (i : AuthInfo) (key : Bytes) (o : Option Field)
    → check_token true i o ≡ check_token true (record i { auth_api_key = key }) o
unfolding check_token
check_token-rw i key none = refl
check_token-rw i key (some token) = refl

module _ (c : Libs) where
  by_cookie-keeps :
      (p : AuthParam) (t : AuthType) (o : Option Bytes) (a : Auth)
      → is_interactive t ≡ true
      → (by_cookie c p true t o a).0 ≡ a
  unfolding by_cookie no_session
  by_cookie-keeps p auth_ruuvi none a h = refl
  by_cookie-keeps p auth_ruuvi (some s) a h =
      elim (Bool-cases (has_session s p.remote_ip a.authorized_sessions)) [
        | inl e ↦ rw e refl
        | inr e ↦ rw e refl
      ]
  by_cookie-keeps p auth_default none a h = refl
  by_cookie-keeps p auth_default (some s) a h =
      elim (Bool-cases (has_session s p.remote_ip a.authorized_sessions)) [
        | inl e ↦ rw e refl
        | inr e ↦ rw e refl
      ]
  by_cookie-keeps p auth_allow o a h = cc
  by_cookie-keeps p auth_basic o a h = cc
  by_cookie-keeps p auth_digest o a h = cc
  by_cookie-keeps p auth_deny o a h = cc
  by_cookie-keeps p auth_bearer o a h = cc

  by_auth_type-keeps :
      (p : AuthParam) (t : AuthType) (a : Auth)
      → t ≢ auth_digest
      → (by_auth_type c p true t a).0 ≡ a
  unfolding by_auth_type get_auth_ruuvi
  by_auth_type-keeps p auth_allow a h = refl
  by_auth_type-keeps p auth_basic a h = refl
  by_auth_type-keeps p auth_digest a h = absurd (h refl)
  by_auth_type-keeps p auth_ruuvi a h =
      by_cookie-keeps p auth_ruuvi (get_session_id p.header) a refl
  by_auth_type-keeps p auth_deny a h = refl
  by_auth_type-keeps p auth_default a h =
      by_cookie-keeps p auth_default (get_session_id p.header) a refl
  by_auth_type-keeps p auth_bearer a h = refl

  get_auth_digest-info :
      (lan : Bool) (o : Option Field) (a : Auth) → (get_auth_digest c lan o a).0.info ≡ a.info
  unfolding get_auth_digest
  get_auth_digest-info lan none a = refl
  get_auth_digest-info lan (some f) a = refl

  by_auth_type-info :
      (p : AuthParam) (t : AuthType) (a : Auth) → (by_auth_type c p true t a).0.info ≡ a.info
  unfolding by_auth_type
  by_auth_type-info p auth_digest a =
      get_auth_digest-info p.from_lan (header_get_field p.header (codes "Authorization:")) a
  by_auth_type-info p auth_allow a = ap (λ b. b.info) (by_auth_type-keeps p auth_allow a (λ e. cc))
  by_auth_type-info p auth_basic a = refl
  by_auth_type-info p auth_ruuvi a = ap (λ b. b.info) (by_auth_type-keeps p auth_ruuvi a (λ e. cc))
  by_auth_type-info p auth_deny a = refl
  by_auth_type-info p auth_default a =
      ap (λ b. b.info) (by_auth_type-keeps p auth_default a (λ e. cc))
  by_auth_type-info p auth_bearer a = refl

  by_bearer-keeps :
      (p : AuthParam) (k : ApiKey) (a : Auth)
      → a.info.auth_type ≢ auth_digest
      → (by_bearer c p k a).0 ≡ a
  unfolding by_bearer
  by_bearer-keeps p not_used a h = by_auth_type-keeps p a.info.auth_type a h
  by_bearer-keeps p allowed a h = refl
  by_bearer-keeps p prohibited a h = refl

  by_bearer-info : (p : AuthParam) (k : ApiKey) (a : Auth) → (by_bearer c p k a).0.info ≡ a.info
  unfolding by_bearer
  by_bearer-info p not_used a = by_auth_type-info p a.info.auth_type a
  by_bearer-info p allowed a = refl
  by_bearer-info p prohibited a = refl

  pub check_auth-same :
      (p : AuthParam) (a : Auth) → a.info.auth_type ≢ auth_digest → (check_auth c p a).0 ≡ a
  unfolding check_auth
  check_auth-same p a h = elim (Bool-cases p.from_lan) [
    | inl lan ↦ simp lan (by_bearer-keeps p (check_auth_bearer p.header p.check_rw a.info) a h)
    | inr ap_side ↦ simp ap_side refl
  ]

  check_auth-info : (p : AuthParam) (a : Auth) → (check_auth c p a).0.info ≡ a.info
  unfolding check_auth
  check_auth-info p a = elim (Bool-cases p.from_lan) [
    | inl lan ↦ simp lan (by_bearer-info p (check_auth_bearer p.header p.check_rw a.info) a)
    | inr ap_side ↦ simp ap_side refl
  ]

  -- The check that precedes a request changes nothing, no session, no login that is under way and no
  -- setting, for every header; or the type is DIGEST, and then it changes no setting.
  pub check_auth-keeps :
      (p : AuthParam) (a : Auth)
      → ((check_auth c p a).0 ≡ a)
        ⊎ ((a.info.auth_type ≡ auth_digest) × ((check_auth c p a).0.info ≡ a.info))
  check_auth-keeps p a = elim (is_digest a.info.auth_type) [
    | inl digest ↦ inr (digest, check_auth-info p a)
    | inr other ↦ inl (check_auth-same p a other)
  ]

  by_cookie-code :
      (p : AuthParam) (t : AuthType) (o : Option Bytes) (a : Auth)
      → is_interactive t ≡ true
      → (by_cookie c p true t o a).1.http_resp_code
        ≡ (if is_known p.remote_ip a.authorized_sessions o then 200 else 401)
  unfolding by_cookie no_session
  by_cookie-code p auth_ruuvi none a h = refl
  by_cookie-code p auth_ruuvi (some s) a h = ground arith
  by_cookie-code p auth_default none a h = refl
  by_cookie-code p auth_default (some s) a h = ground arith
  by_cookie-code p auth_allow o a h = cc
  by_cookie-code p auth_basic o a h = cc
  by_cookie-code p auth_digest o a h = cc
  by_cookie-code p auth_deny o a h = cc
  by_cookie-code p auth_bearer o a h = cc

  by_auth_type-code :
      (p : AuthParam) (t : AuthType) (a : Auth)
      → is_interactive t ≡ true
      → (by_auth_type c p true t a).1.http_resp_code ≡ (
          if is_known p.remote_ip a.authorized_sessions (get_session_id p.header) then 200 else 401)
  unfolding by_auth_type get_auth_ruuvi
  by_auth_type-code p auth_ruuvi a h = by_cookie-code p auth_ruuvi (get_session_id p.header) a h
  by_auth_type-code p auth_default a h = by_cookie-code p auth_default (get_session_id p.header) a h
  by_auth_type-code p auth_allow a h = cc
  by_auth_type-code p auth_basic a h = cc
  by_auth_type-code p auth_digest a h = cc
  by_auth_type-code p auth_deny a h = cc
  by_auth_type-code p auth_bearer a h = cc

  pub check_auth-code :
      (p : AuthParam) (a : Auth)
      → p.from_lan ≡ true
      → is_interactive a.info.auth_type ≡ true
      → check_auth_bearer p.header p.check_rw a.info ≡ not_used
      → (check_auth c p a).1.http_resp_code ≡ (
          if is_known p.remote_ip a.authorized_sessions (get_session_id p.header) then 200 else 401)
  unfolding check_auth by_bearer
  check_auth-code p a lan h bearer =
      ground (arith, by_auth_type-code p a.info.auth_type a h, lan, bearer)

  -- With the type RUUVI or DEFAULT and no bearer token, a request from the local network is let
  -- through (200) exactly if the cookie `RUUVISESSION` of its header names, by an identifier that is
  -- not empty, one of the authorised sessions, and that session has the sender's address; otherwise
  -- it is refused (401).
  pub check_auth-interactive :
      (p : AuthParam) (a : Auth)
      → p.from_lan ≡ true
      → is_interactive a.info.auth_type ≡ true
      → check_auth_bearer p.header p.check_rw a.info ≡ not_used
      → let code = (check_auth c p a).1.http_resp_code in
        ((code ≡ 200) ↔ HasLogin p.header p.remote_ip a.authorized_sessions)
        × ((code ≡ 200) ⊎ (code ≡ 401))
  check_auth-interactive p a lan h bearer =
      let e = check_auth-code p a lan h bearer in
      let known = is_known_iff p.header p.remote_ip a.authorized_sessions in
      elim (Bool-cases (is_known p.remote_ip a.authorized_sessions (get_session_id p.header))) [
        | inl yes_known ↦
            let ok : (check_auth c p a).1.http_resp_code ≡ 200 = e ∙ rw yes_known refl in
            ((λ _. known.0 yes_known, λ _. ok), inl ok)
        | inr unknown ↦
            let bad : (check_auth c p a).1.http_resp_code ≡ 401 = e ∙ rw unknown refl in
            (
              (
                λ ok. absurd (omega (arith, ok, bad)),
                λ l. absurd (known_twice (known.1 l) unknown),
              ),
              inr bad,
            )
      ]

-- A request that must have the right to write is judged by the read-write key alone: the key for
-- reading gives it nothing, whatever it is.
pub check_auth_bearer-rw :
    (header : Bytes) (i : AuthInfo) (key : Bytes)
    → check_auth_bearer header true i
      ≡ check_auth_bearer header true (record i { auth_api_key = key })
unfolding check_auth_bearer
check_auth_bearer-rw header i key =
    check_token-rw i key (bearer_token (header_get_field header (codes "Authorization:")))
