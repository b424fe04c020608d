-- ===== src/Auth/Sessions.antt =====
-- The authorised sessions: how they come and go (src/http_server_auth.c,
-- src/http_server_auth_ruuvi.c, src/http_server_handle_req_post_auth.c).
use esp32_wifi_manager.Common.{
  ℕ, zero, suc, true, false, Option, List, [], ◌∷◌, Bytes, is_empty, take, bytes_eq, bytes_eq_refl,
  bytes_eq_sound, Bool-cases, ◌≡◌, ◌≢◌, ◌⊎◌, inl, inr, refl, arith,
}
use esp32_wifi_manager.Auth.{
  Auth, AuthInfo, AuthType, auth_type_eq, auth_allow, auth_basic, auth_digest, auth_ruuvi,
  auth_deny, auth_default, auth_bearer, auth_type_to_str, auth_type_from_str, Session, differs,
  safe, set_auth, clear_authorized_sessions, add_authorized_session, is_session, has_session,
}

-- The text of an authentication type reads back as that type, but for BEARER's, which reads back
-- as DENY.
pub auth_type-from-to-str :
    (t : AuthType) → t ≢ auth_bearer → auth_type_from_str (auth_type_to_str t) ≡ t
unfolding auth_type_from_str auth_type_to_str
auth_type-from-to-str auth_allow h = refl
auth_type-from-to-str auth_basic h = refl
auth_type-from-to-str auth_digest h = refl
auth_type-from-to-str auth_ruuvi h = refl
auth_type-from-to-str auth_deny h = refl
auth_type-from-to-str auth_default h = refl
auth_type-from-to-str auth_bearer h = elim (h refl) [ ]

-- A session with an identifier is found right after it is added, from its own address.
pub add-has_session :
    (session_id remote_ip : Bytes) (a : Auth)
    → is_empty session_id ≡ false
    → has_session session_id remote_ip
        (add_authorized_session session_id remote_ip a).authorized_sessions
      ≡ true
unfolding add_authorized_session has_session is_session
add-has_session session_id remote_ip a h =
    ground (arith, h, bytes_eq_refl session_id, bytes_eq_refl remote_ip)

pub has_session-take :
    (s ip : Bytes) (n : ℕ) (xs : List Session)
    → has_session s ip (take n xs) ≡ true
    → has_session s ip xs ≡ true
unfolding has_session
has_session-take s ip zero xs h = cc
has_session-take s ip (suc n) [] h = h
has_session-take s ip (suc n) (x ∷ xs) h = ground (arith, has_session-take s ip n xs)

-- Nothing but the added session is found that was not found before.
pub add-has_session-only :
    (s ip session_id remote_ip : Bytes) (a : Auth)
    → has_session s ip (add_authorized_session session_id remote_ip a).authorized_sessions ≡ true
    → has_session s ip a.authorized_sessions ≡ false
    → is_session s ip (record { session_id = session_id; remote_ip = remote_ip }) ≡ true
unfolding add_authorized_session has_session
add-has_session-only s ip session_id remote_ip a h before =
    ground (arith, has_session-take s ip 3 a.authorized_sessions)

not-bytes_eq : (a b : Bytes) → a ≢ b → bytes_eq a b ≡ false
not-bytes_eq a b h = elim (Bool-cases (bytes_eq a b)) [
  | inl e ↦ absurd (h (bytes_eq_sound a b e))
  | inr e ↦ e
]

-- The type, the user or the password is another one than that of the settings.
abbrev pub IsChanged : AuthType → Bytes → Bytes → AuthInfo → Type 0
IsChanged t user pass i = (i.auth_type ≢ t) ⊎ ((i.auth_user ≢ user) ⊎ (i.auth_pass ≢ pass))

auth_type_eq_sound : (t u : AuthType) → auth_type_eq t u ≡ true → u ≡ t
auth_type_eq_sound auth_allow u h = ground arith
auth_type_eq_sound auth_basic u h = ground arith
auth_type_eq_sound auth_digest u h = ground arith
auth_type_eq_sound auth_ruuvi u h = ground arith
auth_type_eq_sound auth_deny u h = ground arith
auth_type_eq_sound auth_default u h = ground arith
auth_type_eq_sound auth_bearer u h = ground arith

not-auth_type_eq : (t u : AuthType) → u ≢ t → auth_type_eq t u ≡ false
not-auth_type_eq t u h = elim (Bool-cases (auth_type_eq t u)) [
  | inl e ↦ absurd (h (auth_type_eq_sound t u e))
  | inr e ↦ e
]

IsChanged-differs :
    (t : AuthType) (user pass : Bytes) (i : AuthInfo)
    → IsChanged t user pass i
    → differs t user pass i ≡ true
unfolding differs
IsChanged-differs t user pass i (inl h) = ground (arith, not-auth_type_eq t i.auth_type h)
IsChanged-differs t user pass i (inr (inl h)) = ground (arith, not-bytes_eq i.auth_user user h)
IsChanged-differs t user pass i (inr (inr h)) = ground (arith, not-bytes_eq i.auth_pass pass h)

-- If the type, the user or the password that is set is another one than before, with NULL for the
-- empty text, no session of any identifier and address is found any more, and no login is under way.
pub set_auth_ends_sessions :
    (t : AuthType) (user pass api_key api_key_rw : Option Bytes) (a : Auth) (s ip : Bytes)
    → IsChanged t (safe user) (safe pass) a.info
    → (has_session s ip (set_auth t user pass api_key api_key_rw a).authorized_sessions ≡ false)
      × ((set_auth t user pass api_key api_key_rw a).login_session.session_id ≡ [])
unfolding set_auth has_session is_session clear_authorized_sessions
set_auth_ends_sessions t user pass api_key api_key_rw a s ip h =
    rw (IsChanged-differs t (safe user) (safe pass) a.info h) (refl, refl)
