-- ===== src/Auth.antt =====
-- Who may use the HTTP server: the authentication settings and the sessions
-- (src/http_server_auth.c, src/http_server_auth_ruuvi.c, src/http_server_auth_type.c,
-- src/include/http_server_auth_type.h). The decisions on requests and the proofs are below.
--
-- `g_auth` is a union of `digest` and `ruuvi`; the state has both, side by side. The member `digest`
-- is written only while the type is DIGEST, when nothing reads the member `ruuvi`, and a change of
-- the type clears both.
pub mod Check
pub mod Post
pub mod Sessions
pub mod Access
use esp32_wifi_manager.Common.{
  ℕ, Bool, true, false, not, ◌&&◌, ◌||◌, Option, none, some, List, [], ◌∷◌, Bytes, codes, bytes_eq,
  truncate, take, replicate, is_empty, if◌then◌else◌,
}
use esp32_wifi_manager.Http.{Field, header_get_field, get_cookie}

-- http_server_auth_type_e
pub data AuthType : Type 0 where
  auth_allow auth_basic auth_digest auth_ruuvi auth_deny auth_default auth_bearer : AuthType

abbrev pub auth_type_eq : AuthType → AuthType → Bool
auth_type_eq auth_allow auth_allow = true
auth_type_eq auth_basic auth_basic = true
auth_type_eq auth_digest auth_digest = true
auth_type_eq auth_ruuvi auth_ruuvi = true
auth_type_eq auth_deny auth_deny = true
auth_type_eq auth_default auth_default = true
auth_type_eq auth_bearer auth_bearer = true
auth_type_eq _ _ = false

unfoldable pub auth_type_to_str : AuthType → Bytes
auth_type_to_str auth_allow = codes "lan_auth_allow"
auth_type_to_str auth_basic = codes "lan_auth_basic"
auth_type_to_str auth_digest = codes "lan_auth_digest"
auth_type_to_str auth_ruuvi = codes "lan_auth_ruuvi"
auth_type_to_str auth_deny = codes "lan_auth_deny"
auth_type_to_str auth_default = codes "lan_auth_default"
auth_type_to_str auth_bearer = codes "lan_auth_bearer"

-- Any other text, also BEARER's, means DENY.
unfoldable pub auth_type_from_str : Bytes → AuthType
unfolding bytes_eq
auth_type_from_str s =
    if bytes_eq (codes "lan_auth_allow") s
    then auth_allow
    else if bytes_eq (codes "lan_auth_basic") s
    then auth_basic
    else if bytes_eq (codes "lan_auth_digest") s
    then auth_digest
    else if bytes_eq (codes "lan_auth_ruuvi") s
    then auth_ruuvi
    else if bytes_eq (codes "lan_auth_deny") s
    then auth_deny
    else if bytes_eq (codes "lan_auth_default") s
    then auth_default
    else auth_deny

pub record AuthInfo : Type 0 where
  pub auth_type : AuthType
  pub auth_user : Bytes
  pub auth_pass : Bytes
  pub auth_api_key : Bytes
  pub auth_api_key_rw : Bytes

pub record LoginSession : Type 0 where
  pub challenge : Bytes
  pub session_id : Bytes
  pub remote_ip : Bytes

-- http_server_auth_ruuvi_authorized_session_t; a free place has no identifier.
pub record Session : Type 0 where
  pub session_id : Bytes
  pub remote_ip : Bytes

-- http_server_auth_digest_req_t
pub record DigestReq : Type 0 where
  pub username : Bytes
  pub realm : Bytes
  pub nonce : Bytes
  pub uri : Bytes
  pub qop : Bytes
  pub nc : Bytes
  pub cnonce : Bytes
  pub response : Bytes
  pub opaque : Bytes

abbrev pub zero_digest : DigestReq
zero_digest = record {
  username = [];
  realm = [];
  nonce = [];
  uri = [];
  qop = [];
  nc = [];
  cnonce = [];
  response = [];
  opaque = [];
}

-- `g_auth.digest`, `g_auth.ruuvi` and `g_auth_info`
pub record Auth : Type 0 where
  pub digest : DigestReq
  pub login_session : LoginSession
  pub authorized_sessions : List Session
  pub info : AuthInfo

-- HTTP_SERVER_AUTH_RUUVI_MAX_NUM_SESSIONS
abbrev pub max_num_sessions : ℕ
max_num_sessions = 4

abbrev pub zero_session : Session
zero_session = record { session_id = []; remote_ip = [] }

-- memset of the whole of `g_auth`
unfoldable pub clear_authorized_sessions : Auth → Auth
clear_authorized_sessions a = record a {
  digest = zero_digest;
  login_session = record { challenge = []; session_id = []; remote_ip = [] };
  authorized_sessions = replicate max_num_sessions zero_session;
}

abbrev pub safe : Option Bytes → Bytes
safe none = []
safe (some s) = s

-- The three comparisons of http_server_set_auth: whether a setting is another one.
unfoldable pub differs : AuthType → Bytes → Bytes → AuthInfo → Bool
unfolding bytes_eq
differs auth_type user pass i =
    not (auth_type_eq auth_type i.auth_type)
    || not (bytes_eq i.auth_user user)
    || not (bytes_eq i.auth_pass pass)

unfoldable pub replace_unless_eq : ℕ → Bytes → Bytes → Bytes
unfolding bytes_eq
replace_unless_eq size old new = if bytes_eq old new then old else truncate size new

-- http_server_set_auth; a NULL pointer is `none`.
unfoldable pub set_auth :
    AuthType → Option Bytes → Option Bytes → Option Bytes → Option Bytes → Auth → Auth
unfolding clear_authorized_sessions bytes_eq
set_auth auth_type user pass api_key api_key_rw a =
    let a' =
      if differs auth_type (safe user) (safe pass) a.info then clear_authorized_sessions a else a in
    record a' {
      info = record {
        auth_type = auth_type;
        auth_user = replace_unless_eq 51 a.info.auth_user (safe user);
        auth_pass = replace_unless_eq 65 a.info.auth_pass (safe pass);
        auth_api_key = truncate 257 (safe api_key);
        auth_api_key_rw = truncate 257 (safe api_key_rw);
      };
    }

-- The sessions move up one place; the last one is lost.
unfoldable pub add_authorized_session : Bytes → Bytes → Auth → Auth
add_authorized_session session_id remote_ip a = record a {
  authorized_sessions =
      take max_num_sessions
        (record { session_id = session_id; remote_ip = remote_ip } ∷ a.authorized_sessions);
}

-- The test of the loop in http_server_auth_ruuvi_find_authorized_session.
unfoldable pub is_session : Bytes → Bytes → Session → Bool
unfolding bytes_eq
is_session session_id remote_ip s =
    not (is_empty s.session_id)
    && bytes_eq s.session_id session_id
    && bytes_eq s.remote_ip remote_ip

-- Whether that loop finds a session.
unfoldable pub has_session : Bytes → Bytes → List Session → Bool
unfolding is_session
has_session session_id remote_ip [] = false
has_session session_id remote_ip (s ∷ ss) =
    is_session session_id remote_ip s || has_session session_id remote_ip ss

-- The session that is found loses its identifier: the end of
-- http_server_handle_req_delete_auth.
unfoldable pub drop_session : Bytes → Bytes → List Session → List Session
unfolding is_session
drop_session session_id remote_ip [] = []
drop_session session_id remote_ip (s ∷ ss) =
    if is_session session_id remote_ip s
    then record s { session_id = [] } ∷ ss
    else s ∷ drop_session session_id remote_ip ss

unfoldable pub cookie_of : ℕ → Bytes → Option Field → Option Bytes
unfolding get_cookie
cookie_of size name none = none
cookie_of size name (some f) = get_cookie size f name

-- http_server_auth_ruuvi_get_session_id_from_cookies
unfoldable pub get_session_id : Bytes → Option Bytes
unfolding header_get_field cookie_of
get_session_id header =
    cookie_of 17 (codes "RUUVISESSION") (header_get_field header (codes "Cookie:"))

-- http_server_auth_ruuvi_get_prev_url_from_cookies; no address is the empty one.
unfoldable pub get_prev_url : Bytes → Bytes
unfolding header_get_field cookie_of
get_prev_url header =
    safe (cookie_of 65 (codes "RUUVI_PREV_URL") (header_get_field header (codes "Cookie:")))

unfoldable pub login_session_clear : Auth → Auth
login_session_clear a = record a {
  login_session = record { challenge = []; session_id = []; remote_ip = [] };
}
