-- ===== src/Auth/Post.antt =====
-- Logging in and out (src/http_server_handle_req_post_auth.c,
-- src/http_server_handle_req_delete_auth.c).
use esp32_wifi_manager.Common.{
  ℕ, Bool, true, false, not, ◌&&◌, ◌||◌, Option, none, some, [], Bytes, codes, bytes_eq, truncate,
  is_empty, if◌then◌else◌, ◌==◌,
}
use esp32_wifi_manager.Auth.{
  Auth, AuthType, auth_ruuvi, auth_default, auth_type_eq, LoginSession, add_authorized_session,
  drop_session, has_session, get_session_id, get_prev_url, login_session_clear,
}
use esp32_wifi_manager.Auth.Check.{
  Libs, Resp, resp_err, resp_200_auth, resp_401_auth, resp_401_new_session,
}

-- `HTTP_SERVER_AUTH_TYPE_RUUVI == auth_type || HTTP_SERVER_AUTH_TYPE_DEFAULT == auth_type`
abbrev pub is_interactive : AuthType → Bool
is_interactive t = auth_type_eq t auth_ruuvi || auth_type_eq t auth_default

-- http_server_json_get_string_val; all its failures are one.
abbrev pub json_string_val : ℕ → Option (Option Bytes) → Option Bytes
json_string_val size (some (some s)) = some (truncate size s)
json_string_val size _ = none

abbrev pub both : Option Bytes → Option Bytes → Option (Bytes × Bytes)
both (some u) (some p) = some (u, p)
both _ _ = none

abbrev pub login_of : Option (Bytes → Option (Option Bytes)) → Option (Bytes × Bytes)
login_of none = none
login_of (some get) =
    both (json_string_val 51 (get (codes "login"))) (json_string_val 65 (get (codes "password")))

-- The tests of http_server_handle_req_post_auth_check_login_session.
unfoldable pub login_session_matches : LoginSession → Bytes → Bytes → Bool
unfolding bytes_eq
login_session_matches l session_id remote_ip =
    not (is_empty l.session_id)
    && bytes_eq l.session_id session_id
    && bytes_eq l.remote_ip remote_ip

module _ (c : Libs) where
  unfoldable pub check_password : Auth → Bytes → Bytes → Option Bytes → Auth × Resp
  unfolding bytes_eq resp_401_new_session
  check_password a remote_ip password none =
      resp_401_new_session c remote_ip a.info.auth_type none a
  check_password a remote_ip password (some hash) =
      if bytes_eq hash password
      then (a, resp_err 200)
      else resp_401_new_session c remote_ip a.info.auth_type (some (codes "Incorrect password")) a

  unfoldable pub check_login : Auth → Bytes → Option (Bytes × Bytes) → Auth × Resp
  unfolding bytes_eq resp_401_new_session check_password
  check_login a remote_ip none = resp_401_new_session c remote_ip a.info.auth_type none a
  check_login a remote_ip (some (user, password)) =
      if is_empty user
      then resp_401_new_session c remote_ip a.info.auth_type (some (codes "The username is empty"))
          a
      else if not (bytes_eq a.info.auth_user user)
      then resp_401_new_session c remote_ip a.info.auth_type (some (codes "Incorrect username")) a
      else if not c.alloc_ok
      then (a, resp_err 500)
      else check_password a remote_ip password
          (c.hash_password a.login_session.challenge a.info.auth_pass)

  -- http_server_handle_req_post_auth_check_auth; the answer to a right password has the code 200.
  unfoldable pub post_check_auth : Bytes → Bytes → Auth → Auth × Resp
  unfolding check_login
  post_check_auth remote_ip body a = check_login a remote_ip (login_of (c.parse_json body))

  -- The end of http_server_handle_req_post_auth.
  unfoldable pub log_in : Bytes → Bytes → Bytes → Auth × Resp → Auth × Resp × Bytes
  unfolding add_authorized_session login_session_clear
  log_in session_id remote_ip prev_url (a, resp) =
      if resp.http_resp_code == 200
      then (
        login_session_clear (add_authorized_session session_id remote_ip a),
        resp_200_auth a.info.auth_type true,
        prev_url,
      )
      else (a, resp, [])

  -- A refusal with a new login session; it gives no address back.
  unfoldable pub refused : Bytes → Auth → Auth × Resp × Bytes
  unfolding resp_401_new_session
  refused remote_ip a =
      let r = resp_401_new_session c remote_ip a.info.auth_type none a in (r.0, r.1, [])

  unfoldable pub post_with_session :
      Bytes → Bytes → Bytes → Option Bytes → Auth → Auth × Resp × Bytes
  unfolding login_session_matches post_check_auth log_in get_prev_url refused
  post_with_session header remote_ip body none a = refused remote_ip a
  post_with_session header remote_ip body (some session_id) a =
      if not (login_session_matches a.login_session session_id remote_ip)
      then refused remote_ip a
      else if not c.alloc_ok
      then (a, resp_err 500, [])
      else log_in session_id remote_ip (get_prev_url header) (post_check_auth remote_ip body a)

  -- http_server_handle_req_post_auth; the last result is the `Ruuvi-prev-url` of the answer.
  unfoldable pub post_auth : Bool → Bytes → Bytes → Bytes → Auth → Auth × Resp × Bytes
  unfolding get_session_id post_with_session
  post_auth from_lan header remote_ip body a =
      if not from_lan
      then (a, resp_200_auth a.info.auth_type false, [])
      else if not (is_interactive a.info.auth_type)
      then (a, resp_err 503, [])
      else post_with_session header remote_ip body (get_session_id header) a

unfoldable pub delete_session : Bytes → Option Bytes → Auth → Auth × Resp
unfolding has_session drop_session
delete_session remote_ip none a = (a, resp_401_auth a.info.auth_type none)
delete_session remote_ip (some session_id) a =
    if has_session session_id remote_ip a.authorized_sessions
    then (
      record a { authorized_sessions = drop_session session_id remote_ip a.authorized_sessions },
      resp_err 200,
    )
    else (a, resp_401_auth a.info.auth_type none)

-- http_server_handle_req_delete_auth
unfoldable pub delete_auth : Bytes → Bytes → Auth → Auth × Resp
unfolding get_session_id delete_session
delete_auth header remote_ip a =
    if is_interactive a.info.auth_type
    then delete_session remote_ip (get_session_id header) a
    else (a, resp_err 503)
