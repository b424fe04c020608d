-- ===== src/Request/Access.antt =====
-- What a request from the local network can do to the manager (src/http_server_handle_req.c).
use esp32_wifi_manager.Common.{
  ◌≡◌, refl, ◌⊎◌, inl, inr, true, false, ◌||◌, Bool, Bytes, codes, bytes_eq, Bool-cases, ◌==◌,
  arith,
}
use esp32_wifi_manager.Manager.{Env}
use esp32_wifi_manager.Auth.{Auth}
use esp32_wifi_manager.Auth.Check.{Libs, check_auth}
use esp32_wifi_manager.Request.{
  Server, HttpReq, App, cb_on_http_post, cb_on_http_delete, handle_req_post, handle_req_delete,
  post_checked, delete_checked, write_param,
}

-- The files for which the server itself has a POST, and a DELETE.
abbrev pub posts_itself : Bytes → Bool
posts_itself name =
    bytes_eq name (codes "auth")
    || bytes_eq name (codes "connect.json")
    || bytes_eq name (codes "connect_wps")

abbrev pub deletes_itself : Bytes → Bool
deletes_itself name = bytes_eq name (codes "auth") || bytes_eq name (codes "connect.json")

-- A state is what the application's callback for a POST of this file makes of another one, whose
-- manager is the same.
pub record ByPost (app : App) (r : HttpReq) (s t : Server) : Type 0 where
  pub auth : Auth
  pub not_own : posts_itself r.file_name ≡ false
  pub called :
      t
      ≡ (cb_on_http_post app r.file_name r.uri_params r.body r.from_lan
          (record s { auth = auth })).0

-- The same for a DELETE.
pub record ByDelete (app : App) (r : HttpReq) (s t : Server) : Type 0 where
  pub auth : Auth
  pub not_own : deletes_itself r.file_name ≡ false
  pub called :
      t ≡ (cb_on_http_delete app r.file_name r.uri_params r.from_lan (record s { auth = auth })).0

module _ (env : Env) (libs : Libs) (app : App) where
  post_checked-keeps :
      (r : HttpReq) (s : Server) (a : Auth)
      → r.from_lan ≡ true
      → bytes_eq r.file_name (codes "auth") ≡ false
      → ((post_checked env libs app r (record s { auth = a })).0.wm ≡ s.wm)
        ⊎ ByPost app r s (post_checked env libs app r (record s { auth = a })).0
  unfolding post_checked
  post_checked-keeps r s a lan not_auth =
      elim (Bool-cases (bytes_eq r.file_name (codes "connect.json"))) [
        | inl connect ↦ inl (ground arith)
        | inr other ↦ elim (Bool-cases (bytes_eq r.file_name (codes "connect_wps"))) [
          | inl wps ↦ inl (ground arith)
          | inr unknown ↦
              inr (record { auth = a; not_own = ground arith; called = simp (other, unknown) refl })
        ]
      ]

  -- A POST from the local network, whatever its file, its header and its body, and whoever sends it,
  -- leaves the manager as it is, or the application's callback has run on it, for a file that is
  -- none of auth, connect.json and connect_wps: the server itself makes no connection for it, and
  -- starts no WPS.
  pub lan_post_keeps_manager :
      (r : HttpReq) (s : Server)
      → r.from_lan ≡ true
      → ((handle_req_post env libs app r s).0.wm ≡ s.wm)
        ⊎ ByPost app r s (handle_req_post env libs app r s).0
  unfolding handle_req_post
  lan_post_keeps_manager r s lan =
      let k = check_auth libs (write_param env r) s.auth in
      elim (Bool-cases (bytes_eq r.file_name (codes "auth"))) [
        | inl login ↦ inl (ground arith)
        | inr other ↦ elim (Bool-cases (k.1.http_resp_code == 200)) [
          | inl ok ↦ simp (other, ok) (post_checked-keeps r s k.0 lan other)
          | inr refused ↦ inl (simp (other, refused) refl)
        ]
      ]

  delete_checked-keeps :
      (r : HttpReq) (s : Server) (a : Auth)
      → r.from_lan ≡ true
      → ((delete_checked env app r (record s { auth = a })).0.wm ≡ s.wm)
        ⊎ ByDelete app r s (delete_checked env app r (record s { auth = a })).0
  unfolding delete_checked
  delete_checked-keeps r s a lan = elim (Bool-cases (bytes_eq r.file_name (codes "auth"))) [
    | inl logout ↦ inl (ground arith)
    | inr other ↦ elim (Bool-cases (bytes_eq r.file_name (codes "connect.json"))) [
      | inl connect ↦ inl (ground arith)
      | inr unknown ↦
          inr (record { auth = a; not_own = ground arith; called = simp (other, unknown) refl })
    ]
  ]

  -- A DELETE from the local network leaves the manager as it is, or the application's callback has
  -- run on it, for a file that is neither auth nor connect.json: the server itself takes no
  -- connection down for it.
  pub lan_delete_keeps_manager :
      (r : HttpReq) (s : Server)
      → r.from_lan ≡ true
      → ((handle_req_delete env libs app r s).0.wm ≡ s.wm)
        ⊎ ByDelete app r s (handle_req_delete env libs app r s).0
  unfolding handle_req_delete
  lan_delete_keeps_manager r s lan =
      let k = check_auth libs (write_param env r) s.auth in
      elim (Bool-cases (k.1.http_resp_code == 200)) [
        | inl ok ↦ simp ok (delete_checked-keeps r s k.0 lan)
        | inr refused ↦ inl (simp refused refl)
      ]
