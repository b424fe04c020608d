-- ===== src/Serve/Lan.antt =====
-- What bytes from the local network can and cannot do (src/http_server_netconn_serve_handle_req.c,
-- src/http_server_handle_req.c).
use esp32_wifi_manager.Common.{
  ◌≡◌, ◌⊎◌, refl, true, false, Option, none, some, Bytes, codes, bytes_eq, Bool-cases, inl, inr,
}
use esp32_wifi_manager.Http.Parse.{HttpReqInfo, parse}
use esp32_wifi_manager.Ecdh.{Crypto}
use esp32_wifi_manager.Manager.{Env}
use esp32_wifi_manager.Manager.Status.{is_req_from_lan_blocked_while_ap_is_active}
use esp32_wifi_manager.Auth.Check.{Libs}
use esp32_wifi_manager.Request.{Server, HttpReq, App}
use esp32_wifi_manager.Request.Access.{
  ByPost, ByDelete, lan_post_keeps_manager, lan_delete_keeps_manager,
}
use esp32_wifi_manager.Request.Get.{GetEnv}
use esp32_wifi_manager.Request.Handle.{
  SecureServer, post_with_body, body_of, handle_req_post_with_ecdh_key, handle_req,
}
use esp32_wifi_manager.Serve.{
  Peer, Reply, reply_400, reply_500, reply_503, reply_302, reply, text_or_empty, http_req_of,
  serve_info, serve_handle_req,
}

-- A fixed answer of an error.
abbrev pub IsRefusal : Reply → Type 0
IsRefusal reply_400 = Unit
IsRefusal reply_500 = Unit
IsRefusal reply_503 = Unit
IsRefusal reply_302 = ⊥
IsRefusal (reply a hostname) = ⊥

-- The manager is the same, or a callback of the application has run on it, for a POST with some body
-- or for a DELETE, of a file that the server does not serve itself.
abbrev pub OnlyByApp : App → HttpReq → Server → Server → Type 0
OnlyByApp app r s t =
    (t.wm ≡ s.wm)
    ⊎ (((body : Bytes) × ByPost app (record r { body = body }) s t) ⊎ ByDelete app r s t)

by_post :
    (app : App) (r : HttpReq) (body : Bytes) (s t : Server)
    → (t.wm ≡ s.wm) ⊎ ByPost app (record r { body = body }) s t
    → OnlyByApp app r s t
by_post app r body s t (inl same) = inl same
by_post app r body s t (inr called) = inr (inl (body, called))

by_delete :
    (app : App) (r : HttpReq) (s t : Server)
    → (t.wm ≡ s.wm) ⊎ ByDelete app r s t
    → OnlyByApp app r s t
by_delete app r s t (inl same) = inl same
by_delete app r s t (inr called) = inr (inr called)

module _ (env : Env) (libs : Libs) (app : App) (g : GetEnv) (crypto : Crypto) where
  blocked_info :
      (p : Peer) (info : HttpReqInfo) (s : SecureServer)
      → bytes_eq p.local_ip p.ap_ip ≡ false
      → is_req_from_lan_blocked_while_ap_is_active s.server.wm ≡ true
      → ((serve_info env libs app g crypto p info s).0 ≡ s)
        × IsRefusal (serve_info env libs app g crypto p info s).1
  unfolding serve_info
  blocked_info p info s lan blocked = elim (Bool-cases p.hostname_ok) [
    | inl ok ↦ rw (ok, lan, blocked) (refl, tt)
    | inr bad ↦ rw bad (refl, tt)
  ]

  -- While the hotspot is active and blocks the local network, no bytes from there have an effect:
  -- whatever they are, the manager, the sessions, the settings and the key stay as they are, and the
  -- answer is 400, 500 or 503.
  pub blocked_lan_changes_nothing :
      (p : Peer) (req_buf : Bytes) (s : SecureServer)
      → bytes_eq p.local_ip p.ap_ip ≡ false
      → is_req_from_lan_blocked_while_ap_is_active s.server.wm ≡ true
      → ((serve_handle_req env libs app g crypto p req_buf s).0 ≡ s)
        × IsRefusal (serve_handle_req env libs app g crypto p req_buf s).1
  unfolding serve_handle_req
  blocked_lan_changes_nothing p req_buf s lan blocked =
      elim (Bool-cases (parse req_buf).is_success) [
        | inl ok ↦ rw ok (blocked_info p (parse req_buf) s lan blocked)
        | inr bad ↦ rw bad (refl, tt)
      ]

  post_body_keeps :
      (r : HttpReq) (s : SecureServer) (o : Option Bytes)
      → r.from_lan ≡ true
      → OnlyByApp app r s.server (post_with_body env libs app g crypto r s o).0.server
  post_body_keeps r s none lan = inl refl
  post_body_keeps r s (some body) lan =
      by_post app r body s.server _
        (lan_post_keeps_manager env libs app (record r { body = body }) s.server lan)

  handle_req_keeps :
      (cmd : Bytes) (r : HttpReq) (s : SecureServer)
      → r.from_lan ≡ true
      → bytes_eq cmd (codes "GET") ≡ false
      → OnlyByApp app r s.server (handle_req env libs app g crypto cmd r s).0.server
  unfolding handle_req handle_req_post_with_ecdh_key
  handle_req_keeps cmd r s lan other = elim (Bool-cases (bytes_eq cmd (codes "DELETE"))) [
    | inl delete ↦
        simp (other, delete)
          (by_delete app r s.server _ (lan_delete_keeps_manager env libs app r s.server lan))
    | inr more ↦ elim (Bool-cases (bytes_eq cmd (codes "POST"))) [
      | inl post ↦
          simp (other, more, post)
            (post_body_keeps r s (body_of env libs app g crypto s.aes_key r) lan)
      | inr unknown ↦ simp (other, more, unknown) (inl refl)
    ]
  ]

  -- Whatever bytes come from the local network, whoever sends them and whether or not the hotspot is
  -- active: unless they are a GET, the manager stays as it is, or the application's callback for a
  -- POST or a DELETE has run on it, for a file that the server does not serve itself by that method.
  pub lan_keeps_manager :
      (p : Peer) (req_buf : Bytes) (s : SecureServer)
      → bytes_eq p.local_ip p.ap_ip ≡ false
      → bytes_eq (text_or_empty (parse req_buf).http_cmd) (codes "GET") ≡ false
      → OnlyByApp app
          (http_req_of p true (parse req_buf))
          s.server
          (serve_handle_req env libs app g crypto p req_buf s).0.server
  unfolding serve_handle_req serve_info
  lan_keeps_manager p req_buf s lan other =
      let info = parse req_buf in
      let kept =
        handle_req_keeps (text_or_empty info.http_cmd) (http_req_of p true info) s refl other in
      elim (Bool-cases info.is_success) [
        | inr bad ↦ simp bad (inl refl)
        | inl ok ↦ elim (Bool-cases p.hostname_ok) [
          | inr no_host ↦ simp (ok, no_host) (inl refl)
          | inl host ↦ elim (Bool-cases (is_req_from_lan_blocked_while_ap_is_active s.server.wm)) [
            | inl blocked ↦ simp (ok, host, lan, blocked) (inl refl)
            | inr free ↦ simp (ok, host, lan, free) kept
          ]
        ]
      ]
