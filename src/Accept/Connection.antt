-- ===== src/Accept/Connection.antt =====
-- What holds of a connection as a whole: the frames do not matter, a blocked one has no effect, and
-- each one is closed, deleted, and gives the mutex back.
use esp32_wifi_manager.Common.{
  ℕ, ◌+◌, ◌≤◌, ◌≡◌, refl, ap, ◌∙◌, ◌⊎◌, inl, inr, Bool, true, false, ◌||◌, Option, none, some, List,
  [], ◌∷◌, ◌++◌, append_assoc, Bytes, bytes_eq, length, All, Bool-cases,
}
use esp32_wifi_manager.Http.{Field}
use esp32_wifi_manager.Ecdh.{Crypto}
use esp32_wifi_manager.Manager.{Env}
use esp32_wifi_manager.Manager.Status.{is_req_from_lan_blocked_while_ap_is_active}
use esp32_wifi_manager.Auth.Check.{Libs}
use esp32_wifi_manager.Request.{App}
use esp32_wifi_manager.Request.Get.{GetEnv}
use esp32_wifi_manager.Request.Handle.{SecureServer}
use esp32_wifi_manager.Recv.{Ctx, initial_ctx, serve, c_str, cells}
use esp32_wifi_manager.Recv.Find.{c_str-append}
use esp32_wifi_manager.Recv.Frames.{HasMemory, IsRequest}
use esp32_wifi_manager.Recv.Whole.{concat, events, serve_frames}
use esp32_wifi_manager.Serve.{
  Reply, reply_400, reply_500, reply_503, reply_302, reply, serve_handle_req,
}
use esp32_wifi_manager.Serve.Lan.{IsRefusal, blocked_lan_changes_nothing}
use esp32_wifi_manager.Send.{Conn, SendEnv}
use esp32_wifi_manager.Send.Answer.{resp_400, resp_500, resp_503}
use esp32_wifi_manager.Accept.{
  NewConn, Accepted, err_timeout, err_abrt, err_other, no_conn, listener_closed, new_conn, Act,
  mutex_lock, mutex_unlock, conn_delete, ConnEnv, send_reply, serve_request, netconn_serve,
  handle_accepted, accept_and_handle_conn,
}

-- Nothing has been sent, or one of the three fixed answers.
abbrev pub IsRefused : SendEnv → Conn → Conn → Type 0
IsRefused env c c' =
    (c' ≡ c) ⊎ ((c' ≡ resp_400 env c) ⊎ ((c' ≡ resp_500 env c) ⊎ (c' ≡ resp_503 env c)))

refusal_is_sent :
    (e : ConnEnv) (r : Reply) (c : Conn) → IsRefusal r → IsRefused e.send_env c (send_reply e r c)
unfolding send_reply
refusal_is_sent e reply_400 c h = inr (inl refl)
refusal_is_sent e reply_500 c h = inr (inr (inl refl))
refusal_is_sent e reply_503 c h = inr (inr (inr refl))
refusal_is_sent e reply_302 c h = absurd h
refusal_is_sent e (reply a hostname) c h = absurd h

-- How often an act is in a list.
abbrev pub is_unlock : Act → ℕ
is_unlock mutex_unlock = 1
is_unlock _ = 0

abbrev pub is_lock : Act → ℕ
is_lock mutex_lock = 1
is_lock _ = 0

abbrev pub is_delete : Act → ℕ
is_delete conn_delete = 1
is_delete _ = 0

abbrev pub count : (Act → ℕ) → List Act → ℕ
count p [] = 0
count p (a ∷ rest) = p a + count p rest

-- The connections that netconn_accept has made.
abbrev pub made : Option Bool → Accepted → ℕ
made (some false) a = 0
made m listener_closed = 1
made m (new_conn n) = 1
made m _ = 0

module _ (env : Env) (libs : Libs) (app : App) (g : GetEnv) (crypto : Crypto) (e : ConnEnv) where
  -- Whatever comes of an acceptance, the mutex is given back exactly if it was taken, and every
  -- connection that has been made is deleted, once.
  pub accept_and_handle_conn-balanced :
      (mutex : Option Bool) (a : Accepted) (s : SecureServer)
      → (count is_lock (accept_and_handle_conn env libs app g crypto e mutex a s).acts
          ≡ count is_unlock (accept_and_handle_conn env libs app g crypto e mutex a s).acts)
        × (count is_delete (accept_and_handle_conn env libs app g crypto e mutex a s).acts
            ≡ made mutex a)
  unfolding accept_and_handle_conn handle_accepted
  accept_and_handle_conn-balanced none err_timeout s = (refl, refl)
  accept_and_handle_conn-balanced none err_abrt s = (refl, refl)
  accept_and_handle_conn-balanced none err_other s = (refl, refl)
  accept_and_handle_conn-balanced none no_conn s = (refl, refl)
  accept_and_handle_conn-balanced none listener_closed s = (refl, refl)
  accept_and_handle_conn-balanced none (new_conn n) s = (refl, refl)
  accept_and_handle_conn-balanced (some false) a s = (refl, refl)
  accept_and_handle_conn-balanced (some true) err_timeout s = (refl, refl)
  accept_and_handle_conn-balanced (some true) err_abrt s = (refl, refl)
  accept_and_handle_conn-balanced (some true) err_other s = (refl, refl)
  accept_and_handle_conn-balanced (some true) no_conn s = (refl, refl)
  accept_and_handle_conn-balanced (some true) listener_closed s = (refl, refl)
  accept_and_handle_conn-balanced (some true) (new_conn n) s = (refl, refl)

  blocked_request :
      (ctx : Ctx) (n : NewConn) (s : SecureServer)
      → bytes_eq n.peer.local_ip n.peer.ap_ip ≡ false
      → is_req_from_lan_blocked_while_ap_is_active s.server.wm ≡ true
      → ((serve_request env libs app g crypto e ctx n s).0 ≡ s)
        × IsRefused e.send_env n.conn (serve_request env libs app g crypto e ctx n s).1
  unfolding serve_request
  blocked_request ctx n s lan blocked = elim (Bool-cases ctx.is_ready) [
    | inl ready ↦
        let text = c_str (cells ctx.req_buf ++ e.behind) in
        let h = blocked_lan_changes_nothing env libs app g crypto n.peer text s lan blocked in
        rw ready (
          h.0,
          refusal_is_sent e (serve_handle_req env libs app g crypto n.peer text s).1 n.conn h.1,
        )
    | inr more ↦ rw more (refl, inl refl)
  ]

  -- While the hotspot is active and blocks the local network, a connection from there has no effect,
  -- whatever arrives on it, in whatever pieces, and whenever it breaks off: the server stays as it
  -- is, and either nothing is sent or one of the fixed answers 400, 500 and 503.
  pub blocked_connection :
      (n : NewConn) (s : SecureServer)
      → bytes_eq n.peer.local_ip n.peer.ap_ip ≡ false
      → is_req_from_lan_blocked_while_ap_is_active s.server.wm ≡ true
      → ((netconn_serve env libs app g crypto e n s).0 ≡ s)
        × IsRefused e.send_env n.conn (netconn_serve env libs app g crypto e n s).1
  unfolding netconn_serve
  blocked_connection n s lan blocked = elim (Bool-cases (n.pcb_lost || n.pcb_lost_again)) [
    | inl lost ↦ rw lost (refl, inl refl)
    | inr there ↦ rw there (blocked_request (serve e.recv_env n.events initial_ctx) n s lan blocked)
  ]

  -- What a request makes of the server, and what is sent.
  abbrev pub answered : NewConn → Bytes → SecureServer → SecureServer × Conn
  answered n text s =
      let r = serve_handle_req env libs app g crypto n.peer text s in (r.0, send_reply e r.1 n.conn)

  -- However a request with a content is divided into frames, the connection does with the server
  -- what the whole text does, and sends the reply to it. That is under the conditions of
  -- `serve_frames`: memory, room for each frame, and a header that announces the content.
  pub netconn_serve-frames :
      (mem : HasMemory e.recv_env) (head body : Bytes) (field : Field)
      (req : IsRequest e.recv_env head body field) (frame_max : ℕ) (f : Bytes) (fs : List Bytes)
      (n : NewConn) (s : SecureServer)
      → n.pcb_lost ≡ false
      → n.pcb_lost_again ≡ false
      → n.events ≡ events (f ∷ fs)
      → length head + frame_max ≤ 4096
      → length f ≤ 4096
      → All (λ k. length k ≤ frame_max) fs
      → f ++ concat fs ≡ head ++ body
      → netconn_serve env libs app g crypto e n s ≡ answered n (head ++ body) s
  unfolding netconn_serve serve_request
  netconn_serve-frames mem head body field req frame_max f fs n s ok ok' ev room le small eq =
      let run = serve_frames e.recv_env mem head body field req frame_max f fs room le small eq in
      rw (ok, ok', ev, run)
        (ap (λ t. answered n (c_str t) s) (append_assoc (head ++ body) (0 ∷ []) e.behind)
          ∙ ap (λ t. answered n t s) (c_str-append (head ++ body) e.behind req.no_nul))
