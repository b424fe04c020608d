-- ===== src/Accept.antt =====
-- A connection from its acceptance to its end (src/http_server_accept_and_handle_conn.c): the mutex,
-- the request that is gathered, the reply, and what is closed. It joins Recv, Serve, Resp and Send.
--
-- lwIP's answers are values of `Accepted`; the log and the watchdog are not in the model. The extra
-- fields of an answer's header are any text that depends on the answer.
pub mod Connection
use esp32_wifi_manager.Common.{
  ℕ, Bool, true, false, Option, none, some, List, [], ◌∷◌, ◌++◌, Bytes, not, ◌||◌, if◌then◌else◌,
}
use esp32_wifi_manager.Config.{HostInfo}
use esp32_wifi_manager.Ecdh.{Crypto}
use esp32_wifi_manager.Manager.{Env}
use esp32_wifi_manager.Auth.Check.{Libs}
use esp32_wifi_manager.Request.{App}
use esp32_wifi_manager.Request.Get.{GetEnv}
use esp32_wifi_manager.Request.Handle.{SecureServer, Answer}
use esp32_wifi_manager.Recv.{RecvEnv, NetEvent, Ctx, initial_ctx, serve, c_str, cells}
use esp32_wifi_manager.Serve.{
  Peer, Reply, reply_400, reply_500, reply_503, reply_302, reply, serve_handle_req,
}
use esp32_wifi_manager.Send.{Conn, SendEnv}
use esp32_wifi_manager.Send.Answer.{resp_400, resp_500, resp_503, resp_302, netconn_resp}
use esp32_wifi_manager.Resp.{http_resp_of}

-- A new connection: whether its control block is gone at one of the two looks at it, its addresses,
-- what arrives on it, and what it will say to the writes.
pub record NewConn : Type 0 where
  pub pcb_lost : Bool
  pub pcb_lost_again : Bool
  pub peer : Peer
  pub events : List NetEvent
  pub conn : Conn

-- What netconn_accept gives: an error, or a success with no connection, with one while the
-- listening connection is already closed, or with one that is served.
pub data Accepted : Type 0 where
  err_timeout err_abrt err_other : Accepted
  no_conn listener_closed : Accepted
  new_conn : NewConn → Accepted

pub data Act : Type 0 where
  mutex_lock mutex_unlock task_delay set_timeouts conn_close conn_delete : Act

-- The libraries below, and the texts that the answers use.
pub record ConnEnv : Type 0 where
  pub recv_env : RecvEnv
  pub send_env : SendEnv
  pub json_fits : ℕ → Bool
  pub host : HostInfo
  pub extra_fields : Answer → Bytes
  -- What the memory holds behind the cells of the request's buffer that have been written. It counts
  -- only where the terminator has been cut off with data behind the content.
  pub behind : Bytes

-- The end of http_server_netconn_serve_handle_req.
unfoldable pub send_reply : ConnEnv → Reply → Conn → Conn
unfolding netconn_resp resp_400 resp_500 resp_503 resp_302 http_resp_of
send_reply e reply_400 c = resp_400 e.send_env c
send_reply e reply_500 c = resp_500 e.send_env c
send_reply e reply_503 c = resp_503 e.send_env c
send_reply e reply_302 c = resp_302 e.send_env c
send_reply e (reply a hostname) c =
    netconn_resp e.send_env (http_resp_of e.json_fits e.host a.resp) hostname (e.extra_fields a) c

-- What one call of http_server_accept_and_handle_conn does: the calls in their order.
pub record Handled : Type 0 where
  pub server : SecureServer
  pub served : Option Conn
  pub acts : List Act

module _ (env : Env) (libs : Libs) (app : App) (g : GetEnv) (crypto : Crypto) (e : ConnEnv) where
  -- A request that is ready is handled and answered.
  unfoldable pub serve_request : Ctx → NewConn → SecureServer → SecureServer × Conn
  unfolding serve_handle_req send_reply c_str
  serve_request ctx n s =
      if ctx.is_ready
      then (let r =
            serve_handle_req env libs app g crypto n.peer (c_str (cells ctx.req_buf ++ e.behind))
              s in
          (r.0, send_reply e r.1 n.conn))
      else (s, n.conn)

  -- http_server_netconn_serve
  unfoldable pub netconn_serve : NewConn → SecureServer → SecureServer × Conn
  unfolding serve_request serve
  netconn_serve n s =
      if n.pcb_lost || n.pcb_lost_again
      then (s, n.conn)
      else serve_request (serve e.recv_env n.events initial_ctx) n s

  -- A mutex that is set is locked here; it is NULL by default.
  abbrev pub if_mutex : Bool → Act → List Act
  if_mutex true a = a ∷ []
  if_mutex false a = []

  -- http_server_accept_and_handle_conn behind the lock
  unfoldable pub handle_accepted : Bool → Accepted → SecureServer → Handled
  unfolding netconn_serve
  handle_accepted mutex err_timeout s = record {
    server = s;
    served = none;
    acts = if_mutex mutex mutex_unlock ++ task_delay ∷ [];
  }
  handle_accepted mutex err_abrt s = record {
    server = s;
    served = none;
    acts = if_mutex mutex mutex_unlock;
  }
  handle_accepted mutex err_other s = record {
    server = s;
    served = none;
    acts = if_mutex mutex mutex_unlock;
  }
  handle_accepted mutex no_conn s = record {
    server = s;
    served = none;
    acts = if_mutex mutex mutex_unlock;
  }
  handle_accepted mutex listener_closed s = record {
    server = s;
    served = none;
    acts = conn_delete ∷ if_mutex mutex mutex_unlock;
  }
  handle_accepted mutex (new_conn n) s =
      let r = netconn_serve n s in
      record {
        server = r.0;
        served = some r.1;
        acts = set_timeouts ∷ conn_close ∷ conn_delete ∷ if_mutex mutex mutex_unlock;
      }

  -- The mutex is NULL, free or taken by another thread.
  unfoldable pub accept_and_handle_conn : Option Bool → Accepted → SecureServer → Handled
  unfolding handle_accepted
  accept_and_handle_conn none a s = handle_accepted false a s
  accept_and_handle_conn (some false) a s = record {
    server = s;
    served = none;
    acts = task_delay ∷ [];
  }
  accept_and_handle_conn (some true) a s =
      let h = handle_accepted true a s in record h { acts = mutex_lock ∷ h.acts }
