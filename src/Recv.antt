-- ===== src/Recv.antt =====
-- Receiving a request (src/http_server_accept_and_handle_conn.c): frames are gathered in a buffer
-- that grows until the header is complete, and then has the size that Content-Length asks for.
--
-- The buffer is the list of its cells that have been written: text and its terminator 0. What
-- `strtoul` reads and whether memory is given for a size are parameters. The time and the watchdog
-- are not in the model; that the time is over is an event.
pub mod Bounds
pub mod Ends
pub mod EndsKept
pub mod Find
pub mod Frames
pub mod Sizes
mod Store
pub mod Whole
use mathlib.Core.Option
use esp32_wifi_manager.Common.{
  ℕ, suc, ◌+◌, ◌*◌, ◌/◌, Bool, true, false, not, Option, none, some, List, [], ◌∷◌, ◌++◌, Bytes,
  codes, length, take, ltb, ◌==◌, if◌then◌else◌,
}
use esp32_wifi_manager.Http.{Field, starts_with, header_get_field}

-- http_server_recv_ctx_t
pub record Ctx : Type 0 where
  pub req_buf : Option Bytes
  pub req_buf_size : ℕ
  pub accum_len : ℕ
  pub header_len : ℕ
  pub content_len : ℕ
  pub expected_len : ℕ
  pub is_ready : Bool
  pub is_header_completed : Bool

-- The start of http_server_netconn_serve.
abbrev pub initial_ctx : Ctx
initial_ctx = record {
  req_buf = none;
  req_buf_size = 0;
  accum_len = 0;
  header_len = 0;
  content_len = 0;
  expected_len = 0;
  is_ready = false;
  is_header_completed = false;
}

-- The libraries: os_malloc and os_realloc for a size, and strtoul.
pub record RecvEnv : Type 0 where
  pub mem_ok : ℕ → Bool
  pub strtoul : Bytes → ℕ

abbrev pub max_request_size : ℕ
max_request_size = 4096

-- HTTP_SERVER_MAX_ENCRYPTED_CONTENT_SIZE
abbrev pub max_content_size : ℕ
max_content_size = 8192 * 4 / 3 + 512

-- A buffer as a text: the cells before the first 0.
unfoldable pub c_str : Bytes → Bytes
c_str [] = []
c_str (c ∷ s) = if c == 0 then [] else c ∷ c_str s

abbrev pub crlf_crlf : Bytes
crlf_crlf = 13 ∷ 10 ∷ 13 ∷ 10 ∷ []

-- get_http_body, as an offset
unfoldable pub body_at : Bytes → Option ℕ
body_at [] = none
body_at (c ∷ s) = if starts_with crlf_crlf (c ∷ s) then some 4 else Option.map suc (body_at s)

abbrev pub cells : Option Bytes → Bytes
cells none = []
cells (some b) = b

-- Data behind the content is discarded: the length is cut, and the cells stay.
unfoldable pub cut_excess : Ctx → Ctx
cut_excess ctx =
    if ltb ctx.expected_len ctx.accum_len then record ctx { accum_len = ctx.expected_len } else ctx

-- The copy of a frame behind what is there, with a new terminator.
unfoldable pub append_frame : Bytes → Ctx → Ctx
append_frame frame ctx = record ctx {
  req_buf = some (take ctx.accum_len (cells ctx.req_buf) ++ (frame ++ 0 ∷ []));
  accum_len = ctx.accum_len + length frame;
}

abbrev pub note_body : Option ℕ → Ctx → Ctx
note_body none ctx = ctx
note_body (some n) ctx = record ctx { is_header_completed = true; header_len = n }

-- The search for the end of the header, until it is found.
unfoldable pub find_header : Ctx → Ctx
find_header ctx =
    if ctx.is_header_completed then ctx else note_body (body_at (c_str (cells ctx.req_buf))) ctx

unfoldable pub finish_if_full : Ctx → Ctx × Bool
finish_if_full ctx =
    if ltb ctx.accum_len ctx.expected_len
    then (ctx, true)
    else (record ctx { is_ready = true }, true)

abbrev pub finish_content : Ctx × Bool → Ctx × Bool
finish_content (ctx, true) = finish_if_full ctx
finish_content (ctx, false) = (ctx, false)

module _ (env : RecvEnv) where
  -- http_server_handle_received_buf_alloc_mem_for_first_frame
  unfoldable pub alloc_first : ℕ → Ctx → Ctx × Bool
  alloc_first len ctx =
      let c = record ctx { is_header_completed = false } in
      if ltb max_request_size len
      then (c, false)
      else if env.mem_ok (suc len)
      then (record c { req_buf = some []; req_buf_size = len }, true)
      else (c, false)

  -- http_server_handle_received_buf_alloc_mem_for_non_first_frame
  unfoldable pub alloc_more : ℕ → Ctx → Ctx × Bool
  alloc_more len ctx =
      if ctx.req_buf_size == ctx.accum_len
      then (if ltb max_request_size (ctx.req_buf_size + len)
          then (ctx, false)
          else if env.mem_ok (suc (ctx.req_buf_size + len))
          then (record ctx { req_buf_size = ctx.req_buf_size + len }, true)
          else (record ctx { req_buf = none }, false))
      else (ctx, true)

  abbrev pub alloc : Option Bytes → ℕ → Ctx → Ctx × Bool
  alloc none len ctx = alloc_first len ctx
  alloc (some _) len ctx = alloc_more len ctx

  -- The buffer gets the size that is expected; a smaller one loses its last cells, the terminator
  -- among them where data has been discarded.
  unfoldable pub resize : Ctx → Ctx × Bool
  resize ctx =
      if ctx.req_buf_size == ctx.expected_len
      then (ctx, true)
      else if env.mem_ok (suc ctx.expected_len)
      then (
        record ctx {
          req_buf = some (take (suc ctx.expected_len) (cells ctx.req_buf));
          req_buf_size = ctx.expected_len;
        },
        true,
      )
      else (record ctx { req_buf = none }, false)

  -- http_server_handle_request_content_len
  unfoldable pub handle_request_content_len : ℕ → Ctx → Ctx × Bool
  handle_request_content_len n ctx =
      let c = record ctx { content_len = n } in
      if ltb max_content_size n
      then (c, false)
      else resize (cut_excess (record c { expected_len = ctx.header_len + n }))

  -- A request without Content-Length has no body.
  abbrev pub on_content_len : Option Field → Ctx → Ctx × Bool
  on_content_len none ctx = (record ctx { is_ready = true }, true)
  on_content_len (some f) ctx = finish_content (handle_request_content_len (env.strtoul f.ptr) ctx)

  -- What is done when the header is complete: Content-Length is read as long as it is 0.
  unfoldable pub handle_completed : Ctx → Ctx × Bool
  handle_completed ctx =
      if ctx.content_len == 0
      then on_content_len
          (header_get_field (c_str (take ctx.header_len (cells ctx.req_buf)))
            (codes "Content-Length:"))
          ctx
      else finish_if_full ctx

  -- From the copy on.
  unfoldable pub store_frame : Bytes → Ctx → Ctx × Bool
  store_frame frame ctx =
      if ltb ctx.req_buf_size (ctx.accum_len + length frame)
      then (ctx, false)
      else let c = find_header (append_frame frame ctx) in
        if c.is_header_completed then handle_completed c else (c, true)

  abbrev pub store_if : Bytes → Ctx × Bool → Ctx × Bool
  store_if frame (ctx, true) = store_frame frame ctx
  store_if frame (ctx, false) = (ctx, false)

  -- http_server_handle_received_buf
  unfoldable pub handle_received_buf : Bytes → Ctx → Ctx × Bool
  handle_received_buf frame ctx = store_if frame (alloc ctx.req_buf (length frame) ctx)

  -- The fragments of one netbuf, which are all handled, also behind a request that is ready.
  unfoldable pub recv_fragments : List Bytes → Ctx → Ctx × Bool
  recv_fragments [] ctx = (ctx, true)
  recv_fragments (frame ∷ rest) ctx =
      let r = handle_received_buf frame ctx in
      let more = recv_fragments rest r.0 in if r.1 then more else r

-- What netconn_recv gives: a netbuf, or an error; or the time is over before the call.
pub data NetEvent : Type 0 where
  netbuf : List Bytes → NetEvent
  recv_error timeout : NetEvent

module _ (env : RecvEnv) where
  -- http_server_recv_and_handle
  unfoldable pub recv_and_handle : NetEvent → Ctx → Ctx × Bool
  recv_and_handle (netbuf frames) ctx = recv_fragments env frames ctx
  recv_and_handle recv_error ctx = (ctx, false)
  recv_and_handle timeout ctx = (ctx, false)

  -- The loop of http_server_netconn_serve, over the events that come.
  unfoldable pub serve : List NetEvent → Ctx → Ctx
  serve [] ctx = ctx
  serve (e ∷ es) ctx =
      let r = recv_and_handle e ctx in
      let more = serve es r.0 in if ctx.is_ready then ctx else if r.1 then more else r.0
