-- ===== src/Send.antt =====
-- Sending an answer (src/http_server_netconn_resp.c): the loop that hands a buffer to the
-- connection, the content from each of its places, the header, and the answer for each status.
--
-- A connection is what has been sent, and what lwIP will say to the next attempts to write; a file
-- and a generator are what their reads give. The date and the watchdog are not in the model: the
-- date is a text that is given.
pub mod Answer
pub mod Prefix
pub mod Progress
pub mod Whole
use esp32_wifi_manager.Common.{
  ℕ, zero, suc, ◌+◌, ◌-◌, ◌^◌, Bool, true, false, not, Option, none, some, List, [], ◌∷◌, ◌++◌,
  Bytes, codes, length, take, drop, is_empty, ltb, leb, ◌==◌, if◌then◌else◌,
}
use esp32_wifi_manager.Json.{decimal}

pub data LwipErr : Type 0 where
  err_ok err_wouldblock err_other : LwipErr

-- One call of netconn_write_partly: its error, the bytes that there is room for, and whether the
-- time to send is over behind it.
pub record Attempt : Type 0 where
  pub err : LwipErr
  pub room : ℕ
  pub late : Bool

pub record Conn : Type 0 where
  pub sent : Bytes
  pub attempts : List Attempt

-- `waiting`: the connection has given no further answer.
pub data WriteResult : Type 0 where
  written write_failed waiting : WriteResult

-- The end of one round of the loop, with what is left of the buffer.
pub data Round : Type 0 where
  stop : WriteResult → Round
  go_on : Round

unfoldable pub round_end : Attempt → Bytes → Round
round_end a left =
    if a.late then stop write_failed else if is_empty left then stop written else go_on

abbrev pub or_else : Round → WriteResult × Conn → WriteResult × Conn → WriteResult × Conn
or_else (stop r) (_, c) more = (r, c)
or_else go_on _ more = more

-- One round: a write that would block counts as one of what it has taken.
abbrev pub attempt_end : LwipErr → Attempt → Bytes → Round
attempt_end err_other a left = stop write_failed
attempt_end err_ok a left = round_end a left
attempt_end err_wouldblock a left = round_end a left

abbrev pub attempt_takes : LwipErr → ℕ → ℕ
attempt_takes err_other n = 0
attempt_takes err_ok n = n
attempt_takes err_wouldblock n = n

-- http_server_netconn_write
unfoldable pub write_loop : List Attempt → Bytes → Bytes → WriteResult × Conn
unfolding round_end
write_loop [] buf sent = (waiting, record { sent = sent; attempts = [] })
write_loop (a ∷ rest) buf sent =
    let n = attempt_takes a.err a.room in
    let left = drop n buf in
    let now = sent ++ take n buf in
    let more = write_loop rest left now in
    or_else (attempt_end a.err a left) (written, record { sent = now; attempts = rest }) more

unfoldable pub write : Bytes → Conn → WriteResult × Conn
write buf c = write_loop c.attempts buf c.sent

-- http_server_netconn_printf, of the text that is formatted
unfoldable pub netconn_printf : Bool → Bytes → Conn → Conn
netconn_printf mem_ok text c = if mem_ok then (write text c).1 else c

-- The steps of a loop that ends at the first write that fails.
abbrev pub is_written : WriteResult → Bool
is_written written = true
is_written write_failed = false
is_written waiting = false

-- What `read` gives for an offset and a number of bytes.
pub record File : Type 0 where
  pub read : ℕ → ℕ → Option Bytes

abbrev pub tx_chunk_size : ℕ
tx_chunk_size = 1536

-- A read that fails, and one that gives less, ends the loop.
abbrev pub read_chunk : ℕ → Option Bytes → Option Bytes
read_chunk n none = none
read_chunk n (some b) = if length b == n then some b else none

abbrev pub block_len : ℕ → ℕ
block_len rem = if leb rem tx_chunk_size then rem else tx_chunk_size

abbrev pub write_read : Option Bytes → Conn → Bool × Conn
write_read none c = (false, c)
write_read (some b) c = let r = write b c in (is_written r.0, r.1)

-- The loop of write_content_from_fatfs, on fuel: each round takes at least a byte of `rem`.
unfoldable pub fatfs_loop : File → ℕ → ℕ → ℕ → Conn → Conn
fatfs_loop file zero off rem c = c
fatfs_loop file (suc fuel) off rem c =
    let n = block_len rem in
    let r = write_read (read_chunk n (file.read off n)) c in
    let more = fatfs_loop file fuel (off + n) (rem - n) r.1 in
    if rem == 0 then c else if r.0 then more else r.1

unfoldable pub write_content_from_fatfs : Bool → File → ℕ → Conn → Conn
write_content_from_fatfs mem_ok file content_len c =
    if mem_ok then fatfs_loop file (suc content_len) 0 content_len c else c

-- write_content_from_json_generator, over the chunks that the generator gives; an empty one is its
-- end.
unfoldable pub write_chunks : List (Option Bytes) → Conn → Conn
write_chunks [] c = c
write_chunks (none ∷ _) c = c
write_chunks (some b ∷ rest) c =
    let r = write b c in
    let more = write_chunks rest r.1 in
    if is_empty b then c else if is_written r.0 then more else r.1

-- http_content_location_e with select_location
pub data Content : Type 0 where
  no_content : Content
  flash_mem static_mem heap : Bytes → Content
  fatfs : File → Content
  json_generator : List (Option Bytes) → Content

-- What an answer is sent with: memory for a text and for a block of a file, the line with the date,
-- and the address of the access point.
pub record SendEnv : Type 0 where
  pub printf_mem_ok : Bool
  pub block_mem_ok : Bool
  pub date : Bytes
  pub ap_ip : Bytes

-- http_server_write_content
unfoldable pub write_content : SendEnv → ℕ → Content → Conn → Conn
write_content env len no_content c = c
write_content env len (flash_mem b) c = (write (take len b) c).1
write_content env len (static_mem b) c = (write (take len b) c).1
write_content env len (heap b) c = (write (take len b) c).1
write_content env len (fatfs file) c = write_content_from_fatfs env.block_mem_ok file len c
write_content env len (json_generator chunks) c = write_chunks chunks c
