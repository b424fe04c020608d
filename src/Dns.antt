-- ===== src/Dns.antt =====
-- The DNS server of the captive portal (src/dns_server.c): the answer to a query, as bytes, and the
-- loop of its task. The socket and the signals are a list of rounds.
pub mod Answered
pub mod Released
pub mod Task
use esp32_wifi_manager.Common.{
  ℕ, ◌+◌, ◌-◌, ◌*◌, ◌/◌, Bool, true, false, ◌||◌, Option, none, some, List, [], ◌∷◌, ◌++◌, Bytes,
  length, take, drop, ltb, if◌then◌else◌,
}

-- The size of dns_header_t
abbrev pub header_size : ℕ
header_size = 12

-- The size of dns_answer_t
abbrev pub answer_size : ℕ
answer_size = 16

-- DNS_QUERY_MAX_SIZE
abbrev pub query_max_size : ℕ
query_max_size = 80

-- DNS_ANSWER_MAX_SIZE
abbrev pub answer_max_size : ℕ
answer_max_size = query_max_size + 16

-- The bit fields of a byte are set one by one: the first of a header's flags keeps no bit, and of
-- the second the reserved bits and the one for recursion stay.
abbrev pub flags_low : ℕ
flags_low = 0x84

abbrev pub flags_high : ℕ → ℕ
flags_high b = (b / 16) * 16

-- The header of the answer: the identifier and the number of questions of the query, which is also
-- the number of answers.
abbrev pub answer_header : Bytes → Bytes
answer_header (id0 ∷ id1 ∷ flags0 ∷ flags1 ∷ qd0 ∷ qd1 ∷ rest) =
    id0 ∷ id1 ∷ flags_low ∷ flags_high flags1 ∷ qd0 ∷ qd1 ∷ qd0 ∷ qd1 ∷ 0 ∷ 0 ∷ 0 ∷ 0 ∷ []
answer_header _ = []

-- dns_answer_t for an address, of which `ip` are the four bytes in the order of the network
abbrev pub answer_record : Bytes → Bytes
answer_record ip = 0xC0 ∷ 0x0C ∷ 0 ∷ 1 ∷ 0 ∷ 1 ∷ 0 ∷ 0 ∷ 0 ∷ 0 ∷ 0 ∷ 4 ∷ ip

-- dns_server_handle_req: what is sent for the bytes that have come, if anything.
unfoldable pub handle_req : Bytes → Bytes → Option Bytes
handle_req ip data_ =
    if ltb (length data_) header_size || ltb (answer_max_size - answer_size) (length data_)
    then none
    else some (answer_header data_ ++ (drop header_size data_ ++ answer_record ip))

-- One round of the task: whether the signal to stop has come, and what recvfrom gives, `none` for a
-- timeout. It takes DNS_QUERY_MAX_SIZE bytes at most.
pub record Round : Type 0 where
  pub stop : Bool
  pub received : Option Bytes

abbrev pub reply_to : Bytes → Option Bytes → Option Bytes
reply_to ip none = none
reply_to ip (some s) = handle_req ip (take query_max_size s)

abbrev pub add_reply : Option Bytes → List Bytes → List Bytes
add_reply none sent = sent
add_reply (some r) sent = r ∷ sent

-- The loop of dns_server_task: what it sends, and whether it has stopped.
unfoldable pub task_loop : Bytes → List Round → List Bytes × Bool
unfolding handle_req
task_loop ip [] = ([], false)
task_loop ip (r ∷ rounds) =
    let more = task_loop ip rounds in
    if r.stop then ([], true) else (add_reply (reply_to ip r.received) more.0, more.1)
