-- ===== src/Lib.antt =====
-- The Wi-Fi manager of Ruuvi Gateway (src/, one C program for ESP-IDF): a task that keeps the
-- station connected, scans, and opens an access point, and an HTTP server through which a user
-- configures it.
--
-- The parts and their files:
--   AccessPoints: src/access_points_list.c, the records of a scan made unique, and their order.
--     `filter_unique` is ap_list_filter_unique; the array is a list, and a free place is a record
--     without a name.
--   NetworkInfo: src/json_network_info.c, what the status says of the connection.
--   Manager: src/wifi_manager.c, src/wifi_manager_internal.c, src/wifi_manager_handle_msg.c and
--     src/wifiman_msg.c. The globals are one record `World`, the event group's bits another. Each
--     function takes a `World` and gives the next one; each call out of the program is appended
--     to its `log`. `Manager/Dispatch` is one round of the task's loop, `Manager/Events` the
--     handler of the driver's events, `Manager/Lifecycle` start, stop and the requests of other
--     threads, `Manager/ScanSync` the scan that a request waits for. What ESP-IDF and FreeRTOS return is a field of `Env`, and any value is allowed.
--   Http: the text of a request's header (src/http_req.c) and the searches in it; `Http/Parse` takes
--     a request apart.
--   Config: src/wifiman_config.c, and in `Config/Stored` src/wifiman_cfg_blob.c with
--     src/wifiman_cfg_blob_convert.c.
--   Dns: src/dns_server.c, the answer as bytes; `Dns/Answered` has a resolver that stands beside it.
--     `Dns/Task` is the task from its start to its end.
--   HttpServer: src/http_server.c, the task of the server, its signals, its start and its stop. Both
--     tasks take the signals of the system as the interface `OsSignal` of Os.
--   Accept: the end of src/http_server_accept_and_handle_conn.c, one connection from its acceptance
--     to its deletion. It joins Recv, Serve, Resp and Send, from the frames that come to the bytes
--     that are sent.
--   Resp: src/http_server_resp.c, the answers as records, with the text of the authentication.
--   Netif: the configuration of the network interfaces in src/wifi_manager_internal.c and
--     src/wifi_manager.c, over the interface `EspNetif`.
--   Ecdh: src/http_server_ecdh.c, over mbedtls as the record `Crypto`.
--   Auth: src/http_server_auth*.c and src/http_server_handle_req_*_auth.c: the settings, the
--     sessions, and the decision on a request. The two members of the union `g_auth` are kept side by
--     side. The hashes, the random numbers, the memory and
--     cJSON are fields of `Libs`.
--   Request: src/http_server_handle_req.c. The application's callbacks may change the whole state, and
--     are fields of `App` and `GetEnv`. POST and DELETE are in `Request`, GET in `Request/Get`, and
--     the choice between them, with the encryption, in `Request/Handle`. They call Auth for the
--     decision and Manager for the effect.
--   Serve: src/http_server_netconn_serve_handle_req.c, from the bytes of a request to the reply. It
--     calls Http/Parse and Request/Handle.
--   Recv: src/http_server_accept_and_handle_conn.c, how a request is gathered from frames. The buffer
--     is the list of its cells; what the network gives is a list of events. `Recv/Sizes`,
--     `Recv/Store` and `Recv/Bounds` are about its size, `Recv/Ends` and `Recv/EndsKept` about the end
--     of its text, `Recv/Whole` about a request in pieces.
--   Send: src/http_server_netconn_resp.c, how an answer is written. A connection is what has been
--     sent and lwIP's answers to the next attempts. `Send/Answer` has the headers and statuses.
--   Json: src/json.c, src/json_access_points.c and the text of src/json_network_info.c.
--     `Json/Read` is a reader of these texts that stands beside the code.
--   Shared: a thread that runs an action on the network information under its mutex
--     (src/json_network_info.c), one statement at a time, the creation of the mutex included.
--     `Shared/Steps` has the interleavings of any number of threads, `Shared/InTurn` their invariant.
--     NetworkInfo and Config take an action as one step.
--   Tests: runs of the theorems at concrete values.
--
-- Bounds: the loops are recursions on lists or on a number of remaining rounds that the code
-- itself counts, so no fuel is needed but for a file that is sent in blocks, where the length and
-- one is enough, since each block has a byte at least; a channel is a number modulo 256.
-- Interleavings are the steps of `Manager/System`: a round of the task, an event of the driver, the
-- reconnection timer, or a request, in any order and any number; a handler is one step, since the
-- event group's bits are changed by other threads only through these functions.
--
-- Not in the model: the recursive mutexes around a single access, the time, the extra fields of an
-- answer's header (a text that is given), the watchdog's calls, and the hashes. They are input and
-- output, or wrappers of libraries that are not part of the repository.
pub mod Accept
pub mod AccessPoints
pub mod Auth
pub mod Common
pub mod Config
pub mod Dns
pub mod Ecdh
pub mod Http
pub mod HttpServer
pub mod Json
pub mod Manager
pub mod Netif
pub mod NetworkInfo
pub mod Os
pub mod Recv
pub mod Request
pub mod Resp
pub mod Send
pub mod Serve
pub mod Shared
pub mod Tests
