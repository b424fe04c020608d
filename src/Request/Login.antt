-- ===== src/Request/Login.antt =====
-- What a GET gives without a login (src/http_server_handle_req.c).
use esp32_wifi_manager.Common.{Bool, if◌then◌else◌, ◌==◌}
use esp32_wifi_manager.Manager.{Env}
use esp32_wifi_manager.Auth.{Auth}
use esp32_wifi_manager.Auth.Check.{Libs, Resp}
use esp32_wifi_manager.Request.{Server}
use esp32_wifi_manager.Request.Get.{GetEnv, resp_no_access}

module _ (env : Env) (libs : Libs) (g : GetEnv) where
  abbrev checked : (Auth × Resp × Bool) → Server → (Server → Server × Resp) → Server × Resp
  checked k s next =
      let s' = record s { auth = k.0 } in
      if k.1.http_resp_code == 200 then next s' else (s', resp_no_access s'.auth k.1 k.2)
