-- ===== src/Tests/Connections.antt =====
-- Concrete runs of the theorems on the texts, the requests and the answers of a connection.
use esp32_wifi_manager.Common.{
  ℕ, zero, suc, ◌<◌, ◌≤◌, ◌≡◌, refl, Bool, true, false, none, some, [], ◌∷◌, ◌++◌, Bytes, codes,
  length, take, drop, replicate, All, arith,
}
use esp32_wifi_manager.Common.Int.{negsuc}
use esp32_wifi_manager.AccessPoints.{ApRecord}
use esp32_wifi_manager.NetworkInfo.{NetworkInfo, connection_ok}
use esp32_wifi_manager.Json.{decimal, access_points_generate, status_generate}
use esp32_wifi_manager.Json.Read.{read_list}
use esp32_wifi_manager.Json.RoundTrip.{read_list-access_points_generate, InRange}
use esp32_wifi_manager.Json.Size.{status_fits, status_too_long}
use esp32_wifi_manager.Http.{
  Field, header_get_field, lower, starts_with, starts_with_nocase, strcasestr, find_eol,
  skip_spaces, unquoted, quoted_till, field_value, after_name,
}
use esp32_wifi_manager.Recv.{RecvEnv, body_at}
use esp32_wifi_manager.Recv.Find.{HasNoNul}
use esp32_wifi_manager.Recv.Frames.{IsRequest}
use esp32_wifi_manager.Send.{Attempt, err_ok, Conn, File, fatfs, SendEnv, write}
use esp32_wifi_manager.Send.Progress.{IsGood, HasSent, IsFile, write_good}
use esp32_wifi_manager.Send.Answer.{
  HttpResp, code_200, text_html, encoding_none, header_with_content, resp_with_content,
}
use esp32_wifi_manager.Send.Whole.{in_file, resp_with_content_whole}

abbrev quoted_ap : ApRecord
quoted_ap = record { ssid = codes "my \"home\""; primary = 11; rssi = negsuc 60; authmode = 3 }

abbrev quoted_ap-InRange : InRange quoted_ap
quoted_ap-InRange = record {
  primary_lt = omega arith;
  authmode_lt = omega arith;
  rssi_small = omega arith;
}

read_list-access_points_generate_example :
    read_list 30 (access_points_generate (quoted_ap ∷ quoted_ap ∷ []))
    ≡ some (take 30 (quoted_ap ∷ quoted_ap ∷ []), [])
read_list-access_points_generate_example =
    read_list-access_points_generate (quoted_ap ∷ quoted_ap ∷ [])
      (quoted_ap-InRange, (quoted_ap-InRange, tt))

abbrev status : NetworkInfo
status = record {
  is_ssid_null = false;
  is_time_valid = true;
  ssid = codes "home";
  network_info = record {
    ip = codes "10.0.0.2";
    gw = codes "10.0.0.1";
    netmask = codes "255.0.0.0";
    dhcp = [];
  };
  update_reason_code = connection_ok;
  extra_info = [];
}

status_fits_example : length (status_generate status) < 250
status_fits_example =
    status_fits status
      record {
        ssid_fits = omega arith;
        ip_fits = omega arith;
        netmask_fits = omega arith;
        gw_fits = omega arith;
        dhcp_fits = omega arith;
      }
      (omega arith, (omega arith, (omega arith, (omega arith, tt)))) refl

-- A name of 31 bytes, and extra information of 99.
abbrev long_status : NetworkInfo
long_status = record status {
  ssid = replicate 31 97;
  network_info = record {
    ip = replicate 15 48;
    gw = replicate 15 48;
    netmask = replicate 15 48;
    dhcp = [];
  };
  extra_info = replicate 99 32;
}

status_too_long_example : 250 ≤ length (status_generate long_status)
status_too_long_example = status_too_long long_status refl refl refl (omega arith)

abbrev pub recv_env : RecvEnv
recv_env = record { mem_ok = λ _. true; strtoul = λ _. 2 }

abbrev pub value_and_end : Bytes
value_and_end = codes "2" ++ 13 ∷ 10 ∷ 13 ∷ 10 ∷ []

abbrev pub head : Bytes
head = codes "P" ++ (13 ∷ 10 ∷ codes "Content-Length: " ++ value_and_end)

abbrev pub field : Field
field = record { ptr = value_and_end; len = 1 }

abbrev pub no_nul : Bytes → Bool
no_nul [] = true
no_nul (zero ∷ s) = false
no_nul (suc n ∷ s) = no_nul s

pub HasNoNul_of_test : (s : Bytes) → no_nul s ≡ true → HasNoNul s
HasNoNul_of_test [] h = tt
HasNoNul_of_test (zero ∷ s) h = cc
HasNoNul_of_test (suc n ∷ s) h = (λ e. omega arith, HasNoNul_of_test s h)

abbrev pub small_request : IsRequest recv_env head (codes "ab") field
unfolding body_at starts_with header_get_field lower starts_with_nocase strcasestr find_eol
    skip_spaces unquoted quoted_till field_value after_name
small_request = record {
  no_nul = HasNoNul_of_test (head ++ codes "ab") refl;
  head_end = refl;
  head_field = refl;
  announces = refl;
  not_empty = omega arith;
  small = omega arith;
}

abbrev good : Attempt
good = record { err = err_ok; room = 1; late = false }

abbrev good-IsGood : IsGood good
good-IsGood = record { is_ok = refl; has_room = omega arith; in_time = refl }

good_attempts : (n : ℕ) → All IsGood (replicate n good)
good_attempts zero = tt
good_attempts (suc n) = (good-IsGood, good_attempts n)

abbrev pub slow : ℕ → Conn
slow n = record { sent = codes "a"; attempts = replicate n good }

write_good_example : HasSent (codes "bcd") (codes "a") 1 (write (codes "bcd") (slow 4))
write_good_example =
    write_good (codes "bcd") (slow 4) 1 (good_attempts 4) (omega arith) (omega arith)

abbrev page : File
page = record { read = λ off n. some (take n (drop off (codes "<p>"))) }

abbrev page-IsFile : IsFile page (codes "<p>")
page-IsFile = record { reads = λ off n. refl }

abbrev pub send_env : SendEnv
send_env = record {
  printf_mem_ok = true;
  block_mem_ok = true;
  date = [];
  ap_ip = codes "10.10.0.1";
}

abbrev page_resp : HttpResp
page_resp = record {
  http_resp_code = code_200;
  flag_no_cache = false;
  flag_add_header_date = true;
  content_type = text_html;
  content_type_param = none;
  content_len = 3;
  content_encoding = encoding_none;
  content = fatfs page;
}

resp_with_content_whole_example :
    (resp_with_content send_env page_resp [] 200 (codes "OK") (slow 200)).sent
    ≡ codes "a" ++ header_with_content [] page_resp [] 200 (codes "OK") ++ codes "<p>"
unfolding decimal
resp_with_content_whole_example =
    resp_with_content_whole send_env page_resp (codes "<p>") [] 200 (codes "OK") (slow 200) refl
      refl (in_file page (codes "<p>") page-IsFile) refl (good_attempts 200) (omega arith)
