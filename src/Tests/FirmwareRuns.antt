-- ===== src/Tests/FirmwareRuns.antt =====
-- Lines through the table of the commands, and the authentication at the start and in the main loop.
use sipf_std_client_nrf.ClientHttp.{Net, Response, no_response, set_auth_info, run_request}
use sipf_std_client_nrf.Cmd.{Reply}
use sipf_std_client_nrf.CmdAscii.Dispatch.Lock.{opens, is_unlock_line, cmd_ascii_parse-lock}
use sipf_std_client_nrf.CmdAscii.Dispatch.Names.{
  is_word, lookup, run_entry, parameters, cmd_ascii_parse-lookup,
}
use sipf_std_client_nrf.CmdAscii.Dispatch.{
  Firmware, Outside, cmdfunc, cmd_ascii_parse, run_update_cmd,
}
use sipf_std_client_nrf.CmdAscii.{res_ng}
use sipf_std_client_nrf.Libc.{c_string, starts_with}
use sipf_std_client_nrf.Main.Mode.{ends_in_0, boot_auth-refused, auth_round-switch}
use sipf_std_client_nrf.Main.{Node, mode, boot_auth, auth_round, sz_user_name}
use sipf_std_client_nrf.Prelude.Runs.{returns}
use sipf_std_client_nrf.Prelude.{
  ℕ, ◌+◌, ◌-◌, ◌≡◌, ◌↔◌, ◌<◌, refl, true, false, some, none, [], ◌∷◌, ◌++◌, ◌||◌, if◌then◌else◌,
  pos, negsuc, is_neg, Bytes, length, replicate, codes, arith,
}
use sipf_std_client_nrf.Registers.{Registers}
use sipf_std_client_nrf.SipfAuth.Answer.{is_line, auth_answer-names}
use sipf_std_client_nrf.SipfAuth.{
  Auth, AuthConfig, auth_answer, auth_request, run_get_session_key_http_request, auth_responses,
}
use sipf_std_client_nrf.SipfFile.Paths.{upload_complete-fault_iff}
use sipf_std_client_nrf.SipfFile.{FileConfig, Files, upload_complete}
use sipf_std_client_nrf.SipfObject.Client.{Client}
use sipf_std_client_nrf.Tests.ModemRuns.{modem, row}
use sipf_std_client_nrf.Zephyr.{Kernel, eagain}

-- A kernel of empty queues.
abbrev still : Kernel ℕ
still = record {
  rx_get = λ t w. (eagain, 0, w);
  rx_put = λ b w. (pos 0, w);
  rx_purge = λ w. w;
  tx_put = λ b w. (pos 0, w);
  tx_get = λ w. (eagain, 0, w);
  irq_update = λ w. (pos 1, w);
  irq_rx_ready = λ w. (pos 1, w);
  fifo_read = λ w. (b'x', w);
  poll_out = λ b w. w;
  msleep = λ t w. w;
}

-- A network without name resolution.
abbrev pub offline : Net ℕ
offline = record {
  getaddrinfo = λ h w. (negsuc 2, w);
  freeaddrinfo = λ w. w;
  errno = λ w. 5;
  socket = λ tls w. (pos 3, w);
  set_peer_verify = λ w. (pos 0, w);
  set_sec_tag_list = λ w. (pos 0, w);
  set_hostname = λ h w. (pos 0, w);
  connect = λ port w. (pos 0, w);
  http_client_req =
      λ r t buf w. (record { ret = pos 1; responses = no_response ∷ []; recv_buf = buf }, w);
  close = λ w. w;
  send = λ bs w. (pos (length bs), w);
  base64_encode = λ n text. (pos 0, text);
}

abbrev pub client : Client ℕ
client = record {
  auth_header = codes "none";
  httpc_req_buff = replicate 32 0;
  httpc_res_buff = replicate 32 0;
  up_res = no_response;
  world = 0;
}

abbrev pub files : Files ℕ
files = record {
  client = client;
  path_endpoint = replicate 20 0;
  image_url = replicate 20 0;
  url_res = no_response;
  complete_res = no_response;
  upload_res = no_response;
  callback_res = no_response;
  dl_finish = false;
  dl_cb_err = pos 0;
}

abbrev pub file_cfg : FileConfig
file_cfg = record { host = codes "h"; prefix = codes "/f/"; suffix = codes "/"; ssl = false }

-- 13 bytes of an id are too many for the array of 20, and pass the check.
upload_complete-fault_iff_example :
    (upload_complete offline file_cfg (codes "abcdefghijklm") files ≡ none)
    ↔ (length files.path_endpoint < length file_cfg.prefix + 13 + length file_cfg.suffix + 10)
upload_complete-fault_iff_example =
    upload_complete-fault_iff offline file_cfg (codes "abcdefghijklm") files (omega arith)

abbrev registers : Registers
registers = record { reg_common = replicate 16 0; bank00 = 1 ∷ replicate 239 0 }

abbrev pub firmware : Firmware ℕ ℕ
firmware = record {
  is_unlocked = false;
  registers = registers;
  is_echo = true;
  files = files;
  buff_work = replicate 256 0;
  image_url = replicate 20 0;
  nmea_strings = replicate 10 row;
  nmea_string_cnt = 0;
  last_gps_pvt = 0;
  fota_failed = false;
}

abbrev pub outside : Outside ℕ ℕ
outside = record {
  k = still;
  net = offline;
  connector = record { host = codes "h"; path = codes "/"; ssl = false };
  file_cfg = file_cfg;
  downloader = record {
    init = λ w. (pos 0, w);
    set_host = λ h t n w. (pos 0, w);
    start = λ p w. (pos 0, [], w);
    sem_take = λ w. (pos 0, w);
    file_size = λ w. 0;
    disconnect = λ w. ([], w);
  };
  updater = record {
    earlier = λ w. ([], w);
    init = λ w. (pos 0, w);
    start = λ h p t w. (pos 0, [], w);
  };
  modem = modem;
  location_text = λ p. codes "0";
  xmodem_block = λ w. replicate 132 0;
  fput_fuel = 100;
}

abbrev read_rest : Bytes
read_rest = codes " 00" ++ replicate 8 0

cmd_ascii_parse-lookup_example :
    cmd_ascii_parse outside (codes "R" ++ read_rest) (length (codes "R") + 3) firmware
    ≡ run_entry (lookup (cmdfunc outside) (codes "R")) read_rest 3 firmware
unfolding is_word
cmd_ascii_parse-lookup_example =
    cmd_ascii_parse-lookup outside (codes "R") firmware refl parameters (omega arith)

abbrev update_line : Bytes
update_line = codes "$UPDATE UPDATE" ++ replicate 8 0

cmd_ascii_parse-lock_example :
    (opens (cmd_ascii_parse outside update_line 14 firmware) ≡ false)
    × (run_update_cmd outside update_line 14 firmware ≡ returns (Reply.text res_ng, firmware))
unfolding is_unlock_line starts_with
cmd_ascii_parse-lock_example =
    cmd_ascii_parse-lock outside update_line 14 firmware refl refl (omega arith)

abbrev ok_response : Response
ok_response = record {
  http_status = codes "OK";
  http_status_code = 200;
  content_length = 9;
  data_len = 9;
  body_frag_start = 0;
}

auth_answer-names_example :
    auth_answer 8 8 ok_response
      (codes "user" ++ 0x0a ∷ (codes "key" ++ 0x0a ∷ []))
      (replicate 8 1)
      (replicate 8 1)
    ≡ some (
      pos 0,
      codes "user" ++ 0 ∷ (codes "key" ++ 0 ∷ []),
      codes "user" ++ replicate (8 - 4) 0,
      codes "key" ++ replicate (8 - 3) 0,
    )
unfolding is_line
auth_answer-names_example =
    auth_answer-names ok_response (codes "user") (codes "key") [] (replicate 8 1) (replicate 8 1) 8
      8 refl refl refl refl refl refl (omega arith) (omega arith)

abbrev auth_cfg : AuthConfig
auth_cfg = record { host = codes "h"; path = codes "/a"; ssl = false }

abbrev auth : Auth ℕ
auth = record {
  http_res = no_response;
  user_name = codes "u" ++ 0 ∷ [];
  password = codes "p" ++ 0 ∷ [];
  client = client;
}

abbrev node : Node ℕ
node = record { registers = registers; auth = auth }

offline_refuses :
    auth_request offline auth_cfg sz_user_name sz_user_name auth ≡ some (negsuc 4, auth)
unfolding auth_request run_get_session_key_http_request run_request auth_responses
offline_refuses = refl

boot_auth-refused_example : ends_in_0 (boot_auth still offline auth_cfg 3 node) ≡ true
boot_auth-refused_example = boot_auth-refused still offline auth_cfg 2 node 4 auth offline_refuses

abbrev header : Bytes
header = codes "Authorization: BASIC u:p\r\n"

header_set :
    set_auth_info offline (c_string auth.user_name) (c_string auth.password) client.auth_header
    ≡ some (pos 26, header)
unfolding set_auth_info c_string
header_set = refl

-- The request is refused, and the header of the old names is set all the same.
auth_round-switch_example :
    (s' : Node ℕ) × (auth_round still offline auth_cfg 0 node ≡ some (s', mode s'))
    × (mode s' ≡ (if is_neg (negsuc 4) || is_neg (pos 26) then 0 else 1))
    × (s'.auth.client.auth_header ≡ header)
auth_round-switch_example =
    auth_round-switch still offline auth_cfg node (negsuc 4) (pos 26) auth header refl
      offline_refuses header_set
