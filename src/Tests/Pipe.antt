-- ===== src/Tests/Pipe.antt =====
-- A kernel whose queues are lists, a socket that takes 100 bytes at once, and a machine over them.
use sipf_std_client_nrf.ClientHttp.{Net, Response, no_response}
use sipf_std_client_nrf.CmdAscii.Transfer.Put.Wire.{Socket}
use sipf_std_client_nrf.Cmd.{initial}
use sipf_std_client_nrf.Gnss.{Modem}
use sipf_std_client_nrf.Main.Loop.{Machine, Board}
use sipf_std_client_nrf.Main.Lte.{Link}
use sipf_std_client_nrf.Prelude.{
  ℕ, ◌≡◌, refl, ap, sym, true, false, Bool-cases, inl, inr, append-nil, is_zero, [], ◌∷◌, ◌++◌, ltb,
  lt→ltb, if◌then◌else◌, ℤ, pos, negsuc, Bytes, length, take, min, replicate, codes, arith,
}
use sipf_std_client_nrf.Registers
use sipf_std_client_nrf.Registers.{Version}
use sipf_std_client_nrf.UartBroker.Order.{TxPath}
use sipf_std_client_nrf.Zephyr.{Kernel, Queues, eagain}

-- The queues, what has gone out over the line, and what over the socket.
pub record Pipe : Type 0 where
  pub rx : Bytes
  pub tx : Bytes
  pub line : Bytes
  pub sent : Bytes

abbrev pipe_get : Bytes → Pipe → ℤ × ℕ × Pipe
pipe_get [] w = (eagain, 0, w)
pipe_get (b ∷ bs) w = (pos 0, b, record w { rx = bs })

abbrev pipe_take : Bytes → Pipe → ℤ × ℕ × Pipe
pipe_take [] w = (eagain, 0, w)
pipe_take (b ∷ bs) w = (pos 0, b, record w { tx = bs })

abbrev pub pipes : Kernel Pipe
pipes = record {
  rx_get = λ t w. pipe_get w.rx w;
  rx_put = λ b w. (pos 0, record w { rx = w.rx ++ b ∷ [] });
  rx_purge = λ w. record w { rx = [] };
  tx_put = λ b w.
      if ltb (length w.tx) 256 then (pos 0, record w { tx = w.tx ++ b ∷ [] }) else (eagain, w);
  tx_get = λ w. pipe_take w.tx w;
  irq_update = λ w. (pos 1, w);
  irq_rx_ready = λ w. (pos 1, w);
  fifo_read = λ w. (b'x', w);
  poll_out = λ b w. record w { line = w.line ++ b ∷ [] };
  msleep = λ t w. w;
}

abbrev pub pipe_queues : Queues pipes
pipe_queues = record {
  rx = λ w. w.rx;
  tx = λ w. w.tx;
  tx_cap = 256;
  rx_some = λ t w b bs e. (record w { rx = bs }, ap (λ q. pipe_get q w) e, refl, refl);
  rx_none = λ t w e. (eagain, 0, w, ap (λ q. pipe_get q w) e, refl, e, refl);
  tx_room = λ b w h. (
    record w { tx = w.tx ++ b ∷ [] },
    ap (λ t. if t then (pos 0, record w { tx = w.tx ++ b ∷ [] }) else (eagain, w))
        (lt→ltb (length w.tx) 256 h),
    refl,
    refl,
  );
}

pub tx_put_lem :
    (b : ℕ) (w : Pipe)
    → ((pipes.tx_put b w).1.line ≡ w.line)
      × ((pipes.tx_put b w).1.tx ≡ w.tx ++ (if is_zero (pipes.tx_put b w).0 then b ∷ [] else []))
tx_put_lem b w = elim (Bool-cases (ltb (length w.tx) 256)) [
  | inl e ↦ rw e (refl, refl)
  | inr e ↦ rw e (refl, sym (append-nil w.tx))
]

pub tx_get_lem :
    (q : Bytes) (w : Pipe)
    → w.tx ≡ q
    → ((pipe_take q w).2.line ≡ w.line)
      × (w.tx
          ≡ (if is_zero (pipe_take q w).0 then (pipe_take q w).1 ∷ [] else [])
            ++ (pipe_take q w).2.tx)
tx_get_lem [] w e = (refl, refl)
tx_get_lem (b ∷ q) w e = (refl, e)

abbrev pub pipe_path : TxPath pipes
pipe_path = record {
  tx = λ w. w.tx;
  line = λ w. w.line;
  put_line = λ b w. (tx_put_lem b w).0;
  put_tx = λ b w. (tx_put_lem b w).1;
  get_line = λ w. (tx_get_lem w.tx w refl).0;
  get_tx = λ w. (tx_get_lem w.tx w refl).1;
  poll_line = λ b w. refl;
  poll_tx = λ b w. refl;
  update_quiet = λ w. (refl, refl);
  ready_quiet = λ w. (refl, refl);
  read_quiet = λ w. (refl, refl);
  rx_put_quiet = λ b w. (refl, refl);
}

-- The answer to every request, a user name and a password.
abbrev names : Response
names = record {
  http_status = codes "OK";
  http_status_code = 200;
  content_length = 9;
  data_len = 9;
  body_frag_start = 0;
}

abbrev names_body : Bytes
names_body = codes "user" ++ 0x0a ∷ (codes "key" ++ 0x0a ∷ replicate 8 0)

abbrev pub pipe_net : Net Pipe
pipe_net = record {
  getaddrinfo = λ h w. (pos 0, w);
  freeaddrinfo = λ w. w;
  errno = λ w. 5;
  socket = λ tls w. (pos 3, w);
  set_peer_verify = λ w. (pos 0, w);
  set_sec_tag_list = λ w. (pos 0, w);
  set_hostname = λ h w. (pos 0, w);
  connect = λ port w. (pos 0, w);
  http_client_req =
      λ r t buf w. (record { ret = pos 1; responses = names ∷ []; recv_buf = names_body }, w);
  close = λ w. w;
  -- at most 100 bytes at once
  send = λ bs w. let m = min (length bs) 100 in (pos m, record w { sent = w.sent ++ take m bs });
  base64_encode = λ n text. (pos 0, text);
}

pub get_quiet :
    (q : Bytes) (w : Pipe) (r : ℤ) (b : ℕ) (w' : Pipe)
    → pipe_get q w ≡ (r, b, w')
    → w'.sent ≡ w.sent
get_quiet [] w r b w' e = sym (ap (λ x. x.2.sent) e)
get_quiet (c ∷ q) w r b w' e = sym (ap (λ x. x.2.sent) e)

pub put_quiet :
    (b : ℕ) (w : Pipe) (r : ℤ) (w' : Pipe) → pipes.tx_put b w ≡ (r, w') → w'.sent ≡ w.sent
put_quiet b w r w' e = ground arith

abbrev pub pipe_socket : Socket pipe_queues pipe_net
pipe_socket = record {
  sent = λ w. w.sent;
  rx_quiet = λ t w r b w' e. get_quiet w.rx w r b w' e;
  tx_quiet = λ b w r w' e. put_quiet b w r w' e;
  send_some = λ bs w.
      let m = min (length bs) 100 in
      (m, record w { sent = w.sent ++ take m bs }, refl, omega arith, refl, refl, refl);
}

abbrev pub pipe : Bytes → Pipe
pipe rx = record { rx = rx; tx = []; line = []; sent = [] }

abbrev quiet_modem : Modem ℕ Pipe
quiet_modem = record {
  flag = λ f p. true;
  read_nmea = λ w. (negsuc 0, [], w);
  read_pvt = λ w. (pos 0, (λ p. p), w);
  event_handler_set = λ w. (pos 0, w);
  fix_retry_set = λ n w. (pos 0, w);
  fix_interval_set = λ n w. (pos 0, w);
  nmea_mask_set = λ w. (pos 0, w);
  start = λ w. (pos 0, w);
  stop = λ w. (pos 0, w);
}

-- Every call of the network link answers 0.
abbrev link : Link Pipe
link = record {
  nrf_modem_lib_init = λ w. (pos 0, w);
  key_exists = λ w. (pos 0, true, w);
  key_delete = λ w. (pos 0, w);
  key_write = λ w. (pos 0, w);
  system_mode_set = λ w. (pos 0, w);
  at_printf = λ c w. (pos 0, w);
  pdn_ctx_create = λ w. (pos 0, w);
  pdn_ctx_configure = λ w. (pos 0, w);
  lte_lc_init = λ w. (pos 0, w);
  modem_events_enable = λ w. w;
  connect_async = λ w. (pos 0, w);
  sem_take = λ w. (pos 0, w);
  offline = λ w. w;
  deinit = λ w. w;
  psm_req = λ w. (pos 0, w);
  modem_info_init = λ w. (pos 0, w);
  params_init = λ w. (pos 0, w);
  params_get = λ w. (pos 0, w);
  iccid = λ w. codes "8981";
}

abbrev pub machine : Machine ℕ Pipe
machine = record {
  outside = record {
    k = pipes;
    net = pipe_net;
    connector = record { host = codes "h"; path = codes "/"; ssl = false };
    file_cfg = record { host = codes "h"; prefix = codes "/f/"; suffix = codes "/"; ssl = false };
    downloader = record {
      init = λ w. (pos 0, w);
      set_host = λ h t n w. (pos 0, w);
      start = λ p w. (pos 0, [], w);
      sem_take = λ w. (pos 0, w);
      file_size = λ w. 0;
      disconnect = λ w. ([], w);
    };
    updater = record {
      earlier = λ w. ([], w);
      init = λ w. (pos 0, w);
      start = λ h p t w. (pos 0, [], w);
    };
    modem = quiet_modem;
    location_text = λ p. codes "0";
    xmodem_block = λ w. replicate 132 0;
    fput_fuel = 100;
  };
  auth_cfg = record { host = codes "h"; path = codes "/"; ssl = false };
  gpio = record { configure = λ p w. w; set_pin = λ p v w. w };
  link = link;
  startup = record { tx_init = λ n w. w; rx_init = λ n w. w; thread_start = λ w. w };
  uptime_get = λ w. (0, w);
  write_img_confirmed = λ w. w;
}

abbrev pub version : Version
version = record { fw_type = 1; mjr = 0; mnr = 5; rel = 1 }

-- The statics as they are at power-up, over this world.
abbrev pub board : Pipe → Board ℕ Pipe
board w = record {
  firmware = record {
    is_unlocked = false;
    registers = Registers.initial version;
    is_echo = true;
    files = record {
      client = record {
        auth_header = [];
        httpc_req_buff = replicate 32 0;
        httpc_res_buff = replicate 32 0;
        up_res = no_response;
        world = w;
      };
      path_endpoint = replicate 20 0;
      image_url = replicate 20 0;
      url_res = no_response;
      complete_res = no_response;
      upload_res = no_response;
      callback_res = no_response;
      dl_finish = false;
      dl_cb_err = pos 0;
    };
    buff_work = replicate 256 0;
    image_url = replicate 20 0;
    nmea_strings = replicate 10 (replicate 5 0);
    nmea_string_cnt = 0;
    last_gps_pvt = 0;
    fota_failed = false;
  };
  http_res = no_response;
  user_name = replicate 255 0;
  password = replicate 255 0;
  cmd = initial;
  val = 0;
  ms_timeout = 0;
  prev_auth_mode = 0;
}
