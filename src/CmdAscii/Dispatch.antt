-- ===== src/CmdAscii/Dispatch.antt =====
-- src/cmd_ascii.c: CmdAsciiParse, the table of the commands, and the statics that they work on.
pub mod Names
pub mod Lock
pub mod Table
pub mod Typed
use sipf_std_client_nrf.ClientHttp.{Net}
use sipf_std_client_nrf.Cmd.{Reply, text}
use sipf_std_client_nrf.CmdAscii.Admin.{cmd_unlock, cmd_update}
use sipf_std_client_nrf.CmdAscii.Objects.{cmd_tx_raw, cmd_rx}
use sipf_std_client_nrf.CmdAscii.Positions.{
  cmd_gnss_enable, cmd_gnss_status, cmd_gnss_location, cmd_gnss_nmea,
}
use sipf_std_client_nrf.CmdAscii.RegisterCmds.{Bench, cmd_w, cmd_r}
use sipf_std_client_nrf.CmdAscii.Send.{cmd_tx}
use sipf_std_client_nrf.CmdAscii.Transfer.Put.{cmd_fput}
use sipf_std_client_nrf.CmdAscii.Transfer.{Console, cmd_fget}
use sipf_std_client_nrf.CmdAscii.{res_ng}
use sipf_std_client_nrf.Fota.{Fota, Updater}
use sipf_std_client_nrf.Gnss.{Modem, Gnss}
use sipf_std_client_nrf.Libc.{starts_with}
use sipf_std_client_nrf.Prelude.Runs.{Run, returns, lift, ◌>>=◌, ◌>>◌}
use sipf_std_client_nrf.Prelude.{
  ℕ, ◌+◌, ◌-◌, ◌%◌, ◌^◌, Bool, true, false, ◌&&◌, ◌||◌, Option, some, [], ◌∷◌, List, ◌==◌, ℤ,
  if◌then◌else◌, Bytes, length, get_or, drop, codes,
}
use sipf_std_client_nrf.Registers.{Registers}
use sipf_std_client_nrf.SipfFile.Download.{Downloader}
use sipf_std_client_nrf.SipfFile.{FileConfig, Files}
use sipf_std_client_nrf.SipfObject.Client.{Client, Connector}
use sipf_std_client_nrf.Zephyr.{Kernel}

-- A command's function, over a state `S`: on the buffer behind the name, and the length of the line
-- behind it.
abbrev pub Handler : Type 0 → Type 0
Handler S = Bytes → ℕ → S → Run (Reply × S)

-- The test of one entry: the name, and behind it the end of the line or a space.
abbrev pub is_named : Bytes → ℕ → Bytes → Bool
is_named in_buff in_len name =
    starts_with name in_buff && (in_len == length name || get_or in_buff (length name) 0 == 0x20)

-- in_len - name_len, as a `uint16_t`
abbrev pub rest_len : ℕ → ℕ → ℕ
rest_len in_len name_len = (in_len + 2 ^ 16 - name_len) % 2 ^ 16

-- The loop over the table.
unfoldable pub parse_table : {S : Type 0} → List (Bytes × Handler S) → Handler S
parse_table [] in_buff in_len s = returns (text res_ng, s)
parse_table ((name, cmd_func) ∷ table) in_buff in_len s =
    let rest = parse_table table in_buff in_len s in
    if is_named in_buff in_len name
    then cmd_func (drop (length name) in_buff) (rest_len in_len (length name)) s
    else rest

-- The statics of the modules that the commands use, over one world.
pub record Firmware (P W : Type 0) : Type 0 where
  pub is_unlocked : Bool
  pub registers : Registers
  pub is_echo : Bool
  pub files : Files W
  pub buff_work : Bytes
  pub image_url : Bytes
  pub fota_failed : Bool
  pub nmea_strings : List Bytes
  pub nmea_string_cnt : ℕ
  pub last_gps_pvt : P

-- What the commands call: the kernel, the network, the downloads, the modem, the configuration, the
-- text of a position, and the bound of the rounds of FPUT's callback. `xmodem_block` is what earlier
-- commands left in that array, which is not told but by the world.
pub record Outside (P W : Type 0) : Type 0 where
  pub k : Kernel W
  pub net : Net W
  pub connector : Connector
  pub file_cfg : FileConfig
  pub downloader : Downloader W
  pub updater : Updater W
  pub modem : Modem P W
  pub location_text : P → Bytes
  pub xmodem_block : W → Bytes
  pub fput_fuel : ℕ

module _ {P W : Type 0} (o : Outside P W) where
  -- The parts of the state that a group of commands works on, and the state with them put back.
  with_bench : Firmware P W → Reply × Bench → Reply × Firmware P W
  with_bench s (r, b) = (r, record s { is_unlocked = b.is_unlocked; registers = b.registers })

  with_client : Firmware P W → Client W → Firmware P W
  with_client s c = record s { files = record s.files { client = c } }

  with_console : Firmware P W → Reply × Console W → Reply × Firmware P W
  with_console s (r, c) = (r, record s { is_echo = c.is_echo; files = c.files })

  unfoldable pub gnss_of : Firmware P W → Gnss P W
  gnss_of s = record {
    nmea_strings = s.nmea_strings;
    nmea_string_cnt = s.nmea_string_cnt;
    last_gps_pvt = s.last_gps_pvt;
    world = s.files.client.world;
  }

  unfoldable pub with_gnss : Firmware P W → Gnss P W → Firmware P W
  with_gnss s g = record s {
    files = record s.files { client = record s.files.client { world = g.world } };
    nmea_strings = g.nmea_strings;
    nmea_string_cnt = g.nmea_string_cnt;
    last_gps_pvt = g.last_gps_pvt;
  }

  bench_of : Firmware P W → Bench
  bench_of s = record { is_unlocked = s.is_unlocked; registers = s.registers }

  console_of : Firmware P W → Console W
  console_of s = record { is_echo = s.is_echo; files = s.files }

  unfoldable pub run_w : Handler (Firmware P W)
  unfolding with_bench bench_of
  run_w b n s = do r ← lift (cmd_w b n (bench_of s)); returns (with_bench s r)

  unfoldable pub run_r : Handler (Firmware P W)
  unfolding with_bench bench_of
  run_r b n s = do r ← lift (cmd_r b n (bench_of s)); returns (with_bench s r)

  unfoldable pub run_tx_raw : Handler (Firmware P W)
  unfolding with_client
  run_tx_raw b n s = do
    (r, u, c) ← lift (cmd_tx_raw o.net o.connector b n s.files.client)
    returns (r, record (with_client s c) { is_unlocked = u })

  unfoldable pub run_tx : Handler (Firmware P W)
  unfolding with_client
  run_tx b n s = do
    (r, c) ← lift (cmd_tx o.net o.connector b n s.files.client)
    returns (r, with_client s c)

  unfoldable pub run_rx : Handler (Firmware P W)
  unfolding with_client
  run_rx b n s = do
    (r, work, c) ← lift (cmd_rx o.net o.connector n s.buff_work s.files.client)
    returns (r, record (with_client s c) { buff_work = work })

  unfoldable pub run_fput : Handler (Firmware P W)
  unfolding with_console console_of
  run_fput b n s = do
    let left = o.xmodem_block s.files.client.world
    r ← lift (cmd_fput o.k o.net o.file_cfg o.fput_fuel left b n (console_of s))
    returns (with_console s r)

  unfoldable pub run_fget : Handler (Firmware P W)
  unfolding with_console console_of
  run_fget b n s = do
    r ← cmd_fget o.k o.net o.file_cfg o.downloader b n (console_of s)
    returns (with_console s r)

  unfoldable pub run_unlock : Handler (Firmware P W)
  run_unlock b n s =
      let (r, u) = cmd_unlock b n s.is_unlocked in returns (r, record s { is_unlocked = u })

  unfoldable pub run_update_cmd : Handler (Firmware P W)
  run_update_cmd b n s = do
    let fota : Fota W = record { image_url = s.image_url; failed = s.fota_failed; files = s.files }
    (r, f) ← cmd_update o.k o.net o.file_cfg o.updater b n s.is_unlocked fota
    returns (r, record s { image_url = f.image_url; fota_failed = f.failed; files = f.files })

  unfoldable pub run_gnss_enable : Handler (Firmware P W)
  unfolding gnss_of with_gnss
  run_gnss_enable b n s =
      let (r, g) = cmd_gnss_enable o.modem b n (gnss_of s) in returns (r, with_gnss s g)

  unfoldable pub run_gnss_location : Handler (Firmware P W)
  unfolding gnss_of
  run_gnss_location b n s = returns (cmd_gnss_location o.modem o.location_text n (gnss_of s), s)

  unfoldable pub run_gnss_nmea : Handler (Firmware P W)
  unfolding gnss_of
  run_gnss_nmea b n s = do r ← lift (cmd_gnss_nmea n (gnss_of s)); returns (r, s)

  unfoldable pub run_gnss_status : Handler (Firmware P W)
  unfolding gnss_of
  run_gnss_status b n s = returns (cmd_gnss_status o.modem n (gnss_of s), s)

  unfoldable pub cmdfunc : List (Bytes × Handler (Firmware P W))
  cmdfunc =
      (codes "W", run_w)
      ∷ (codes "R", run_r)
      ∷ (codes "$TXRAW", run_tx_raw)
      ∷ (codes "$TX", run_tx)
      ∷ (codes "$RX", run_rx)
      ∷ (codes "$FPUT", run_fput)
      ∷ (codes "$FGET", run_fget)
      ∷ (codes "$UNLOCK", run_unlock)
      ∷ (codes "$UPDATE", run_update_cmd)
      ∷ (codes "$GNSSEN", run_gnss_enable)
      ∷ (codes "$GNSSLOC", run_gnss_location)
      ∷ (codes "$GNSSNMEA", run_gnss_nmea)
      ∷ (codes "$GNSSSTAT", run_gnss_status)
      ∷ []

  unfoldable pub cmd_ascii_parse : Handler (Firmware P W)
  cmd_ascii_parse = parse_table cmdfunc
