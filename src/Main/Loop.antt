-- ===== src/Main/Loop.antt =====
-- src/main.c: the main loop of main, over the statics of the whole firmware. What lies outside, with
-- the clock, is the record `Machine`.
pub mod Lines
pub mod Commands
pub mod Valid
use sipf_std_client_nrf.ClientHttp.{Response}
use sipf_std_client_nrf.Cmd.{Cmd, cmd_parse}
use sipf_std_client_nrf.CmdAscii.Dispatch.{Firmware, Outside, cmd_ascii_parse}
use sipf_std_client_nrf.Main.Leds.{Gpio, heart_beat}
use sipf_std_client_nrf.Main.Lte.{Link}
use sipf_std_client_nrf.Main.{Node, auth_round}
use sipf_std_client_nrf.Prelude.Runs.{Run, returns, waits, lift, ◌>>=◌}
use sipf_std_client_nrf.Prelude.{ℕ, zero, suc, true, false, Option, none, some, is_zero, Bytes}
use sipf_std_client_nrf.SipfAuth.{AuthConfig}
use sipf_std_client_nrf.UartBroker.{M, Startup, get_byte, put}

pub record Machine (P W : Type 0) : Type 0 where
  pub outside : Outside P W
  pub auth_cfg : AuthConfig
  pub gpio : Gpio W
  pub link : Link W
  pub startup : Startup W
  -- k_uptime_get, which a milliseconds count answers, and boot_write_img_confirmed
  pub uptime_get : W → ℕ × W
  pub write_img_confirmed : W → W

-- The statics of all files and the variables of main. `http_res` is the static of the authentication
-- request, `val` that of led1_toggle.
pub record Board (P W : Type 0) : Type 0 where
  pub firmware : Firmware P W
  pub http_res : Response
  pub user_name : Bytes
  pub password : Bytes
  pub cmd : Cmd
  pub val : ℕ
  pub ms_timeout : ℕ
  pub prev_auth_mode : ℕ

module _ {P W : Type 0} where
  abbrev pub board_world : Board P W → W
  board_world b = b.firmware.files.client.world

  abbrev pub in_world : Board P W → W → Board P W
  in_world b w = record b {
    firmware = record b.firmware {
      files = record b.firmware.files { client = record b.firmware.files.client { world = w } };
    };
  }

  -- What the authentication works on, and the board with it put back.
  abbrev pub node_of : Board P W → Node W
  node_of b = record {
    registers = b.firmware.registers;
    auth = record {
      http_res = b.http_res;
      user_name = b.user_name;
      password = b.password;
      client = b.firmware.files.client;
    };
  }

  abbrev pub with_node : Board P W → Node W → Board P W
  with_node b s = record b {
    firmware = record b.firmware {
      registers = s.registers;
      files = record b.firmware.files { client = s.auth.client };
    };
    http_res = s.auth.http_res;
    user_name = s.auth.user_name;
    password = s.auth.password;
  }

  -- A function of the UART broker that does not use the echo flag's change.
  abbrev pub on_board : {A : Type 0} → M W A → Board P W → A × Board P W
  on_board m b =
      let (a, u) = m (record { is_echo = b.firmware.is_echo; world = board_world b }) in
      (a, in_world b u.world)

module _ {P W : Type 0} (m : Machine P W) where
  -- UartBrokerPut, where CmdParse has a response
  unfoldable pub answer : Option Bytes → Board P W → Board P W
  answer none b = b
  answer (some response) b = let (_, b') = on_board (put m.outside.k response) b in b'

  -- the body of the inner loop, for the byte that was read
  unfoldable pub take_byte : ℕ → Board P W → Run (Board P W)
  take_byte byte b = do
    (cr, c, f) ← cmd_parse (cmd_ascii_parse m.outside) byte b.cmd b.firmware
    returns (answer cr (record b { firmware = f; cmd = c }))

  -- The inner loop, which goes on while bytes come, by fuel: `waits` if the fuel is used up.
  unfoldable pub serve : ℕ → Board P W → Run (Board P W)
  serve zero b = waits
  serve (suc fuel) b =
      let ((ret, byte), b') = on_board (get_byte m.outside.k) b in
      elim (is_zero ret) [
        | true ↦ (do b'' ← take_byte byte b'; serve fuel b'')
        | false ↦ returns b'
      ]

  unfoldable pub beat : Board P W → Board P W
  beat b =
      let (ms_now, w) = m.uptime_get (board_world b) in
      let (ms_timeout, val, w') = heart_beat m.gpio ms_now b.ms_timeout b.val w in
      in_world (record b { val = val; ms_timeout = ms_timeout }) w'

  -- the authentication mode
  unfoldable pub follow_mode : Board P W → Run (Board P W)
  follow_mode b = do
    (s, mode) ← lift (auth_round m.outside.k m.outside.net m.auth_cfg b.prev_auth_mode (node_of b))
    returns (with_node (record b { prev_auth_mode = mode }) s)

  -- k_sleep(K_MSEC(1))
  abbrev nap : Board P W → Board P W
  nap b = in_world b (m.outside.k.msleep 1 (board_world b))

  unfoldable pub round : ℕ → Board P W → Run (Board P W)
  round fuel b = do b₁ ← serve fuel b; b₂ ← follow_mode (beat b₁); returns (nap b₂)

  -- `n` rounds of the main loop.
  unfoldable pub rounds : ℕ → ℕ → Board P W → Run (Board P W)
  rounds zero fuel b = returns b
  rounds (suc n) fuel b = do b' ← round fuel b; rounds n fuel b'
