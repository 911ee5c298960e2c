-- ===== src/Main/Boot.antt =====
-- src/main.c: main, from the start up to the main loop and through rounds of it.
pub mod Stages
use sipf_std_client_nrf.CmdAscii.Dispatch.{Firmware, gnss_of, with_gnss}
use sipf_std_client_nrf.Gnss.{gnss_init}
use sipf_std_client_nrf.Libc.{decimal, lower_hex_2}
use sipf_std_client_nrf.Main.Leds.{led_init, led_on, led_off}
use sipf_std_client_nrf.Main.Loop.{
  Machine, Board, board_world, in_world, node_of, with_node, rounds,
}
use sipf_std_client_nrf.Main.Lte.{init_modem_and_lte}
use sipf_std_client_nrf.Main.WakeIn.{WakeIn, wake_in_init}
use sipf_std_client_nrf.Main.{boot_auth}
use sipf_std_client_nrf.Prelude.Runs.{Run, returns, ◌>>=◌}
use sipf_std_client_nrf.Prelude.{
  ℕ, ◌+◌, ◌*◌, ◌++◌, Bool, true, false, Option, none, some, if◌then◌else◌, ℤ, negsuc, is_zero,
  Bytes, get_or, codes,
}
use sipf_std_client_nrf.Registers.{Registers, registers_reset}
use sipf_std_client_nrf.UartBroker.{uart_broker_init, print, puts}
use sipf_std_client_nrf.Zephyr.{Kernel}

-- LED_HEARTBEAT_MS
abbrev pub led_heartbeat_ms : ℕ
led_heartbeat_ms = 500

-- The first line, from the common registers; the release number is a little-endian `uint16_t`.
unfoldable pub banner : Registers → Bytes
banner r =
    let cmn = λ (i : ℕ). get_or r.reg_common i 0 in
    codes "*** SIPF Client(Type"
    ++ (lower_hex_2 (cmn 0)
        ++ (codes ") v."
            ++ (decimal (cmn 1)
                ++ (codes "."
                    ++ (decimal (cmn 2)
                        ++ (codes "." ++ (decimal (cmn 3 + 256 * cmn 4) ++ codes " ***\r\n")))))))

-- main that has returned, with the world behind it, or that stands in front of its loop.
pub data Booted (P W : Type 0) : Type 0 where
  stopped : ℤ → W → Booted P W
  ready : Board P W → Booted P W

-- `plmn` is CONFIG_LTE_LOCK_PLMN_STRING, where the lock is configured.
module _ {P W : Type 0} (m : Machine P W) (plmn : Option Bytes) (wake_in : Option (WakeIn W)) where
  abbrev on_world : (W → W) → Board P W → Board P W
  on_world f b = in_world b (f (board_world b))

  abbrev say : Bytes → W → W
  say msg = puts m.outside.k msg

  -- The lines on the configuration. CONFIG_SIPF_AUTH_DISABLE_SSL and
  -- CONFIG_SIPF_CONNECTOR_DISABLE_SSL are the absence of TLS in the two configurations.
  unfoldable pub say_config : W → W
  say_config w =
      let w₁ : W = elim plmn [
        | none ↦ w
        | some name ↦ say (codes "* PLMN: " ++ (name ++ codes "\r\n")) w
      ] in
      let w₂ = if m.auth_cfg.ssl then w₁ else say (codes "* Disable SSL, AUTH endpoint.\r\n") w₁ in
      if m.outside.connector.ssl
      then w₂
      else say (codes "* Disable SSL, CONNECTOR endpoint.\r\n") w₂

  -- in front of the modem: the registers, the UART, the lines, the LEDs and WAKE_IN
  unfoldable pub power_up : Board P W → Board P W
  power_up b =
      let regs = registers_reset b.firmware.registers in
      let (_, w₁) = uart_broker_init m.startup (board_world b) in
      let w₂ = say_config (print m.outside.k (banner regs) w₁) in
      let (_, w₃) = led_init m.gpio w₂ in
      let (_, w₄) = led_on m.gpio 2 w₃ in
      let (_, w₅) = wake_in_init wake_in w₄ in
      in_world (record b { firmware = record b.firmware { registers = regs } }) w₅

  -- GNSS, whose failure is reported only, and the confirmation of the image
  unfoldable pub start_gnss : Board P W → Board P W
  start_gnss b =
      let (ret, g) = gnss_init m.outside.modem (gnss_of m.outside b.firmware) in
      let b' = record b { firmware = with_gnss m.outside b.firmware g } in
      on_world m.write_img_confirmed (
        if is_zero ret
        then b'
        else on_world (say (codes "Failed to initialize GNSS peripheral\r\n")) b')

  -- behind the authentication
  unfoldable pub announce : Board P W → Board P W
  announce b =
      let w = say (codes "+++ Ready +++\r\n") (board_world b) in
      let (_, w₁) = led_on m.gpio 3 w in
      let (ms_now, w₂) = m.uptime_get w₁ in
      in_world (record b { ms_timeout = ms_now + led_heartbeat_ms }) w₂

  unfoldable pub authenticate : ℕ → Board P W → Run (Board P W)
  authenticate fuel b = do
    s ← boot_auth m.outside.k m.outside.net m.auth_cfg fuel (node_of b)
    returns (announce (with_node (record b { prev_auth_mode = 1 }) s))

  -- `fuel` bounds the authentication requests.
  unfoldable pub boot : ℕ → Board P W → Run (Booted P W)
  boot fuel b =
      let b₁ = power_up b in
      let (err, w) = init_modem_and_lte m.outside.k m.link (board_world b₁) in
      let b₂ = in_world b₁ w in
      let (_, off) = led_off m.gpio 2 w in
      elim (is_zero err) [
        | true ↦ (do b₃ ← authenticate fuel (start_gnss b₂); returns (ready b₃))
        | false ↦ returns (stopped (negsuc 0) off)
      ]

  -- The rounds that follow, if there are any.
  unfoldable pub go_on : ℕ → ℕ → Booted P W → Run (Booted P W)
  go_on n fuel (stopped ret w) = returns (stopped ret w)
  go_on n fuel (ready b) = do b' ← rounds m n fuel b; returns (ready b')

  -- main, through `n` rounds of its loop. `requests` bounds the authentication requests, `fuel` the
  -- bytes of a round.
  unfoldable pub main : ℕ → ℕ → ℕ → Board P W → Run (Booted P W)
  main n requests fuel b = boot requests b >>= go_on n fuel
