-- ===== src/Main.antt =====
-- src/main.c: the authentication mode, at the start and in the main loop. The start of the modem is
-- the child Lte, the LEDs are Leds, the pin WAKE_IN is WakeIn, the main loop is Loop, and main as a
-- whole is Boot.
pub mod Boot
pub mod Leds
pub mod Lte
pub mod Loop
pub mod Mode
pub mod Keeps
pub mod WakeIn
use sipf_std_client_nrf.ClientHttp.{Net, set_auth_info}
use sipf_std_client_nrf.Libc.{c_string}
use sipf_std_client_nrf.Prelude.Runs.{Run, returns, waits, lift, ◌>>=◌, ◌>>◌}
use sipf_std_client_nrf.Prelude.{
  ℕ, zero, suc, ◌≡◌, Bool, true, false, ◌&&◌, Option, none, some, [], ◌∷◌, ◌==◌, if◌then◌else◌, ℤ,
  pos, negsuc, is_neg, Bytes, set, get_or, codes,
}
use sipf_std_client_nrf.Registers.{Registers}
use sipf_std_client_nrf.SipfAuth.{Auth, AuthConfig, auth_request}
use sipf_std_client_nrf.UartBroker.{put}
use sipf_std_client_nrf.Zephyr.{Kernel}

-- SZ_USER_NAME: both calls give it as the size of the password as well.
abbrev pub sz_user_name : ℕ
sz_user_name = 255

-- The registers, and the authentication.
pub record Node (W : Type 0) : Type 0 where
  pub registers : Registers
  pub auth : Auth W

-- *REG_00_MODE
abbrev pub mode : {W : Type 0} → Node W → ℕ
mode s = get_or s.registers.bank00 0 0

abbrev pub set_mode : {W : Type 0} → ℕ → Node W → Node W
set_mode m s = record s { registers = record s.registers { bank00 = set s.registers.bank00 0 m } }

abbrev pub at_world : {W : Type 0} → Node W → W → Node W
at_world s w = record s { auth = record s.auth { client = record s.auth.client { world = w } } }

module _ {W : Type 0} (k : Kernel W) (net : Net W) (cfg : AuthConfig) where
  unfoldable pub request_auth : Node W → Option (ℤ × Node W)
  request_auth s = elim (auth_request net cfg sz_user_name sz_user_name s.auth) [
    | none ↦ none
    | some (err, a) ↦ some (err, record s { auth = a })
  ]

  -- SipfClientHttpSetAuthInfo(user_name, password), and the mode behind a failure
  unfoldable pub use_auth_info : Node W → Option (Node W)
  use_auth_info s =
      elim (set_auth_info net (c_string s.auth.user_name) (c_string s.auth.password)
        s.auth.client.auth_header) [
          | none ↦ none
          | some (err, header) ↦
              let s' = record s {
                auth = record s.auth { client = record s.auth.client { auth_header = header } };
              } in
              some (if is_neg err then set_mode 0 s' else s')
        ]

  -- behind a request that is refused: the message and ten seconds of sleep
  unfoldable pub retry_later : Node W → Node W
  retry_later s =
      let (_, u) =
        put k (codes "Set AuthMode to `SIM Auth' faild...(Retry after 10s)\r\n")
          (record { is_echo = false; world = s.auth.client.world }) in
      at_world (set_mode 0 s) (k.msleep 10000 u.world)

  -- The requests until one is answered, by fuel: `waits` if the fuel is used up.
  unfoldable pub request_until : ℕ → Node W → Run (Node W)
  request_until zero s = waits
  request_until (suc fuel) s = do
    (err, s') ← lift (request_auth s)
    elim (is_neg err) [ true ↦ request_until fuel (retry_later s') | false ↦ returns s' ]

  -- from the first write of the mode up to the message that the client is ready
  unfoldable pub boot_auth : ℕ → Node W → Run (Node W)
  boot_auth fuel s = do s' ← request_until fuel (set_mode 1 s); lift (use_auth_info s')

  -- The request in the main loop. SipfClientHttpSetAuthInfo runs behind a failure as well.
  unfoldable pub switch_auth : Node W → Option (Node W)
  switch_auth s = elim (request_auth s) [
    | none ↦ none
    | some (err, s') ↦ use_auth_info (if is_neg err then set_mode 0 s' else s')
  ]

  -- The end of a round of the main loop: the state, and `prev_auth_mode`.
  unfoldable pub auth_round : ℕ → Node W → Option (Node W × ℕ)
  auth_round prev_auth_mode s =
      elim (if mode s == 1 && prev_auth_mode == 0 then switch_auth s else some s) [
        | none ↦ none
        | some s' ↦ some (s', mode s')
      ]
