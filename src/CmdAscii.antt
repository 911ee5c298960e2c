-- ===== src/CmdAscii.antt =====
-- src/cmd_ascii.c: the ASCII commands. This file has what the commands share; each group of
-- commands is a child module.
pub mod HexRoundTrip
pub mod RegisterCmds
pub mod Send
pub mod Transfer
pub mod Objects
pub mod Admin
pub mod Positions
pub mod Dispatch
use Prim.Native.Nat.{bit_or}
use sipf_std_client_nrf.Libc.{digit_value}
use sipf_std_client_nrf.Prelude.{
  ℕ, ◌*◌, ◌%◌, Option, none, some, codes, Bytes, ◌==◌, if◌then◌else◌, get_or, ◌+◌,
}

-- `ret` and `*err` in hexToUint8
pub record HexState : Type 0 where
  pub ret : ℕ
  pub err : ℕ

-- one round of the loop: the character `c` at index `i`
unfoldable pub hex_step : ℕ → ℕ → HexState → HexState
hex_step i c h = elim (digit_value c) [
  | some d ↦ record h { ret = bit_or h.ret (if i == 0 then d * 16 else d) }
  | none ↦ record { ret = 0; err = 0xff }
]

-- hexToUint8(&buf[i], &err), for a caller that passes `err`
unfoldable pub hex_to_uint8 : Bytes → ℕ → HexState
unfolding hex_step
hex_to_uint8 buf i =
    hex_step 1 (get_or buf (i + 1) 0) (hex_step 0 (get_or buf i 0) (record { ret = 0; err = 0 }))

unfoldable pub res_ill_param : Bytes
res_ill_param = codes "ILLIGAL PARAMETER\r\nNG\r\n"

unfoldable pub res_ok : Bytes
res_ok = codes "OK\r\n"

unfoldable pub res_ng : Bytes
res_ng = codes "NG\r\n"
