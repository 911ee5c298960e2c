-- ===== src/CmdAscii/RegisterCmds.antt =====
-- src/cmd_ascii.c: the commands W and R on the register file. `in_buff` is the buffer behind the
-- name of the command. What they write into it is not kept: CmdParse clears the buffer before it
-- takes the next line. `none` is an access outside an array.
pub mod Typed
pub mod WriteRead
use sipf_std_client_nrf.Cmd.{Reply, text, code}
use sipf_std_client_nrf.CmdAscii.{res_ill_param, res_ok, res_ng}
use sipf_std_client_nrf.Libc.{c_string, strtol16, hex_2}
use sipf_std_client_nrf.Prelude.{
  ℕ, ◌++◌, Bool, true, false, not, Option, none, some, [], ◌∷◌, ◌==◌, if◌then◌else◌, ltb, ℤ, negsuc,
  is_neg, to_uint8, Bytes, length, get_or, set, drop, codes,
}
use sipf_std_client_nrf.Registers.{Registers, registers_write, registers_read}

-- The statics that these commands work on.
pub record Bench : Type 0 where
  pub is_unlocked : Bool
  pub registers : Registers

-- `*endptr != '\0'` behind strtol
abbrev pub is_cut : Bytes → Bool
is_cut [] = false
is_cut (c ∷ cs) = true

-- from RegistersWrite on
write_reply : ℕ → ℕ → Bench → Option (Reply × Bench)
write_reply addr val b = elim (registers_write addr val b.registers) [
  | none ↦ none
  | some (r, regs) ↦
      some (text (if is_neg r then res_ng else res_ok), record b { registers = regs })
]

-- from strtol on, where `buf` has NULs behind the address and the value
write_parsed : Bytes → Bench → Option (Reply × Bench)
write_parsed buf b =
    let (addr, end) = strtol16 (c_string (drop 1 buf)) in
    let (val, end') = strtol16 (c_string (drop 4 buf)) in
    if is_cut end
    then some (text res_ill_param, b)
    else if is_cut end'
    then some (text res_ill_param, b)
    else write_reply (to_uint8 addr) (to_uint8 val) b

unfoldable pub cmd_w : Bytes → ℕ → Bench → Option (Reply × Bench)
unfolding write_parsed write_reply
cmd_w in_buff in_len b =
    let locked = record b { is_unlocked = false } in
    if not (in_len == 6)
    then some (text res_ill_param, locked)
    else if not (ltb 6 (length in_buff))
    then none
    else if not (get_or in_buff 3 0 == 0x20)
    then some (text res_ill_param, locked)
    else if not (get_or in_buff 0 0 == 0x20)
    then some (code (negsuc 0), locked)
    else write_parsed (set (set in_buff 3 0) 6 0) locked

-- from RegistersRead on; `val` is not set where the call fails
read_reply : ℕ → Bench → Option (Reply × Bench)
read_reply addr b = elim (registers_read addr b.registers) [
  | none ↦ none
  | some (r, none) ↦ (if is_neg r then some (text res_ill_param, b) else none)
  | some (r, some val) ↦
      some (text (if is_neg r then res_ill_param else hex_2 val ++ codes "\r\nOK\r\n"), b)
]

read_parsed : Bytes → Bench → Option (Reply × Bench)
read_parsed buf b =
    let (addr, end) = strtol16 (c_string (drop 1 buf)) in
    if is_cut end then some (text res_ill_param, b) else read_reply (to_uint8 addr) b

unfoldable pub cmd_r : Bytes → ℕ → Bench → Option (Reply × Bench)
unfolding read_parsed read_reply
cmd_r in_buff in_len b =
    let locked = record b { is_unlocked = false } in
    if not (in_len == 3)
    then some (text res_ill_param, locked)
    else if not (ltb 3 (length in_buff))
    then none
    else if not (get_or in_buff 0 0 == 0x20)
    then some (text res_ill_param, locked)
    else read_parsed (set in_buff 3 0) locked
