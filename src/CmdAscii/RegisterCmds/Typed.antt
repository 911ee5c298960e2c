-- ===== src/CmdAscii/RegisterCmds/Typed.antt =====
-- What the commands W and R (src/cmd_ascii.c) make of the registers: a value that is stored is cut to
-- a `uint8_t`.
use sipf_std_client_nrf.Cmd.{Reply}
use sipf_std_client_nrf.CmdAscii.RegisterCmds.{
  Bench, cmd_w, cmd_r, write_reply, write_parsed, read_parsed, read_reply,
}
use sipf_std_client_nrf.Libc.{c_string, strtol16}
use sipf_std_client_nrf.Prelude.{
  ℕ, ◌<◌, false, Option, none, some, arith, ℤ, pos, negsuc, to_uint8, Bytes, drop, set,
}
use sipf_std_client_nrf.Registers.Typed.{AreTyped, write-AreTyped}

abbrev pub Typed : Option (Reply × Bench) → Type 0
Typed none = Unit {0}
Typed (some (r, b)) = AreTyped b.registers

to_uint8-lt : (n : ℤ) → to_uint8 n < 256
to_uint8-lt (pos n) = omega arith
to_uint8-lt (negsuc n) = omega arith

write_reply-Typed :
    (addr val : ℕ) (b : Bench) → val < 256 → AreTyped b.registers → Typed (write_reply addr val b)
unfolding write_reply
write_reply-Typed addr val b h t =
    let kept = write-AreTyped addr val b.registers h t in ground (arith, kept)

pub cmd_w-Typed :
    (in_buff : Bytes) (n : ℕ) (b : Bench) → AreTyped b.registers → Typed (cmd_w in_buff n b)
unfolding cmd_w write_parsed
cmd_w-Typed in_buff n b t =
    let buf = set (set in_buff 3 0) 6 0 in
    let val = (strtol16 (c_string (drop 4 buf))).0 in
    ground (
      arith,
      write_reply-Typed (to_uint8 (strtol16 (c_string (drop 1 buf))).0) (to_uint8 val)
          (record b { is_unlocked = false }) (to_uint8-lt val) t,
    )

pub cmd_r-Typed :
    (in_buff : Bytes) (n : ℕ) (b : Bench) → AreTyped b.registers → Typed (cmd_r in_buff n b)
unfolding cmd_r read_parsed read_reply
cmd_r-Typed in_buff n b t = ground arith
