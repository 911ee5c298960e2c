-- ===== src/CmdAscii/RegisterCmds/WriteRead.antt =====
-- The commands W and R (src/cmd_ascii.c) on lines as the manual shows them.
use sipf_std_client_nrf.Cmd.{Reply, text}
use sipf_std_client_nrf.CmdAscii.RegisterCmds.{
  Bench, cmd_w, cmd_r, write_reply, read_reply, write_parsed, read_parsed,
}
use sipf_std_client_nrf.CmdAscii.{res_ok, res_ng}
use sipf_std_client_nrf.Libc.Numbers.{strtol16-hex_2, c_string-hex_2}
use sipf_std_client_nrf.Libc.{hex_2, c_string, strtol16}
use sipf_std_client_nrf.Prelude.{
  ℕ, ◌<◌, ◌≡◌, refl, Option, some, none, ◌∷◌, ◌++◌, Bytes, arith, codes, set, if◌then◌else◌, false,
  ◌∙◌, length, drop, get_or, ltb, ◌==◌, ◌&&◌, lt→ltb, to_uint8, ℤ, pos, negsuc,
}
use sipf_std_client_nrf.Registers.Write.{
  IsValid, registers_write_lem, registers_read_lem, read_self, registers_write-IsValid,
}

-- ` AA VV`, and what stands behind it in the buffer.
abbrev pub w_line : ℕ → ℕ → ℕ → Bytes → Bytes
w_line addr val z rest = b' ' ∷ (hex_2 addr ++ b' ' ∷ (hex_2 val ++ z ∷ rest))

-- ` AA`
abbrev pub r_line : ℕ → ℕ → Bytes → Bytes
r_line addr z rest = b' ' ∷ (hex_2 addr ++ z ∷ rest)

write_parsed-hex_2 :
    (buf : Bytes) (addr val : ℕ) (b : Bench)
    → c_string (drop 1 buf) ≡ hex_2 addr
    → c_string (drop 4 buf) ≡ hex_2 val
    → addr < 256
    → val < 256
    → write_parsed buf b ≡ write_reply addr val b
unfolding write_parsed
write_parsed-hex_2 buf addr val b ea ev ha hv =
    ground (arith, strtol16-hex_2 addr ha, strtol16-hex_2 val hv)

read_parsed-hex_2 :
    (buf : Bytes) (addr : ℕ) (b : Bench)
    → c_string (drop 1 buf) ≡ hex_2 addr
    → addr < 256
    → read_parsed buf b ≡ read_reply addr b
unfolding read_parsed
read_parsed-hex_2 buf addr b e h = ground (arith, strtol16-hex_2 addr h)

abbrev locked : Bench → Bench
locked b = record b { is_unlocked = false }

cmd_w-w_line :
    (addr val z : ℕ) (rest : Bytes) (b : Bench)
    → addr < 256
    → val < 256
    → cmd_w (w_line addr val z rest) 6 b ≡ write_reply addr val (locked b)
unfolding cmd_w hex_2
cmd_w-w_line addr val z rest b ha hv = ground (
  arith,
  write_parsed-hex_2 (set (set (w_line addr val z rest) 3 0) 6 0) addr val (locked b)
      (c_string-hex_2 addr (hex_2 val ++ 0 ∷ rest) ha) (c_string-hex_2 val rest hv) ha hv,
)

cmd_r-r_line :
    (addr z : ℕ) (rest : Bytes) (b : Bench)
    → addr < 256
    → cmd_r (r_line addr z rest) 3 b ≡ read_reply addr (locked b)
unfolding cmd_r hex_2
cmd_r-r_line addr z rest b h = ground (
  arith,
  read_parsed-hex_2 (set (r_line addr z rest) 3 0) addr (locked b) (c_string-hex_2 addr rest h) h,
)

-- The command W on a line with an address and a value of two digits each, over valid registers:
-- below 0xF0 the value is stored in bank 0 and the answer is OK; at 0xF0 the value 0 alone is
-- accepted, and stored in the bank register; else the answer is NG and no register changes. The
-- device is locked in each case.
pub cmd_w_lem :
    (addr val z : ℕ) (rest : Bytes) (b : Bench)
    → IsValid b.registers
    → addr < 256
    → val < 256
    → cmd_w (w_line addr val z rest) 6 b
      ≡ some (
          if ltb addr 0xf0
          then (
            text res_ok,
            record {
              is_unlocked = false;
              registers = record b.registers { bank00 = set b.registers.bank00 addr val };
            },
          )
          else if addr == 0xf0 && val == 0
          then (
            text res_ok,
            record {
              is_unlocked = false;
              registers = record b.registers { reg_common = set b.registers.reg_common 0xf 0 };
            },
          )
          else (text res_ng, record b { is_unlocked = false }))
unfolding write_reply
cmd_w_lem addr val z rest b v ha hv =
    cmd_w-w_line addr val z rest b ha hv
    ∙ ground (arith, registers_write_lem addr val b.registers v)

-- The command gives this answer, and the state that it leaves has this property.
abbrev pub Answers : Reply → (Bench → Type 0) → Option (Reply × Bench) → Type 0
Answers r p none = ⊥
Answers r p (some (r', b)) = (r' ≡ r) × p b

-- The command stays within its arrays, and leaves valid registers and a locked device.
abbrev pub IsSafe : Option (Reply × Bench) → Type 0
IsSafe none = ⊥
IsSafe (some (r, b)) = IsValid b.registers × (b.is_unlocked ≡ false)

read_stored :
    (addr val : ℕ) (b : Bench)
    → IsValid b.registers
    → addr < 0xf0
    → let b' : Bench = record {
      is_unlocked = false;
      registers = record b.registers { bank00 = set b.registers.bank00 addr val };
    } in
      read_reply addr b' ≡ some (text (hex_2 val ++ codes "\r\nOK\r\n"), b')
unfolding read_reply
read_stored addr val b v low = ground (arith, read_self addr val b.registers v low)

-- The command R on a line with an address of two digits below 0xF0, over valid registers: the value of
-- the register, with two digits, and OK. The device is locked.
pub cmd_r_lem :
    (addr z : ℕ) (rest : Bytes) (b : Bench)
    → IsValid b.registers
    → addr < 0xf0
    → cmd_r (r_line addr z rest) 3 b
      ≡ some (
        text (hex_2 (get_or b.registers.bank00 addr 0) ++ codes "\r\nOK\r\n"),
        record b { is_unlocked = false },
      )
unfolding read_reply
cmd_r_lem addr z rest b v low =
    cmd_r-r_line addr z rest b (omega arith)
    ∙ ground (arith, registers_read_lem addr b.registers v, lt→ltb addr 0xf0 low)

write_reply-IsSafe :
    (addr val : ℕ) (b : Bench)
    → IsValid b.registers
    → b.is_unlocked ≡ false
    → IsSafe (write_reply addr val b)
unfolding write_reply
write_reply-IsSafe addr val b v l =
    let kept = registers_write-IsValid addr val b.registers v in ground (arith, kept)

to_uint8-lt : (v : ℤ) → to_uint8 v < 256
to_uint8-lt (pos n) = omega arith
to_uint8-lt (negsuc n) = omega arith

read_reply-IsSafe :
    (addr : ℕ) (b : Bench)
    → addr < 256
    → IsValid b.registers
    → b.is_unlocked ≡ false
    → IsSafe (read_reply addr b)
unfolding read_reply
read_reply-IsSafe addr b h v l = ground (arith, registers_read_lem addr b.registers v h)

-- A value that the command W stores is what the command R then prints, with two digits, for the
-- same address: both lines are answered with OK, over valid registers and below 0xF0.
pub cmd_r-cmd_w :
    (addr val z z' : ℕ) (rest rest' : Bytes) (b : Bench)
    → IsValid b.registers
    → addr < 0xf0
    → val < 256
    → Answers
        (text res_ok)
        (λ b'.
          cmd_r (r_line addr z' rest') 3 b' ≡ some (text (hex_2 val ++ codes "\r\nOK\r\n"), b'))
        (cmd_w (w_line addr val z rest) 6 b)
cmd_r-cmd_w addr val z z' rest rest' b v low hv =
    let b' : Bench = record {
      is_unlocked = false;
      registers = record b.registers { bank00 = set b.registers.bank00 addr val };
    } in
    rw (cmd_w_lem addr val z rest b v (omega arith) hv, lt→ltb addr 0xf0 low)
      (refl, cmd_r-r_line addr z' rest' b' (omega arith) ∙ read_stored addr val b v low)

-- Whatever the line holds, W leaves valid registers valid and locks the device, and it stays within
-- its arrays; so does R.
pub cmd_w-IsSafe :
    (in_buff : Bytes) (in_len : ℕ) (b : Bench)
    → IsValid b.registers
    → 6 < length in_buff
    → IsSafe (cmd_w in_buff in_len b) × IsSafe (cmd_r in_buff in_len b)
unfolding cmd_w cmd_r write_parsed read_parsed
cmd_w-IsSafe in_buff in_len b v h =
    let w = set (set in_buff 3 0) 6 0 in
    let r = set in_buff 3 0 in
    (
      ground (
        arith,
        write_reply-IsSafe (to_uint8 (strtol16 (c_string (drop 1 w))).0)
            (to_uint8 (strtol16 (c_string (drop 4 w))).0) (locked b) v refl,
      ),
      ground (
        arith,
        read_reply-IsSafe (to_uint8 (strtol16 (c_string (drop 1 r))).0) (locked b)
            (to_uint8-lt (strtol16 (c_string (drop 1 r))).0) v refl,
      ),
    )
