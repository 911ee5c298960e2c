-- ===== src/Main/Loop/Commands.antt =====
-- The commands W and R (src/cmd_ascii.c) from the receive queue to the transmit queue, through the
-- main loop of src/main.c.
use sipf_std_client_nrf.Cmd.Collect.{AllPlain, is_plain}
use sipf_std_client_nrf.Cmd.{text, wait, cleared}
use sipf_std_client_nrf.CmdAscii.Dispatch.Names.{
  is_word, lookup, run_entry, parameters, cmd_ascii_parse-lookup,
}
use sipf_std_client_nrf.CmdAscii.Dispatch.{
  Firmware, Outside, cmdfunc, cmd_ascii_parse, run_w, run_r,
}
use sipf_std_client_nrf.CmdAscii.RegisterCmds.WriteRead.{w_line, r_line, cmd_w_lem, cmd_r_lem}
use sipf_std_client_nrf.CmdAscii.RegisterCmds.{Bench}
use sipf_std_client_nrf.CmdAscii.{res_ok}
use sipf_std_client_nrf.Libc.{hex_2, upper_digit, same_text}
use sipf_std_client_nrf.Main.Loop.Lines.{at_line, with_registers, waiting, serve-text, serve_end}
use sipf_std_client_nrf.Main.Loop.{Machine, Board, board_world, in_world, serve}
use sipf_std_client_nrf.Prelude.Runs.{returns}
use sipf_std_client_nrf.Prelude.{
  ℕ, zero, suc, ◌+◌, ◌-◌, ◌/◌, ◌%◌, ◌≤◌, ◌<◌, ◌≡◌, ◌⊎◌, refl, ap, ◌∙◌, true, false, [], ◌∷◌, ◌++◌,
  Bytes, codes, length, length-append, drop, set, get_or, replicate, arith, lt→ltb, get_or-set_self,
}
use sipf_std_client_nrf.Registers.Write.{IsValid, set_bank00-IsValid}
use sipf_std_client_nrf.Registers.{Registers}
use sipf_std_client_nrf.Zephyr.{Queues}

-- `W AA VV` and `R AA`
abbrev pub w_command : ℕ → ℕ → Bytes
w_command addr val = b'W' ∷ b' ' ∷ (hex_2 addr ++ b' ' ∷ hex_2 val)

abbrev pub r_command : ℕ → Bytes
r_command addr = b'R' ∷ b' ' ∷ hex_2 addr

-- What R prints of a register.
abbrev pub value_text : ℕ → Bytes
value_text val = hex_2 val ++ codes "\r\nOK\r\n"

digit-is_plain : (d : ℕ) → d < 16 → is_plain (upper_digit d) ≡ true
digit-is_plain d h = ground arith

w_command-AllPlain : (addr val : ℕ) → addr < 256 → val < 256 → AllPlain (w_command addr val)
unfolding hex_2
w_command-AllPlain addr val ha hv = (
  refl,
  (
    refl,
    (
      digit-is_plain (addr / 16) (omega arith),
      (
        digit-is_plain (addr % 16) (omega arith),
        (
          refl,
          (digit-is_plain (val / 16) (omega arith), (digit-is_plain (val % 16) (omega arith), tt)),
        ),
      ),
    ),
  ),
)

r_command-AllPlain : (addr : ℕ) → addr < 256 → AllPlain (r_command addr)
unfolding hex_2
r_command-AllPlain addr h = (
  refl,
  (
    refl,
    (digit-is_plain (addr / 16) (omega arith), (digit-is_plain (addr % 16) (omega arith), tt)),
  ),
)

drop-replicate :
    (n k : ℕ) → n < k → drop n (replicate {A = ℕ} k 0) ≡ 0 ∷ drop (suc n) (replicate k 0)
drop-replicate n zero h = absurd (omega arith)
drop-replicate zero (suc k) h = refl
drop-replicate (suc n) (suc k) h = drop-replicate n k (omega arith)

drop-cleared : (n : ℕ) → n < 4096 → drop n cleared ≡ 0 ∷ drop (suc n) cleared
unfolding cleared
drop-cleared n h = drop-replicate n 4096 h

abbrev pub stored : ℕ → ℕ → Registers → Registers
stored addr val r = record r { bank00 = set r.bank00 addr val }

module _ {P W : Type 0} (o : Outside P W) where
  run_w_low :
      (addr val : ℕ) (rest : Bytes) (s : Firmware P W)
      → IsValid s.registers
      → addr < 0xf0
      → val < 256
      → run_w o (w_line addr val 0 rest) 6 s
        ≡ returns
            (text res_ok, record s { is_unlocked = false; registers = stored addr val s.registers })
  unfolding run_w
  run_w_low addr val rest s v low hv =
      let bench : Bench = record { is_unlocked = s.is_unlocked; registers = s.registers } in
      rw (cmd_w_lem addr val 0 rest bench v (omega arith) hv, lt→ltb addr 0xf0 low) refl

  run_r_low :
      (addr : ℕ) (rest : Bytes) (s : Firmware P W)
      → IsValid s.registers
      → addr < 0xf0
      → run_r o (r_line addr 0 rest) 3 s
        ≡ returns
            (text (value_text (get_or s.registers.bank00 addr 0)), record s { is_unlocked = false })
  unfolding run_r
  run_r_low addr rest s v low =
      let bench : Bench = record { is_unlocked = s.is_unlocked; registers = s.registers } in
      rw (cmd_r_lem addr 0 rest bench v low) refl

  -- The table has W first and R second.
  entry_w :
      (rest : Bytes) (n : ℕ) (s : Firmware P W)
      → run_entry (lookup (cmdfunc o) (codes "W")) rest n s ≡ run_w o rest n s
  unfolding lookup run_entry cmdfunc same_text
  entry_w rest n s = refl

  entry_r :
      (rest : Bytes) (n : ℕ) (s : Firmware P W)
      → run_entry (lookup (cmdfunc o) (codes "R")) rest n s ≡ run_r o rest n s
  unfolding lookup run_entry cmdfunc same_text
  entry_r rest n s = refl

  parse_w :
      (addr val : ℕ) (s : Firmware P W)
      → IsValid s.registers
      → addr < 0xf0
      → val < 256
      → cmd_ascii_parse o (w_command addr val ++ drop 7 cleared) 7 s
        ≡ returns
            (text res_ok, record s { is_unlocked = false; registers = stored addr val s.registers })
  unfolding hex_2 is_word
  parse_w addr val s v low hv =
      let rest = drop 8 cleared in
      ap (λ z. cmd_ascii_parse o (w_command addr val ++ z) 7 s) (drop-cleared 7 (omega arith))
      ∙ cmd_ascii_parse-lookup o (codes "W") {rest = w_line addr val 0 rest} {k = 6} s refl
          parameters (omega arith)
      ∙ entry_w (w_line addr val 0 rest) 6 s
      ∙ run_w_low addr val rest s v low hv

  parse_r :
      (addr : ℕ) (s : Firmware P W)
      → IsValid s.registers
      → addr < 0xf0
      → cmd_ascii_parse o (r_command addr ++ drop 4 cleared) 4 s
        ≡ returns
            (text (value_text (get_or s.registers.bank00 addr 0)), record s { is_unlocked = false })
  unfolding hex_2 is_word
  parse_r addr s v low =
      let rest = drop 5 cleared in
      ap (λ z. cmd_ascii_parse o (r_command addr ++ z) 4 s) (drop-cleared 4 (omega arith))
      ∙ cmd_ascii_parse-lookup o (codes "R") {rest = r_line addr 0 rest} {k = 3} s refl parameters
          (omega arith)
      ∙ entry_r (r_line addr 0 rest) 3 s
      ∙ run_r_low addr rest s v low

module _ {P W : Type 0} (m : Machine P W) (q : Queues m.outside.k) where
  -- The two lines `$W AA VV` and `$R AA`, each with a line end, in the receive queue, over valid
  -- registers and with a line buffer that waits: for an address below 0xF0, and where the transmit
  -- queue has room for 12 bytes, 16 rounds of the inner loop are enough to take both lines. OK, the value,
  -- and OK again are then what the transmit queue got, the value is in bank 0, no other register has
  -- changed, the device is locked, and the buffer waits.
  pub serve_write_read :
      (addr val nl nl' fuel : ℕ) (b : Board P W)
      → b.cmd.state ≡ wait
      → IsValid b.firmware.registers
      → addr < 0xf0
      → val < 256
      → (nl ≡ 0x0a) ⊎ (nl ≡ 0x0d)
      → (nl' ≡ 0x0a) ⊎ (nl' ≡ 0x0d)
      → q.rx (board_world b)
        ≡ (b'$' ∷ w_command addr val) ++ nl ∷ ((b'$' ∷ r_command addr) ++ nl' ∷ [])
      → length (q.tx (board_world b)) + 12 ≤ q.tx_cap
      → 16 ≤ fuel
      → (b' : Board P W) × (serve m fuel b ≡ returns b')
        × (q.rx (board_world b') ≡ [])
        × (q.tx (board_world b') ≡ (q.tx (board_world b) ++ codes "OK\r\n") ++ value_text val)
        × (b'.firmware.registers ≡ stored addr val b.firmware.registers)
        × (b'.firmware.is_unlocked ≡ false)
        × (b'.cmd.state ≡ wait)
  unfolding res_ok hex_2
  serve_write_read addr val nl nl' fuel b s v low hv e e' rx room enough =
      let regs = stored addr val b.firmware.registers in
      let v' = set_bank00-IsValid addr val b.firmware.registers v in
      let (w₁, rx₁, tx₁, wrote) =
        serve-text m q (w_command addr val) nl ((b'$' ∷ r_command addr) ++ nl' ∷ []) b false regs
          b'O' (codes "K\r\n") s (w_command-AllPlain addr val (omega arith) hv) (omega arith) e rx
          (omega arith) (λ w. parse_w m.outside addr val (in_world b w).firmware v low hv) in
      let b₁ =
        at_line (with_registers false regs b) w₁
          (waiting (w_command addr val ++ drop 7 cleared) 7) in
      let stays : get_or regs.bank00 addr 0 ≡ val =
        get_or-set_self b.firmware.registers.bank00 addr val 0 (omega (arith, v.bank00_size)) in
      let (w₂, rx₂, tx₂, read) =
        serve-text m q (r_command addr) nl' [] b₁ false regs (upper_digit (val / 16))
          (upper_digit (val % 16) ∷ codes "\r\nOK\r\n") refl (r_command-AllPlain addr (omega arith))
          (omega arith) e' rx₁
          (omega (arith, ap length tx₁, length-append (q.tx (board_world b)) (codes "OK\r\n")))
          (λ w.
            parse_r m.outside addr (in_world b₁ w).firmware v' low
            ∙ ap (λ n. returns (text (value_text n), (in_world b₁ w).firmware)) stays) in
      let b₂ = at_line b₁ w₂ (waiting (r_command addr ++ drop 4 cleared) 4) in
      let (w₃, rx₃, tx₃, ended) = serve_end m q b₂ rx₂ in
      let left : fuel - 9 - 6 ≡ suc (fuel - 16) = omega arith in
      (
        in_world b₂ w₃,
        wrote fuel (omega arith)
            ∙ read (fuel - 9) (omega arith)
            ∙ ap (λ n. serve m n b₂) left
            ∙ ended (fuel - 16),
        rx₃,
        tx₃ ∙ tx₂ ∙ ap (λ t. t ++ value_text val) tx₁,
        refl,
        refl,
        refl,
      )
