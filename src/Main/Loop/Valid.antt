-- ===== src/Main/Loop/Valid.antt =====
-- src/main.c: what the main loop keeps of the statics, whatever comes over the UART and whatever the
-- calls of the firmware answer.
use sipf_std_client_nrf.Cmd.Safe
use sipf_std_client_nrf.Cmd.Safe.{cmd_parse-IsValid, cmd_parse-keeps}
use sipf_std_client_nrf.Cmd.{Cmd, cmd_parse}
use sipf_std_client_nrf.CmdAscii.Dispatch.Typed.{cmd_ascii_parse-LeavesTyped}
use sipf_std_client_nrf.CmdAscii.Dispatch.{Firmware, cmd_ascii_parse}
use sipf_std_client_nrf.Main.Loop.{
  Machine, Board, node_of, on_board, answer, take_byte, serve, beat, follow_mode, round, rounds,
}
use sipf_std_client_nrf.Main.Keeps.{auth_round-Holds}
use sipf_std_client_nrf.Main.{auth_round}
use sipf_std_client_nrf.Prelude.Runs.{Run, returns, faults, waits, lift, ◌>>=◌, Leaves, bind-Leaves}
use sipf_std_client_nrf.Prelude.{
  ℕ, zero, suc, Bool, true, false, Option, none, some, is_zero, Bytes,
}
use sipf_std_client_nrf.Registers.Typed.{AreTyped, mode_0-AreTyped}
use sipf_std_client_nrf.UartBroker.{get_byte}

-- The registers have their sizes and types and select bank 0, and the line buffer is valid.
pub record IsValid {P W : Type 0} (b : Board P W) : Type 0 where
  pub registers : AreTyped b.firmware.registers
  pub line : Safe.IsValid b.cmd

module _ {P W : Type 0} (m : Machine P W) where
  answer-IsValid : (cr : Option Bytes) (b : Board P W) → IsValid b → IsValid (answer m cr b)
  unfolding answer
  answer-IsValid none b v = v
  answer-IsValid (some r) b v = record { registers = v.registers; line = v.line }

  taken :
      (b : Board P W) (r : Run (Option Bytes × Cmd × Firmware P W))
      → Safe.Leaves r
      → Leaves (λ r. AreTyped r.2.registers) r
      → Leaves IsValid
          (do (cr, c, f) ← r; returns (answer m cr (record b { firmware = f; cmd = c })))
  taken b (returns (cr, c, f)) l t =
      answer-IsValid cr (record b { firmware = f; cmd = c }) (record { registers = t; line = l })
  taken b faults l t = tt
  taken b waits l t = tt

  take_byte-IsValid : (byte : ℕ) (b : Board P W) → IsValid b → Leaves IsValid (take_byte m byte b)
  unfolding take_byte
  take_byte-IsValid byte b v =
      taken b (cmd_parse (cmd_ascii_parse m.outside) byte b.cmd b.firmware)
        (cmd_parse-IsValid (cmd_ascii_parse m.outside) byte b.cmd b.firmware v.line)
        (cmd_parse-keeps (cmd_ascii_parse m.outside) (λ s. AreTyped s.registers)
          (cmd_ascii_parse-LeavesTyped m.outside) byte b.cmd b.firmware v.registers)

  serve-IsValid : (fuel : ℕ) (b : Board P W) → IsValid b → Leaves IsValid (serve m fuel b)
  unfolding serve
  serve-IsValid zero b v = tt
  serve-IsValid (suc fuel) b v =
      let ((ret, byte), b') = on_board (get_byte m.outside.k) b in
      served fuel (is_zero ret) byte b' (record { registers = v.registers; line = v.line })
        (serve-IsValid fuel)
    where
      served :
          (fuel : ℕ) (read : Bool) (byte : ℕ) (b' : Board P W)
          → IsValid b'
          → ((b : Board P W) → IsValid b → Leaves IsValid (serve m fuel b))
          → Leaves IsValid (elim read [
            | true ↦ (do b'' ← take_byte m byte b'; serve m fuel b'')
            | false ↦ returns b'
          ])
      served fuel true byte b' v ih =
          bind-Leaves IsValid IsValid _ _ (take_byte-IsValid byte b' v) ih
      served fuel false byte b' v ih = v

  follow_mode-IsValid : (b : Board P W) → IsValid b → Leaves IsValid (follow_mode m b)
  unfolding follow_mode
  follow_mode-IsValid b v =
      bind-Leaves (λ r. AreTyped r.0.registers) IsValid
        (lift (auth_round m.outside.k m.outside.net m.auth_cfg b.prev_auth_mode (node_of b))) _
        (auth_round-Holds m.outside.k m.outside.net m.auth_cfg AreTyped mode_0-AreTyped
          b.prev_auth_mode (node_of b) v.registers)
        (λ r t. record { registers = t; line = v.line })

  beat-IsValid : (b : Board P W) → IsValid b → IsValid (beat m b)
  unfolding beat
  beat-IsValid b v = record { registers = v.registers; line = v.line }

  round-IsValid : (fuel : ℕ) (b : Board P W) → IsValid b → Leaves IsValid (round m fuel b)
  unfolding round
  round-IsValid fuel b v =
      bind-Leaves IsValid IsValid (serve m fuel b) _ (serve-IsValid fuel b v) (λ b₁ v₁.
        bind-Leaves IsValid IsValid (follow_mode m (beat m b₁)) _
          (follow_mode-IsValid (beat m b₁) (beat-IsValid b₁ v₁))
          (λ b₂ v₂. record { registers = v₂.registers; line = v₂.line }))

  pub rounds-IsValid : (n fuel : ℕ) (b : Board P W) → IsValid b → Leaves IsValid (rounds m n fuel b)
  unfolding rounds
  rounds-IsValid zero fuel b v = v
  rounds-IsValid (suc n) fuel b v =
      bind-Leaves IsValid IsValid (round m fuel b) _ (round-IsValid fuel b v)
        (rounds-IsValid n fuel)
