-- ===== src/CmdAscii/Dispatch/Typed.antt =====
-- src/cmd_ascii.c: what the commands make of the registers.
use sipf_std_client_nrf.Cmd.{Reply}
use sipf_std_client_nrf.CmdAscii.Dispatch.Table.{AllHold, parse_table-Holds}
use sipf_std_client_nrf.CmdAscii.Dispatch.{
  Firmware, Outside, cmdfunc, cmd_ascii_parse, run_w, run_r, run_tx_raw, run_tx, run_rx, run_fput,
  run_fget, run_unlock, run_update_cmd, run_gnss_enable, run_gnss_location, run_gnss_nmea,
  run_gnss_status,
}
use sipf_std_client_nrf.CmdAscii.RegisterCmds.Typed.{cmd_w-Typed, cmd_r-Typed}
use sipf_std_client_nrf.CmdAscii.RegisterCmds.{Bench}
use sipf_std_client_nrf.Prelude.Runs.{Run, returns, faults, waits, ◌>>=◌, Leaves}
use sipf_std_client_nrf.Prelude.{ℕ, arith, Bytes}
use sipf_std_client_nrf.Registers.Typed.{AreTyped}

-- What holds behind a command that returns.
abbrev pub LeavesTyped : {P W : Type 0} → Run (Reply × Firmware P W) → Type 0
LeavesTyped = Leaves (λ r. AreTyped r.1.registers)

bind-LeavesTyped :
    {P W A : Type 0} (m : Run A) (f : A → Run (Reply × Firmware P W))
    → ((a : A) → LeavesTyped (f a))
    → LeavesTyped (m >>= f)
bind-LeavesTyped (returns a) f h = h a
bind-LeavesTyped faults f h = tt
bind-LeavesTyped waits f h = tt

module _ {P W : Type 0} (o : Outside P W) (b : Bytes) (n : ℕ) (s : Firmware P W)
    (t : AreTyped s.registers) where
  abbrev bench : Bench
  bench = record { is_unlocked = s.is_unlocked; registers = s.registers }

  w_typed : LeavesTyped (run_w o b n s)
  unfolding run_w
  w_typed = let kept = cmd_w-Typed b n bench t in ground (arith, kept)

  r_typed : LeavesTyped (run_r o b n s)
  unfolding run_r
  r_typed = let kept = cmd_r-Typed b n bench t in ground (arith, kept)

  -- The other commands leave the registers alone.
  tx_raw_typed : LeavesTyped (run_tx_raw o b n s)
  unfolding run_tx_raw
  tx_raw_typed = search bind-LeavesTyped

  tx_typed : LeavesTyped (run_tx o b n s)
  unfolding run_tx
  tx_typed = search bind-LeavesTyped

  rx_typed : LeavesTyped (run_rx o b n s)
  unfolding run_rx
  rx_typed = search bind-LeavesTyped

  fput_typed : LeavesTyped (run_fput o b n s)
  unfolding run_fput
  fput_typed = search bind-LeavesTyped

  fget_typed : LeavesTyped (run_fget o b n s)
  unfolding run_fget
  fget_typed = search bind-LeavesTyped

  unlock_typed : LeavesTyped (run_unlock o b n s)
  unfolding run_unlock
  unlock_typed = t

  update_typed : LeavesTyped (run_update_cmd o b n s)
  unfolding run_update_cmd
  update_typed = search bind-LeavesTyped

  enable_typed : LeavesTyped (run_gnss_enable o b n s)
  unfolding run_gnss_enable
  enable_typed = t

  location_typed : LeavesTyped (run_gnss_location o b n s)
  unfolding run_gnss_location
  location_typed = t

  nmea_typed : LeavesTyped (run_gnss_nmea o b n s)
  unfolding run_gnss_nmea
  nmea_typed = search bind-LeavesTyped

  status_typed : LeavesTyped (run_gnss_status o b n s)
  unfolding run_gnss_status
  status_typed = t

-- Whatever the line holds, and whatever the calls of the commands answer, CmdAsciiParse leaves
-- the registers arrays of 16 and of 240 bytes below 256, with bank 0 selected, where it returns.
pub cmd_ascii_parse-LeavesTyped :
    {P W : Type 0} (o : Outside P W) (b : Bytes) (n : ℕ) (s : Firmware P W)
    → AreTyped s.registers
    → LeavesTyped (cmd_ascii_parse o b n s)
unfolding cmd_ascii_parse cmdfunc AllHold
cmd_ascii_parse-LeavesTyped o b n s t = parse_table-Holds LeavesTyped b n s (cmdfunc o) t (
    search (
      w_typed, r_typed, tx_raw_typed, tx_typed, rx_typed, fput_typed, fget_typed, unlock_typed,
      update_typed, enable_typed, location_typed, nmea_typed, status_typed,
    ))
