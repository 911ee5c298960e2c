-- ===== src/CmdAscii/Dispatch/Lock.antt =====
-- src/cmd_ascii.c: what opens the lock in front of UPDATE, and what it keeps out.
use sipf_std_client_nrf.Cmd.{Reply, text}
use sipf_std_client_nrf.CmdAscii.Admin.{cmd_unlock, cmd_update}
use sipf_std_client_nrf.CmdAscii.Dispatch.Table.{AllHold, parse_table-Holds}
use sipf_std_client_nrf.CmdAscii.Dispatch.{
  is_named, rest_len, Firmware, Outside, cmdfunc, cmd_ascii_parse, run_w, run_r, run_tx_raw, run_tx,
  run_rx, run_fput, run_fget, run_unlock, run_update_cmd, run_gnss_enable, run_gnss_location,
  run_gnss_nmea, run_gnss_status,
}
use sipf_std_client_nrf.CmdAscii.Objects.{cmd_tx_raw}
use sipf_std_client_nrf.CmdAscii.RegisterCmds.{Bench, cmd_w, cmd_r}
use sipf_std_client_nrf.CmdAscii.{res_ng}
use sipf_std_client_nrf.Libc.{starts_with}
use sipf_std_client_nrf.Prelude.Runs.{Run, returns, faults, waits, ◌>>=◌}
use sipf_std_client_nrf.Prelude.{
  ℕ, ◌<◌, ◌≡◌, ◌^◌, refl, ◌++◌, Bool, true, false, ◌&&◌, Option, none, some, [], ◌∷◌, ◌==◌, Bytes,
  length, drop, arith, codes,
}

-- Whether the lock is open behind a command that returns.
unfoldable pub opens : {P W : Type 0} → Run (Reply × Firmware P W) → Bool
opens (returns (r, s)) = s.is_unlocked
opens faults = false
opens waits = false

-- `$UNLOCK UNLOCK`
unfoldable pub is_unlock_line : Bytes → ℕ → Bool
is_unlock_line in_buff in_len = starts_with (codes "$UNLOCK UNLOCK") in_buff && in_len == 14

opens_bench : Option (Reply × Bench) → Bool
opens_bench none = false
opens_bench (some (r, b)) = b.is_unlocked

cmd_w-locks : (b : Bytes) (n : ℕ) (x : Bench) → opens_bench (cmd_w b n x) ≡ false
unfolding cmd_w opens_bench
cmd_w-locks b n x = ground arith

cmd_r-locks : (b : Bytes) (n : ℕ) (x : Bench) → opens_bench (cmd_r b n x) ≡ false
unfolding cmd_r opens_bench
cmd_r-locks b n x = ground arith

opens-bind :
    {P W A : Type 0} (m : Run A) (f : A → Run (Reply × Firmware P W))
    → ((a : A) → opens (f a) ≡ false)
    → opens (m >>= f) ≡ false
unfolding opens
opens-bind (returns a) f h = h a
opens-bind faults f h = refl
opens-bind waits f h = refl

module _ {P W : Type 0} (o : Outside P W) where
  w_locks : (b : Bytes) (n : ℕ) (s : Firmware P W) → opens (run_w o b n s) ≡ false
  unfolding opens run_w opens_bench
  w_locks b n s =
      ground
        (arith, cmd_w-locks b n (record { is_unlocked = s.is_unlocked; registers = s.registers }))

  raw_locks : (b : Bytes) (n : ℕ) (s : Firmware P W) → opens (run_tx_raw o b n s) ≡ false
  unfolding opens run_tx_raw cmd_tx_raw
  raw_locks b n s = ground arith

  -- The other commands leave the lock as it is.
  tx_keeps :
      (b : Bytes) (n : ℕ) (s : Firmware P W)
      → s.is_unlocked ≡ false
      → opens (run_tx o b n s) ≡ false
  unfolding opens run_tx
  tx_keeps b n s h = search opens-bind

  rx_keeps :
      (b : Bytes) (n : ℕ) (s : Firmware P W)
      → s.is_unlocked ≡ false
      → opens (run_rx o b n s) ≡ false
  unfolding opens run_rx
  rx_keeps b n s h = search opens-bind

  fput_keeps :
      (b : Bytes) (n : ℕ) (s : Firmware P W)
      → s.is_unlocked ≡ false
      → opens (run_fput o b n s) ≡ false
  unfolding opens run_fput
  fput_keeps b n s h = search opens-bind

  fget_keeps :
      (b : Bytes) (n : ℕ) (s : Firmware P W)
      → s.is_unlocked ≡ false
      → opens (run_fget o b n s) ≡ false
  unfolding opens run_fget
  fget_keeps b n s h = search opens-bind

  update_keeps :
      (b : Bytes) (n : ℕ) (s : Firmware P W)
      → s.is_unlocked ≡ false
      → opens (run_update_cmd o b n s) ≡ false
  unfolding opens run_update_cmd
  update_keeps b n s h = search opens-bind

  nmea_keeps :
      (b : Bytes) (n : ℕ) (s : Firmware P W)
      → s.is_unlocked ≡ false
      → opens (run_gnss_nmea o b n s) ≡ false
  unfolding opens run_gnss_nmea
  nmea_keeps b n s h = search opens-bind

  enable_keeps :
      (b : Bytes) (n : ℕ) (s : Firmware P W)
      → s.is_unlocked ≡ false
      → opens (run_gnss_enable o b n s) ≡ false
  unfolding opens run_gnss_enable
  enable_keeps b n s h = h

  location_keeps :
      (b : Bytes) (n : ℕ) (s : Firmware P W)
      → s.is_unlocked ≡ false
      → opens (run_gnss_location o b n s) ≡ false
  unfolding opens run_gnss_location
  location_keeps b n s h = h

  status_keeps :
      (b : Bytes) (n : ℕ) (s : Firmware P W)
      → s.is_unlocked ≡ false
      → opens (run_gnss_status o b n s) ≡ false
  unfolding opens run_gnss_status
  status_keeps b n s h = h

  r_locks : (b : Bytes) (n : ℕ) (s : Firmware P W) → opens (run_r o b n s) ≡ false
  unfolding opens run_r opens_bench
  r_locks b n s =
      ground
        (arith, cmd_r-locks b n (record { is_unlocked = s.is_unlocked; registers = s.registers }))

  unlock_opens :
      (b : Bytes) (n : ℕ) (s : Firmware P W)
      → s.is_unlocked ≡ false
      → starts_with (codes " UNLOCK") b && n == 7 ≡ false
      → opens (run_unlock o b n s) ≡ false
  unfolding opens run_unlock cmd_unlock
  unlock_opens b n s l h = ground arith

starts_with-append :
    (a b buf : Bytes)
    → starts_with (a ++ b) buf ≡ (starts_with a buf && starts_with b (drop (length a) buf))
unfolding starts_with
starts_with-append [] b buf = refl
starts_with-append (x ∷ xs) b [] = refl
starts_with-append (x ∷ xs) b (y ∷ buf) = ground (arith, starts_with-append xs b buf)

-- A line that names UNLOCK, and is not `$UNLOCK UNLOCK`, has another parameter.
other_parameter :
    (b : Bytes) (n : ℕ)
    → is_unlock_line b n ≡ false
    → n < 2 ^ 16
    → is_named b n (codes "$UNLOCK") ≡ true
    → starts_with (codes " UNLOCK") (drop 7 b) && rest_len n 7 == 7 ≡ false
unfolding is_unlock_line
other_parameter b n h small named =
    let both = starts_with-append (codes "$UNLOCK") (codes " UNLOCK") b in
    let len : rest_len n 7 ≡ 7 → n ≡ 14 = λ e. omega arith in ground (arith, both, len)

-- CmdAsciiParse on any line of fewer than 65536 characters but `$UNLOCK UNLOCK` leaves the lock in
-- front of UPDATE closed where it is closed, whatever the calls of the other commands answer; and a lock
-- that is closed makes UPDATE answer NG, without a change.
pub cmd_ascii_parse-lock :
    {P W : Type 0} (o : Outside P W) (b : Bytes) (n : ℕ) (s : Firmware P W)
    → s.is_unlocked ≡ false
    → is_unlock_line b n ≡ false
    → n < 2 ^ 16
    → (opens (cmd_ascii_parse o b n s) ≡ false)
      × (run_update_cmd o b n s ≡ returns (text res_ng, s))
unfolding cmd_ascii_parse cmdfunc AllHold opens run_update_cmd cmd_update
cmd_ascii_parse-lock o b n s l h small = (
  parse_table-Holds (λ r. opens r ≡ false) b n s (cmdfunc o) l
      (search (
        w_locks, r_locks, raw_locks, tx_keeps, rx_keeps, fput_keeps, fget_keeps, keeps,
        update_keeps, enable_keeps, location_keeps, nmea_keeps, status_keeps,
      )),
  rw l refl,
)
  where
    keeps :
        (is_named b n (codes "$UNLOCK") ≡ true
          → opens (run_unlock o (drop 7 b) (rest_len n 7) s) ≡ false)
    keeps = λ e. unlock_opens o _ _ s l (other_parameter b n h small e)
