-- ===== src/CmdAscii/Admin.antt =====
-- src/cmd_ascii.c: the commands UNLOCK and UPDATE. `in_buff` is the buffer behind the name of the
-- command. `faults` is an access outside an array.
pub mod Update
use sipf_std_client_nrf.ClientHttp.{Net}
use sipf_std_client_nrf.Cmd.{Reply, text}
use sipf_std_client_nrf.CmdAscii.{res_ill_param, res_ok, res_ng}
use sipf_std_client_nrf.Fota.{Fota, Updater, fota_http_run}
use sipf_std_client_nrf.Libc.{starts_with, c_string}
use sipf_std_client_nrf.Prelude.Runs.{Run, returns, faults, ◌>>=◌}
use sipf_std_client_nrf.Prelude.{
  ℕ, Bool, true, false, not, ◌==◌, if◌then◌else◌, ltb, is_zero, Bytes, length, get_or, set, drop,
  codes,
}
use sipf_std_client_nrf.SipfFile.{FileConfig}
use sipf_std_client_nrf.Zephyr.{Kernel}

-- The answer, and what `is_unlocked` is then.
unfoldable pub cmd_unlock : Bytes → ℕ → Bool → Reply × Bool
cmd_unlock in_buff in_len is_unlocked =
    if not (get_or in_buff 0 0 == 0x20)
    then (text res_ill_param, is_unlocked)
    else if not (in_len == 7)
    then (text res_ill_param, is_unlocked)
    else if starts_with (codes " UNLOCK") in_buff
    then (text res_ok, true)
    else (text res_ill_param, false)

module _ {W : Type 0} (k : Kernel W) (net : Net W) (cfg : FileConfig) (up : Updater W) where
  -- FotaHttpRun returns after a failure only.
  unfoldable pub run_update : Bytes → Fota W → Run (Reply × Fota W)
  run_update file_name_suffix f = do
    (ret, f') ← fota_http_run k net cfg up file_name_suffix f
    returns (text (if is_zero ret then res_ok else res_ng), f')

  -- behind the check of the lock
  unfoldable pub unlocked_update : Bytes → ℕ → Fota W → Run (Reply × Fota W)
  unlocked_update in_buff in_len f =
      if ltb in_len 7
      then returns (text res_ill_param, f)
      else if starts_with (codes " UPDATE") in_buff
      then (if in_len == 7
          then run_update (codes "app_update.bin") f
          else returns (text res_ill_param, f))
      else if starts_with (codes " VERSION ") in_buff
      then (if ltb in_len 10
          then returns (text res_ill_param, f)
          else if not (ltb in_len (length in_buff))
          then faults
          else run_update (c_string (drop 9 (set in_buff in_len 0))) f)
      else returns (text res_ill_param, f)

  unfoldable pub cmd_update : Bytes → ℕ → Bool → Fota W → Run (Reply × Fota W)
  cmd_update in_buff in_len is_unlocked f =
      if is_unlocked then unlocked_update in_buff in_len f else returns (text res_ng, f)
