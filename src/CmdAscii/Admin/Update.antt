-- ===== src/CmdAscii/Admin/Update.antt =====
-- src/cmd_ascii.c: the command UPDATE, down to the download of src/fota/fota_http.c.
use sipf_std_client_nrf.ClientHttp.{Net}
use sipf_std_client_nrf.Cmd.{Reply, text}
use sipf_std_client_nrf.CmdAscii.{res_ng}
use sipf_std_client_nrf.Fota.{Fota, Updater}
use sipf_std_client_nrf.Prelude.Runs.{Run, returns, waits}
use sipf_std_client_nrf.Prelude.{◌≡◌, Bool, true, false, Bytes, codes}
use sipf_std_client_nrf.SipfFile.{FileConfig}
use sipf_std_client_nrf.Zephyr.{Kernel}

-- `app_update.bin`, the file of UPDATE without a version
abbrev pub app_update : Bytes
app_update = codes "app_update.bin"

module _ {W : Type 0} (k : Kernel W) (net : Net W) (cfg : FileConfig) (up : Updater W) where
  -- The answer to UPDATE: NG, or none.
  abbrev pub Answered : Bool → Run (Reply × Fota W) → Type 0
  Answered true r = (f : Fota W) × (r ≡ returns (text res_ng, f))
  Answered false r = r ≡ waits
