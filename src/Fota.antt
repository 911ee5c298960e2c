-- ===== src/Fota.antt =====
-- src/fota/fota_http.c: the firmware update. The download library and the reboot are the record
-- `Updater`; the update runs in a thread of the library while FotaHttpRun waits for the semaphore
-- that a failure gives.
pub mod Url
use sipf_std_client_nrf.ClientHttp.{Net, UrlState, parse_url}
use sipf_std_client_nrf.Libc.{c_string, decimal}
use sipf_std_client_nrf.Prelude.Runs.{Run, returns, waits, lift, ◌>>=◌}
use sipf_std_client_nrf.Prelude.{
  ℕ, Bool, true, false, ◌++◌, none, some, [], ◌∷◌, List, if◌then◌else◌, ℤ, pos, negsuc, is_zero,
  ltb, Bytes, drop, codes,
}
use sipf_std_client_nrf.SipfFile.{FileConfig, Files, download, request_url, url_strings, tls_of}
use sipf_std_client_nrf.UartBroker.{puts}
use sipf_std_client_nrf.Zephyr.{Kernel}

-- FOTA_DOWNLOAD_EVT_*
pub data FotaEvent : Type 0 where
  fota_error fota_finished fota_other : FotaEvent
  fota_progress : ℕ → FotaEvent

-- fota_download_*: `start` gets the host, the path and the tag of the certificate, and says which
-- events come before FotaHttpRun goes on behind its wait. `earlier` are the events of earlier
-- downloads that have come since.
pub record Updater (W : Type 0) : Type 0 where
  pub earlier : W → List FotaEvent × W
  pub init : W → ℤ × W
  pub start : Bytes → Bytes → ℤ → W → ℤ × List FotaEvent × W

-- "%3d%% DOWNLOADED\r\n"
abbrev pub progress_text : ℕ → Bytes
progress_text n =
    let pad = if ltb n 10 then codes "  " else if ltb n 100 then codes " " else [] in
    pad ++ (decimal n ++ codes "% DOWNLOADED\r\n")

-- How an event ends the wait: not at all, by the semaphore, or by the reboot.
pub data Ends : Type 0 where
  goes_on gives_sem reboots : Ends

module _ {W : Type 0} (k : Kernel W) where
  unfoldable pub fota_dl_event_handler : FotaEvent → W → Ends × W
  fota_dl_event_handler fota_error w = (gives_sem, puts k (codes "FOTA DOWNLOAD FAILED\r\n") w)
  fota_dl_event_handler (fota_progress n) w = (goes_on, puts k (progress_text n) w)
  fota_dl_event_handler fota_finished w = (
    reboots,
    puts k (codes "REBOOT & RUN UPDATE\r\n") (puts k (codes "FOTA DOWNLOAD FINISHED\r\n") w),
  )
  fota_dl_event_handler fota_other w = (goes_on, w)

  -- The events, one behind the other, and whether the semaphore is given behind them; it counts up
  -- to 1. Nothing is behind the reboot.
  unfoldable pub deliver : List FotaEvent → Bool → W → Run (Bool × W)
  deliver [] given w = returns (given, w)
  deliver (e ∷ es) given w =
      let (ends, w') = fota_dl_event_handler e w in
      elim ends [ goes_on ↦ deliver es given w' | gives_sem ↦ deliver es true w' | reboots ↦ waits ]

  -- The wait without end for the semaphore, which it takes, behind the events.
  unfoldable pub await_failure : List FotaEvent → Bool → W → Run W
  await_failure es given w = do
    (given', w') ← deliver es given w
    if given' then returns w' else waits

-- The static array, whether `sem_download_failed` is given, and the file client.
pub record Fota (W : Type 0) : Type 0 where
  pub image_url : Bytes
  pub failed : Bool
  pub files : Files W

-- the state with another world and another count of the semaphore
abbrev pub at_world : {W : Type 0} → Fota W → Bool → W → Fota W
at_world f given w = record f {
  failed = given;
  files = record f.files { client = record f.files.client { world = w } };
}

-- the line that names the file
abbrev pub said_file : {W : Type 0} → Kernel W → Bytes → W → W
said_file k file_name_suffix w =
    puts k (codes "\r\n") (puts k file_name_suffix (puts k (codes "DOWNLOAD FILE: ") w))

module _ {W : Type 0} (k : Kernel W) (net : Net W) (cfg : FileConfig) (up : Updater W) where
  abbrev pub tls_tag : ℤ
  tls_tag = pos 42

  -- from fota_download_init on, with the semaphore that earlier downloads left
  update_from : Bytes → Bytes → Bytes → ℤ → Fota W → Bool → W → Run (ℤ × Fota W)
  update_from file_name_suffix host path sec_tag f given w =
      let (r₁, w₁) = up.init w in
      let (r₂, events, w₃) = up.start host path sec_tag (said_file k file_name_suffix w₁) in
      let w₄ = puts k (codes "FOTA DOWNLOAD START\r\n") w₃ in
      let failure =
        await_failure k events given w₄ >>= λ w'. returns (negsuc 0, at_world f false w') in
      if is_zero r₁
      then (if is_zero r₂ then failure else returns (r₂, at_world f given w₃))
      else returns (r₁, at_world f given w₁)

  unfoldable pub fota_update : Bytes → Bytes → Bytes → ℤ → Fota W → Run (ℤ × Fota W)
  unfolding update_from
  fota_update file_name_suffix host path sec_tag f = do
    let (es, w) = up.earlier f.files.client.world
    (given, w') ← deliver k es f.failed w
    update_from file_name_suffix host path sec_tag f given w'

  -- behind SipfClientHttpParseURL: its result, and the buffer with the pointers
  fota_split : Bytes → Fota W → ℤ × UrlState → Run (ℤ × Fota W)
  fota_split file_name_suffix f (ret, u) =
      let f₁ = record f { image_url = u.buf } in
      if is_zero ret
      then elim (url_strings u) [
        | none ↦ returns (negsuc 0, f₁)
        | some s ↦ elim (tls_of s.prot) [
          | none ↦ returns (negsuc 0, f₁)
          | some tls ↦
              fota_update file_name_suffix s.host (c_string (drop s.path_at u.buf))
                (if tls then tls_tag else negsuc 0) f₁
        ]
      ]
      else returns (negsuc 0, f₁)

  -- from SipfClientHttpParseURL on, for a URL of `n` characters
  unfoldable pub fota_from : Bytes → ℕ → Fota W → Run (ℤ × Fota W)
  unfolding fota_split
  fota_from file_name_suffix n f = lift (parse_url f.image_url n) >>= fota_split file_name_suffix f

  unfoldable pub fota_http_run : Bytes → Fota W → Run (ℤ × Fota W)
  fota_http_run file_name_suffix f = do
    (ret, url, files) ← lift (request_url net cfg download file_name_suffix f.image_url f.files)
    let f' : Fota W = record { image_url = url; failed = f.failed; files = files }
    elim ret [ negsuc e ↦ returns (negsuc 0, f') | pos n ↦ fota_from file_name_suffix n f' ]
