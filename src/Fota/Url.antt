-- ===== src/Fota/Url.antt =====
-- src/fota/fota_http.c: FotaHttpRun from the URL on, over the split of the HTTP client, and how the
-- download's events end it.
use sipf_std_client_nrf.ClientHttp.SplitUrl.{AllPass}
use sipf_std_client_nrf.ClientHttp.UrlParts.{url_of, split_of, parse_url-url_of}
use sipf_std_client_nrf.ClientHttp.UrlStrings.{split_of-strings}
use sipf_std_client_nrf.ClientHttp.{Net, protocol_end, host_end, path_end, cut_cr}
use sipf_std_client_nrf.Fota.{
  Fota, FotaEvent, fota_error, fota_finished, fota_other, fota_progress, Updater, deliver,
  await_failure, fota_dl_event_handler, fota_update, fota_split, fota_from, fota_http_run, tls_tag,
}
use sipf_std_client_nrf.Libc.{c_string}
use sipf_std_client_nrf.Prelude.Runs.{Run, returns, waits, lift, ◌>>=◌}
use sipf_std_client_nrf.Prelude.{
  ◌≡◌, ◌∙◌, refl, ap, Bool, not, ◌||◌, ◌&&◌, true, false, some, [], ◌∷◌, ◌++◌, List, if◌then◌else◌,
  pos, negsuc, Bytes, length,
}
use sipf_std_client_nrf.SipfFile.{FileConfig, Files, download, request_url, tls_of}
use sipf_std_client_nrf.Zephyr.{Kernel}

unfoldable pub is_error : FotaEvent → Bool
is_error fota_error = true
is_error fota_finished = false
is_error fota_other = false
is_error (fota_progress n) = false

unfoldable pub is_finished : FotaEvent → Bool
is_finished fota_error = false
is_finished fota_finished = true
is_finished fota_other = false
is_finished (fota_progress n) = false

-- Whether an event of a download is one of these.
unfoldable pub some_event : (FotaEvent → Bool) → List FotaEvent → Bool
some_event p [] = false
some_event p (e ∷ es) = p e || some_event p es

-- A download that fails: there is an error, and no end of the download.
abbrev pub fails : List FotaEvent → Bool
fails es = not (some_event is_finished es) && some_event is_error es

-- The wait for the failure comes to an end, or it does not.
abbrev pub Ended : {W : Type 0} → Bool → Run W → Type 0
Ended {W} true r = (w : W) × (r ≡ returns w)
Ended false r = r ≡ waits

module _ {W : Type 0} (k : Kernel W) where
  -- The wait where the semaphore counts `given` in front of the events.
  await_given-Ended :
      (es : List FotaEvent) (given : Bool) (w : W)
      → Ended
          (not (some_event is_finished es) && (given || some_event is_error es))
          (await_failure k es given w)
  unfolding some_event is_error is_finished await_failure deliver fota_dl_event_handler
  await_given-Ended [] true w = (w, refl)
  await_given-Ended [] false w = refl
  await_given-Ended (fota_error ∷ es) true w = await_given-Ended es true _
  await_given-Ended (fota_error ∷ es) false w = await_given-Ended es true _
  await_given-Ended (fota_finished ∷ es) true w = refl
  await_given-Ended (fota_finished ∷ es) false w = refl
  await_given-Ended (fota_progress n ∷ es) given w = await_given-Ended es given _
  await_given-Ended (fota_other ∷ es) given w = await_given-Ended es given _

  pub await_failure-Ended :
      (es : List FotaEvent) (w : W) → Ended (fails es) (await_failure k es false w)
  await_failure-Ended es w = await_given-Ended es false w

module _ {W : Type 0} (k : Kernel W) (net : Net W) (cfg : FileConfig) (up : Updater W) where
  -- FotaHttpRun, where the service answers `scheme://host/path`.
  pub fota_http_run-url_of :
      (file scheme host path post cut : Bytes) (tls : Bool) (f : Fota W) (files : Files W)
      → AllPass protocol_end scheme
      → AllPass host_end host
      → AllPass path_end path
      → tls_of scheme ≡ some tls
      → cut_cr post ≡ some cut
      → request_url net cfg download file f.image_url f.files
        ≡ some (pos (length (url_of scheme host path)), url_of scheme host path ++ post, files)
      → fota_http_run k net cfg up file f
        ≡ fota_update k net cfg up file host
            (path ++ c_string cut)
            (if tls then tls_tag k net cfg up else negsuc 0)
            (record {
              image_url = split_of scheme host (path ++ cut);
              failed = f.failed;
              files = files;
            })
  unfolding fota_http_run fota_from fota_split
  fota_http_run-url_of file scheme host path post cut tls f files hs hh hp t ends e =
      let f₁ : Fota W = record {
        image_url = url_of scheme host path ++ post;
        failed = f.failed;
        files = files;
      } in
      let split = parse_url-url_of scheme host path post cut hs hh hp ends in
      let (prot, name, rest) = split_of-strings scheme host path cut hs hh hp in
      rw (fota_http_run, e)
        (ap (λ r. lift r >>= fota_split k net cfg up file f₁) split
          ∙ rw (fota_split, prot, t, name, rest) refl)
