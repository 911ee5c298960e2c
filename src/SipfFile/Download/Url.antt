-- ===== src/SipfFile/Download/Url.antt =====
-- lib/sipf/src/sipf_file.c: SipfFileDownload from the URL on, over the split of the HTTP client.
use sipf_std_client_nrf.ClientHttp.SplitUrl.{AllPass, at}
use sipf_std_client_nrf.ClientHttp.UrlParts.{url_of, split_of, parse_url-url_of}
use sipf_std_client_nrf.ClientHttp.UrlStrings.{split_of-strings}
use sipf_std_client_nrf.ClientHttp.{Net, protocol_end, host_end, path_end, cut_cr, parse_url}
use sipf_std_client_nrf.Libc.{c_string}
use sipf_std_client_nrf.Prelude.Runs.{lift, ◌>>=◌}
use sipf_std_client_nrf.Prelude.{ℕ, ◌+◌, ◌≡◌, ◌∙◌, refl, ap, Bool, some, ◌++◌, pos, Bytes, length}
use sipf_std_client_nrf.SipfFile.Download.{
  Callback, Downloader, fetch, fetch_split, fetch_from, file_download,
}
use sipf_std_client_nrf.SipfFile.{FileConfig, Files, download, request_url, tls_of, url_strings}

-- The strings behind the pointers of a parse of `scheme://host/path`.
pub url_strings-url_of :
    (scheme host path post : Bytes)
    → AllPass protocol_end scheme
    → AllPass host_end host
    → AllPass path_end path
    → let buf = split_of scheme host (path ++ post) in
      url_strings
        (at buf path_end (some (length scheme + 3)) (some (length scheme + 3 + length host + 1)))
      ≡ some (record { prot = scheme; host = host; path_at = length scheme + 3 + length host + 1 })
url_strings-url_of scheme host path post hs hh hp =
    let (prot, name, rest) = split_of-strings scheme host path post hs hh hp in rw (prot, name) refl

module _ {S W : Type 0} (net : Net W) (cfg : FileConfig) (dl : Downloader W) where
  fetch_from-url_of :
      (cb : Callback S W) (scheme host path post cut : Bytes) (tls : Bool) (sz : ℕ) (s : S)
      (f : Files W)
      → AllPass protocol_end scheme
      → AllPass host_end host
      → AllPass path_end path
      → tls_of scheme ≡ some tls
      → cut_cr post ≡ some cut
      → f.image_url ≡ url_of scheme host path ++ post
      → fetch_from net cfg dl cb sz (length (url_of scheme host path)) s f
        ≡ fetch net cfg dl cb host
            (path ++ c_string cut)
            tls
            sz
            s
            (record f { image_url = split_of scheme host (path ++ cut) })
  unfolding fetch_from fetch_split
  fetch_from-url_of cb scheme host path post cut tls sz s f hs hh hp t ends e =
      let split =
        ap (λ b. parse_url b (length (url_of scheme host path))) e
        ∙ parse_url-url_of scheme host path post cut hs hh hp ends in
      let (prot, name, rest) = split_of-strings scheme host path cut hs hh hp in
      ap (λ r. lift r >>= fetch_split net cfg dl cb sz s f) split
      ∙ rw (fetch_split, prot, t, name, rest) refl

  -- SipfFileDownload, where the service answers `scheme://host/path` to the request for a URL, and a
  -- CR or a NUL stands behind it in `image_url`: the download client gets this host, TLS by the
  -- scheme, and as the path `path` with whatever text an earlier URL left behind it in `image_url`,
  -- up to the CR or NUL; the result is that of the download.
  pub file_download-url_of :
      (cb : Callback S W) (file_id scheme host path post cut : Bytes) (tls : Bool) (sz : ℕ) (s : S)
      (f f' : Files W)
      → AllPass protocol_end scheme
      → AllPass host_end host
      → AllPass path_end path
      → tls_of scheme ≡ some tls
      → cut_cr post ≡ some cut
      → request_url net cfg download file_id f.image_url f
        ≡ some (pos (length (url_of scheme host path)), url_of scheme host path ++ post, f')
      → file_download net cfg dl file_id sz cb s f
        ≡ fetch net cfg dl cb host
            (path ++ c_string cut)
            tls
            sz
            s
            (record f' { image_url = split_of scheme host (path ++ cut) })
  unfolding file_download
  file_download-url_of cb file_id scheme host path post cut tls sz s f f' hs hh hp t ends e =
      let f'' = record f' { image_url = url_of scheme host path ++ post } in
      rw (file_download, e)
        (fetch_from-url_of cb scheme host path post cut tls sz s f'' hs hh hp t ends refl)
