-- ===== src/Tests/FileRuns.antt =====
-- An upload, a download and an update over a service that answers each request for a URL with `http://h/p`.
use sipf_std_client_nrf.ClientHttp.UrlParts.{split_of}
use sipf_std_client_nrf.ClientHttp.{Net, Response, cut_cr, run_request}
use sipf_std_client_nrf.Fota.{Fota, FotaEvent, Updater, fota_progress, fota_error, fota_other}
use sipf_std_client_nrf.Libc.{c_string, memcpy, same_text, strncpy_text}
use sipf_std_client_nrf.Prelude.{
  ℕ, ◌+◌, ◌≡◌, refl, some, none, [], ◌∷◌, List, ◌++◌, false, pos, Bytes, length, replicate, codes,
}
use sipf_std_client_nrf.SipfFile.Download.Url.{file_download-url_of}
use sipf_std_client_nrf.SipfFile.Download.{Callback, file_download, fetch}
use sipf_std_client_nrf.SipfFile.UploadUrl.{file_upload-url_of}
use sipf_std_client_nrf.SipfFile.{
  Files, download, upload, request_url, file_upload, upload_at, take_responses, http_request_cb,
  run_file_request,
}
use sipf_std_client_nrf.Tests.FirmwareRuns.{offline, client, files, file_cfg, outside}

abbrev answer : Response
answer = record {
  http_status = codes "OK";
  http_status_code = 200;
  content_length = 10;
  data_len = 10;
  body_frag_start = 0;
}

abbrev body : Bytes
body = codes "http://h/p" ++ replicate 22 0

abbrev serving : Net ℕ
serving = record offline {
  getaddrinfo = λ h w. (pos 0, w);
  http_client_req =
      λ r t buf w. (record { ret = pos 1; responses = answer ∷ []; recv_buf = body }, w);
}

-- The client behind the request for a URL.
abbrev answered : Files ℕ
answered = record files {
  client = record client { httpc_res_buff = body };
  path_endpoint = codes "/f/id/" ++ replicate 14 0;
  url_res = answer;
}

upload_answered :
    request_url serving file_cfg upload (codes "id") files.image_url files
    ≡ some (pos 10, codes "http://h/p" ++ 0 ∷ 0 ∷ replicate 8 0, answered)
unfolding request_url run_file_request run_request memcpy strncpy_text same_text take_responses
    http_request_cb
upload_answered = refl

download_answered :
    request_url serving file_cfg download (codes "id") files.image_url files
    ≡ some (pos 10, codes "http://h/p" ++ 0 ∷ 0 ∷ replicate 8 0, answered)
unfolding request_url run_file_request run_request memcpy strncpy_text same_text take_responses
    http_request_cb
download_answered = refl

file_upload-url_of_example :
    file_upload serving file_cfg (codes "id") (codes "data") none (pos 4) files
    ≡ upload_at serving file_cfg
        (codes "id")
        (codes "data")
        none
        (pos 4)
        (codes "h")
        (b'/' ∷ codes "p")
        false
        (record answered {
          image_url = split_of (codes "http") (codes "h") (b'/' ∷ (codes "p" ++ 0 ∷ replicate 8 0));
        })
unfolding same_text
file_upload-url_of_example =
    file_upload-url_of serving file_cfg (codes "id") (codes "data") (codes "http") (codes "h")
      (codes "p") (replicate 8 0) 0 false none (pos 4) files answered
      (refl, refl, refl, (refl, refl, refl, (refl, refl, refl, (refl, refl, refl, tt))))
      (refl, refl, refl, tt) (refl, refl, refl, tt) refl upload_answered

-- A callback that counts the bytes.
abbrev counting : Callback ℕ ℕ
counting buf n w = (pos 0, n + length buf, w)

-- what stands behind the URL in `image_url`
abbrev behind_url : Bytes
behind_url = 0 ∷ 0 ∷ replicate 8 0

file_download-url_of_example :
    file_download serving file_cfg outside.downloader (codes "id") 1024 counting 0 files
    ≡ fetch serving file_cfg outside.downloader counting
        (codes "h")
        (codes "p" ++ c_string behind_url)
        false
        1024
        0
        (record answered {
          image_url = split_of (codes "http") (codes "h") (codes "p" ++ behind_url);
        })
unfolding same_text cut_cr
file_download-url_of_example =
    file_download-url_of serving file_cfg outside.downloader counting (codes "id") (codes "http")
      (codes "h") (codes "p") behind_url behind_url false 1024 0 files answered
      (refl, refl, refl, (refl, refl, refl, (refl, refl, refl, (refl, refl, refl, tt))))
      (refl, refl, refl, tt) (refl, refl, refl, tt) refl refl download_answered

-- The client behind the request for the image.
abbrev asked : Files ℕ
asked = record answered { path_endpoint = codes "/f/app_update.bin/" ++ 0 ∷ 0 ∷ [] }

-- A library whose download fails behind the first piece.
abbrev breaks : List FotaEvent
breaks = fota_progress 10 ∷ fota_error ∷ fota_other ∷ []

abbrev breaking : Updater ℕ
breaking = record {
  earlier = λ w. ([], w);
  init = λ w. (pos 0, w);
  start = λ h p t w. (pos 0, breaks, w);
}

abbrev resting : Fota ℕ
resting = record { image_url = files.image_url; failed = false; files = files }
