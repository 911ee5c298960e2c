-- ===== src/SipfFile.antt =====
-- lib/sipf/src/sipf_file.c: the URL requests, the upload of a file and its notification. `none` is
-- an access outside an array. The download is the child Download.
pub mod Download
pub mod Paths
pub mod UploadUrl
use sipf_std_client_nrf.ClientHttp.{
  Net, Method, Response, UrlState, parse_url, run_request, no_response,
}
use sipf_std_client_nrf.Libc.{memcpy, same_text, c_string, strlen, strncpy_text, decimal}
use sipf_std_client_nrf.Prelude.Faults.{◌>>=◌, ◌>>◌}
use sipf_std_client_nrf.Prelude.{
  ℕ, zero, suc, ◌+◌, Bool, true, false, not, Option, none, some, [], ◌∷◌, ◌++◌, List, ltb,
  if◌then◌else◌, ℤ, pos, negsuc, is_neg, is_zero, Bytes, length, take, drop, codes,
}
use sipf_std_client_nrf.SipfObject.Client.{Client, res_cleared}

-- CONFIG_SIPF_FILE_REQ_URL_HOST, the two sides of the %s in CONFIG_SIPF_FILE_REQ_URL_PATH, and
-- whether the requests for URLs use TLS.
pub record FileConfig : Type 0 where
  pub host : Bytes
  pub prefix : Bytes
  pub suffix : Bytes
  pub ssl : Bool

-- The statics: the arrays, and the `http_res` of each of the four requests.
pub record Files (W : Type 0) : Type 0 where
  pub client : Client W
  -- whether `sem_dl_finish` is given, and `dl_cb_err`
  pub dl_finish : Bool
  pub dl_cb_err : ℤ
  pub path_endpoint : Bytes
  pub image_url : Bytes
  pub url_res : Response
  pub complete_res : Response
  pub upload_res : Response
  pub callback_res : Response

-- A later response takes the place of an earlier one.
unfoldable pub http_request_cb : Response → Response → Response
http_request_cb resp ur = if ltb 0 resp.data_len then resp else ur

unfoldable pub take_responses : List Response → Response → Response
take_responses [] ur = ur
take_responses (r ∷ rs) ur = take_responses rs (http_request_cb r ur)

pub data UrlType : Type 0 where
  download upload : UrlType

abbrev pub method_of : UrlType → Method
method_of download = Method.get
method_of upload = Method.put

abbrev pub connection_close : Bytes
connection_close = codes "Connection: Close\r\n"

-- sprintf("%d") of an `int`
abbrev pub decimal_int : ℤ → Bytes
decimal_int (pos n) = decimal n
decimal_int (negsuc n) = b'-' ∷ decimal (suc n)

-- What sipf_file.c calls a URL's parts: the strings behind `prot`, `host` and `path`, the last with
-- its place.
pub record UrlStrings : Type 0 where
  pub prot : Bytes
  pub host : Bytes
  pub path_at : ℕ

-- The three pointers are not NULL. `prot` leads to the start of the buffer.
abbrev pub url_strings : UrlState → Option UrlStrings
url_strings u = elim u.host [
  | none ↦ none
  | some h ↦ elim u.path [
    | none ↦ none
    | some p ↦ some (record { prot = c_string u.buf; host = c_string (drop h u.buf); path_at = p })
  ]
]

-- "https" or "http"
abbrev pub tls_of : Bytes → Option Bool
tls_of prot =
    if same_text prot (codes "https")
    then some true
    else if same_text prot (codes "http")
    then some false
    else none

-- The loop that moves the path one place up, NUL included, and the '/' in front of it.
unfoldable pub slash_path : Bytes → ℕ → Option Bytes
slash_path url p = do n ← strlen (drop p url); memcpy url p (b'/' ∷ take (n + 1) (drop p url))

module _ {W : Type 0} (net : Net W) (cfg : FileConfig) where
  -- SipfClientHttpRunRequest with the receive buffer of the client, and the response it leaves in
  -- the static `http_res`.
  unfoldable pub run_file_request :
      Method
      → Bytes
      → Bytes
      → List Bytes
      → Bytes
      → Option (W → ℤ × W)
      → Bool
      → Response
      → Files W
      → ℤ × Response × Files W
  run_file_request method host url headers payload cb tls res f =
      let c = f.client in
      let (x, w') =
        run_request net host
          (record {
            method = method;
            url = url;
            host = host;
            payload = payload;
            header_fields = headers;
            payload_cb = cb;
          })
          3000 c.httpc_res_buff tls c.world in
      (
        x.ret,
        take_responses x.responses res,
        record f { client = record c { httpc_res_buff = x.recv_buf; world = w' } },
      )

  -- strncpy(url, body, content_length), behind the checks of the status and the length
  copy_url : Response → Bytes → Bytes → Option (ℤ × Bytes)
  copy_url res buf url =
      if not (same_text res.http_status (codes "OK"))
      then some (negsuc 0, url)
      else if ltb (length url) res.content_length
      then some (negsuc 0, url)
      else do
        text ← strncpy_text (drop res.body_frag_start buf) res.content_length
        url' ← memcpy url 0 text
        some (pos res.content_length, url')

  -- `url` is the array of the caller, and `sz_url` its size. The result, that array, and the rest.
  unfoldable pub request_url : UrlType → Bytes → Bytes → Files W → Option (ℤ × Bytes × Files W)
  unfolding copy_url run_file_request
  request_url req_type file_id url f =
      if ltb (length f.path_endpoint) (length cfg.prefix + 2 + length cfg.suffix + length file_id)
      then some (negsuc 0, url, f)
      else do
        ep ← memcpy f.path_endpoint 0 (cfg.prefix ++ (file_id ++ (cfg.suffix ++ 0 ∷ [])))
        let (ret, res, f') =
            run_file_request (method_of req_type) cfg.host (c_string ep)
              (connection_close ∷ f.client.auth_header ∷ []) [] none cfg.ssl f.url_res
              (record f { path_endpoint = ep })
        let f'' = record f' { url_res = res }
        if is_neg ret
            then some (ret, url, f'')
            else do (r, url') ← copy_url res f''.client.httpc_res_buff url; some (r, url', f'')

  abbrev sizeof_pointer : ℕ
  sizeof_pointer = 4

  -- The request for the completion, at the path that `path_endpoint` holds.
  unfoldable pub notify_complete : Files W → ℤ × Files W
  unfolding run_file_request
  notify_complete f =
      let (ret, res, f') =
        run_file_request Method.put cfg.host (c_string f.path_endpoint)
          (connection_close ∷ codes "Content-Type: text/plain\r\n" ∷ f.client.auth_header ∷ []) []
          none cfg.ssl f.complete_res f in
      let f'' = record f' { complete_res = res } in
      if is_neg ret
      then (ret, f'')
      else if same_text res.http_status (codes "OK")
      then (pos 0, f'')
      else (negsuc 0, f'')

  -- `sizeof(file_id)` is the size of a pointer.
  unfoldable pub upload_complete : Bytes → Files W → Option (ℤ × Files W)
  upload_complete file_id f =
      if ltb (length f.path_endpoint) (length cfg.prefix + 2 + length cfg.suffix + sizeof_pointer)
      then some (negsuc 0, f)
      else do
        ep ←
            memcpy f.path_endpoint 0
              (cfg.prefix ++ (file_id ++ (cfg.suffix ++ (codes "complete/" ++ 0 ∷ []))))
        some (notify_complete (record f { path_endpoint = ep }))

  -- the status of an upload
  upload_ret : ℤ → Response → ℤ
  upload_ret ret res =
      if is_neg ret then ret else if same_text res.http_status (codes "OK") then ret else negsuc 0

  unfoldable pub callback_upload_request :
      Bytes → Bytes → (W → ℤ × W) → ℤ → Bool → Files W → ℤ × Files W
  unfolding upload_ret run_file_request
  callback_upload_request host file_path cb content_length tls f =
      let (ret, res, f') =
        run_file_request Method.put host file_path
          (codes "Content-Type: application/octet-stream\r\n"
            ∷ (codes "Content-Length: " ++ (decimal_int content_length ++ codes "\r\n"))
            ∷ [])
          [] (some cb) tls f.callback_res f in
      (upload_ret ret res, record f' { callback_res = res })

  unfoldable pub upload_request : Bytes → Bytes → Bytes → Bool → Files W → ℤ × Files W
  unfolding upload_ret run_file_request
  upload_request host file_path buff tls f =
      let (ret, res, f') =
        run_file_request Method.put host file_path
          (connection_close ∷ codes "Content-Type: application/octet-stream\r\n" ∷ []) buff none tls
          f.upload_res f in
      (upload_ret ret res, record f' { upload_res = res })

  -- With a callback, `sz_payload` is the length that is announced; without one, the payload is
  -- `buff`, of this length.
  send_file : Option (W → ℤ × W) → Bytes → ℤ → Bytes → Bytes → Bool → Files W → ℤ × Files W
  send_file (some cb) buff sz_payload host path tls f =
      callback_upload_request host path cb sz_payload tls f
  send_file none buff sz_payload host path tls f = upload_request host path buff tls f

  -- the upload itself, and the notification behind it
  unfoldable pub upload_at :
      Bytes → Bytes → Option (W → ℤ × W) → ℤ → Bytes → Bytes → Bool → Files W → Option (ℤ × Files W)
  unfolding send_file
  upload_at file_id buff cb sz_payload host path tls f =
      let (sent, f') = send_file cb buff sz_payload host path tls f in
      if is_neg sent then some (sent, f') else upload_complete file_id f'

  -- behind SipfClientHttpParseURL: its result, and the buffer with the pointers
  upload_split :
      Bytes → Bytes → Option (W → ℤ × W) → ℤ → Files W → ℤ × UrlState → Option (ℤ × Files W)
  upload_split file_id buff cb sz_payload f (ret, u) =
      let f₁ = record f { image_url = u.buf } in
      if is_neg ret then some (negsuc 0, f₁) else elim (url_strings u) [
        | none ↦ some (negsuc 0, f₁)
        | some s ↦ elim (tls_of s.prot) [
          | none ↦ some (negsuc 0, f₁)
          | some tls ↦ do
            url ← slash_path u.buf s.path_at
            upload_at file_id buff cb sz_payload s.host (c_string (drop s.path_at url)) tls
                (record f { image_url = url })
        ]
      ]

  -- from SipfClientHttpParseURL on, for a URL of `n` characters
  upload_to : Bytes → Bytes → Option (W → ℤ × W) → ℤ → ℕ → Files W → Option (ℤ × Files W)
  upload_to file_id buff cb sz_payload n f =
      parse_url f.image_url n >>= upload_split file_id buff cb sz_payload f

  unfoldable pub file_upload :
      Bytes → Bytes → Option (W → ℤ × W) → ℤ → Files W → Option (ℤ × Files W)
  unfolding upload_to upload_split
  file_upload file_id buff cb sz_payload f = do
    (ret, url, f') ← request_url upload file_id f.image_url f
    let f'' = record f' { image_url = url }
    elim ret [
      | negsuc e ↦ some (negsuc e, f'')
      | pos n ↦ upload_to file_id buff cb sz_payload n f''
    ]
