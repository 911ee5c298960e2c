-- ===== src/ClientHttp.antt =====
-- lib/sipf/src/sipf_client_http.c: splitting a URL, one HTTP request over a fresh socket, and the
-- authorization header. Sockets, name resolution, TLS options, the HTTP client and base64 belong to
-- Zephyr: they are the fields of `Net`, and may answer as they like.
pub mod SplitUrl
pub mod UrlParts
pub mod UrlStrings
pub mod Resources
use sipf_std_client_nrf.Libc.{c_string}
use mathlib.Core.Option
use sipf_std_client_nrf.Prelude.Faults.{◌>>=◌}
use sipf_std_client_nrf.Prelude.{
  ℕ, zero, suc, ◌+◌, ◌-◌, drop, Bool, true, false, ◌||◌, Option, none, some, [], ◌∷◌, ◌++◌, List,
  ltb, leb, ◌==◌, if◌then◌else◌, ℤ, pos, negsuc, neg, is_zero, is_neg, Bytes, length, get_or, set,
  replicate, codes,
}

pub data Method : Type 0 where
  get put post : Method

-- The fields of `struct http_request` that the firmware sets.
pub record Request (W : Type 0) : Type 0 where
  pub method : Method
  pub url : Bytes
  pub host : Bytes
  pub payload : Bytes
  pub header_fields : List Bytes
  -- sends the payload over the open socket, in place of `payload`
  pub payload_cb : Option (W → ℤ × W)

-- The fields of `struct http_response` that the firmware reads. `body_frag_start` is a place in
-- the receive buffer.
pub record Response : Type 0 where
  pub http_status : Bytes
  pub http_status_code : ℕ
  pub content_length : ℕ
  pub data_len : ℕ
  pub body_frag_start : ℕ

abbrev pub no_response : Response
no_response = record {
  http_status = [];
  http_status_code = 0;
  content_length = 0;
  data_len = 0;
  body_frag_start = 0;
}

-- What http_client_req leaves: its result, the responses it calls the callback with, in order,
-- and the receive buffer.
pub record Exchange : Type 0 where
  pub ret : ℤ
  pub responses : List Response
  pub recv_buf : Bytes

pub record Net (W : Type 0) : Type 0 where
  pub getaddrinfo : Bytes → W → ℤ × W
  pub freeaddrinfo : W → W
  pub errno : W → ℕ
  pub socket : Bool → W → ℤ × W
  pub set_peer_verify : W → ℤ × W
  pub set_sec_tag_list : W → ℤ × W
  pub set_hostname : Bytes → W → ℤ × W
  pub connect : ℕ → W → ℤ × W
  pub http_client_req : Request W → ℕ → Bytes → W → Exchange × W
  pub close : W → W
  -- send(sock, data, length data, 0)
  pub send : Bytes → W → ℤ × W
  -- base64_encode into `dlen` bytes: the result and the text
  pub base64_encode : ℕ → Bytes → ℤ × Bytes

pub data UrlDelim : Type 0 where
  protocol_end root_1 root_2 host_end path_end : UrlDelim

-- The buffer and the places that `*host` and `*path` point to.
pub record UrlState : Type 0 where
  pub buf : Bytes
  pub st : UrlDelim
  pub host : Option ℕ
  pub path : Option ℕ

-- One round of the loop, and whether it leaves the loop.
url_step_in : UrlDelim → ℕ → UrlState → UrlState × Bool
url_step_in protocol_end i u =
    if get_or u.buf i 0 == b':'
    then (record u { buf = set u.buf i 0; st = root_1 }, false)
    else (u, false)
url_step_in root_1 i u =
    if get_or u.buf i 0 == b'/'
    then (record u { buf = set u.buf i 0; st = root_2 }, false)
    else (u, false)
url_step_in root_2 i u =
    if get_or u.buf i 0 == b'/'
    then (record u { buf = set u.buf i 0; host = some (i + 1); st = host_end }, false)
    else (u, false)
url_step_in host_end i u =
    if get_or u.buf i 0 == b'/'
    then (record u { buf = set u.buf i 0; path = some (i + 1); st = path_end }, false)
    else (u, false)
url_step_in path_end i u =
    if get_or u.buf i 0 == 0x0d || get_or u.buf i 0 == 0x0a
    then (record u { buf = set u.buf i 0 }, true)
    else (u, false)

unfoldable pub url_step : ℕ → UrlState → UrlState × Bool
unfolding url_step_in
url_step i u = url_step_in u.st i u

-- `n` rounds are left. Each round reads `url[i]`, and writes no other place.
unfoldable pub url_loop : ℕ → ℕ → UrlState → Option (UrlState × Bool)
url_loop zero i u = some (u, false)
url_loop (suc n) i u =
    let (u', done) = url_step i u in
    elim (ltb i (length u.buf)) [
      | false ↦ none
      | true ↦ elim done [ true ↦ some (u', true) | false ↦ url_loop n (i + 1) u' ]
    ]

-- strstr(url, "\r") and the write of a NUL there: the bytes are read up to the first CR or NUL, and
-- `none` is a buffer that has neither, which is read beyond its end.
unfoldable pub cut_cr : Bytes → Option Bytes
cut_cr [] = none
cut_cr (c ∷ cs) =
    let rest = Option.map (λ s. c ∷ s) (cut_cr cs) in
    if c == 0 then some (c ∷ cs) else if c == 0x0d then some (0 ∷ cs) else rest

-- Whether a string that starts here comes to its end within the buffer.
unfoldable pub has_nul : Bytes → Bool
has_nul [] = false
has_nul (c ∷ cs) = c == 0 || has_nul cs

abbrev pub is_path_end : UrlDelim → Bool
is_path_end path_end = true
is_path_end _ = false

-- parse_finish: the three strings are read for the log, of which the path is the last in the buffer.
parse_finish : UrlState → Option (ℤ × UrlState)
parse_finish u = elim u.path [
  | none ↦ some (pos 0, u)
  | some p ↦ if has_nul (drop p u.buf) then some (pos 0, u) else none
]

-- `none` is a read beyond the buffer.
unfoldable pub parse_url : Bytes → ℕ → Option (ℤ × UrlState)
unfolding parse_finish
parse_url url url_len = do
  buf ← cut_cr url
  (u, done) ← url_loop url_len 0 (record { buf = buf; st = protocol_end; host = none; path = none })
  elim (done || is_path_end u.st) [ true ↦ parse_finish u | false ↦ some (negsuc 0, u) ]

abbrev pub http_port : ℕ
http_port = 80

abbrev pub https_port : ℕ
https_port = 443

-- A request that fails before the exchange.
abbrev pub no_exchange : ℤ → Bytes → Exchange
no_exchange ret buf = record { ret = ret; responses = []; recv_buf = buf }

module _ {W : Type 0} (net : Net W) where
  unfoldable pub tls_setup : Bytes → W → ℤ × W
  tls_setup host_name w =
      let (err, w₁) = net.set_peer_verify w in
      let (err', w₂) = net.set_sec_tag_list w₁ in
      let (err'', w₃) = net.set_hostname host_name w₂ in
      if is_zero err
      then (if is_zero err'
          then (if is_zero err'' then (pos 0, w₃) else (err'', w₃))
          else (err', w₂))
      else (err, w₁)

  -- from `connect` on
  connect_and_run : Bytes → Request W → ℕ → Bytes → Bool → W → Exchange × W
  connect_and_run hostname req timeout buf tls w =
      let (ret, w₁) = net.connect (if tls then https_port else http_port) w in
      elim (is_zero ret) [
        | false ↦
            (let w₂ = net.close (net.freeaddrinfo w₁) in (no_exchange (neg (net.errno w₂)) buf, w₂))
        | true ↦
            let (x, w₂) = net.http_client_req req timeout buf w₁ in
            (x, net.close (net.freeaddrinfo w₂))
      ]

  -- from the TLS options on
  secure_and_run : Bytes → Request W → ℕ → Bytes → Bool → W → Exchange × W
  secure_and_run hostname req timeout buf false w = connect_and_run hostname req timeout buf false w
  secure_and_run hostname req timeout buf true w =
      let (ret, w₁) = tls_setup hostname w in
      elim (is_zero ret) [
        | true ↦ connect_and_run hostname req timeout buf true w₁
        | false ↦
            (let w₂ = net.close (net.freeaddrinfo w₁) in (no_exchange (neg (net.errno w₂)) buf, w₂))
      ]

  -- `buf` is the receive buffer that the request names.
  unfoldable pub run_request : Bytes → Request W → ℕ → Bytes → Bool → W → Exchange × W
  unfolding secure_and_run connect_and_run tls_setup
  run_request hostname req timeout buf tls w =
      let (ret, w₁) = net.getaddrinfo hostname w in
      elim (is_zero ret) [
        | false ↦ (no_exchange (neg (net.errno w₁)) buf, w₁)
        | true ↦
            let (sock, w₂) = net.socket tls w₁ in
            elim (is_neg sock) [
              | true ↦ (let w₃ = net.freeaddrinfo w₂ in (no_exchange (neg (net.errno w₃)) buf, w₃))
              | false ↦ secure_and_run hostname req timeout buf tls w₂
            ]
      ]

  -- sprintf of "%s:%s" into char[128]: `none` if it does not fit with its NUL. The result is the
  -- header and its length, or -1 and the header as it was.
  unfoldable pub set_auth_info : Bytes → Bytes → Bytes → Option (ℤ × Bytes)
  set_auth_info user_name passwd header =
      let text = user_name ++ b':' ∷ passwd in
      if ltb (length text) 128
      then (let (err, encoded) = net.base64_encode 128 text in
          let line = codes "Authorization: BASIC " ++ (encoded ++ codes "\r\n") in
          if is_neg err
          then some (negsuc 0, header)
          else if ltb (length line) 256
          then some (pos (length line), line)
          else none)
      else none
