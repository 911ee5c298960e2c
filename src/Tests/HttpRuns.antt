-- ===== src/Tests/HttpRuns.antt =====
-- URLs, and a request over a network that counts its sockets.
use sipf_std_client_nrf.ClientHttp.Resources.{Counts, run_request-balanced}
use sipf_std_client_nrf.ClientHttp.SplitUrl.{AllPass, at}
use sipf_std_client_nrf.ClientHttp.UrlParts.{url_of, split_of, parse_url-url_of}
use sipf_std_client_nrf.ClientHttp.{
  Net, Request, Method, no_response, protocol_end, host_end, path_end, cut_cr, parse_url,
  run_request,
}
use sipf_std_client_nrf.Prelude.{
  none, ℕ, ◌+◌, ◌-◌, ◌≡◌, refl, true, [], ◌∷◌, ◌++◌, some, pos, negsuc, Bytes, length, codes,
}

abbrev scheme : Bytes
scheme = codes "https"

abbrev host : Bytes
host = codes "h.jp"

abbrev path : Bytes
path = codes "v1/a"

-- What an earlier, longer URL left behind the new one.
abbrev stale : Bytes
stale = codes "/old/x\r\n"

scheme-AllPass : AllPass protocol_end scheme
scheme-AllPass = (
  refl,
  refl,
  refl,
  (refl, refl, refl, (refl, refl, refl, (refl, refl, refl, (refl, refl, refl, tt)))),
)

host-AllPass : AllPass host_end host
host-AllPass = (refl, refl, refl, (refl, refl, refl, (refl, refl, refl, (refl, refl, refl, tt))))

path-AllPass : AllPass path_end path
path-AllPass = (refl, refl, refl, (refl, refl, refl, (refl, refl, refl, (refl, refl, refl, tt))))

-- It is read up to its CR.
abbrev stale_cut : Bytes
stale_cut = codes "/old/x" ++ 0 ∷ 0x0a ∷ []

parse_url-url_of_example :
    parse_url (url_of scheme host path ++ stale) (length (url_of scheme host path))
    ≡ some (
      pos 0,
      at
          (split_of scheme host (path ++ stale_cut))
          path_end
          (some (length scheme + 3))
          (some (length scheme + 3 + length host + 1)),
    )
unfolding cut_cr
parse_url-url_of_example =
    parse_url-url_of scheme host path stale stale_cut scheme-AllPass host-AllPass path-AllPass refl

-- The world is the number of open sockets and that of the live address lists.
pub record Census : Type 0 where
  sockets : ℕ
  infos : ℕ

abbrev pub census : Net Census
census = record {
  getaddrinfo = λ h w. (pos 0, record w { infos = w.infos + 1 });
  freeaddrinfo = λ w. record w { infos = w.infos - 1 };
  errno = λ w. 5;
  socket = λ tls w. (pos 3, record w { sockets = w.sockets + 1 });
  set_peer_verify = λ w. (pos 0, w);
  set_sec_tag_list = λ w. (negsuc 0, w);
  set_hostname = λ h w. (pos 0, w);
  connect = λ port w. (pos 0, w);
  http_client_req =
      λ r t buf w. (record { ret = pos 1; responses = no_response ∷ []; recv_buf = buf }, w);
  close = λ w. record w { sockets = w.sockets - 1 };
  send = λ bs w. (pos (length bs), w);
  base64_encode = λ n text. (pos 0, text);
}

census-Counts : Counts census (λ w. w.sockets) (λ w. w.infos)
census-Counts = record {
  getaddrinfo_infos = λ h w. refl;
  getaddrinfo_sockets = λ h w. refl;
  freeaddrinfo_infos = λ w. refl;
  freeaddrinfo_sockets = λ w. refl;
  socket_infos = λ tls w. refl;
  socket_sockets = λ tls w. refl;
  peer_verify_keeps = λ w. (refl, refl);
  sec_tag_list_keeps = λ w. (refl, refl);
  hostname_keeps = λ h w. (refl, refl);
  connect_keeps = λ port w. (refl, refl);
  http_client_req_keeps = λ r t buf w no_cb. (refl, refl);
  close_infos = λ w. refl;
  close_sockets = λ w. refl;
}

abbrev request : Request Census
request = record {
  method = Method.post;
  url = codes "/v0";
  host = host;
  payload = [];
  header_fields = [];
  payload_cb = none;
}

abbrev pub two_open : Census
two_open = record { sockets = 2; infos = 1 }

-- The second TLS option is refused here.
run_request-balanced_example :
    ((run_request census host request 3000 [] true two_open).1.infos ≡ 1)
    × ((run_request census host request 3000 [] true two_open).1.sockets ≡ 2)
run_request-balanced_example =
    run_request-balanced census-Counts host request 3000 [] true two_open refl
