-- ===== src/ClientHttp/Resources.antt =====
-- SipfClientHttpRunRequest (lib/sipf/src/sipf_client_http.c) gives back what it takes: sockets and
-- address lists.
use sipf_std_client_nrf.ClientHttp.{
  Net, Request, tls_setup, secure_and_run, connect_and_run, run_request, http_port, https_port,
}
use sipf_std_client_nrf.Prelude.{
  none, ℕ, ◌+◌, ◌-◌, ◌≡◌, Bool, true, false, arith, is_zero, is_neg, Bytes, if◌then◌else◌,
}

-- What the socket interface documents, for counts of the open sockets and the live address lists.
pub record Counts {W : Type 0} (net : Net W) (sockets infos : W → ℕ) : Type 0 where
  pub getaddrinfo_infos :
      (h : Bytes) (w : W)
      → infos (net.getaddrinfo h w).1
        ≡ (if is_zero (net.getaddrinfo h w).0 then infos w + 1 else infos w)
  pub getaddrinfo_sockets : (h : Bytes) (w : W) → sockets (net.getaddrinfo h w).1 ≡ sockets w
  pub freeaddrinfo_infos : (w : W) → infos (net.freeaddrinfo w) ≡ infos w - 1
  pub freeaddrinfo_sockets : (w : W) → sockets (net.freeaddrinfo w) ≡ sockets w
  pub socket_infos : (tls : Bool) (w : W) → infos (net.socket tls w).1 ≡ infos w
  pub socket_sockets :
      (tls : Bool) (w : W)
      → sockets (net.socket tls w).1
        ≡ (if is_neg (net.socket tls w).0 then sockets w else sockets w + 1)
  pub peer_verify_keeps :
      (w : W)
      → (infos (net.set_peer_verify w).1 ≡ infos w)
        × (sockets (net.set_peer_verify w).1 ≡ sockets w)
  pub sec_tag_list_keeps :
      (w : W)
      → (infos (net.set_sec_tag_list w).1 ≡ infos w)
        × (sockets (net.set_sec_tag_list w).1 ≡ sockets w)
  pub hostname_keeps :
      (h : Bytes) (w : W)
      → (infos (net.set_hostname h w).1 ≡ infos w) × (sockets (net.set_hostname h w).1 ≡ sockets w)
  pub connect_keeps :
      (port : ℕ) (w : W)
      → (infos (net.connect port w).1 ≡ infos w) × (sockets (net.connect port w).1 ≡ sockets w)
  pub http_client_req_keeps :
      (r : Request W) (t : ℕ) (buf : Bytes) (w : W)
      → r.payload_cb ≡ none
      → (infos (net.http_client_req r t buf w).1 ≡ infos w)
        × (sockets (net.http_client_req r t buf w).1 ≡ sockets w)
  pub close_infos : (w : W) → infos (net.close w) ≡ infos w
  pub close_sockets : (w : W) → sockets (net.close w) ≡ sockets w - 1

module _ {W : Type 0} {net : Net W} {sockets infos : W → ℕ} (c : Counts net sockets infos) where
  -- Closing and freeing undo one socket and one address list.
  release_lem :
      (w : W)
      → (infos (net.close (net.freeaddrinfo w)) ≡ infos w - 1)
        × (sockets (net.close (net.freeaddrinfo w)) ≡ sockets w - 1)
  release_lem w = (
    omega (arith, c.close_infos (net.freeaddrinfo w), c.freeaddrinfo_infos w),
    omega (arith, c.close_sockets (net.freeaddrinfo w), c.freeaddrinfo_sockets w),
  )

  connect_and_run_lem :
      (hostname : Bytes) (req : Request W) (timeout : ℕ) (buf : Bytes) (tls : Bool) (w : W)
      → req.payload_cb ≡ none
      → let w' = (connect_and_run net hostname req timeout buf tls w).1 in
        (infos w' ≡ infos w - 1) × (sockets w' ≡ sockets w - 1)
  unfolding run_request
  connect_and_run_lem hostname req timeout buf tls w no_cb =
      let port = if tls then https_port else http_port in
      let w₁ = (net.connect port w).1 in
      ground (
        arith,
        c.connect_keeps port w,
        c.http_client_req_keeps req timeout buf w₁ no_cb,
        release_lem w₁,
        release_lem (net.http_client_req req timeout buf w₁).1,
      )

  tls_setup_lem :
      (hostname : Bytes) (w : W)
      → let w' = (tls_setup net hostname w).1 in (infos w' ≡ infos w) × (sockets w' ≡ sockets w)
  unfolding tls_setup
  tls_setup_lem hostname w =
      let w₁ = (net.set_peer_verify w).1 in
      let w₂ = (net.set_sec_tag_list w₁).1 in
      ground (arith, c.peer_verify_keeps w, c.sec_tag_list_keeps w₁, c.hostname_keeps hostname w₂)

  secure_and_run_lem :
      (hostname : Bytes) (req : Request W) (timeout : ℕ) (buf : Bytes) (tls : Bool) (w : W)
      → req.payload_cb ≡ none
      → let w' = (secure_and_run net hostname req timeout buf tls w).1 in
        (infos w' ≡ infos w - 1) × (sockets w' ≡ sockets w - 1)
  unfolding secure_and_run
  secure_and_run_lem hostname req timeout buf false w no_cb =
      connect_and_run_lem hostname req timeout buf false w no_cb
  secure_and_run_lem hostname req timeout buf true w no_cb =
      let w₁ = (tls_setup net hostname w).1 in
      ground (
        arith,
        tls_setup_lem hostname w,
        connect_and_run_lem hostname req timeout buf true w₁ no_cb,
        release_lem w₁,
      )

  -- Whatever fails, be it the name resolution, the socket, one of the TLS options, the connection
  -- or the exchange itself, a request whose payload no callback sends leaves as many sockets open
  -- and as many address lists live as it found, where the socket interface counts as documented.
  pub run_request-balanced :
      (hostname : Bytes) (req : Request W) (timeout : ℕ) (buf : Bytes) (tls : Bool) (w : W)
      → req.payload_cb ≡ none
      → let w' = (run_request net hostname req timeout buf tls w).1 in
        (infos w' ≡ infos w) × (sockets w' ≡ sockets w)
  unfolding run_request
  run_request-balanced hostname req timeout buf tls w no_cb =
      let w₁ = (net.getaddrinfo hostname w).1 in
      let w₂ = (net.socket tls w₁).1 in
      ground (
        arith,
        c.getaddrinfo_infos hostname w,
        c.getaddrinfo_sockets hostname w,
        c.socket_infos tls w₁,
        c.socket_sockets tls w₁,
        c.freeaddrinfo_infos w₂,
        c.freeaddrinfo_sockets w₂,
        secure_and_run_lem hostname req timeout buf tls w₂ no_cb,
      )
