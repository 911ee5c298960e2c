-- ===== src/Main/Mode.antt =====
-- src/main.c: what the authentication mode register says.
use sipf_std_client_nrf.ClientHttp.{Net, set_auth_info}
use sipf_std_client_nrf.Libc.{c_string}
use sipf_std_client_nrf.Main.{
  Node, mode, set_mode, request_auth, use_auth_info, retry_later, request_until, boot_auth,
  switch_auth, auth_round, sz_user_name,
}
use sipf_std_client_nrf.Prelude.Runs.{Run, returns, faults, waits, lift, ◌>>=◌}
use sipf_std_client_nrf.Prelude.{
  ℕ, zero, suc, ◌≡◌, refl, Bool, true, ◌||◌, Option, none, some, [], ◌∷◌, ◌==◌, if◌then◌else◌, ℤ,
  pos, negsuc, is_neg, Bytes, set, get_or,
}
use sipf_std_client_nrf.SipfAuth.{Auth, AuthConfig, auth_request}
use sipf_std_client_nrf.Zephyr.{Kernel}

-- The mode is 0 behind a start that ends.
unfoldable pub ends_in_0 : {W : Type 0} → Run (Node W) → Bool
ends_in_0 (returns s) = mode s == 0
ends_in_0 faults = true
ends_in_0 waits = true

mode-set_mode_0 : {W : Type 0} (s : Node W) → mode (set_mode 0 s) ≡ 0
mode-set_mode_0 s = first s.registers.bank00
  where
    first : (b : Bytes) → get_or {A = ℕ} (set b 0 0) 0 0 ≡ 0
    first [] = refl
    first (x ∷ xs) = refl

mode_test : {W : Type 0} (s : Node W) → (mode (set_mode 0 s) == 0) ≡ true
mode_test s = rw (mode-set_mode_0 s) refl

mode_1 : {W : Type 0} (s : Node W) → mode s ≡ 1 → (mode s == 1) ≡ true
mode_1 s m = rw m refl

abbrev with_header : {W : Type 0} → Bytes → Node W → Node W
with_header header s = record s {
  auth = record s.auth { client = record s.auth.client { auth_header = header } };
}

module _ {W : Type 0} (k : Kernel W) (net : Net W) (cfg : AuthConfig) where
  ends_refused : (s : Node W) → (mode (retry_later k net cfg s) == 0) ≡ true
  unfolding retry_later
  ends_refused s = mode_test s

  info_in :
      (s : Node W) (r : Option (ℤ × Bytes))
      → set_auth_info net
          (c_string s.auth.user_name)
          (c_string s.auth.password)
          s.auth.client.auth_header
        ≡ r
      → (mode s == 0) ≡ true
      → ends_in_0 (lift (use_auth_info k net cfg s)) ≡ true
  unfolding use_auth_info ends_in_0
  info_in s none e h = rw (ends_in_0, use_auth_info, e) refl
  info_in s (some (pos n, header)) e h = rw (ends_in_0, use_auth_info, e) h
  info_in s (some (negsuc n, header)) e h = rw (ends_in_0, use_auth_info, e) (mode_test s)

  info_keeps :
      (s : Node W) → (mode s == 0) ≡ true → ends_in_0 (lift (use_auth_info k net cfg s)) ≡ true
  info_keeps s h = info_in s _ refl h

  -- One request from a state with the mode 0.
  until_in :
      (fuel : ℕ) (s : Node W) (r : Option (ℤ × Auth W))
      → auth_request net cfg sz_user_name sz_user_name s.auth ≡ r
      → (mode s == 0) ≡ true
      → ((s₁ : Node W)
          → (mode s₁ == 0) ≡ true
          → ends_in_0 (request_until k net cfg fuel s₁ >>= λ s'. lift (use_auth_info k net cfg s'))
            ≡ true)
      → ends_in_0 (request_until k net cfg (suc fuel) s >>= λ s'. lift (use_auth_info k net cfg s'))
        ≡ true
  unfolding request_until request_auth ends_in_0
  until_in fuel s none e h ih = rw (ends_in_0, request_until, request_auth, e) refl
  until_in fuel s (some (pos n, a)) e h ih =
      rw (ends_in_0, request_until, request_auth, e) (info_keeps (record s { auth = a }) h)
  until_in fuel s (some (negsuc n, a)) e h ih =
      rw (ends_in_0, request_until, request_auth, e)
        (ih (retry_later k net cfg (record s { auth = a })) (ends_refused (record s { auth = a })))

  until_keeps :
      (fuel : ℕ) (s : Node W)
      → (mode s == 0) ≡ true
      → ends_in_0 (request_until k net cfg fuel s >>= λ s'. lift (use_auth_info k net cfg s'))
        ≡ true
  unfolding request_until ends_in_0
  until_keeps zero s h = refl
  until_keeps (suc fuel) s h = until_in fuel s _ refl h (until_keeps fuel)

  -- When the first authentication request of a start is refused, the mode register reads 0 behind a
  -- start that ends, however many requests that takes: the request that is answered at last does
  -- not set it again.
  pub boot_auth-refused :
      (fuel : ℕ) (s : Node W) (e : ℕ) (a : Auth W)
      → auth_request net cfg sz_user_name sz_user_name s.auth ≡ some (negsuc e, a)
      → ends_in_0 (boot_auth k net cfg (suc fuel) s) ≡ true
  unfolding boot_auth request_until request_auth
  boot_auth-refused fuel s e a h =
      rw (boot_auth, request_until, request_auth, h)
        (until_keeps fuel (retry_later k net cfg (record (set_mode 1 s) { auth = a }))
          (ends_refused _))

  -- A round of the main loop in which the mode has changed from 0 to 1, where the request and
  -- SipfClientHttpSetAuthInfo return `err` and `err'`: the mode is 1 behind it exactly if neither is
  -- negative, and 0 otherwise; the header is the one that SipfClientHttpSetAuthInfo leaves.
  pub auth_round-switch :
      (s : Node W) (err err' : ℤ) (a : Auth W) (header : Bytes)
      → mode s ≡ 1
      → auth_request net cfg sz_user_name sz_user_name s.auth ≡ some (err, a)
      → set_auth_info net (c_string a.user_name) (c_string a.password) a.client.auth_header
        ≡ some (err', header)
      → (s' : Node W) × (auth_round k net cfg 0 s ≡ some (s', mode s'))
        × (mode s' ≡ (if is_neg err || is_neg err' then 0 else 1))
        × (s'.auth.client.auth_header ≡ header)
  unfolding auth_round switch_auth request_auth use_auth_info
  auth_round-switch s (pos n) (pos n') a header m r i =
      (with_header header (record s { auth = a }), rw (auth_round, mode_1 s m, r, i) refl, m, refl)
  auth_round-switch s (pos n) (negsuc n') a header m r i =
      let s' = set_mode 0 (with_header header (record s { auth = a })) in
      (s', rw (auth_round, mode_1 s m, r, i) refl, mode-set_mode_0 s, refl)
  auth_round-switch s (negsuc n) (pos n') a header m r i =
      let s' = with_header header (set_mode 0 (record s { auth = a })) in
      (s', rw (auth_round, mode_1 s m, r, i) refl, mode-set_mode_0 s, refl)
  auth_round-switch s (negsuc n) (negsuc n') a header m r i =
      let s' = set_mode 0 (with_header header (set_mode 0 (record s { auth = a }))) in
      (s', rw (auth_round, mode_1 s m, r, i) refl, mode-set_mode_0 (set_mode 0 s), refl)
