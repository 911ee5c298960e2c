-- ===== src/SipfAuth.antt =====
-- lib/sipf/src/sipf_auth.c: the authentication request and what it makes of the answer. `none` is
-- an access outside an array.
pub mod Answer
use sipf_std_client_nrf.ClientHttp.{Net, Method, Response, run_request}
use sipf_std_client_nrf.Libc.{memcpy, same_text, strncpy_text}
use sipf_std_client_nrf.Prelude.Faults.{◌>>=◌, ◌>>◌}
use sipf_std_client_nrf.Prelude.{
  ℕ, zero, suc, ◌+◌, ◌-◌, Bool, true, false, not, Option, none, some, [], ◌∷◌, ◌++◌, List, ltb,
  ◌==◌, if◌then◌else◌, ℤ, pos, negsuc, is_neg, Bytes, take, drop, get_or, replicate, codes,
}
use sipf_std_client_nrf.SipfObject.Client.{Client}

-- CONFIG_SIPF_AUTH_HOST, CONFIG_SIPF_AUTH_PATH, and whether the request uses TLS.
pub record AuthConfig : Type 0 where
  pub host : Bytes
  pub path : Bytes
  pub ssl : Bool

-- The static `http_res`, the two arrays of the caller, and the client.
pub record Auth (W : Type 0) : Type 0 where
  pub http_res : Response
  pub user_name : Bytes
  pub password : Bytes
  pub client : Client W

-- What http_response_cb leaves behind the responses.
unfoldable pub auth_responses : List Response → Response → Response
auth_responses [] res = res
auth_responses (r ∷ rs) res = auth_responses rs (if ltb 0 r.data_len then r else res)

-- p, where it is NULL so far
abbrev first_place : Option ℕ → ℕ → Option ℕ
first_place none i = some i
first_place (some p) i = some p

-- one character in front of what the rest of the loop leaves
abbrev front : ℕ → Option (Bytes × Option ℕ) → Option (Bytes × Option ℕ)
front c none = none
front c (some (body, p)) = some (c ∷ body, p)

-- The loop over the body, with `n` characters left and the next one at `i`: the body, where every
-- line end is a NUL, and `p`.
unfoldable pub split_lines : ℕ → ℕ → Bytes → Option ℕ → Option (Bytes × Option ℕ)
split_lines zero i body p = some (body, p)
split_lines (suc n) i [] p = none
split_lines (suc n) i (c ∷ cs) p = elim (c == 0x0a) [
  | true ↦ front 0 (split_lines n (i + 1) cs (first_place p (i + 1)))
  | false ↦ front c (split_lines n (i + 1) cs p)
]

-- memset and strncpy into an array of `sz` bytes, and whether a NUL is at its end
unfoldable pub copy_name : Bytes → ℕ → Bytes → Option (Bool × Bytes)
copy_name dst sz src = do
  zeros ← memcpy dst 0 (replicate sz 0)
  text ← strncpy_text src sz
  dst' ← memcpy zeros 0 text
  some (get_or dst' (sz - 1) 0 == 0, dst')

-- The two names, from the lines on: the result, and the arrays.
unfoldable pub take_names : ℕ → ℕ → Bytes → ℕ → Bytes → Bytes → Option (ℤ × Bytes × Bytes)
take_names sz_user_name sz_password body p user_name password = do
  (fits, user) ← copy_name user_name sz_user_name body
  if not fits then some (negsuc 0, user, password) else do
    (fits', pass) ← copy_name password sz_password (drop p body)
    some (if fits' then pos 0 else negsuc 0, user, pass)

-- The answer, from the status on: the result, the body, and the arrays.
unfoldable pub auth_answer :
    ℕ → ℕ → Response → Bytes → Bytes → Bytes → Option (ℤ × Bytes × Bytes × Bytes)
auth_answer sz_user_name sz_password res body user_name password =
    if not (same_text res.http_status (codes "OK"))
    then some (negsuc 0, body, user_name, password)
    else do
      (lines, p) ← split_lines res.content_length 0 body none
      elim p [
        | none ↦ some (negsuc 0, lines, user_name, password)
        | some place ↦ do
          (ret, user, pass) ← take_names sz_user_name sz_password lines place user_name password
          some (ret, lines, user, pass)
      ]

module _ {W : Type 0} (net : Net W) (cfg : AuthConfig) where
  unfoldable pub run_get_session_key_http_request : Auth W → ℤ × Auth W
  run_get_session_key_http_request a =
      let c = a.client in
      let (x, w) =
        run_request net cfg.host
          (record {
            method = Method.post;
            url = cfg.path;
            host = cfg.host;
            payload = [];
            header_fields =
                codes "Connection: Close\r\n"
                ∷ codes "Content-Type: text/plain\r\n"
                ∷ codes "Accept: text/plain\r\n"
                ∷ [];
            payload_cb = none;
          })
          3000 c.httpc_res_buff cfg.ssl c.world in
      (
        x.ret,
        record a {
          http_res = auth_responses x.responses a.http_res;
          client = record c { httpc_res_buff = x.recv_buf; world = w };
        },
      )

  -- sz_user_name and sz_password are the sizes that the caller gives.
  unfoldable pub auth_request : ℕ → ℕ → Auth W → Option (ℤ × Auth W)
  auth_request sz_user_name sz_password a =
      let (ret, a') = run_get_session_key_http_request a in
      if is_neg ret then some (ret, a') else do
        let buf = a'.client.httpc_res_buff
        let at = a'.http_res.body_frag_start
        (r, body, user, pass) ←
            auth_answer sz_user_name sz_password a'.http_res (drop at buf) a'.user_name a'.password
        some (
          r,
          record a' {
            user_name = user;
            password = pass;
            client = record a'.client { httpc_res_buff = take at buf ++ body };
          },
        )
