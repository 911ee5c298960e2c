-- ===== src/SipfAuth/Answer.antt =====
-- lib/sipf/src/sipf_auth.c: the answer of the authentication service, two lines.
use sipf_std_client_nrf.ClientHttp.{Response}
use sipf_std_client_nrf.Libc.Copy.{memcpy-all, drop-more}
use sipf_std_client_nrf.Libc.{same_text, strncpy_text}
use sipf_std_client_nrf.Prelude.{
  ℕ, zero, suc, ◌+◌, ◌-◌, ◌≡◌, ◌≤◌, ◌<◌, ◌∙◌, refl, sym, Bool, true, false, not, ◌&&◌, Option, none,
  some, [], ◌∷◌, ◌++◌, ◌==◌, pos, Bytes, length, drop, get_or, replicate, codes, arith,
  length-append, length-replicate,
}
use sipf_std_client_nrf.SipfAuth.{split_lines, copy_name, take_names, auth_answer}

-- A text with neither a NUL nor a line end.
unfoldable pub is_line : Bytes → Bool
is_line [] = true
is_line (c ∷ cs) = not (c == 0) && (not (c == 0x0a) && is_line cs)

strncpy_text-line :
    (xs rest : Bytes) (n : ℕ)
    → is_line xs ≡ true
    → length xs < n
    → strncpy_text (xs ++ 0 ∷ rest) n ≡ some (xs ++ replicate (n - length xs) 0)
unfolding strncpy_text is_line
strncpy_text-line xs rest zero l h = absurd (ground arith)
strncpy_text-line [] rest (suc n) l h = let e : suc n - 0 ≡ suc n = omega arith in rw e refl
strncpy_text-line (x ∷ xs) rest (suc n) l h =
    let l' : is_line xs ≡ true = ground arith in
    let ih = strncpy_text-line xs rest n l' (omega arith) in
    let c : (x == 0) ≡ false = ground arith in
    let e : suc n - suc (length xs) ≡ n - length xs = omega arith in
    rw (strncpy_text, c, ih, e) refl

-- what is in front of the rest of the loop
prefixed : Bytes → Option (Bytes × Option ℕ) → Option (Bytes × Option ℕ)
prefixed xs none = none
prefixed xs (some (body, p)) = some (xs ++ body, p)

prefixed-nil : (r : Option (Bytes × Option ℕ)) → r ≡ prefixed [] r
unfolding prefixed
prefixed-nil none = refl
prefixed-nil (some (body, p)) = refl

-- one character that ends no line
split_lines-other :
    (c : ℕ) (cs : Bytes) (n i : ℕ) (p : Option ℕ) (xs rest : Bytes) (q : Option (Bytes × Option ℕ))
    → (c == 0x0a) ≡ false
    → split_lines n (i + 1) cs p ≡ prefixed xs q
    → split_lines (suc n) i (c ∷ cs) p ≡ prefixed (c ∷ xs) q
unfolding split_lines prefixed
split_lines-other c cs n i p xs rest none e h = rw (split_lines, e, h) refl
split_lines-other c cs n i p xs rest (some q) e h = rw (split_lines, e, h) refl

split_lines-line :
    (xs rest : Bytes) (n i : ℕ) (p : Option ℕ)
    → is_line xs ≡ true
    → split_lines (length xs + n) i (xs ++ rest) p
      ≡ prefixed xs (split_lines n (i + length xs) rest p)
unfolding is_line
split_lines-line [] rest n i p l =
    let e : 0 + n ≡ n = omega arith in
    let f : i + 0 ≡ i = omega arith in rw (e, f) (prefixed-nil (split_lines n i rest p))
split_lines-line (x ∷ xs) rest n i p l =
    let l' : is_line xs ≡ true = ground arith in
    let c : (x == 0x0a) ≡ false = ground arith in
    let e : suc (length xs) + n ≡ suc (length xs + n) = omega arith in
    let f : i + suc (length xs) ≡ i + 1 + length xs = omega arith in
    rw (e, f)
      (split_lines-other x (xs ++ rest) (length xs + n) i p xs rest _ c
        (split_lines-line xs rest n (i + 1) p l'))

-- `USER\nPASS\n`, in front of anything
two_lines :
    (user pass rest : Bytes)
    → is_line user ≡ true
    → is_line pass ≡ true
    → split_lines
        (length user + suc (length pass + 1))
        0
        (user ++ 0x0a ∷ (pass ++ 0x0a ∷ rest))
        none
      ≡ some (user ++ 0 ∷ (pass ++ 0 ∷ rest), some (length user + 1))
unfolding split_lines prefixed
two_lines user pass rest u p =
    let first =
      split_lines-line user (0x0a ∷ (pass ++ 0x0a ∷ rest)) (suc (length pass + 1)) 0 none u in
    let second =
      split_lines-line pass (0x0a ∷ rest) 1 (0 + length user + 1) (some (0 + length user + 1)) p in
    let e : 0 + length user + 1 ≡ length user + 1 = omega arith in first ∙ rw (second, e) refl

get_or-zeros : (m i : ℕ) → get_or {A = ℕ} (replicate m 0) i 0 ≡ 0
get_or-zeros zero i = refl
get_or-zeros (suc m) zero = refl
get_or-zeros (suc m) (suc i) = get_or-zeros m i

get_or-padded :
    (xs : Bytes) (m i : ℕ) → length xs ≤ i → get_or {A = ℕ} (xs ++ replicate m 0) i 0 ≡ 0
get_or-padded [] m i h = get_or-zeros m i
get_or-padded (x ∷ xs) m zero h = absurd (ground arith)
get_or-padded (x ∷ xs) m (suc i) h = get_or-padded xs m i (omega arith)

-- A name that fits, with its NUL, into an array of `sz` bytes.
copy_name-line :
    (dst : Bytes) (sz : ℕ) (xs rest : Bytes)
    → is_line xs ≡ true
    → length dst ≡ sz
    → length xs < sz
    → copy_name dst sz (xs ++ 0 ∷ rest) ≡ some (true, xs ++ replicate (sz - length xs) 0)
unfolding copy_name
copy_name-line dst sz xs rest l d h =
    let name = xs ++ replicate (sz - length xs) 0 in
    let zeros : length {A = ℕ} (replicate sz 0) ≡ sz = length-replicate {A = ℕ} sz 0 in
    let pad : length {A = ℕ} (replicate (sz - length xs) 0) ≡ sz - length xs =
      length-replicate {A = ℕ} (sz - length xs) 0 in
    let len : length name ≡ sz =
      omega (arith, length-append xs (replicate (sz - length xs) 0), pad) in
    let cleared = memcpy-all dst (replicate sz 0) (zeros ∙ sym d) in
    let text = strncpy_text-line xs rest sz l h in
    let copied = memcpy-all (replicate sz 0) name (len ∙ sym zeros) in
    let end = get_or-padded xs (sz - length xs) (sz - 1) (omega arith) in
    rw (cleared, text, copied, end) refl

-- An answer of the documented form, `USER` and `PASS` on a line each, behind the status OK: when
-- both, with a NUL, fit into their arrays, the result is 0, and each array holds its name, filled up
-- with NULs.
pub auth_answer-names :
    (res : Response) (user pass rest user_name password : Bytes) (sz_user_name sz_password : ℕ)
    → res.http_status ≡ codes "OK"
    → res.content_length ≡ length user + length pass + 2
    → is_line user ≡ true
    → is_line pass ≡ true
    → length user_name ≡ sz_user_name
    → length password ≡ sz_password
    → length user < sz_user_name
    → length pass < sz_password
    → auth_answer sz_user_name sz_password res
        (user ++ 0x0a ∷ (pass ++ 0x0a ∷ rest))
        user_name
        password
      ≡ some (
        pos 0,
        user ++ 0 ∷ (pass ++ 0 ∷ rest),
        user ++ replicate (sz_user_name - length user) 0,
        pass ++ replicate (sz_password - length pass) 0,
      )
unfolding auth_answer take_names same_text
auth_answer-names res user pass rest user_name password su sp status total u p lu lp fu fp =
    let n : res.content_length ≡ length user + suc (length pass + 1) = omega arith in
    let first = copy_name-line user_name su user (pass ++ 0 ∷ rest) u lu fu in
    let second = copy_name-line password sp pass rest p lp fp in
    let behind : drop (length user + 1) (user ++ 0 ∷ (pass ++ 0 ∷ rest)) ≡ pass ++ 0 ∷ rest =
      drop-more user (0 ∷ (pass ++ 0 ∷ rest)) 1 in
    rw (status, n, two_lines user pass rest u p, first, behind, second) refl
