-- ===== src/ClientHttp/UrlParts.antt =====
-- The three parts that SipfClientHttpParseURL finds (lib/sipf/src/sipf_client_http.c).
use sipf_std_client_nrf.ClientHttp.SplitUrl.{
  AllPass, at, url_loop_step, url_loop-passes, step_colon, step_root_1, step_root_2, step_host_end,
}
use sipf_std_client_nrf.ClientHttp.{
  UrlDelim, protocol_end, root_1, root_2, host_end, path_end, UrlState, url_loop, cut_cr, has_nul,
  parse_finish, parse_url,
}
use sipf_std_client_nrf.Prelude.{
  ℕ, suc, ◌+◌, ◌≡◌, refl, true, drop, drop-length-append, sym, ap, ◌∙◌, Bool, false, Option, none,
  some, [], ◌∷◌, ◌++◌, arith, ◌==◌, pos, Bytes, length, append_assoc, length-append,
}

-- The text of a URL.
abbrev pub url_of : Bytes → Bytes → Bytes → Bytes
url_of scheme host path = scheme ++ b':' ∷ b'/' ∷ b'/' ∷ (host ++ b'/' ∷ path)

-- The buffer with the separators overwritten by NULs.
abbrev pub split_of : Bytes → Bytes → Bytes → Bytes
split_of scheme host path = scheme ++ 0 ∷ 0 ∷ 0 ∷ (host ++ 0 ∷ path)

-- The cut at the first CR passes over a byte that is neither NUL nor CR, and over a string of them.
cut_cr-cons :
    (c : ℕ) (xs cut : Bytes)
    → c == 0 ≡ false
    → c == 0x0d ≡ false
    → cut_cr xs ≡ some cut
    → cut_cr (c ∷ xs) ≡ some (c ∷ cut)
unfolding cut_cr
cut_cr-cons c xs cut z r e = rw (cut_cr, z, r, e) refl

cut_cr-passes :
    (st : UrlDelim) (xs post cut : Bytes)
    → AllPass st xs
    → cut_cr post ≡ some cut
    → cut_cr (xs ++ post) ≡ some (xs ++ cut)
cut_cr-passes st [] post cut p e = e
cut_cr-passes st (x ∷ xs) post cut p e =
    cut_cr-cons x (xs ++ post) (xs ++ cut) p.1 p.2 (cut_cr-passes st xs post cut p.3 e)

-- A buffer that is cut holds the end of its string.
has_nul-cut_cr : (bs cut : Bytes) → cut_cr bs ≡ some cut → has_nul cut ≡ true
unfolding cut_cr has_nul
has_nul-cut_cr [] cut e = cc
has_nul-cut_cr (b ∷ bs) [] e = ground (arith, has_nul-cut_cr bs)
has_nul-cut_cr (b ∷ bs) (c ∷ cut) e = ground (arith, has_nul-cut_cr bs cut)

has_nul-append : (xs ys : Bytes) → has_nul ys ≡ true → has_nul (xs ++ ys) ≡ true
unfolding has_nul
has_nul-append [] ys e = e
has_nul-append (x ∷ xs) ys e = ground (arith, has_nul-append xs ys e)

-- The four parts of the loop, each with any `rest` behind it.
loop_scheme :
    (scheme rest : Bytes) (r n : ℕ)
    → AllPass protocol_end scheme
    → r ≡ length scheme + suc n
    → url_loop r 0 (at (scheme ++ b':' ∷ rest) protocol_end none none)
      ≡ url_loop n (length scheme + 1) (at (scheme ++ 0 ∷ rest) root_1 none none)
loop_scheme scheme rest r n p er =
    let buf = scheme ++ b':' ∷ rest in
    let count : 0 + length scheme ≡ length scheme = omega arith in
    url_loop-passes protocol_end buf [] scheme (b':' ∷ rest) r (suc n) 0 none none refl p refl er
    ∙ ap (λ i. url_loop (suc n) i (at buf protocol_end none none)) count
    ∙ url_loop_step n (length scheme) (at buf protocol_end none none)
        (at (scheme ++ 0 ∷ rest) root_1 none none)
        (omega (arith, length-append scheme (b':' ∷ rest)))
        (step_colon buf scheme rest (length scheme) refl refl)

loop_slashes :
    (buf pre rest : Bytes) (n i : ℕ)
    → buf ≡ pre ++ b'/' ∷ b'/' ∷ rest
    → i ≡ length pre
    → url_loop (suc (suc n)) i (at buf root_1 none none)
      ≡ url_loop n (i + 1 + 1) (at ((pre ++ 0 ∷ []) ++ 0 ∷ rest) host_end (some (i + 1 + 1)) none)
loop_slashes buf pre rest n i e ei =
    let buf' = pre ++ 0 ∷ b'/' ∷ rest in
    url_loop_step (suc n) i (at buf root_1 none none) (at buf' root_2 none none)
      (omega (arith, ap length e, length-append pre (b'/' ∷ b'/' ∷ rest)))
      (step_root_1 buf pre (b'/' ∷ rest) i e ei)
    ∙ url_loop_step n (i + 1) (at buf' root_2 none none)
        (at ((pre ++ 0 ∷ []) ++ 0 ∷ rest) host_end (some (i + 1 + 1)) none)
        (omega (arith, length-append pre (0 ∷ b'/' ∷ rest)))
        (step_root_2 buf' (pre ++ 0 ∷ []) rest (i + 1)
          (sym (append_assoc pre (0 ∷ []) (b'/' ∷ rest)))
          (omega (arith, length-append pre (0 ∷ []))))

loop_host :
    (buf pre host rest : Bytes) (r n i : ℕ) (h : Option ℕ)
    → buf ≡ pre ++ (host ++ b'/' ∷ rest)
    → AllPass host_end host
    → i ≡ length pre
    → r ≡ length host + suc n
    → url_loop r i (at buf host_end h none)
      ≡ url_loop n
          (i + length host + 1)
          (at ((pre ++ host) ++ 0 ∷ rest) path_end h (some (i + length host + 1)))
loop_host buf pre host rest r n i h e p ei er =
    url_loop-passes host_end buf pre host (b'/' ∷ rest) r (suc n) i h none e p ei er
    ∙ url_loop_step n (i + length host) (at buf host_end h none)
        (at ((pre ++ host) ++ 0 ∷ rest) path_end h (some (i + length host + 1)))
        (omega (
          arith,
          ap length e,
          length-append pre (host ++ b'/' ∷ rest),
          length-append host (b'/' ∷ rest),
        ))
        (step_host_end buf (pre ++ host) rest (i + length host) h
          (e ∙ sym (append_assoc pre host (b'/' ∷ rest))) (omega (arith, length-append pre host)))

loop_path :
    (buf pre path rest : Bytes) (r i : ℕ) (h h' : Option ℕ)
    → buf ≡ pre ++ (path ++ rest)
    → AllPass path_end path
    → i ≡ length pre
    → r ≡ length path
    → url_loop r i (at buf path_end h h') ≡ some (at buf path_end h h', false)
unfolding url_loop
loop_path buf pre path rest r i h h' e p ei er =
    url_loop-passes path_end buf pre path rest r 0 i h h' e p ei (omega arith)

url_of-append :
    (scheme host path post : Bytes)
    → url_of scheme host path ++ post ≡ url_of scheme host (path ++ post)
url_of-append scheme host path post =
    append_assoc scheme (b':' ∷ b'/' ∷ b'/' ∷ (host ++ b'/' ∷ path)) post
    ∙ ap (λ r. scheme ++ b':' ∷ b'/' ∷ b'/' ∷ r) (append_assoc host (b'/' ∷ path) post)

cut_cr-url_of :
    (scheme host path post cut : Bytes)
    → AllPass protocol_end scheme
    → AllPass host_end host
    → AllPass path_end path
    → cut_cr post ≡ some cut
    → cut_cr (url_of scheme host path ++ post) ≡ some (url_of scheme host (path ++ cut))
cut_cr-url_of scheme host path post cut hs hh hp e =
    let in_path =
      cut_cr-cons b'/' (path ++ post) (path ++ cut) refl refl
        (cut_cr-passes path_end path post cut hp e) in
    let in_host =
      cut_cr-passes host_end host (b'/' ∷ (path ++ post)) (b'/' ∷ (path ++ cut)) hh in_path in
    ap cut_cr (url_of-append scheme host path post)
    ∙ cut_cr-passes protocol_end scheme _ _ hs (
        cut_cr-cons b':' _ _ refl refl
          (cut_cr-cons b'/' _ _ refl refl (cut_cr-cons b'/' _ _ refl refl in_host)))

at_path_end-eq :
    (b b' : Bytes) (h h' p p' : ℕ)
    → b ≡ b'
    → h ≡ h'
    → p ≡ p'
    → ◌≡◌ {A = Option (UrlState × Bool)}
        (some (at b path_end (some h) (some p), false))
        (some (at b' path_end (some h') (some p'), false))
at_path_end-eq b b' h h' p p' eb eh ep = rw (eb, eh, ep)

loop-url_of :
    (scheme host path rest : Bytes)
    → AllPass protocol_end scheme
    → AllPass host_end host
    → AllPass path_end path
    → url_loop
        (length (url_of scheme host path))
        0
        (at (url_of scheme host (path ++ rest)) protocol_end none none)
      ≡ some (
        at
            (split_of scheme host (path ++ rest))
            path_end
            (some (length scheme + 3))
            (some (length scheme + 3 + length host + 1)),
        false,
      )
loop-url_of scheme host path rest hs hh hp =
    let tail = host ++ b'/' ∷ (path ++ rest) in
    let p₁ = scheme ++ 0 ∷ [] in
    let p₂ = p₁ ++ 0 ∷ [] in
    let p₃ = p₂ ++ 0 ∷ [] in
    let k = length scheme + 1 + 1 + 1 in
    let buf = (p₃ ++ host) ++ 0 ∷ (path ++ rest) in
    loop_scheme scheme (b'/' ∷ b'/' ∷ tail) (length (url_of scheme host path))
      (suc (suc (length host + suc (length path)))) hs
      (omega (
        arith,
        length-append scheme (b':' ∷ b'/' ∷ b'/' ∷ (host ++ b'/' ∷ path)),
        length-append host (b'/' ∷ path),
      ))
    ∙ loop_slashes (scheme ++ 0 ∷ b'/' ∷ b'/' ∷ tail) p₁ tail (length host + suc (length path))
        (length scheme + 1) (sym (append_assoc scheme (0 ∷ []) (b'/' ∷ b'/' ∷ tail)))
        (omega (arith, length-append scheme (0 ∷ [])))
    ∙ loop_host (p₂ ++ 0 ∷ tail) p₃ host (path ++ rest) (length host + suc (length path))
        (length path) k (some k) (sym (append_assoc p₂ (0 ∷ []) tail)) hh
        (omega (
          arith,
          length-append scheme (0 ∷ []),
          length-append p₁ (0 ∷ []),
          length-append p₂ (0 ∷ []),
        ))
        refl
    ∙ loop_path buf ((p₃ ++ host) ++ 0 ∷ []) path rest (length path) (k + length host + 1) (some k)
        (some (k + length host + 1)) (sym (append_assoc (p₃ ++ host) (0 ∷ []) (path ++ rest))) hp
        (omega (
          arith,
          length-append scheme (0 ∷ []),
          length-append p₁ (0 ∷ []),
          length-append p₂ (0 ∷ []),
          length-append p₃ host,
          length-append (p₃ ++ host) (0 ∷ []),
        ))
        refl
    ∙ at_path_end-eq buf (split_of scheme host (path ++ rest)) k (length scheme + 3)
        (k + length host + 1) (length scheme + 3 + length host + 1) (simp append_assoc)
        (omega arith) (omega arith)

path_at :
    (scheme host rest : Bytes)
    → drop (length scheme + 3 + length host + 1) (split_of scheme host rest) ≡ rest
path_at scheme host rest =
    let pre = (scheme ++ 0 ∷ 0 ∷ 0 ∷ []) ++ (host ++ 0 ∷ []) in
    let whole : split_of scheme host rest ≡ pre ++ rest = simp append_assoc in
    let place : length scheme + 3 + length host + 1 ≡ length pre = omega (
      arith,
      length-append scheme (0 ∷ 0 ∷ 0 ∷ []),
      length-append (scheme ++ 0 ∷ 0 ∷ 0 ∷ []) (host ++ 0 ∷ []),
      length-append host (0 ∷ []),
    ) in
    rw (whole, place) (drop-length-append pre rest)

-- On the text `scheme://host/path`, where a CR or a NUL stands somewhere behind it in the buffer, and
-- whatever stands in front of that, the parse stays within the buffer and succeeds: the separators
-- and the CR are overwritten by NULs, and the pointers lead to the host and to the path.
pub parse_url-url_of :
    (scheme host path post cut : Bytes)
    → AllPass protocol_end scheme
    → AllPass host_end host
    → AllPass path_end path
    → cut_cr post ≡ some cut
    → parse_url (url_of scheme host path ++ post) (length (url_of scheme host path))
      ≡ some (
        pos 0,
        at
            (split_of scheme host (path ++ cut))
            path_end
            (some (length scheme + 3))
            (some (length scheme + 3 + length host + 1)),
      )
unfolding parse_url
parse_url-url_of scheme host path post cut hs hh hp e =
    let ends : has_nul
          (drop (length scheme + 3 + length host + 1) (split_of scheme host (path ++ cut)))
        ≡ true =
      rw (path_at scheme host (path ++ cut))
        (has_nul-append path cut (has_nul-cut_cr post cut e)) in
    rw
      (
        cut_cr-url_of scheme host path post cut hs hh hp e,
        loop-url_of scheme host path cut hs hh hp,
        parse_finish,
        ends,
      )
      refl
