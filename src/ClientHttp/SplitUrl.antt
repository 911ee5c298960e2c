-- ===== src/ClientHttp/SplitUrl.antt =====
-- SipfClientHttpParseURL (lib/sipf/src/sipf_client_http.c) on a URL `scheme://host/path`.
use sipf_std_client_nrf.ClientHttp.{
  UrlDelim, protocol_end, root_1, root_2, host_end, path_end, UrlState, url_step, url_loop,
}
use sipf_std_client_nrf.Prelude.{
  ℕ, zero, suc, ◌+◌, ◌<◌, ◌≡◌, sym, ap, ◌∙◌, Bool, true, false, ◌||◌, not, Option, none, some, [],
  ◌∷◌, ◌++◌, arith, ◌==◌, Bytes, length, get_or, set, append_assoc, length-append, get_or-append_at,
  set-length-append,
}

-- What a state passes over.
abbrev pub passes : UrlDelim → ℕ → Bool
passes protocol_end c = not (c == b':')
passes root_1 c = not (c == b'/')
passes root_2 c = not (c == b'/')
passes host_end c = not (c == b'/')
passes path_end c = not (c == 0x0d || c == 0x0a)

-- Each byte is passed over in this state, and neither ends the string nor is a CR.
abbrev pub AllPass : UrlDelim → Bytes → Type 0
AllPass st [] = Unit {0}
AllPass st (c ∷ cs) = (passes st c ≡ true) × (c == 0 ≡ false) × (c == 0x0d ≡ false) × AllPass st cs

abbrev pub at : Bytes → UrlDelim → Option ℕ → Option ℕ → UrlState
at buf st host path = record { buf = buf; st = st; host = host; path = path }

pub url_step-passes :
    (st : UrlDelim) (buf : Bytes) (i c : ℕ) (host path : Option ℕ)
    → get_or buf i 0 ≡ c
    → passes st c ≡ true
    → url_step i (at buf st host path) ≡ (at buf st host path, false)
unfolding url_step
url_step-passes protocol_end buf i c host path e p = ground arith
url_step-passes root_1 buf i c host path e p = ground arith
url_step-passes root_2 buf i c host path e p = ground arith
url_step-passes host_end buf i c host path e p = ground arith
url_step-passes path_end buf i c host path e p = ground arith

pub url_loop_step :
    (n i : ℕ) (u u' : UrlState)
    → i < length u.buf
    → url_step i u ≡ (u', false)
    → url_loop (suc n) i u ≡ url_loop n (i + 1) u'
unfolding url_loop
url_loop_step n i u u' h e = ground arith

-- A piece that its state passes over takes as many rounds as it has bytes.
pub url_loop-passes :
    (st : UrlDelim) (buf pre xs post : Bytes) (r n i : ℕ) (host path : Option ℕ)
    → buf ≡ pre ++ (xs ++ post)
    → AllPass st xs
    → i ≡ length pre
    → r ≡ length xs + n
    → url_loop r i (at buf st host path) ≡ url_loop n (i + length xs) (at buf st host path)
url_loop-passes st buf pre [] post r n i host path eb p ei er =
    let same : r ≡ n = omega arith in let stay : i + 0 ≡ i = omega arith in rw (same, stay)
url_loop-passes st buf pre (x ∷ xs) post zero n i host path eb p ei er = absurd (omega arith)
url_loop-passes st buf pre (x ∷ xs) post (suc r) n i host path eb p ei er =
    let here : get_or buf i 0 ≡ x = rw (eb, ei) (get_or-append_at pre x (xs ++ post) 0) in
    let next : i + 1 + length xs ≡ i + suc (length xs) = omega arith in
    let inside : i < length buf =
      omega (arith, ap length eb, length-append pre (x ∷ (xs ++ post))) in
    url_loop_step r i (at buf st host path) (at buf st host path) inside
      (url_step-passes st buf i x host path here p.0)
    ∙ url_loop-passes st buf (pre ++ x ∷ []) xs post r n (i + 1) host path
        (eb ∙ sym (append_assoc pre (x ∷ []) (xs ++ post))) p.3
        (omega (arith, length-append pre (x ∷ []))) (omega arith)
    ∙ ap (λ j. url_loop n j (at buf st host path)) next

-- A byte in `buf` behind `pre`, and the buffer with a NUL in its place.
module _ (buf pre post : Bytes) (c i : ℕ) (e : buf ≡ pre ++ c ∷ post) (ei : i ≡ length pre) where
  get_or_here : get_or buf i 0 ≡ c
  get_or_here = rw (e, ei) (get_or-append_at pre c post 0)

  set_here : set buf i 0 ≡ pre ++ 0 ∷ post
  set_here = rw (e, ei) (set-length-append pre c post 0)

pub step_colon :
    (buf pre post : Bytes) (i : ℕ)
    → buf ≡ pre ++ b':' ∷ post
    → i ≡ length pre
    → url_step i (at buf protocol_end none none) ≡ (at (pre ++ 0 ∷ post) root_1 none none, false)
unfolding url_step
step_colon buf pre post i e ei =
    ground (arith, get_or_here buf pre post b':' i e ei, set_here buf pre post b':' i e ei)

pub step_root_1 :
    (buf pre post : Bytes) (i : ℕ)
    → buf ≡ pre ++ b'/' ∷ post
    → i ≡ length pre
    → url_step i (at buf root_1 none none) ≡ (at (pre ++ 0 ∷ post) root_2 none none, false)
unfolding url_step
step_root_1 buf pre post i e ei =
    ground (arith, get_or_here buf pre post b'/' i e ei, set_here buf pre post b'/' i e ei)

pub step_root_2 :
    (buf pre post : Bytes) (i : ℕ)
    → buf ≡ pre ++ b'/' ∷ post
    → i ≡ length pre
    → url_step i (at buf root_2 none none)
      ≡ (at (pre ++ 0 ∷ post) host_end (some (i + 1)) none, false)
unfolding url_step
step_root_2 buf pre post i e ei =
    ground (arith, get_or_here buf pre post b'/' i e ei, set_here buf pre post b'/' i e ei)

pub step_host_end :
    (buf pre post : Bytes) (i : ℕ) (host : Option ℕ)
    → buf ≡ pre ++ b'/' ∷ post
    → i ≡ length pre
    → url_step i (at buf host_end host none)
      ≡ (at (pre ++ 0 ∷ post) path_end host (some (i + 1)), false)
unfolding url_step
step_host_end buf pre post i host e ei =
    ground (arith, get_or_here buf pre post b'/' i e ei, set_here buf pre post b'/' i e ei)
