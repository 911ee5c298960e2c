-- ===== src/ClientHttp/UrlStrings.antt =====
-- The strings that the parse of a URL (lib/sipf/src/sipf_client_http.c) leaves in the buffer.
use sipf_std_client_nrf.ClientHttp.SplitUrl.{AllPass}
use sipf_std_client_nrf.ClientHttp.UrlParts.{split_of}
use sipf_std_client_nrf.ClientHttp.{UrlDelim, protocol_end, host_end, path_end}
use sipf_std_client_nrf.Libc.{c_string}
use sipf_std_client_nrf.Prelude.{
  ℕ, ◌+◌, ◌≡◌, refl, sym, ap, ◌∙◌, [], ◌∷◌, ◌++◌, arith, Bytes, length, drop, append_assoc,
  append-nil, length-append, drop-length-append,
}

pub c_string-passes :
    (st : UrlDelim) (xs rest : Bytes) → AllPass st xs → c_string (xs ++ rest) ≡ xs ++ c_string rest
unfolding c_string
c_string-passes st [] rest p = refl
c_string-passes st (x ∷ xs) rest p = rw (p.1, c_string-passes st xs rest p.3)

pub c_string-nul : (rest : Bytes) → c_string (0 ∷ rest) ≡ []
unfolding c_string
c_string-nul rest = refl

drop_at : (buf pre rest : Bytes) (n : ℕ) → buf ≡ pre ++ rest → n ≡ length pre → drop n buf ≡ rest
drop_at buf pre rest n e en = rw (e, en) (drop-length-append pre rest)

-- The C strings that the three pointers lead to behind a parse of `scheme://host/path`: the scheme,
-- the host, and the path followed by whatever text stands behind the URL in the buffer.
pub split_of-strings :
    (scheme host path post : Bytes)
    → AllPass protocol_end scheme
    → AllPass host_end host
    → AllPass path_end path
    → let buf = split_of scheme host (path ++ post) in
      (c_string buf ≡ scheme)
      × (c_string (drop (length scheme + 3) buf) ≡ host)
      × (c_string (drop (length scheme + 3 + length host + 1) buf) ≡ path ++ c_string post)
split_of-strings scheme host path post hs hh hp =
    let buf = split_of scheme host (path ++ post) in
    let p₃ = scheme ++ 0 ∷ 0 ∷ 0 ∷ [] in
    let p₄ = p₃ ++ (host ++ 0 ∷ []) in
    (
      c_string-passes protocol_end scheme _ hs ∙ rw c_string-nul (append-nil scheme),
      ap c_string (
            drop_at buf p₃ (host ++ 0 ∷ (path ++ post)) (length scheme + 3)
              (sym (append_assoc scheme (0 ∷ 0 ∷ 0 ∷ []) (host ++ 0 ∷ (path ++ post))))
              (omega (arith, length-append scheme (0 ∷ 0 ∷ 0 ∷ []))))
          ∙ c_string-passes host_end host (0 ∷ (path ++ post)) hh
          ∙ rw c_string-nul (append-nil host),
      ap c_string (
            drop_at buf p₄ (path ++ post) (length scheme + 3 + length host + 1) (simp append_assoc)
              (omega (
                arith,
                length-append scheme (0 ∷ 0 ∷ 0 ∷ []),
                length-append p₃ (host ++ 0 ∷ []),
                length-append host (0 ∷ []),
              )))
          ∙ c_string-passes path_end path post hp,
    )
