-- ===== src/SipfFile/UploadUrl.antt =====
-- lib/sipf/src/sipf_file.c: SipfFileUpload from the URL on, over the split of the HTTP client.
use sipf_std_client_nrf.ClientHttp.SplitUrl.{AllPass, at}
use sipf_std_client_nrf.ClientHttp.UrlParts.{url_of, split_of, parse_url-url_of}
use sipf_std_client_nrf.ClientHttp.UrlStrings.{split_of-strings, c_string-passes, c_string-nul}
use sipf_std_client_nrf.ClientHttp.{Net, UrlDelim, protocol_end, host_end, path_end, cut_cr}
use sipf_std_client_nrf.Libc.Copy.{memcpy-at, drop-more}
use sipf_std_client_nrf.Libc.{c_string, strlen}
use sipf_std_client_nrf.Prelude.Faults.{◌>>=◌}
use sipf_std_client_nrf.Prelude.{
  ℕ, ◌+◌, ◌≤◌, append-nil, ◌≡◌, ◌∙◌, refl, sym, ap, Bool, Option, some, [], ◌∷◌, ◌++◌, ℤ, pos,
  Bytes, length, take, drop, arith, append_assoc, length-append, drop-length-append,
  take-length-append,
}
use sipf_std_client_nrf.SipfFile.{
  FileConfig, Files, upload, request_url, tls_of, slash_path, upload_at, upload_split, upload_to,
  file_upload,
}

strlen-passes :
    (st : UrlDelim) (xs rest : Bytes) → AllPass st xs → strlen (xs ++ 0 ∷ rest) ≡ some (length xs)
unfolding strlen
strlen-passes st [] rest p = refl
strlen-passes st (x ∷ xs) rest p = rw (strlen, p.1, strlen-passes st xs rest p.3) refl

-- The path moves one place up, with its NUL, over the byte behind it.
slash_path-at :
    (pre path rest : Bytes) (c : ℕ)
    → AllPass path_end path
    → slash_path (pre ++ (path ++ 0 ∷ c ∷ rest)) (length pre)
      ≡ some (pre ++ b'/' ∷ (path ++ 0 ∷ rest))
unfolding slash_path
slash_path-at pre path rest c p =
    let behind = path ++ 0 ∷ c ∷ rest in
    let text = path ++ 0 ∷ [] in
    let here : drop (length pre) (pre ++ behind) ≡ behind = drop-length-append pre behind in
    let len : length text ≡ length path + 1 = length-append path (0 ∷ []) in
    let taken : take (length path + 1) behind ≡ text =
      ap (λ n. take n behind) (sym len)
      ∙ ap (take (length text)) (sym (append_assoc path (0 ∷ []) (c ∷ rest)))
      ∙ take-length-append text (c ∷ rest) in
    let count : length (b'/' ∷ text) ≡ length path + 2 = omega (arith, len) in
    let left : drop (length (b'/' ∷ text)) behind ≡ rest =
      ap (λ n. drop n behind) count ∙ drop-more path (0 ∷ c ∷ rest) 2 in
    let fits : length (b'/' ∷ text) ≤ length behind =
      omega (arith, len, length-append path (0 ∷ c ∷ rest)) in
    let moved = memcpy-at pre behind (b'/' ∷ text) fits in
    rw (here, strlen-passes path_end path (c ∷ rest) p, taken)
      (moved
        ∙ ap (λ r. some (pre ++ b'/' ∷ r))
            (ap (λ r. text ++ r) left ∙ append_assoc path (0 ∷ []) rest))

-- The buffer behind the split, up to the path.
abbrev in_front : Bytes → Bytes → Bytes
in_front scheme host = scheme ++ 0 ∷ 0 ∷ 0 ∷ (host ++ 0 ∷ [])

length-in_front :
    (scheme host : Bytes) → length scheme + 3 + length host + 1 ≡ length (in_front scheme host)
length-in_front scheme host =
    omega (arith, length-append scheme (0 ∷ 0 ∷ 0 ∷ (host ++ 0 ∷ [])), length-append host (0 ∷ []))

in_front-append :
    (scheme host rest : Bytes) → split_of scheme host rest ≡ in_front scheme host ++ rest
in_front-append scheme host rest = simp append_assoc

-- The path that the upload asks for, behind the move.
moved_path :
    (pre path rest : Bytes)
    → AllPass path_end path
    → c_string (drop (length pre) (pre ++ b'/' ∷ (path ++ 0 ∷ rest))) ≡ b'/' ∷ path
moved_path pre path rest p =
    ap c_string (drop-length-append pre (b'/' ∷ (path ++ 0 ∷ rest)))
    ∙ c_string-passes path_end (b'/' ∷ path) (0 ∷ rest) (refl, refl, refl, p)
    ∙ rw (c_string-nul rest) (append-nil (b'/' ∷ path))

module _ {W : Type 0} (net : Net W) (cfg : FileConfig) where
  upload_split-url_of :
      (file_id buff scheme host path rest : Bytes) (c : ℕ) (tls : Bool) (cb : Option (W → ℤ × W))
      (sz : ℤ) (f : Files W)
      → AllPass protocol_end scheme
      → AllPass host_end host
      → AllPass path_end path
      → tls_of scheme ≡ some tls
      → upload_split net cfg file_id buff cb sz f (
        pos 0,
        at
            (split_of scheme host (path ++ 0 ∷ c ∷ rest))
            path_end
            (some (length scheme + 3))
            (some (length scheme + 3 + length host + 1)),
      )
        ≡ upload_at net cfg file_id buff cb sz host
            (b'/' ∷ path)
            tls
            (record f { image_url = split_of scheme host (b'/' ∷ (path ++ 0 ∷ rest)) })
  unfolding upload_split
  upload_split-url_of file_id buff scheme host path rest c tls cb sz f hs hh hp t =
      let (prot, name, _) = split_of-strings scheme host path (0 ∷ c ∷ rest) hs hh hp in
      let pre = in_front scheme host in
      let place = length-in_front scheme host in
      let full : split_of scheme host (path ++ 0 ∷ c ∷ rest) ≡ pre ++ (path ++ 0 ∷ c ∷ rest) =
        in_front-append scheme host (path ++ 0 ∷ c ∷ rest) in
      let moved : slash_path (split_of scheme host (path ++ 0 ∷ c ∷ rest))
            (length scheme + 3 + length host + 1)
          ≡ some (split_of scheme host (b'/' ∷ (path ++ 0 ∷ rest))) =
        rw (full, place)
          (slash_path-at pre path rest c hp
            ∙ ap some (sym (in_front-append scheme host (b'/' ∷ (path ++ 0 ∷ rest))))) in
      let path' : c_string (
            drop (length scheme + 3 + length host + 1)
              (split_of scheme host (b'/' ∷ (path ++ 0 ∷ rest))))
          ≡ b'/' ∷ path =
        rw (in_front-append scheme host (b'/' ∷ (path ++ 0 ∷ rest)), place)
          (moved_path pre path rest hp) in
      rw (upload_split, prot, t, name, moved, path') refl

  -- SipfFileUpload, where the service answers `scheme://host/path` to the request for a URL, with a
  -- NUL and one more byte of `image_url` behind it: the upload goes to this host, with TLS by the
  -- scheme, for the path `/path`, which takes one byte more of the buffer; the result is that of the
  -- upload and, behind one that succeeds, of the notification of its completion.
  pub file_upload-url_of :
      (file_id buff scheme host path rest : Bytes) (c : ℕ) (tls : Bool) (cb : Option (W → ℤ × W))
      (sz : ℤ) (f f' : Files W)
      → AllPass protocol_end scheme
      → AllPass host_end host
      → AllPass path_end path
      → tls_of scheme ≡ some tls
      → request_url net cfg upload file_id f.image_url f
        ≡ some (pos (length (url_of scheme host path)), url_of scheme host path ++ 0 ∷ c ∷ rest, f')
      → file_upload net cfg file_id buff cb sz f
        ≡ upload_at net cfg file_id buff cb sz host
            (b'/' ∷ path)
            tls
            (record f' { image_url = split_of scheme host (b'/' ∷ (path ++ 0 ∷ rest)) })
  unfolding file_upload upload_to cut_cr
  file_upload-url_of file_id buff scheme host path rest c tls cb sz f f' hs hh hp t e =
      let f'' = record f' { image_url = url_of scheme host path ++ 0 ∷ c ∷ rest } in
      rw (file_upload, e)
        (ap (λ r. r >>= upload_split net cfg file_id buff cb sz f'')
            (parse_url-url_of scheme host path (0 ∷ c ∷ rest) (0 ∷ c ∷ rest) hs hh hp refl)
          ∙ upload_split-url_of file_id buff scheme host path rest c tls cb sz f'' hs hh hp t)
