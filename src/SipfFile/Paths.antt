-- ===== src/SipfFile/Paths.antt =====
-- lib/sipf/src/sipf_file.c: the paths of the requests in `path_endpoint`.
use sipf_std_client_nrf.ClientHttp.{Net}
use sipf_std_client_nrf.Libc.{memcpy}
use sipf_std_client_nrf.Prelude.{
  ℕ, ◌+◌, ◌≡◌, ◌≤◌, ◌<◌, ◌↔◌, refl, ◌++◌, false, Option, none, some, [], ◌∷◌, ltb, Bytes, length,
  codes, arith, length-append,
}
use sipf_std_client_nrf.SipfFile.{FileConfig, Files, notify_complete, upload_complete}

memcpy_big : (dst xs : Bytes) → length dst < length xs → memcpy dst 0 xs ≡ none
unfolding memcpy
memcpy_big dst xs h = ground arith

passes : (a b : ℕ) → a ≤ b → ltb b a ≡ false
passes a b h = ground arith

decide_big : (dst xs : Bytes) {n : ℕ} → length xs ≡ n → memcpy dst 0 xs ≡ none → length dst < n
unfolding memcpy
decide_big dst xs e h = ground arith

module _ {W : Type 0} (net : Net W) (cfg : FileConfig) where
  complete_path : Bytes → Bytes
  complete_path id = cfg.prefix ++ (id ++ (cfg.suffix ++ (codes "complete/" ++ 0 ∷ [])))

  length-complete_path :
      (id : Bytes)
      → length (complete_path id) ≡ length cfg.prefix + length id + length cfg.suffix + 10
  unfolding complete_path
  length-complete_path id = omega (
    arith,
    length-append cfg.prefix (id ++ (cfg.suffix ++ (codes "complete/" ++ 0 ∷ []))),
    length-append id (cfg.suffix ++ (codes "complete/" ++ 0 ∷ [])),
    length-append cfg.suffix (codes "complete/" ++ 0 ∷ []),
  )

  -- behind the check
  complete_in :
      (id : Bytes) (f : Files W) (r : Option Bytes)
      → memcpy f.path_endpoint 0 (complete_path id) ≡ r
      → length cfg.prefix + 2 + length cfg.suffix + 4 ≤ length f.path_endpoint
      → (upload_complete net cfg id f ≡ none) ↔ (r ≡ none)
  unfolding upload_complete complete_path
  complete_in id f none e h =
      let c = passes _ _ h in (λ _. refl, λ _. rw (upload_complete, c, e) refl)
  complete_in id f (some ep) e h =
      let c = passes _ _ h in
      let run : upload_complete net cfg id f
          ≡ some (notify_complete net cfg (record f { path_endpoint = ep })) =
        rw (upload_complete, c, e) refl in
      (λ n. absurd (ground (arith, run)), λ n. absurd (ground arith))

  -- Where the check of SipfFileUploadComplete passes, which counts a pointer for the file id: the
  -- path leaves `path_endpoint` exactly for the ids with which the path, "complete/" and the NUL
  -- are longer than the array.
  pub upload_complete-fault_iff :
      (id : Bytes) (f : Files W)
      → length cfg.prefix + 2 + length cfg.suffix + 4 ≤ length f.path_endpoint
      → (upload_complete net cfg id f ≡ none)
        ↔ (length f.path_endpoint < length cfg.prefix + length id + length cfg.suffix + 10)
  upload_complete-fault_iff id f h =
      let len = length-complete_path id in
      let (only, if_none) = complete_in id f _ refl h in
      (
        λ e. decide_big f.path_endpoint (complete_path id) len (only e),
        λ big. if_none (memcpy_big f.path_endpoint (complete_path id) (omega arith)),
      )
