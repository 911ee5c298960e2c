-- ===== src/Xmodem/Build.antt =====
-- The bytes that XmodemSendBlock writes into its block, loop by loop (src/xmodem.c).
use sipf_std_client_nrf.Prelude.{
  ℕ, zero, suc, ◌+◌, ◌-◌, ◌%◌, ◌≤◌, ◌<◌, ◌≡◌, refl, sym, ap, ◌∙◌, [], ◌∷◌, ◌++◌, arith, pos, Bytes,
  length, get_or, set, replicate, drop, append_assoc, length-append, append-nil, get_or-append_at,
  get_or-append_left, length-replicate, set-length-append,
}
use sipf_std_client_nrf.Xmodem.Frame.{
  total, padded, layout, length-padded, sum_block-total, block_validation-iff_valid,
}
use sipf_std_client_nrf.Xmodem.{sum_block, block_validation, add_sum, copy, make_block}

-- memcpy overwrites as many bytes as it copies.
pub copy-append :
    (pre xs rest : Bytes) (i : ℕ)
    → i ≡ length pre
    → length xs ≤ length rest
    → copy (pre ++ rest) i xs ≡ pre ++ (xs ++ drop (length xs) rest)
unfolding copy
copy-append pre [] rest i e h = refl
copy-append pre (x ∷ xs) [] i e h = absurd (omega arith)
copy-append pre (x ∷ xs) (r ∷ rest) i e h =
    rw (e, set-length-append pre r rest x)
      (ap (λ b. copy b (length pre + 1) xs) (sym (append_assoc pre (x ∷ []) rest))
        ∙ copy-append (pre ++ x ∷ []) xs rest (length pre + 1)
            (omega (arith, length-append pre (x ∷ []))) (omega arith)
        ∙ append_assoc pre (x ∷ []) (xs ++ drop (length xs) rest))

replicate_snoc : (n a : ℕ) → replicate (suc n) a ≡ replicate n a ++ a ∷ []
replicate_snoc zero a = refl
replicate_snoc (suc n) a = ap (◌∷◌ a) (replicate_snoc n a)

drop-replicate_snoc :
    (n k m a : ℕ) → m ≡ n + k → drop n (replicate (suc m) a) ≡ replicate k a ++ a ∷ []
drop-replicate_snoc zero k m a e = let same : m ≡ k = omega arith in rw same (replicate_snoc k a)
drop-replicate_snoc (suc n) k zero a e = absurd (omega arith)
drop-replicate_snoc (suc n) k (suc m) a e = drop-replicate_snoc n k m a (omega arith)

set_last : (pre : Bytes) (i s v : ℕ) → i ≡ length pre → set (pre ++ s ∷ []) i v ≡ pre ++ v ∷ []
set_last pre i s v e = rw e (set-length-append pre s [] v)

get_or_last : (pre : Bytes) (i s : ℕ) → i ≡ length pre → get_or (pre ++ s ∷ []) i 0 ≡ s
get_or_last pre i s e = rw e (get_or-append_at pre s [] 0)

-- The sum that is built up inside the block is the sum of the bytes before it.
add_sum-sum_block :
    (pre : Bytes) (i n s : ℕ)
    → 131 ≡ length pre
    → i + n ≤ 131
    → add_sum i n (pre ++ s ∷ []) ≡ pre ++ sum_block pre i n s ∷ []
unfolding add_sum sum_block
add_sum-sum_block pre i zero s e h = refl
add_sum-sum_block pre i (suc n) s e h =
    rw
      (
        get_or_last pre 131 s e,
        get_or-append_left pre (s ∷ []) i 0 (omega arith),
        set_last pre 131 s ((s + get_or pre i 0) % 256) e,
      )
      (add_sum-sum_block pre (i + 1) n ((s + get_or pre i 0) % 256) e (omega arith))

-- What stands in front of the sum.
abbrev body : ℕ → ℕ → ℕ → Bytes → Bytes
body soh bn bnc bytes = soh ∷ bn ∷ bnc ∷ bytes

sum_block-body :
    (soh bn bnc : ℕ) (bytes : Bytes)
    → length bytes ≡ 128
    → sum_block (body soh bn bnc bytes) 3 128 0 ≡ total bytes % 256
sum_block-body soh bn bnc bytes h =
    ap (λ b. sum_block (soh ∷ bn ∷ bnc ∷ b) 3 128 0) (sym (append-nil bytes))
    ∙ sum_block-total (soh ∷ bn ∷ bnc ∷ []) bytes [] 3 128 0 refl (sym h) (omega arith)
    ∙ omega arith

-- The padding left behind the payload, with one more byte where the sum will stand.
copy_payload :
    (bn bnc : ℕ) (payload : Bytes)
    → length payload ≤ 128
    → copy (body 0x01 bn bnc (replicate 129 0x1a)) 3 payload
      ≡ body 0x01 bn bnc (padded payload) ++ 0x1a ∷ []
copy_payload bn bnc payload h =
    copy-append (0x01 ∷ bn ∷ bnc ∷ []) payload (replicate 129 0x1a) 3 refl
      (omega (arith, length-replicate {A = ℕ} 129 0x1a))
    ∙ ap (λ r. body 0x01 bn bnc (payload ++ r))
        (drop-replicate_snoc (length payload) (128 - length payload) 128 0x1a (omega arith))
    ∙ ap (body 0x01 bn bnc)
        (sym (append_assoc payload (replicate (128 - length payload) 0x1a) (0x1a ∷ [])))

-- XmodemSendBlock's block: header, number, its complement, the payload padded with 0x1A to 128
-- bytes, and the sum of these modulo 256.
pub make_block-layout :
    (bn : ℕ) (payload : Bytes)
    → length payload ≤ 128
    → make_block bn payload
      ≡ layout 0x01 bn (255 - bn) (padded payload) (total (padded payload) % 256)
unfolding make_block
make_block-layout bn payload h =
    let e : 131 ≡ length (body 0x01 bn (255 - bn) (padded payload)) =
      omega (arith, length-padded payload h) in
    ap (λ b. add_sum 3 128 (set b 131 0)) (copy_payload bn (255 - bn) payload h)
    ∙ ap (add_sum 3 128) (set_last (body 0x01 bn (255 - bn) (padded payload)) 131 0x1a 0 e)
    ∙ add_sum-sum_block (body 0x01 bn (255 - bn) (padded payload)) 3 128 0 e (omega arith)
    ∙ ap (λ s. layout 0x01 bn (255 - bn) (padded payload) s)
        (sum_block-body 0x01 bn (255 - bn) (padded payload) (length-padded payload h))

-- The block that the sender builds for the next block number is accepted by the receiver's
-- validation, whatever the payload of at most 128 bytes.
pub block_validation-make_block :
    (bn : ℕ) (payload : Bytes)
    → bn < 256
    → length payload ≤ 128
    → block_validation (make_block ((bn + 1) % 256) payload) bn ≡ pos ((bn + 1) % 256)
block_validation-make_block bn payload lt h = rw (make_block-layout ((bn + 1) % 256) payload h) (
    (block_validation-iff_valid 0x01 ((bn + 1) % 256) (255 - (bn + 1) % 256) (padded payload)
        (total (padded payload) % 256) bn (length-padded payload h) lt).1
      (omega arith, refl, refl))
