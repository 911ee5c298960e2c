-- ===== src/Xmodem/Frame.antt =====
-- The block that XmodemSendBlock builds, and what xmodem_block_validation accepts (src/xmodem.c).
use sipf_std_client_nrf.Prelude.{
  ℕ, zero, suc, ◌+◌, ◌-◌, ◌%◌, ◌≤◌, ◌<◌, ◌≡◌, ◌≢◌, ◌↔◌, refl, sym, ap, ◌∙◌, [], ◌∷◌, ◌++◌, arith,
  ◌==◌, if◌then◌else◌, pos, negsuc, Bytes, length, get_or, replicate, append_assoc, length-append,
  get_or-append_at, length-replicate,
}
use sipf_std_client_nrf.Xmodem.{sum_block, block_validation}

-- The sum of the bytes, as a number.
abbrev pub total : Bytes → ℕ
total [] = 0
total (x ∷ xs) = x + total xs

-- The data of a block: the payload and the padding behind it.
abbrev pub padded : Bytes → Bytes
padded payload = payload ++ replicate (128 - length payload) 0x1a

-- A block by its parts.
abbrev pub layout : ℕ → ℕ → ℕ → Bytes → ℕ → Bytes
layout soh bn bnc bytes sum = soh ∷ bn ∷ bnc ∷ (bytes ++ sum ∷ [])

pub length-padded : (p : Bytes) → length p ≤ 128 → length (padded p) ≡ 128
length-padded p h = omega (
  arith,
  length-append p (replicate (128 - length p) 0x1a),
  length-replicate {A = ℕ} (128 - length p) 0x1a,
)

pub total-append : (xs ys : Bytes) → total (xs ++ ys) ≡ total xs + total ys
total-append [] ys = omega arith
total-append (x ∷ xs) ys = omega (arith, total-append xs ys)

-- The loop over the elements of `xs`, wherever they stand in the block.
pub sum_block-total :
    (pre xs post : Bytes) (i n s : ℕ)
    → i ≡ length pre
    → n ≡ length xs
    → s < 256
    → sum_block (pre ++ (xs ++ post)) i n s ≡ (s + total xs) % 256
unfolding sum_block
sum_block-total pre [] post i zero s ei en h = omega arith
sum_block-total pre [] post i (suc n) s ei en h = absurd (omega arith)
sum_block-total pre (x ∷ xs) post i zero s ei en h = absurd (omega arith)
sum_block-total pre (x ∷ xs) post i (suc n) s ei en h =
    let regroup : pre ++ ((x ∷ xs) ++ post) ≡ (pre ++ x ∷ []) ++ (xs ++ post) =
      sym (append_assoc pre (x ∷ []) (xs ++ post)) in
    rw (ei, get_or-append_at pre x (xs ++ post) 0)
      (ap (λ b. sum_block b (length pre + 1) n ((s + x) % 256)) regroup
        ∙ sum_block-total (pre ++ x ∷ []) xs post (length pre + 1) n ((s + x) % 256)
            (omega (arith, length-append pre (x ∷ []))) (omega arith) (omega arith)
        ∙ omega arith)

pub sum_block-layout :
    (soh bn bnc : ℕ) (bytes : Bytes) (sum : ℕ)
    → length bytes ≡ 128
    → sum_block (layout soh bn bnc bytes sum) 3 128 0 ≡ total bytes % 256
sum_block-layout soh bn bnc bytes sum h =
    sum_block-total (soh ∷ bn ∷ bnc ∷ []) bytes (sum ∷ []) 3 128 0 refl (sym h) (omega arith)
    ∙ omega arith

get_or-layout_sum :
    (soh bn bnc : ℕ) (bytes : Bytes) (sum : ℕ)
    → length bytes ≡ 128
    → get_or (layout soh bn bnc bytes sum) 131 0 ≡ sum
get_or-layout_sum soh bn bnc bytes sum h =
    let e : 131 ≡ length (soh ∷ bn ∷ bnc ∷ bytes) = omega arith in
    ap (λ i. get_or (layout soh bn bnc bytes sum) i 0) e
    ∙ get_or-append_at (soh ∷ bn ∷ bnc ∷ bytes) sum [] 0

-- What xmodem_block_validation returns for a block of 128 data bytes, on every branch.
pub block_validation-layout :
    (soh bn' bnc : ℕ) (bytes : Bytes) (sum bn : ℕ)
    → length bytes ≡ 128
    → block_validation (layout soh bn' bnc bytes sum) bn ≡ (
        if bn' + bnc == 0xff
        then (if bn == bn'
            then negsuc 1
            else if (bn + 1) % 256 == bn'
            then (if total bytes % 256 == sum then pos bn' else negsuc 0)
            else negsuc 0)
        else negsuc 0)
unfolding block_validation
block_validation-layout soh bn' bnc bytes sum bn h =
    ground
      (arith, sum_block-layout soh bn' bnc bytes sum h, get_or-layout_sum soh bn' bnc bytes sum h)

-- A block of 128 data bytes is accepted behind block number `bn` exactly when the two block
-- number bytes add up to 0xFF, the number is the next one modulo 256, and the last byte is the sum
-- of the data modulo 256.
pub block_validation-iff_valid :
    (soh bn' bnc : ℕ) (bytes : Bytes) (sum bn : ℕ)
    → length bytes ≡ 128
    → bn < 256
    → (block_validation (layout soh bn' bnc bytes sum) bn ≡ pos bn')
      ↔ ((bn' + bnc ≡ 0xff) × (bn' ≡ (bn + 1) % 256) × (sum ≡ total bytes % 256))
block_validation-iff_valid soh bn' bnc bytes sum bn h lt = (
  λ e. ground (arith, block_validation-layout soh bn' bnc bytes sum bn h),
  λ e. ground (arith, block_validation-layout soh bn' bnc bytes sum bn h),
)

-- A received block in which one data byte was changed on the way is refused with -1, if it
-- carries the sum of the data as they were sent and a fresh, well-formed block number.
block_validation-corrupted :
    (soh bn bnc : ℕ) (xs : Bytes) (y y' : ℕ) (ys : Bytes)
    → length (xs ++ y' ∷ ys) ≡ 128
    → y < 256
    → y' < 256
    → y' ≢ y
    → bn < 256
    → (bn + 1) % 256 + bnc ≡ 0xff
    → block_validation
        (layout soh ((bn + 1) % 256) bnc (xs ++ y' ∷ ys) (total (xs ++ y ∷ ys) % 256))
        bn
      ≡ negsuc 0
block_validation-corrupted soh bn bnc xs y y' ys h ly ly' ne lt w = ground (
  arith,
  block_validation-layout soh ((bn + 1) % 256) bnc (xs ++ y' ∷ ys) (total (xs ++ y ∷ ys) % 256) bn
      h,
  total-append xs (y ∷ ys),
  total-append xs (y' ∷ ys),
)
