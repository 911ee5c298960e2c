-- ===== src/Libc/Copy.antt =====
-- `memcpy` into and out of an array that is known in parts.
use sipf_std_client_nrf.Libc.{memcpy, slice}
use sipf_std_client_nrf.Prelude.{
  ◌+◌, ◌-◌, ◌≤◌, ◌≡◌, ◌∙◌, sym, refl, ℕ, zero, suc, some, [], ◌∷◌, ◌++◌, Bytes, length, drop,
  replicate, append-nil, take-length-append, drop-length-append, length-append, arith,
  length-replicate,
}

pub drop-more : (xs rest : Bytes) (n : ℕ) → drop (length xs + n) (xs ++ rest) ≡ drop n rest
drop-more [] rest n = let e : 0 + n ≡ n = omega arith in rw e
drop-more (x ∷ xs) rest n =
    let e : suc (length xs) + n ≡ suc (length xs + n) = omega arith in rw e (drop-more xs rest n)

pub memcpy-at :
    (pre rest xs : Bytes)
    → length xs ≤ length rest
    → memcpy (pre ++ rest) (length pre) xs ≡ some (pre ++ (xs ++ drop (length xs) rest))
unfolding memcpy
memcpy-at pre rest xs h =
    ground
      (arith, length-append pre rest, take-length-append pre rest, drop-more pre rest (length xs))

pub slice-at :
    (pre xs rest : Bytes) → slice (pre ++ (xs ++ rest)) (length pre) (length xs) ≡ some xs
unfolding slice
slice-at pre xs rest = ground (
  arith,
  length-append pre (xs ++ rest),
  length-append xs rest,
  drop-length-append pre (xs ++ rest),
  take-length-append xs rest,
)

pub drop-replicate : (n m k : ℕ) → drop n (replicate m k) ≡ replicate (m - n) k
drop-replicate zero m k = let e : m - 0 ≡ m = omega arith in rw e
drop-replicate (suc n) zero k = let e : 0 - suc n ≡ 0 = omega arith in rw e
drop-replicate (suc n) (suc m) k =
    let e : suc m - suc n ≡ m - n = omega arith in rw e (drop-replicate n m k)

pub drop_all : (xs : Bytes) → drop (length xs) xs ≡ []
drop_all [] = refl
drop_all (x ∷ xs) = drop_all xs

pub memcpy-all : (raw xs : Bytes) → length xs ≡ length raw → memcpy raw 0 xs ≡ some xs
unfolding memcpy
memcpy-all raw xs e = ground (arith, drop_all raw, append-nil xs)

-- memset(raw, 0, sizeof raw)
pub memset_all :
    (raw : Bytes) → memcpy raw 0 (replicate (length raw) 0) ≡ some (replicate (length raw) 0)
memset_all raw = memcpy-all raw (replicate (length raw) 0) (length-replicate {A = ℕ} (length raw) 0)

drop_nil : (n : ℕ) → drop {A = ℕ} n [] ≡ []
drop_nil zero = refl
drop_nil (suc n) = refl

pub drop-drop : (m n : ℕ) (xs : Bytes) → drop n (drop m xs) ≡ drop (m + n) xs
drop-drop zero n xs = let e : 0 + n ≡ n = omega arith in rw e
drop-drop (suc m) n [] = drop_nil n ∙ sym (drop_nil (suc m + n))
drop-drop (suc m) n (x ∷ xs) =
    let e : suc m + n ≡ suc (m + n) = omega arith in rw e (drop-drop m n xs)
