-- ===== src/Gnss/Sentences.antt =====
-- src/gnss/gnss.c: what the store of NMEA sentences holds. `heard_in` is an independent description:
-- the first ten sentences behind the last position event.
use sipf_std_client_nrf.Gnss.{Gnss, store_row, copy_rows}
use sipf_std_client_nrf.Libc.{memcpy, strlen}
use sipf_std_client_nrf.Prelude.Text.{joined}
use sipf_std_client_nrf.Prelude.{
  ℕ, zero, suc, ◌≡◌, ◌<◌, refl, ap, ◌++◌, Option, none, some, [], ◌∷◌, List, Bytes, length, take,
  drop, arith, length-append, length-take, length-drop,
}

-- A text of `n` characters with its NUL, in front of anything.
copied_step :
    (c : ℕ) (cs tail : Bytes) (r : Option ℕ)
    → strlen cs ≡ r
    → ((m : ℕ) → r ≡ some m → strlen (take (suc m) cs ++ tail) ≡ some m)
    → {n : ℕ} → strlen (c ∷ cs) ≡ some n
    → strlen (take (suc n) (c ∷ cs) ++ tail) ≡ some n
unfolding strlen
copied_step c cs tail none e ih h = ground arith
copied_step c cs tail (some m) e ih h = ground (arith, ih m refl)

strlen-copied :
    (str tail : Bytes) (n : ℕ) → strlen str ≡ some n → strlen (take (suc n) str ++ tail) ≡ some n
unfolding strlen
strlen-copied [] tail n h = ground arith
strlen-copied (c ∷ cs) tail n h =
    copied_step c cs tail (strlen cs) refl (λ m e. strlen-copied cs tail m e) h

lt_step :
    (c : ℕ) (cs : Bytes) (r : Option ℕ)
    → strlen cs ≡ r
    → ((m : ℕ) → r ≡ some m → m < length cs)
    → {n : ℕ} → strlen (c ∷ cs) ≡ some n
    → n < suc (length cs)
unfolding strlen
lt_step c cs none e ih h = ground arith
lt_step c cs (some m) e ih h = ground (arith, ih m refl)

strlen-lt : (str : Bytes) (n : ℕ) → strlen str ≡ some n → n < length str
unfolding strlen
strlen-lt [] n h = ground arith
strlen-lt (c ∷ cs) n h = lt_step c cs (strlen cs) refl (λ m e. strlen-lt cs m e) h

take-copied :
    (n : ℕ) (str tail : Bytes) → n < length str → take n (take (suc n) str ++ tail) ≡ take n str
take-copied zero str tail h = refl
take-copied (suc n) [] tail h = ground arith
take-copied (suc n) (c ∷ cs) tail h = ap (λ xs. c ∷ xs) (take-copied n cs tail (omega arith))

-- NRF_MODEM_GNSS_NMEA_MAX_LEN, which the modem library fixes, is `max`.
module _ (max : ℕ) where
  -- The rows hold these sentences, each ended by a NUL, in their order, and are `max` bytes long.
  pub data Rows : List Bytes → List Bytes → Type 0 where
    no_rows : Rows [] []
    free :
        {row : Bytes} {rows : List Bytes} → length row ≡ max → Rows [] rows → Rows [] (row ∷ rows)
    used :
        {s row : Bytes} {ss rows : List Bytes}
        → length row ≡ max
        → strlen row ≡ some (length s)
        → take (length s) row ≡ s
        → Rows ss rows
        → Rows (s ∷ ss) (row ∷ rows)

  pub record Holds {P W : Type 0} (ss : List Bytes) (g : Gnss P W) : Type 0 where
    pub rows : Rows ss g.nmea_strings
    pub ten : length g.nmea_strings ≡ 10
    pub cnt : g.nmea_string_cnt ≡ length ss

  -- the rows, with no sentence in them
  pub emptied : {ss rows : List Bytes} → Rows ss rows → Rows [] rows
  emptied no_rows = no_rows
  emptied (free l r) = free l (emptied r)
  emptied (used l _ _ r) = free l (emptied r)

  pub copy_rows-Rows :
      {ss rows : List Bytes} → Rows ss rows → copy_rows (length ss) rows ≡ some (joined ss)
  unfolding copy_rows joined
  copy_rows-Rows no_rows = refl
  copy_rows-Rows (free l r) = refl
  copy_rows-Rows (used l n t r) = rw (n, copy_rows-Rows r, t) refl

  -- What the copy makes of a row.
  row-copied :
      (row str : Bytes) (n : ℕ)
      → length row ≡ max
      → strlen str ≡ some n
      → n < max
      → (row' : Bytes) × (memcpy row 0 (take (suc n) str) ≡ some row')
        × (length row' ≡ max)
        × (strlen row' ≡ some (length (take n str)))
        × (take (length (take n str)) row' ≡ take n str)
  unfolding memcpy
  row-copied row str n l e fits =
      let lt = strlen-lt str n e in
      let len : length (take n str) ≡ n = omega (arith, length-take n str) in
      let len' : length (take (suc n) str) ≡ suc n = omega (arith, length-take (suc n) str) in
      let tail = drop (suc n) row in
      (
        take (suc n) str ++ tail,
        ground arith,
        omega (arith, length-append (take (suc n) str) tail, length-drop (suc n) row),
        rw (len) (strlen-copied str tail n e),
        rw (len) (take-copied n str tail lt),
      )

  -- The next row takes a sentence that fits.
  pub store_row-Rows :
      {ss rows : List Bytes}
      → Rows ss rows
      → length ss < length rows
      → (str : Bytes) (n : ℕ) → strlen str ≡ some n
      → n < max
      → (rows' : List Bytes) × (store_row (length ss) str rows ≡ some rows')
        × Rows (ss ++ take n str ∷ []) rows'
        × (length rows' ≡ length rows)
  unfolding store_row
  store_row-Rows no_rows h str n e fits = absurd (ground arith)
  store_row-Rows (free {row} {rows} l r) h str n e fits =
      let (row', c, l', k, t) = row-copied row str n l e fits in
      (row' ∷ rows, rw (e, c) refl, used l' k t r, refl)
  store_row-Rows (used {s} {row} {ss} {rows} l k t r) h str n e fits =
      let (rows', c, r', lr) = store_row-Rows r (omega arith) str n e fits in
      (row ∷ rows', rw c refl, used l k t r', ap suc lr)
