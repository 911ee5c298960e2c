-- ===== src/CmdAscii/Transfer/Blocks.antt =====
-- src/cmd_ascii.c: cmdFgetCb, by the blocks of the fragment that it gets.
use sipf_std_client_nrf.CmdAscii.Transfer.{
  sent, used_up, stop, fget_try, fget_blocks, fget_cb, sz_block,
}
use sipf_std_client_nrf.Libc.Copy.{drop-drop}
use sipf_std_client_nrf.Prelude.Text.{joined}
use sipf_std_client_nrf.Prelude.{
  ℕ, zero, suc, ◌+◌, ◌-◌, ◌*◌, ◌/◌, ◌%◌, ◌≡◌, ◌≤◌, ◌<◌, ◌∙◌, refl, sym, ap, Bool, true, false, [],
  ◌∷◌, List, ltb, if◌then◌else◌, pos, Bytes, length, take, drop, arith, length-drop,
  take-append-drop,
}
use sipf_std_client_nrf.UartBroker.{Uart}
use sipf_std_client_nrf.Zephyr.{Kernel}

-- The text in `n` blocks of 128 bytes, the last one shorter.
unfoldable pub chunks : ℕ → Bytes → List Bytes
chunks zero xs = []
chunks (suc n) xs = take 128 xs ∷ chunks n (drop 128 xs)

joined-chunks : (n : ℕ) (xs : Bytes) → length xs ≤ n * 128 → joined (chunks n xs) ≡ xs
unfolding joined chunks
joined-chunks zero [] h = refl
joined-chunks zero (x ∷ xs) h = absurd (ground arith)
joined-chunks (suc n) xs h =
    let ih = joined-chunks n (drop 128 xs) (omega (arith, length-drop 128 xs)) in
    rw ih (take-append-drop 128 xs)

take_short : (n : ℕ) (xs : Bytes) → length xs ≤ n → take n xs ≡ xs
take_short zero [] h = refl
take_short zero (x ∷ xs) h = absurd (ground arith)
take_short (suc n) [] h = refl
take_short (suc n) (x ∷ xs) h = ap (λ ys. x ∷ ys) (take_short n xs (omega arith))

module _ {W : Type 0} (k : Kernel W) where
  -- The blocks are sent one behind the other, each under the next number, within three tries each.
  pub data AllSent (s' : Uart W) : List Bytes → ℕ → Uart W → Type 0 where
    all_sent : {bn : ℕ} {s : Uart W} → s ≡ s' → AllSent s' [] bn s
    one_sent :
        {c : Bytes} {cs : List Bytes} {bn : ℕ} {s : Uart W} (s₁ : Uart W)
        → fget_try k 3 bn c s ≡ (sent, s₁)
        → AllSent s' cs ((bn + 1) % 256) s₁
        → AllSent s' (c ∷ cs) bn s

  payload_in :
      (buff rest : Bytes) (idx j : ℕ) (b : Bool)
      → ltb (length buff - idx) sz_block ≡ b
      → idx ≡ j * 128
      → length rest ≡ length buff - idx
      → 0 < length rest
      → take (if b then length buff % sz_block else sz_block) rest ≡ take 128 rest
  payload_in buff rest idx j true c i l z =
      let short : length rest < 128 = ground (arith, l) in
      let e : length buff % 128 ≡ length rest = omega arith in
      rw e (take_short (length rest) rest (omega arith) ∙ sym (take_short 128 rest (omega arith)))
  payload_in buff rest idx j false c i l z = refl

  -- The payload of the block at `idx`, where the rest of the fragment is `rest`.
  payload_at :
      (buff rest : Bytes) (idx j : ℕ)
      → drop idx buff ≡ rest
      → idx ≡ j * 128
      → length rest ≡ length buff - idx
      → 0 < length rest
      → take
          (if ltb (length buff - idx) sz_block then length buff % sz_block else sz_block)
          (drop idx buff)
        ≡ take 128 rest
  payload_at buff rest idx j d i l z = rw d (payload_in buff rest idx j _ refl i l z)

  fget_step :
      (n idx : ℕ) (buff : Bytes) (bn : ℕ) (s s₁ : Uart W)
      → fget_try k 3 bn
          (take
            (if ltb (length buff - idx) sz_block then length buff % sz_block else sz_block)
            (drop idx buff))
          s
        ≡ (sent, s₁)
      → fget_blocks k (suc n) idx buff bn s
        ≡ fget_blocks k n (idx + sz_block) buff ((bn + 1) % 256) s₁
  unfolding fget_blocks
  fget_step n idx buff bn s s₁ e =
      ap
        (λ r. elim r.0 [
          | sent ↦ fget_blocks k n (idx + sz_block) buff ((bn + 1) % 256) r.1
          | used_up ↦ fget_blocks k n (idx + sz_block) buff bn r.1
          | stop x ↦ ((x, bn), r.1)
        ])
        e

  blocks_in :
      (n : ℕ) (buff rest : Bytes) (idx j bn : ℕ) (s s' : Uart W)
      → drop idx buff ≡ rest
      → idx ≡ j * 128
      → length rest ≡ length buff - idx
      → length rest ≤ n * 128
      → n * 128 < length rest + 128
      → bn < 256
      → AllSent s' (chunks n rest) bn s
      → fget_blocks k n idx buff bn s ≡ ((pos 0, (bn + n) % 256), s')
  unfolding fget_blocks chunks
  blocks_in zero buff rest idx j bn s s' d i l u v b (all_sent e) =
      let m : (bn + 0) % 256 ≡ bn = omega arith in rw (m, e) refl
  blocks_in (suc n) buff rest idx j bn s s' d i l u v b (one_sent s₁ e more) =
      let p = payload_at buff rest idx j d i l (omega arith) in
      let d' : drop (idx + sz_block) buff ≡ drop 128 rest =
        sym (drop-drop idx 128 buff) ∙ ap (drop 128) d in
      let l' : length (drop 128 rest) ≡ length buff - (idx + sz_block) =
        omega (arith, length-drop 128 rest) in
      let ih =
        blocks_in n buff (drop 128 rest) (idx + sz_block) (suc j) ((bn + 1) % 256) s₁ s' d'
          (omega arith) l' (omega (arith, length-drop 128 rest))
          (omega (arith, length-drop 128 rest)) (omega arith) more in
      let m : ((bn + 1) % 256 + n) % 256 ≡ (bn + suc n) % 256 = omega arith in
      fget_step n idx buff bn s s₁ (ap (λ c. fget_try k 3 bn c s) p ∙ e) ∙ ih ∙ rw m refl

  -- cmdFgetCb on a fragment: when its blocks of 128 bytes, the last one shorter, are sent one behind
  -- the other, each within three tries and under the number behind the last one's modulo 256, the
  -- result is 0, the next number is the last one's successor, and the world is the one behind the
  -- last block; the blocks, one behind the other, are the fragment.
  pub fget_cb-blocks :
      (buff : Bytes) (bn : ℕ) (w : W) (s' : Uart W)
      → bn < 256
      → AllSent s'
          (chunks ((length buff + 127) / 128) buff)
          bn
          (record { is_echo = false; world = w })
      → (fget_cb k buff bn w ≡ (pos 0, (bn + (length buff + 127) / 128) % 256, s'.world))
        × (joined (chunks ((length buff + 127) / 128) buff) ≡ buff)
  unfolding fget_cb
  fget_cb-blocks buff bn w s' b all =
      let n = (length buff + 127) / 128 in
      let run =
        blocks_in n buff buff 0 0 bn (record { is_echo = false; world = w }) s' refl (omega arith)
          (omega arith) (omega arith) (omega arith) b all in
      (rw run refl, joined-chunks n buff (omega arith))
