-- ===== src/Xmodem/Receive.antt =====
-- XmodemReceiveBlock against any behaviour of the receive queue (src/xmodem.c).
use sipf_std_client_nrf.Prelude.{
  ℕ, zero, suc, ◌+◌, ◌%◌, ◌≤◌, ◌<◌, ◌≡◌, ◌≢◌, ◌⊎◌, refl, sym, ap, ◌∙◌, false, [], ◌∷◌, ◌++◌, arith,
  ℤ, pos, negsuc, is_zero, Bytes, length, set, take, drop, take-length-append, append_assoc,
  length-append, set-length-append, Bool-cases, inl, inr,
}
use sipf_std_client_nrf.UartBroker.{Uart, get_byte_tm}
use sipf_std_client_nrf.Xmodem.Build.{make_block-layout, block_validation-make_block}
use sipf_std_client_nrf.Xmodem.Frame.{total, padded, length-padded}
use sipf_std_client_nrf.Xmodem.{
  ok, Received, recv_ret, block_validation, make_block, check_block, receive_rest, receive_body,
  receive_block,
}
use sipf_std_client_nrf.Zephyr.{Kernel, Delivers, none_left, delivers}

receive_rest_step :
    {W : Type 0} (k : Kernel W) {w₁ : W} {b : ℕ} (n idx : ℕ) (block : Bytes) (s : Uart W)
    → k.rx_get 100 s.world ≡ (pos 0, b, w₁)
    → receive_rest k (suc n) idx block s
      ≡ receive_rest k n ((idx + 1) % 256) (set block idx b) (record s { world = w₁ })
unfolding receive_rest get_byte_tm
receive_rest_step k n idx block s e = ground arith

-- With bytes for every place left, the loop fills the block from `idx_block` on.
receive_rest-delivered :
    {W : Type 0} (k : Kernel W) {w' : W} (pre bs rest : Bytes) (n idx : ℕ) (s : Uart W)
    → Delivers k 100 w' s.world bs
    → idx ≡ length pre
    → n ≡ length bs
    → length rest ≡ length bs
    → idx + n < 256
    → receive_rest k n idx (pre ++ rest) s ≡ ((pos 0, pre ++ bs), record s { world = w' })
unfolding receive_rest get_byte_tm
receive_rest-delivered k pre [] [] zero idx s (none_left e) ei en er h = ground arith
receive_rest-delivered k pre [] (r ∷ rest) n idx s d ei en er h = absurd (omega arith)
receive_rest-delivered k pre [] [] (suc n) idx s d ei en er h = absurd (omega arith)
receive_rest-delivered k pre (b ∷ bs) rest zero idx s d ei en er h = absurd (omega arith)
receive_rest-delivered k pre (b ∷ bs) [] (suc n) idx s d ei en er h = absurd (omega arith)
receive_rest-delivered k {w'} pre (b ∷ bs) (r ∷ rest) (suc n) idx s (delivers _ w₁ e d) ei en er h =
    let next : (idx + 1) % 256 ≡ idx + 1 = omega arith in
    let written : set (pre ++ r ∷ rest) idx b ≡ (pre ++ b ∷ []) ++ rest =
      rw ei (set-length-append pre r rest b ∙ sym (append_assoc pre (b ∷ []) rest)) in
    receive_rest_step k n idx (pre ++ r ∷ rest) s e
    ∙ rw (next, written)
        (receive_rest-delivered k (pre ++ b ∷ []) bs rest n (idx + 1) (record s { world = w₁ }) d
            (omega (arith, length-append pre (b ∷ []))) (omega arith) (omega arith) (omega arith)
          ∙ ap (λ (b : Bytes). ((pos 0, b), record s { world = w' }))
              (append_assoc pre (b ∷ []) bs))

-- The bytes behind the header fill the block, and the block is then checked.
pub receive_body-delivered :
    {W : Type 0} (k : Kernel W) {w' : W} (bn : ℕ) (block bs : Bytes) (s : Uart W)
    → Delivers k 100 w' s.world bs
    → length bs ≡ 131
    → length block ≡ 132
    → receive_body k bn block s ≡ (check_block bn (0x01 ∷ bs), record s { world = w' })
unfolding receive_body
receive_body-delivered k bn [] bs s d e h = absurd (omega arith)
receive_body-delivered k bn (x ∷ block) bs s d e h =
    ground (arith, receive_rest-delivered k (0x01 ∷ []) bs block 131 1 s d)

receive_block-header :
    {W : Type 0} (k : Kernel W) {w₁ : W} (bn : ℕ) (block : Bytes) (t : ℕ) (s : Uart W)
    → k.rx_get t s.world ≡ (pos 0, 0x01, w₁)
    → receive_block k bn block t s ≡ receive_body k bn block (record s { world = w₁ })
unfolding receive_block get_byte_tm
receive_block-header k bn block t s e = ground arith

check_block-make_block :
    (bn : ℕ) (payload : Bytes)
    → bn < 256
    → length payload ≤ 128
    → check_block bn (make_block ((bn + 1) % 256) payload)
      ≡ record { xret = ok; bn = (bn + 1) % 256; block = make_block ((bn + 1) % 256) payload }
unfolding check_block
check_block-make_block bn payload lt h = ground (arith, block_validation-make_block bn payload)

-- The bytes that follow the header 0x01 in the block that the sender makes.
abbrev pub block_tail : ℕ → Bytes → Bytes
block_tail bn payload = drop 1 (make_block bn payload)

pub make_block-cons :
    (bn : ℕ) (payload : Bytes)
    → length payload ≤ 128
    → make_block bn payload ≡ 0x01 ∷ block_tail bn payload
make_block-cons bn payload h = rw (make_block-layout bn payload h)

length-block_tail :
    (bn : ℕ) (payload : Bytes) → length payload ≤ 128 → length (block_tail bn payload) ≡ 131
length-block_tail bn payload h = rw (make_block-layout bn payload h) (
    omega (
      arith,
      length-padded payload h,
      length-append (padded payload) (total (padded payload) % 256 ∷ []),
    ))

pub length-make_block :
    (bn : ℕ) (payload : Bytes) → length payload ≤ 128 → length (make_block bn payload) ≡ 132
length-make_block bn payload h =
    omega (arith, ap length (make_block-cons bn payload h), length-block_tail bn payload h)

-- The 128 bytes behind the header of a block.
pub take-drop-make_block :
    (bn : ℕ) (payload : Bytes)
    → length payload ≤ 128
    → take 128 (drop 3 (make_block bn payload)) ≡ padded payload
take-drop-make_block bn payload h =
    let sum : Bytes = total (padded payload) % 256 ∷ [] in
    rw (make_block-layout bn payload h) (
      ap (λ n. take n (padded payload ++ sum)) (sym (length-padded payload h))
      ∙ take-length-append (padded payload) sum)

-- Sender and receiver agree: where the receive queue delivers the block that XmodemSendBlock makes
-- for the number that follows `bn`, XmodemReceiveBlock returns OK, moves `*bn` on to it and leaves
-- exactly that block in the buffer.
pub receive_block-make_block :
    {W : Type 0} (k : Kernel W) {w₁ w' : W} (bn : ℕ) (block payload : Bytes) (t : ℕ) (s : Uart W)
    → bn < 256
    → length payload ≤ 128
    → length block ≡ 132
    → k.rx_get t s.world ≡ (pos 0, 0x01, w₁)
    → Delivers k 100 w' w₁ (block_tail ((bn + 1) % 256) payload)
    → receive_block k bn block t s ≡ (
      record { xret = ok; bn = (bn + 1) % 256; block = make_block ((bn + 1) % 256) payload },
      record s { world = w' },
    )
receive_block-make_block k {w₁} {w'} bn block payload t s lt h hb e d =
    receive_block-header k bn block t s e
    ∙ receive_body-delivered k bn block (block_tail ((bn + 1) % 256) payload)
        (record s { world = w₁ }) d (length-block_tail ((bn + 1) % 256) payload h) hb
    ∙ ap (λ b. (check_block bn b, record s { world = w' }))
        (sym (make_block-cons ((bn + 1) % 256) payload h))
    ∙ ap (λ r. (r, record s { world = w' })) (check_block-make_block bn payload lt h)

-- What the caller may rely on, whatever the queue does: OK means that the block in the buffer
-- passed validation behind the old number and that `*bn` is now its number, the next one; any other result
-- leaves `*bn` alone.
pub record Sound (bn : ℕ) (r : Received) : Type 0 where
  pub valid : r.xret ≡ ok → block_validation r.block bn ≡ pos r.bn
  pub next : r.xret ≡ ok → r.bn ≡ (bn + 1) % 256
  pub kept : r.xret ≢ ok → r.bn ≡ bn

recv_ret-ne-ok : (r : ℤ) → is_zero r ≡ false → recv_ret r ≢ ok
recv_ret-ne-ok (pos zero) h = cc
recv_ret-ne-ok (pos (suc zero)) h = unfold recv_ret in ground arith
recv_ret-ne-ok (pos (suc (suc zero))) h = unfold recv_ret in ground arith
recv_ret-ne-ok (pos (suc (suc (suc zero)))) h = unfold recv_ret in ground arith
recv_ret-ne-ok (pos (suc (suc (suc (suc zero))))) h = unfold recv_ret in ground arith
recv_ret-ne-ok (pos (suc (suc (suc (suc (suc n)))))) h = unfold recv_ret in ground arith
recv_ret-ne-ok (negsuc zero) h = unfold recv_ret in ground arith
recv_ret-ne-ok (negsuc (suc zero)) h = unfold recv_ret in ground arith
recv_ret-ne-ok (negsuc (suc (suc n))) h = unfold recv_ret in ground arith

block_validation-cases :
    (block : Bytes) (bn : ℕ)
    → (block_validation block bn ≡ negsuc 0)
      ⊎ ((block_validation block bn ≡ negsuc 1)
          ⊎ (block_validation block bn ≡ pos ((bn + 1) % 256)))
unfolding block_validation
block_validation-cases block bn = ground arith

check_block-Sound : (bn : ℕ) (block : Bytes) → Sound bn (check_block bn block)
unfolding check_block
check_block-Sound bn block = elim (block_validation-cases block bn) [
  | inl refused ↦ rw refused (record { valid = λ e. cc; next = λ e. cc; kept = λ e. refl })
  | inr (inl again) ↦ rw again (record { valid = λ e. cc; next = λ e. cc; kept = λ e. refl })
  | inr (inr good) ↦ rw good (record {
    valid = λ e. rw good (ap pos (omega arith));
    next = λ e. omega arith;
    kept = λ ne. absurd (ne refl);
  })
]

receive_body-Sound :
    {W : Type 0} (k : Kernel W) (bn : ℕ) (block : Bytes) (s : Uart W)
    → Sound bn (receive_body k bn block s).0
unfolding receive_body
receive_body-Sound k bn block s =
    elim (Bool-cases (is_zero (receive_rest k 131 1 (set block 0 0x01) s).0.0)) [
      | inl full ↦ rw full (check_block-Sound bn (receive_rest k 131 1 (set block 0 0x01) s).0.1)
      | inr cut ↦ rw cut (record {
        valid = λ e. absurd (recv_ret-ne-ok _ cut e);
        next = λ e. absurd (recv_ret-ne-ok _ cut e);
        kept = λ e. refl;
      })
    ]

-- Whatever the receive queue does, XmodemReceiveBlock returns OK only with a block in the buffer
-- that passes validation behind the old number, and `*bn` is then the next number modulo 256; with
-- every other result `*bn` is unchanged.
pub receive_block-Sound :
    {W : Type 0} (k : Kernel W) (bn : ℕ) (block : Bytes) (t : ℕ) (s : Uart W)
    → Sound bn (receive_block k bn block t s).0
unfolding receive_block
receive_block-Sound k bn block t s = ground (
  arith,
  receive_body-Sound k bn block (get_byte_tm k t s).1,
  recv_ret-ne-ok (get_byte_tm k t s).0.0,
)

-- The loop stops at the first byte that does not come.
receive_rest-cut :
    {W : Type 0} (k : Kernel W) {w₂ w₃ : W} {ret : ℤ} {b : ℕ} (n idx : ℕ) (block bs : Bytes)
    (s : Uart W)
    → Delivers k 100 w₂ s.world bs
    → length bs < n
    → k.rx_get 100 w₂ ≡ (ret, b, w₃)
    → is_zero ret ≡ false
    → ((receive_rest k n idx block s).0.0 ≡ ret)
      × ((receive_rest k n idx block s).1 ≡ record s { world = w₃ })
unfolding receive_rest get_byte_tm
receive_rest-cut k zero idx block bs s d h e z = absurd (omega arith)
receive_rest-cut k (suc n) idx block [] s (none_left f) h e z = ground arith
receive_rest-cut k (suc n) idx block (x ∷ bs) s (delivers _ w₁ f d) h e z = ground (
  arith,
  receive_rest-cut k n ((idx + 1) % 256) (set block idx x) bs (record s { world = w₁ }) d
      (omega arith) e z,
)

-- A block that breaks off behind its header, before all 131 bytes have come, is not retried: the
-- status of the failed read is passed on as the result, the block number stays, and no byte is
-- sent to the other side.
pub receive_block-cut :
    {W : Type 0} (k : Kernel W) {w₁ w₂ w₃ : W} {ret : ℤ} {b : ℕ} (bn : ℕ) (block bs : Bytes) (t : ℕ)
    (s : Uart W)
    → k.rx_get t s.world ≡ (pos 0, 0x01, w₁)
    → Delivers k 100 w₂ w₁ bs
    → length bs < 131
    → k.rx_get 100 w₂ ≡ (ret, b, w₃)
    → is_zero ret ≡ false
    → ((receive_block k bn block t s).0.xret ≡ recv_ret ret)
      × ((receive_block k bn block t s).0.bn ≡ bn)
      × ((receive_block k bn block t s).1 ≡ record s { world = w₃ })
unfolding receive_body
receive_block-cut k {w₁} bn block bs t s e d h f z =
    let cut = receive_rest-cut k 131 1 (set block 0 0x01) bs (record s { world = w₁ }) d h f z in
    rw (receive_block-header k bn block t s e, cut.0, cut.1, z) (refl, refl, refl)
