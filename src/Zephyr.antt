-- ===== src/Zephyr.antt =====
-- What the firmware takes from outside: the Zephyr kernel's message queues and the UART driver, as
-- operations on a world `W` of which nothing else is known. Each call may answer as it likes.
use sipf_std_client_nrf.Prelude.{
  ℕ, ◌+◌, ◌≤◌, ◌<◌, ℤ, neg, Bytes, [], ◌∷◌, ◌++◌, ◌≡◌, refl, sym, ap, ◌∙◌, pos, is_zero, false,
  arith, length, length-append, append_assoc, append-nil,
}

-- The errno values that the source compares with.
abbrev pub eagain : ℤ
eagain = neg 11

pub record Kernel (W : Type 0) : Type 0 where
  -- k_msgq_get(&msgq_rx, &b, K_MSEC(t)): the result, what `b` holds behind the call, the world.
  pub rx_get : ℕ → W → ℤ × ℕ × W
  -- k_msgq_put(&msgq_rx, &b, K_NO_WAIT) and k_msgq_purge(&msgq_rx)
  pub rx_put : ℕ → W → ℤ × W
  pub rx_purge : W → W
  -- k_msgq_put(&msgq_tx, &b, K_MSEC(10)) and k_msgq_get(&msgq_tx, &b, K_USEC(1))
  pub tx_put : ℕ → W → ℤ × W
  pub tx_get : W → ℤ × ℕ × W
  -- uart_irq_update, uart_irq_rx_ready, uart_fifo_read of one byte, uart_poll_out
  pub irq_update : W → ℤ × W
  pub irq_rx_ready : W → ℤ × W
  pub fifo_read : W → ℕ × W
  pub poll_out : ℕ → W → W
  -- k_msleep
  pub msleep : ℕ → W → W

module _ {W : Type 0} (k : Kernel W) where
  -- From `w` on, reads with time-out `t` deliver these bytes one by one, and end in `w'`.
  pub data Delivers (t : ℕ) (w' : W) : W → Bytes → Type 0 where
    none_left : {w : W} → w ≡ w' → Delivers t w' w []
    delivers :
        {w : W} (b : ℕ) {bs : Bytes} (w₁ : W)
        → k.rx_get t w ≡ (pos 0, b, w₁)
        → Delivers t w' w₁ bs
        → Delivers t w' w (b ∷ bs)

  -- From `w` on, the transmit queue accepts these bytes one by one, and the world is then `w'`.
  pub data Accepts (w' : W) : W → Bytes → Type 0 where
    none_more : {w : W} → w ≡ w' → Accepts w' w []
    accepts :
        {w : W} (b : ℕ) {bs : Bytes} (w₁ : W)
        → k.tx_put b w ≡ (pos 0, w₁)
        → Accepts w' w₁ bs
        → Accepts w' w (b ∷ bs)

-- The message queues as the kernel documents them: `rx w` and `tx w` are what the two queues hold, in
-- the order of arrival. A read takes the first byte, and answers an error where there is none; a
-- byte is queued as long as there is room. No other byte comes or goes during a call.
pub record Queues {W : Type 0} (k : Kernel W) : Type 0 where
  pub rx : W → Bytes
  pub tx : W → Bytes
  pub tx_cap : ℕ
  pub rx_some :
      (t : ℕ) (w : W) (b : ℕ) (bs : Bytes)
      → rx w ≡ b ∷ bs
      → (w' : W) × (k.rx_get t w ≡ (pos 0, b, w')) × (rx w' ≡ bs) × (tx w' ≡ tx w)
  pub rx_none :
      (t : ℕ) (w : W)
      → rx w ≡ []
      → (r : ℤ) × (b : ℕ) × (w' : W) × (k.rx_get t w ≡ (r, b, w'))
        × (is_zero r ≡ false)
        × (rx w' ≡ [])
        × (tx w' ≡ tx w)
  pub tx_room :
      (b : ℕ) (w : W)
      → length (tx w) < tx_cap
      → (w' : W) × (k.tx_put b w ≡ (pos 0, w')) × (rx w' ≡ rx w) × (tx w' ≡ tx w ++ b ∷ [])

module _ {W : Type 0} {k : Kernel W} (q : Queues k) where
  -- Bytes for which the transmit queue has room are all accepted, and stand at its end.
  pub Accepts-room :
      (bs : Bytes) (w : W)
      → length (q.tx w) + length bs ≤ q.tx_cap
      → (w' : W) × Accepts k w' w bs × (q.rx w' ≡ q.rx w) × (q.tx w' ≡ q.tx w ++ bs)
  Accepts-room [] w h = (w, none_more refl, refl, sym (append-nil (q.tx w)))
  Accepts-room (b ∷ bs) w h =
      let (w₁, e, r, t) = q.tx_room b w (omega arith) in
      let room : length (q.tx w₁) + length bs ≤ q.tx_cap =
        omega (arith, ap length t, length-append (q.tx w) (b ∷ [])) in
      let (w', a, r', t') = Accepts-room bs w₁ room in
      (w', accepts b w₁ e a, r' ∙ r, t' ∙ rw t (append_assoc (q.tx w) (b ∷ []) bs))

  -- Bytes at the front of the receive queue are delivered one by one.
  pub Delivers-queued :
      (t : ℕ) (bs more : Bytes) (w : W)
      → q.rx w ≡ bs ++ more
      → (w' : W) × Delivers k t w' w bs × (q.rx w' ≡ more) × (q.tx w' ≡ q.tx w)
  Delivers-queued t [] more w e = (w, none_left refl, e, refl)
  Delivers-queued t (b ∷ bs) more w e =
      let (w₁, r, rx₁, tx₁) = q.rx_some t w b (bs ++ more) e in
      let (w', d, rx', tx') = Delivers-queued t bs more w₁ rx₁ in
      (w', delivers b w₁ r d, rx', tx' ∙ tx₁)
