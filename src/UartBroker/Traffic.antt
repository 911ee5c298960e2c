-- ===== src/UartBroker/Traffic.antt =====
-- What UartBrokerPut sends and what the receive interrupt does (src/uart_broker.c).
use sipf_std_client_nrf.Prelude.{
  ℕ, ◌+◌, ◌≡◌, false, [], ◌∷◌, ◌++◌, arith, ℤ, is_zero, Bytes, length, ◌∙◌, true, refl, Bool-cases,
  inl, inr,
}
use sipf_std_client_nrf.UartBroker.{Uart, put_loop, put_byte, put, print}
use sipf_std_client_nrf.Zephyr.{Kernel, Accepts, none_more, accepts}

module _ {W : Type 0} (k : Kernel W) where
  put_loop-accepted :
      {w' : W} (bs : Bytes) (cnt : ℕ) (s : Uart W)
      → Accepts k w' s.world bs
      → put_loop k bs cnt s ≡ (cnt + length bs, record s { world = w' })
  unfolding put
  put_loop-accepted [] cnt s (none_more e) = ground arith
  put_loop-accepted (b ∷ bs) cnt s (accepts _ w₁ e a) =
      ground (arith, put_loop-accepted bs (cnt + 1) (record s { world = w₁ }) a)

  put_loop-refused :
      {w₁ w₂ : W} {ret : ℤ} (bs rest : Bytes) (b cnt : ℕ) (s : Uart W)
      → Accepts k w₁ s.world bs
      → k.tx_put b w₁ ≡ (ret, w₂)
      → is_zero ret ≡ false
      → put_loop k (bs ++ b ∷ rest) cnt s ≡ (cnt + length bs, record s { world = w₂ })
  unfolding put
  put_loop-refused [] rest b cnt s (none_more e) r n = ground arith
  put_loop-refused (c ∷ bs) rest b cnt s (accepts _ w₁ e a) r n =
      ground (arith, put_loop-refused bs rest b (cnt + 1) (record s { world = w₁ }) a r n)

  -- UartBrokerPut hands over the whole buffer in order where the queue accepts every byte, and
  -- returns its length.
  pub put-accepted :
      {w' : W} (bs : Bytes) (s : Uart W)
      → Accepts k w' s.world bs
      → put k bs s ≡ (length bs, record s { world = w' })
  unfolding put
  put-accepted bs s a = put_loop-accepted bs 0 s a ∙ ground arith

  -- At the first byte that the queue refuses UartBrokerPut stops and returns the number of bytes
  -- handed over before it; nothing behind it is offered to the queue.
  pub put-refused :
      {w₁ w₂ : W} {ret : ℤ} (bs rest : Bytes) (b : ℕ) (s : Uart W)
      → Accepts k w₁ s.world bs
      → k.tx_put b w₁ ≡ (ret, w₂)
      → is_zero ret ≡ false
      → put k (bs ++ b ∷ rest) s ≡ (length bs, record s { world = w₂ })
  unfolding put
  put-refused bs rest b s a r n = put_loop-refused bs rest b 0 s a r n ∙ ground arith

module _ {W : Type 0} (k : Kernel W) where
  pub put_loop_none : (cnt : ℕ) (s : Uart W) → put_loop k [] cnt s ≡ (cnt, s)
  unfolding put
  put_loop_none cnt s = refl

  abbrev pub behind_put : ℕ → Uart W → Uart W
  behind_put b s = record s { world = (k.tx_put b s.world).1 }

  pub put_loop_took :
      (b : ℕ) (bs : Bytes) (cnt : ℕ) (s : Uart W)
      → is_zero (k.tx_put b s.world).0 ≡ true
      → put_loop k (b ∷ bs) cnt s ≡ put_loop k bs (cnt + 1) (behind_put b s)
  unfolding put put_byte
  put_loop_took b bs cnt s e = ground arith

  pub put_loop_full :
      (b : ℕ) (bs : Bytes) (cnt : ℕ) (s : Uart W)
      → is_zero (k.tx_put b s.world).0 ≡ false
      → put_loop k (b ∷ bs) cnt s ≡ (cnt, behind_put b s)
  unfolding put put_byte
  put_loop_full b bs cnt s e = ground arith

module _ {W A : Type 0} (k : Kernel W) (seen : W → A) where
  put_loop-quiet :
      ((b : ℕ) (w : W) → seen (k.tx_put b w).1 ≡ seen w)
      → (bs : Bytes) (cnt : ℕ) (s : Uart W) → seen (put_loop k bs cnt s).1.world ≡ seen s.world
  put_loop-quiet quiet [] cnt s = rw (put_loop_none k cnt s) refl
  put_loop-quiet quiet (b ∷ bs) cnt s = elim (Bool-cases (is_zero (k.tx_put b s.world).0)) [
    | inl took ↦
        rw (put_loop_took k b bs cnt s took)
          (put_loop-quiet quiet bs (cnt + 1) (behind_put k b s) ∙ quiet b s.world)
    | inr full ↦ rw (put_loop_full k b bs cnt s full) (quiet b s.world)
  ]

  -- UartBrokerPrint leaves alone what the queueing of one byte does.
  pub print-quiet :
      ((b : ℕ) (w : W) → seen (k.tx_put b w).1 ≡ seen w)
      → (msg : Bytes) (w : W) → seen (print k msg w) ≡ seen w
  unfolding print put
  print-quiet quiet msg w = put_loop-quiet quiet msg 0 (record { is_echo = false; world = w })
