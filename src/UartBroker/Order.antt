-- ===== src/UartBroker/Order.antt =====
-- The way out of src/uart_broker.c under any interleaving: calls of UartBrokerPut, rounds of the
-- broker's thread, and receive interrupts.
use sipf_std_client_nrf.Prelude.{
  ℕ, zero, suc, ◌+◌, ◌≡◌, refl, sym, ap, ◌∙◌, Bool, true, false, [], ◌∷◌, ◌++◌, List, arith,
  if◌then◌else◌, is_zero, Bytes, take, append_assoc, append-nil, Bool-cases, inl, inr,
}
use sipf_std_client_nrf.UartBroker.Traffic.{behind_put, put_loop_none, put_loop_took, put_loop_full}
use sipf_std_client_nrf.UartBroker.{Uart, put, put_loop, send_queued, fifo_cb}
use sipf_std_client_nrf.Zephyr.{Kernel}

-- The transmit queue as the kernel documents it, and the line: a byte that is refused changes
-- nothing, one that is taken stands at the end; a byte that is got was the first one; what is
-- polled out goes out on the line. The calls of the receive interrupt leave both alone.
pub record TxPath {W : Type 0} (k : Kernel W) : Type 0 where
  pub tx : W → Bytes
  pub line : W → Bytes
  pub put_line : (b : ℕ) (w : W) → line (k.tx_put b w).1 ≡ line w
  pub put_tx :
      (b : ℕ) (w : W)
      → tx (k.tx_put b w).1 ≡ tx w ++ (if is_zero (k.tx_put b w).0 then b ∷ [] else [])
  pub get_line : (w : W) → line (k.tx_get w).2 ≡ line w
  pub get_tx :
      (w : W)
      → tx w ≡ (if is_zero (k.tx_get w).0 then (k.tx_get w).1 ∷ [] else []) ++ tx (k.tx_get w).2
  pub poll_line : (b : ℕ) (w : W) → line (k.poll_out b w) ≡ line w ++ b ∷ []
  pub poll_tx : (b : ℕ) (w : W) → tx (k.poll_out b w) ≡ tx w
  pub update_quiet : (w : W) → (line (k.irq_update w).1 ≡ line w) × (tx (k.irq_update w).1 ≡ tx w)
  pub ready_quiet :
      (w : W) → (line (k.irq_rx_ready w).1 ≡ line w) × (tx (k.irq_rx_ready w).1 ≡ tx w)
  pub read_quiet : (w : W) → (line (k.fifo_read w).1 ≡ line w) × (tx (k.fifo_read w).1 ≡ tx w)
  pub rx_put_quiet :
      (b : ℕ) (w : W) → (line (k.rx_put b w).1 ≡ line w) × (tx (k.rx_put b w).1 ≡ tx w)

pub data Turn : Type 0 where
  puts_bytes : Bytes → Turn
  -- a round that sends at most so many bytes
  thread_runs : ℕ → Turn
  interrupts : Turn

module _ {W : Type 0} (k : Kernel W) where
  -- The turns one behind the other, and the bytes that UartBrokerPut accepted.
  unfoldable pub traffic : List Turn → Uart W → Bytes × Uart W
  traffic [] s = ([], s)
  traffic (puts_bytes bs ∷ ts) s =
      let (n, s₁) = put k bs s in let (got, s₂) = traffic ts s₁ in (take n bs ++ got, s₂)
  traffic (thread_runs n ∷ ts) s = traffic ts (record s { world = send_queued k n s.world })
  traffic (interrupts ∷ ts) s = traffic ts (fifo_cb k s)

module _ {W : Type 0} {k : Kernel W} (p : TxPath k) where
  -- What has gone out, and behind it what is still to go out.
  abbrev pub flow : W → Bytes
  flow w = p.line w ++ p.tx w

  put_step :
      (b : ℕ) (w : W) (took : Bool)
      → is_zero (k.tx_put b w).0 ≡ took
      → flow (k.tx_put b w).1 ≡ flow w ++ (if took then b ∷ [] else [])
  put_step b w took e =
      rw (p.put_line b w, p.put_tx b w, e)
        (sym (append_assoc (p.line w) (p.tx w) (if took then b ∷ [] else [])))

  put_loop-flow :
      (bs : Bytes) (cnt : ℕ) (s : Uart W)
      → (n : ℕ) × ((put_loop k bs cnt s).0 ≡ cnt + n)
        × (flow (put_loop k bs cnt s).1.world ≡ flow s.world ++ take n bs)
        × ((put_loop k bs cnt s).1.is_echo ≡ s.is_echo)
  put_loop-flow [] cnt s =
      rw (put_loop_none k cnt s) (0, omega arith, sym (append-nil (flow s.world)), refl)
  put_loop-flow (b ∷ bs) cnt s = elim (Bool-cases (is_zero (k.tx_put b s.world).0)) [
    | inl took ↦
        let (n, count, f, e) = put_loop-flow bs (cnt + 1) (behind_put k b s) in
        rw (put_loop_took k b bs cnt s took) (
          suc n,
          count ∙ omega arith,
          f
              ∙ ap (λ x. x ++ take n bs) (put_step b s.world true took)
              ∙ append_assoc (flow s.world) (b ∷ []) (take n bs),
          e,
        )
    | inr full ↦
        rw (put_loop_full k b bs cnt s full) (0, omega arith, put_step b s.world false full, refl)
  ]

  -- UartBrokerPut appends the bytes that it counts.
  put-flow :
      (bs : Bytes) (s : Uart W)
      → (flow (put k bs s).1.world ≡ flow s.world ++ take (put k bs s).0 bs)
        × ((put k bs s).1.is_echo ≡ s.is_echo)
  unfolding put
  put-flow bs s =
      let (n, count, f, e) = put_loop-flow bs 0 s in
      let counted : n ≡ (put_loop k bs 0 s).0 = omega arith in
      (f ∙ ap (λ j. flow s.world ++ take j bs) counted, e)

  get_step :
      (w : W)
      → is_zero (k.tx_get w).0 ≡ true
      → flow (k.poll_out (k.tx_get w).1 (k.tx_get w).2) ≡ flow w
  get_step w e =
      let (ret, b, w₁) = k.tx_get w in
      let first : p.tx w ≡ b ∷ p.tx w₁ = rw e at (p.get_tx w) in
      rw (p.poll_line b w₁, p.poll_tx b w₁, p.get_line w, first)
        (append_assoc (p.line w) (b ∷ []) (p.tx w₁))

  none_step : (w : W) → is_zero (k.tx_get w).0 ≡ false → flow (k.tx_get w).2 ≡ flow w
  none_step w e =
      let same : p.tx w ≡ p.tx (k.tx_get w).2 = rw e at (p.get_tx w) in rw (p.get_line w, same) refl

  send_queued-flow : (n : ℕ) (w : W) → flow (send_queued k n w) ≡ flow w
  unfolding send_queued
  send_queued-flow zero w = refl
  send_queued-flow (suc n) w = elim (Bool-cases (is_zero (k.tx_get w).0)) [
    | inl took ↦
        rw (send_queued, took)
          (send_queued-flow n (k.poll_out (k.tx_get w).1 (k.tx_get w).2) ∙ get_step w took)
    | inr none ↦ rw (send_queued, none) (none_step w none)
  ]

  -- Without the echo, nothing that the interrupt does reaches the line.
  fifo_cb-flow :
      (s : Uart W)
      → s.is_echo ≡ false
      → (flow (fifo_cb k s).world ≡ flow s.world) × ((fifo_cb k s).is_echo ≡ false)
  unfolding fifo_cb
  fifo_cb-flow s e =
      let (_, w₁) = k.irq_update s.world in
      let (_, w₂) = k.irq_rx_ready w₁ in
      let (b, w₃) = k.fifo_read w₂ in
      let (l₁, t₁) = p.update_quiet s.world in
      let (l₂, t₂) = p.ready_quiet w₁ in
      let (l₃, t₃) = p.read_quiet w₂ in let (l₄, t₄) = p.rx_put_quiet b w₃ in ground arith

  -- Where the echo is off: however calls of UartBrokerPut, rounds of the broker's thread and receive
  -- interrupts follow one another, and whatever the queue refuses, what has gone out on the line and
  -- what is still queued, one behind the other, are what they were, and behind it the bytes that
  -- UartBrokerPut counted as accepted, in the order of the calls.
  pub traffic-flow :
      (ts : List Turn) (s : Uart W)
      → s.is_echo ≡ false
      → let (got, s') = traffic k ts s in flow s'.world ≡ flow s.world ++ got
  unfolding traffic
  traffic-flow [] s e = sym (append-nil (flow s.world))
  traffic-flow (puts_bytes bs ∷ ts) s e =
      let (cnt, s₁) = put k bs s in
      let (f, kept) = put-flow bs s in
      let (got, s₂) = traffic k ts s₁ in
      traffic-flow ts s₁ (kept ∙ e)
      ∙ ap (λ x. x ++ got) f
      ∙ append_assoc (flow s.world) (take cnt bs) got
  traffic-flow (thread_runs n ∷ ts) s e =
      traffic-flow ts (record s { world = send_queued k n s.world }) e
      ∙ ap (λ x. x ++ (traffic k ts (record s { world = send_queued k n s.world })).0)
          (send_queued-flow n s.world)
  traffic-flow (interrupts ∷ ts) s e =
      let (f, kept) = fifo_cb-flow s e in
      traffic-flow ts (fifo_cb k s) kept ∙ ap (λ x. x ++ (traffic k ts (fifo_cb k s)).0) f
