-- ===== src/Xmodem/Send.antt =====
-- The sender's side: XmodemSendBlock and XmodemSendWaitRequest (src/xmodem.c).
use sipf_std_client_nrf.Prelude.{
  ℕ, zero, suc, ◌+◌, ◌-◌, ◌/◌, ◌%◌, ◌≤◌, ◌<◌, ◌≡◌, ◌≢◌, ◌↔◌, refl, ◌∙◌, false, arith, ℤ, pos,
  is_neg, Bytes, length,
}
use sipf_std_client_nrf.UartBroker.Traffic.{put-accepted}
use sipf_std_client_nrf.UartBroker.{Uart, get_byte_tm}
use sipf_std_client_nrf.Xmodem.Build.{make_block-layout}
use sipf_std_client_nrf.Xmodem.Frame.{total, padded, layout}
use sipf_std_client_nrf.Xmodem.{
  SendRet, send_reply, send_block, wait_request_loop, send_wait_request,
}
use sipf_std_client_nrf.Zephyr.{Kernel, eagain, Accepts}

-- Where the transmit queue accepts 132 bytes one behind the other, and the payload is at most 128
-- bytes, XmodemSendBlock queues exactly the bytes of the block (header, number, complement, payload
-- padded with 0x1A to 128 bytes, sum of these modulo 256), reads one answer with the given
-- time-out, and returns what that answer stands for.
pub send_block-sends :
    {W : Type 0} (k : Kernel W) {w₁ w₂ : W} {ret : ℤ} {b : ℕ} (bn : ℕ) (payload : Bytes) (t : ℕ)
    (s : Uart W)
    → length payload ≤ 128
    → Accepts k w₁ s.world
        (layout 0x01 bn (255 - bn) (padded payload) (total (padded payload) % 256))
    → k.rx_get t w₁ ≡ (ret, b, w₂)
    → send_block k bn payload t s ≡ (send_reply ret b, record s { world = w₂ })
unfolding send_block get_byte_tm
send_block-sends k bn payload t s h a e = ground (
  arith,
  make_block-layout bn payload h,
  put-accepted k (layout 0x01 bn (255 - bn) (padded payload) (total (padded payload) % 256)) s a,
)

-- A payload of more than 128 bytes is refused before anything is sent or read.
pub send_block_too_long :
    {W : Type 0} (k : Kernel W) (bn : ℕ) (payload : Bytes) (t : ℕ) (s : Uart W)
    → 128 < length payload
    → send_block k bn payload t s ≡ (SendRet.failed, s)
unfolding send_block
send_block_too_long k bn payload t s h = ground arith

-- An answer counts as OK exactly when a byte was read and it is ACK.
pub send_reply-ok_iff :
    (ret : ℤ) (b : ℕ) → (send_reply ret b ≡ SendRet.ok) ↔ ((is_neg ret ≡ false) × (b ≡ 0x06))
unfolding send_reply
send_reply-ok_iff ret b = (λ e. ground arith, λ e. ground arith)

-- From `w` on, `n` reads with this time-out bring nothing that XmodemSendWaitRequest acts on: a
-- time-out, or a byte that is neither NAK nor CAN.
pub data Idle {W : Type 0} (k : Kernel W) (t : ℕ) (w' : W) : W → ℕ → Type 0 where
  stop : {w : W} → w ≡ w' → Idle k t w' w 0
  silent :
      {w : W} {n : ℕ} (b : ℕ) (w₁ : W)
      → k.rx_get t w ≡ (eagain, b, w₁)
      → Idle k t w' w₁ n
      → Idle k t w' w (suc n)
  noise :
      {w : W} {n : ℕ} (b : ℕ) (w₁ : W)
      → k.rx_get t w ≡ (pos 0, b, w₁)
      → b ≢ 0x15
      → b ≢ 0x18
      → Idle k t w' w₁ n
      → Idle k t w' w (suc n)

wait_request_loop-Idle :
    {W : Type 0} (k : Kernel W) {w' : W} (time_out n m r : ℕ) (s : Uart W)
    → Idle k (time_out / 10) w' s.world n
    → r ≡ n + m
    → wait_request_loop k r time_out s ≡ wait_request_loop k m time_out (record s { world = w' })
unfolding wait_request_loop get_byte_tm
wait_request_loop-Idle k time_out zero m r s (stop e) h =
    let same : r ≡ m = omega arith in rw (same, e)
wait_request_loop-Idle k time_out (suc n) m zero s i h = absurd (omega arith)
wait_request_loop-Idle k time_out (suc n) m (suc r) s (silent b w₁ e i) h =
    ground (arith, wait_request_loop-Idle k time_out n m r (record s { world = w₁ }) i)
wait_request_loop-Idle k time_out (suc n) m (suc r) s (noise b w₁ e p q i) h =
    ground (arith, wait_request_loop-Idle k time_out n m r (record s { world = w₁ }) i)

wait_request_loop_zero :
    {W : Type 0} (k : Kernel W) (time_out : ℕ) (s : Uart W)
    → wait_request_loop k 0 time_out s ≡ (SendRet.failed, s)
unfolding wait_request_loop
wait_request_loop_zero k time_out s = refl

wait_request_loop-nak :
    {W : Type 0} (k : Kernel W) {w₂ : W} (m time_out : ℕ) (s : Uart W)
    → k.rx_get (time_out / 10) s.world ≡ (pos 0, 0x15, w₂)
    → wait_request_loop k (suc m) time_out s ≡ (SendRet.ok, record s { world = w₂ })
unfolding wait_request_loop get_byte_tm
wait_request_loop-nak k m time_out s e = ground arith

-- Up to nine idle reads are passed over, and the NAK behind them starts the transfer.
pub send_wait_request-nak :
    {W : Type 0} (k : Kernel W) {w₁ w₂ : W} (n time_out : ℕ) (s : Uart W)
    → n < 10
    → Idle k (time_out / 10) w₁ s.world n
    → k.rx_get (time_out / 10) w₁ ≡ (pos 0, 0x15, w₂)
    → send_wait_request k time_out s ≡ (SendRet.ok, record s { world = w₂ })
unfolding send_wait_request
send_wait_request-nak k {w₁} n time_out s h i e =
    wait_request_loop-Idle k time_out n (suc (9 - n)) 10 s i (omega arith)
    ∙ wait_request_loop-nak k (9 - n) time_out (record s { world = w₁ }) e

-- Ten idle reads use the patience up: the wait ends with a failure.
pub send_wait_request-Idle :
    {W : Type 0} (k : Kernel W) {w' : W} (time_out : ℕ) (s : Uart W)
    → Idle k (time_out / 10) w' s.world 10
    → send_wait_request k time_out s ≡ (SendRet.failed, record s { world = w' })
unfolding send_wait_request
send_wait_request-Idle {W} k {w'} time_out s i =
    wait_request_loop-Idle k time_out 10 0 10 s i (omega arith)
    ∙ wait_request_loop_zero k time_out (record s { world = w' })
