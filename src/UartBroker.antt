-- ===== src/UartBroker.antt =====
-- src/uart_broker.c: the byte queues between the UART and the rest of the firmware, and the echo
-- flag. Logging, thread creation and the mutex (each critical section is one access) are left out.
pub mod Order
pub mod Traffic
use sipf_std_client_nrf.Prelude.{
  ℕ, zero, suc, ◌+◌, Bool, true, false, [], ◌∷◌, ◌++◌, if◌then◌else◌, ℤ, pos, is_zero, eq_ℤ, Bytes,
}
use sipf_std_client_nrf.Zephyr.{Kernel}

pub record Uart (W : Type 0) : Type 0 where
  pub is_echo : Bool
  pub world : W

-- k_msgq_init of the two queues, by their sizes, and the broker's thread: created, named, started.
pub record Startup (W : Type 0) : Type 0 where
  pub tx_init : ℕ → W → W
  pub rx_init : ℕ → W → W
  pub thread_start : W → W

abbrev pub uart_tx_buf_sz : ℕ
uart_tx_buf_sz = 256

abbrev pub uart_rx_buf_sz : ℕ
uart_rx_buf_sz = 1024

unfoldable pub uart_broker_init : {W : Type 0} → Startup W → W → ℤ × W
uart_broker_init up w =
    (pos 0, up.thread_start (up.rx_init uart_rx_buf_sz (up.tx_init uart_tx_buf_sz w)))

unfoldable pub uart_broker_term : {W : Type 0} → W → ℤ × W
uart_broker_term w = (pos 0, w)

-- C functions that use the UART: they return the new state beside their result.
abbrev pub M : Type 0 → Type 0 → Type 0
M W A = Uart W → A × Uart W

abbrev pub pure : {W A : Type 0} → A → M W A
pure a s = (a, s)

infixl 5 ◌>>=◌ ◌>>◌
abbrev pub ◌>>=◌ : {W A B : Type 0} → M W A → (A → M W B) → M W B
◌>>=◌ m f s = let (a, s') = m s in f a s'

abbrev pub ◌>>◌ : {W B : Type 0} → M W (Unit {0}) → M W B → M W B
m >> n = m >>= λ _. n

module _ {W : Type 0} (k : Kernel W) where
  -- the bytes that the receive interrupt takes in
  receive_byte : Uart W → Uart W
  receive_byte s =
      let (b, w₁) = k.fifo_read s.world in
      let (_, w₂) = k.rx_put b w₁ in record s { world = if s.is_echo then k.poll_out b w₂ else w₂ }

  unfoldable pub fifo_cb : Uart W → Uart W
  unfolding receive_byte
  fifo_cb s =
      let (updated, w₁) = k.irq_update s.world in
      let (ready, w₂) = k.irq_rx_ready w₁ in
      if eq_ℤ updated (pos 1)
      then (if eq_ℤ ready (pos 1)
          then receive_byte (record s { world = w₂ })
          else record s { world = w₂ })
      else record s { world = w₁ }

  -- One round of the broker thread's endless loop, by fuel: the inner `while` sends what is queued.
  unfoldable pub send_queued : ℕ → W → W
  send_queued zero w = w
  send_queued (suc fuel) w =
      let (ret, b, w') = k.tx_get w in
      elim (is_zero ret) [ true ↦ send_queued fuel (k.poll_out b w') | false ↦ w' ]

  unfoldable pub put_byte : ℕ → M W ℤ
  put_byte b s = let (ret, w') = k.tx_put b s.world in (ret, record s { world = w' })

  pub put_loop : Bytes → ℕ → M W ℕ
  put_loop [] cnt = pure cnt
  put_loop (b ∷ bs) cnt = do
    ret ← put_byte b
    elim (is_zero ret) [ true ↦ put_loop bs (cnt + 1) | false ↦ pure cnt ]

  unfoldable pub put : Bytes → M W ℕ
  unfolding put_loop put_byte
  put bs = put_loop bs 0

  unfoldable pub get_byte_tm : ℕ → M W (ℤ × ℕ)
  get_byte_tm timeout_ms s =
      let (ret, b, w') = k.rx_get timeout_ms s.world in ((ret, b), record s { world = w' })

  unfoldable pub get_byte : M W (ℤ × ℕ)
  unfolding get_byte_tm
  get_byte = get_byte_tm 1

  get_loop : ℕ → Bytes → M W Bytes
  get_loop zero got s = (got, s)
  get_loop (suc n) got s =
      let ((ret, b), s') = get_byte s in
      elim (is_zero ret) [ true ↦ get_loop n (got ++ b ∷ []) s' | false ↦ (got, s') ]

  -- `cnt` of the source is the length of what was received.
  unfoldable pub get : ℕ → M W Bytes
  unfolding get_loop get_byte
  get len = get_loop len []

  unfoldable pub clear_receive_queue : M W (Unit {0})
  clear_receive_queue s = (tt, record s { world = k.rx_purge s.world })

  unfoldable pub set_echo : Bool → M W Bool
  set_echo echo s = (echo, record s { is_echo = echo })

  -- UartBrokerPuts, on a world alone: the echo flag is not read.
  unfoldable pub puts : Bytes → W → W
  puts msg w = let (_, u) = put msg (record { is_echo = false; world = w }) in u.world

  -- UartBrokerPrint, for the text that its format makes
  unfoldable pub print : Bytes → W → W
  print msg w = let (_, u) = put msg (record { is_echo = false; world = w }) in u.world
