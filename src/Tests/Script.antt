-- ===== src/Tests/Script.antt =====
-- A kernel that follows a script: the reads of the receive queue bring the answers of a list, and
-- time out when it is used up; the transmit queue takes `room` bytes and records them.
use mathlib.Core.Path.{subst}
use sipf_std_client_nrf.Prelude.{
  ℕ, zero, suc, false, [], ◌∷◌, ◌++◌, List, ℤ, pos, Bytes, refl, ap, sym, append_assoc, append-nil,
}
use sipf_std_client_nrf.UartBroker.{Uart}
use sipf_std_client_nrf.Zephyr.{
  Kernel, eagain, Delivers, none_left, delivers, Accepts, none_more, accepts,
}

pub record Script : Type 0 where
  pub rx : List (ℤ × ℕ)
  pub tx : Bytes
  pub room : ℕ

abbrev rx_next : List (ℤ × ℕ) → Script → ℤ × ℕ × Script
rx_next [] w = (eagain, 0, w)
rx_next ((r, b) ∷ rx) w = (r, b, record w { rx = rx })

abbrev tx_next : ℕ → ℕ → Script → ℤ × Script
tx_next zero b w = (eagain, w)
tx_next (suc n) b w = (pos 0, record w { tx = w.tx ++ b ∷ []; room = n })

abbrev tx_take : Bytes → Script → ℤ × ℕ × Script
tx_take [] w = (eagain, 0, w)
tx_take (b ∷ tx) w = (pos 0, b, record w { tx = tx })

abbrev pub scripted : Kernel Script
scripted = record {
  rx_get = λ t w. rx_next w.rx w;
  rx_put = λ b w. (pos 0, record w { rx = w.rx ++ (pos 0, b) ∷ [] });
  rx_purge = λ w. w;
  tx_put = λ b w. tx_next w.room b w;
  tx_get = λ w. tx_take w.tx w;
  irq_update = λ w. (pos 1, w);
  irq_rx_ready = λ w. (pos 1, w);
  fifo_read = λ w. (b'x', w);
  poll_out = λ b w. w;
  msleep = λ t w. w;
}

abbrev pub arriving : Bytes → List (ℤ × ℕ)
arriving [] = []
arriving (b ∷ bs) = (pos 0, b) ∷ arriving bs

abbrev pub line_of : List (ℤ × ℕ) → ℕ → Uart Script
line_of rx room = record { is_echo = false; world = record { rx = rx; tx = []; room = room } }

abbrev pub script : List (ℤ × ℕ) → Bytes → ℕ → Script
script rx tx room = record { rx = rx; tx = tx; room = room }

pub Delivers-arriving :
    (t : ℕ) (bs tx : Bytes) (room : ℕ)
    → Delivers scripted t (script [] tx room) (script (arriving bs) tx room) bs
Delivers-arriving t [] tx room = none_left refl
Delivers-arriving t (b ∷ bs) tx room =
    delivers b (script (arriving bs) tx room) refl (Delivers-arriving t bs tx room)

-- Room for these bytes and for `n` more.
abbrev pub room_for : Bytes → ℕ → ℕ
room_for [] n = n
room_for (b ∷ bs) n = suc (room_for bs n)

pub Accepts-room :
    (rx : List (ℤ × ℕ)) (bs tx : Bytes) (n : ℕ)
    → Accepts scripted (script rx (tx ++ bs) n) (script rx tx (room_for bs n)) bs
Accepts-room rx [] tx n = none_more (ap (λ t. script rx t n) (sym (append-nil tx)))
Accepts-room rx (b ∷ bs) tx n = accepts b (script rx (tx ++ b ∷ []) (room_for bs n)) refl (
    subst (λ t. Accepts scripted (script rx t n) (script rx (tx ++ b ∷ []) (room_for bs n)) bs)
      (append_assoc tx (b ∷ []) bs) (Accepts-room rx bs (tx ++ b ∷ []) n))
