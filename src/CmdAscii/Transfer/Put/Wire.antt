-- ===== src/CmdAscii/Transfer/Put/Wire.antt =====
-- The wires on the two sides of FPUT (src/cmd_ascii.c): blocks of XMODEM (src/xmodem.c) in the receive
-- queue, ACKs in the transmit queue, and the socket.
use sipf_std_client_nrf.ClientHttp.{Net}
use sipf_std_client_nrf.CmdAscii.Transfer.Put.{send_chunk}
use sipf_std_client_nrf.CmdAscii.Transfer.{sz_block}
use sipf_std_client_nrf.Prelude.{
  ℕ, ◌+◌, ◌%◌, ◌≤◌, ◌<◌, ◌≡◌, sym, ap, ◌∙◌, false, [], ◌∷◌, ◌++◌, List, ℤ, pos, negsuc, is_zero,
  is_neg, neg, if◌then◌else◌, Bytes, length, take, drop, append_assoc, append-nil, arith,
}
use sipf_std_client_nrf.UartBroker.{Uart, get_byte_tm, put_byte}
use sipf_std_client_nrf.Xmodem.Frame.{padded, length-padded}
use sipf_std_client_nrf.Xmodem.Receive.{
  block_tail, make_block-cons, receive_block-make_block, take-drop-make_block,
}
use sipf_std_client_nrf.Xmodem.{ok, finished, make_block, receive_block, send_ack}
use sipf_std_client_nrf.Zephyr.{Kernel, Queues, Delivers, none_left, delivers, Delivers-queued}

-- A socket on which no send fails: a send takes as many bytes as it likes from the front of what it
-- is given, and returns their number. `sent w` is what has gone out over it. The queues' calls leave
-- it alone, and a send leaves the queues alone.
pub record Socket {W : Type 0} {k : Kernel W} (q : Queues k) (net : Net W) : Type 0 where
  pub sent : W → Bytes
  pub rx_quiet :
      (t : ℕ) (w : W) (r : ℤ) (b : ℕ) (w' : W) → k.rx_get t w ≡ (r, b, w') → sent w' ≡ sent w
  pub tx_quiet : (b : ℕ) (w : W) (r : ℤ) (w' : W) → k.tx_put b w ≡ (r, w') → sent w' ≡ sent w
  pub send_some :
      (bs : Bytes) (w : W)
      → (n : ℕ) × (w' : W) × (net.send bs w ≡ (pos n, w'))
        × (n ≤ length bs)
        × (q.rx w' ≡ q.rx w)
        × (q.tx w' ≡ q.tx w)
        × (sent w' ≡ sent w ++ take n bs)

-- The blocks that the sender makes of the pieces of a file, from block number `bn` on.
unfoldable pub frames : ℕ → List Bytes → Bytes
frames bn [] = []
frames bn (c ∷ cs) = make_block bn c ++ frames ((bn + 1) % 256) cs

-- Pieces that fit into a block.
abbrev pub AllFit : List Bytes → Type 0
AllFit [] = Unit {0}
AllFit (c ∷ cs) = (length c ≤ 128) × AllFit cs

-- What goes out of them where each piece is padded with 0x1A to 128 bytes, and a socket takes the
-- first `n` bytes of each: the number of these bytes, and the bytes.
pub data Sent : List Bytes → ℕ → Bytes → Type 0 where
  sent_none : Sent [] 0 []
  sent_some :
      {cs : List Bytes} {total : ℕ} {out : Bytes} (c : Bytes) (n : ℕ)
      → n ≤ 128
      → Sent cs total out
      → Sent (c ∷ cs) (n + total) (take n (padded c) ++ out)

abbrev pub on_wire : {W : Type 0} → W → Uart W
on_wire w = record { is_echo = false; world = w }

module _ {W : Type 0} {k : Kernel W} (q : Queues k) {net : Net W} (z : Socket q net) where
  -- From `w` to `w'` the receive queue is taken down to `rest`, `acks` are queued, and `out` is sent.
  pub record Moves (w w' : W) (rest acks out : Bytes) : Type 0 where
    pub left : q.rx w' ≡ rest
    pub acked : q.tx w' ≡ q.tx w ++ acks
    pub gone : z.sent w' ≡ z.sent w ++ out

  pub then-Moves :
      {w w₁ w₂ : W} (rest₁ rest₂ acks₁ acks₂ out₁ out₂ : Bytes)
      → Moves w w₁ rest₁ acks₁ out₁
      → Moves w₁ w₂ rest₂ acks₂ out₂
      → Moves w w₂ rest₂ (acks₁ ++ acks₂) (out₁ ++ out₂)
  then-Moves {w = w} rest₁ rest₂ acks₁ acks₂ out₁ out₂ m n = record {
    left = n.left;
    acked = n.acked ∙ ap (λ t. t ++ acks₂) m.acked ∙ append_assoc (q.tx w) acks₁ acks₂;
    gone = n.gone ∙ ap (λ t. t ++ out₂) m.gone ∙ append_assoc (z.sent w) out₁ out₂;
  }

  Delivers-quiet : {t : ℕ} {w' w : W} {bs : Bytes} → Delivers k t w' w bs → z.sent w' ≡ z.sent w
  Delivers-quiet (none_left e) = sym (ap z.sent e)
  Delivers-quiet {t} {w = w} (delivers b w₁ e d) = Delivers-quiet d ∙ z.rx_quiet t w (pos 0) b w₁ e

  -- A block in the queue is received.
  pub receive_frame :
      (bn t : ℕ) (c more buf : Bytes) (s : Uart W)
      → bn < 256
      → length c ≤ 128
      → length buf ≡ 132
      → q.rx s.world ≡ make_block ((bn + 1) % 256) c ++ more
      → (w : W) × (receive_block k bn buf t s ≡ (
        record { xret = ok; bn = (bn + 1) % 256; block = make_block ((bn + 1) % 256) c },
        record s { world = w },
      ))
        × Moves s.world w more [] []
  receive_frame bn t c more buf s lt h hb e =
      let bn' = (bn + 1) % 256 in
      let (w₁, r₁, rx₁, tx₁) =
        q.rx_some t s.world 1 (block_tail bn' c ++ more)
          (e ∙ ap (λ (b : Bytes). b ++ more) (make_block-cons bn' c h)) in
      let (w₂, d, rx₂, tx₂) = Delivers-queued q 100 (block_tail bn' c) more w₁ rx₁ in
      (
        w₂,
        receive_block-make_block k bn buf c t s lt h hb r₁ d,
        record {
          left = rx₂;
          acked = tx₂ ∙ tx₁ ∙ sym (append-nil (q.tx s.world));
          gone =
              Delivers-quiet d
              ∙ z.rx_quiet t s.world (pos 0) 1 w₁ r₁
              ∙ sym (append-nil (z.sent s.world));
        },
      )

  -- An acknowledgement is queued.
  send_ack_queued :
      (rest : Bytes) (s : Uart W)
      → q.rx s.world ≡ rest
      → length (q.tx s.world) < q.tx_cap
      → (w : W) × (send_ack k s ≡ (pos 0, record s { world = w }))
        × Moves s.world w rest (0x06 ∷ []) []
  unfolding send_ack put_byte
  send_ack_queued rest s e h =
      let (w, p, rx, tx) = q.tx_room 0x06 s.world h in
      (
        w,
        ap (λ r. (if is_zero r.0 then pos 0 else negsuc 0, record s { world = r.1 })) p,
        record {
          left = rx ∙ e;
          acked = tx;
          gone = z.tx_quiet 0x06 s.world (pos 0) w p ∙ sym (append-nil (z.sent s.world));
        },
      )

  -- The first bytes of a block go out over the socket.
  send_chunk_sent :
      (bn : ℕ) (c rest : Bytes) (w : W)
      → length c ≤ 128
      → q.rx w ≡ rest
      → (n : ℕ) × (w' : W) × (send_chunk k net (make_block bn c) w ≡ (pos n, w'))
        × (n ≤ 128)
        × Moves w w' rest [] (take n (padded c))
  unfolding send_chunk
  send_chunk_sent bn c rest w h e =
      let (n, w', s, few, rx, tx, out) = z.send_some (padded c) w in
      let whole : net.send (take sz_block (drop 3 (make_block bn c))) w ≡ (pos n, w') =
        rw (take-drop-make_block bn c h) s in
      (
        n,
        w',
        ap (λ r. (if is_neg r.0 then neg (net.errno r.1) else r.0, r.1)) whole,
        omega (arith, length-padded c h),
        record { left = rx ∙ e; acked = tx ∙ sym (append-nil (q.tx w)); gone = out },
      )

  -- The end of the transmission is answered with an acknowledgement.
  pub receive_end :
      (bn t : ℕ) (more buf : Bytes) (s : Uart W)
      → q.rx s.world ≡ 0x04 ∷ more
      → length (q.tx s.world) < q.tx_cap
      → (w : W) × (receive_block k bn buf t s
          ≡ (record { xret = finished; bn = bn; block = buf }, record s { world = w }))
        × Moves s.world w more (0x06 ∷ []) []
  unfolding receive_block get_byte_tm
  receive_end bn t more buf s e h =
      let (w₁, r, rx, tx) = q.rx_some t s.world 0x04 more e in
      let (w₂, a, m) = send_ack_queued more (record s { world = w₁ }) rx (rw tx h) in
      (
        w₂,
        ground arith,
        then-Moves more more [] (0x06 ∷ []) [] []
            (record {
              left = rx;
              acked = tx ∙ sym (append-nil (q.tx s.world));
              gone = z.rx_quiet t s.world (pos 0) 0x04 w₁ r ∙ sym (append-nil (z.sent s.world));
            })
            m,
      )

  -- The first bytes of a received block go out over the socket, and the next block is asked for.
  pub pass_on :
      (bn : ℕ) (c rest : Bytes) (w : W)
      → length c ≤ 128
      → q.rx w ≡ rest
      → length (q.tx w) < q.tx_cap
      → (n : ℕ) × (w₁ : W) × (w₂ : W) × (send_chunk k net (make_block bn c) w ≡ (pos n, w₁))
        × (send_ack k (on_wire w₁) ≡ (pos 0, on_wire w₂))
        × (n ≤ 128)
        × Moves w w₂ rest (0x06 ∷ []) (take n (padded c))
  pass_on bn c rest w h e room =
      let (n, w₁, r₁, few, m₁) = send_chunk_sent bn c rest w h e in
      let same : q.tx w₁ ≡ q.tx w = m₁.acked ∙ append-nil (q.tx w) in
      let (w₂, r₂, m₂) =
        send_ack_queued rest (on_wire w₁) m₁.left (omega (arith, ap length same)) in
      let both : Moves w w₂ rest (0x06 ∷ []) (take n (padded c) ++ []) =
        then-Moves rest rest [] (0x06 ∷ []) (take n (padded c)) [] m₁ m₂ in
      (n, w₁, w₂, r₁, r₂, few, rw (append-nil (take n (padded c))) at both)
