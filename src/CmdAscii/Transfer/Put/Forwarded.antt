-- ===== src/CmdAscii/Transfer/Put/Forwarded.antt =====
-- src/cmd_ascii.c: what FPUT's callback makes of a file that comes over XMODEM (src/xmodem.c).
use sipf_std_client_nrf.ClientHttp.{Net}
use sipf_std_client_nrf.CmdAscii.Transfer.Put.{
  send_chunk, fput_loop, fput_send_cb, fput_end, first_block, block,
}
use sipf_std_client_nrf.CmdAscii.Transfer.Put.Wire.{
  Socket, frames, AllFit, Sent, sent_none, sent_some, on_wire, Moves, then-Moves, receive_frame,
  receive_end, pass_on,
}
use sipf_std_client_nrf.Prelude.{
  ℕ, zero, suc, ◌+◌, ◌%◌, ◌<◌, ◌≡◌, ap, ◌∙◌, some, [], ◌∷◌, ◌++◌, List, pos, Bytes, length, take,
  replicate, append_assoc, append-nil, length-append, arith,
}
use sipf_std_client_nrf.UartBroker.{Uart}
use sipf_std_client_nrf.Xmodem.Frame.{padded, total}
use sipf_std_client_nrf.Xmodem.Receive.{length-make_block}
use sipf_std_client_nrf.Xmodem.{
  ok, finished, make_block, receive_block, send_ack, receive_req_next_block,
}
use sipf_std_client_nrf.Zephyr.{Kernel, Queues}

module _ {W : Type 0} (k : Kernel W) (net : Net W) where
  -- The two ways through the loop's body that a transmission takes.
  fput_loop-finished :
      (fuel file_size bn cnt total : ℕ) (buf : Bytes) (w w' : W)
      → receive_block k bn buf 1000 (on_wire w)
        ≡ (record { xret = finished; bn = bn; block = buf }, on_wire w')
      → fput_loop k net (suc fuel) file_size bn cnt total buf w
        ≡ some (fput_end k net file_size total w')
  unfolding fput_loop
  fput_loop-finished fuel file_size bn cnt total buf w w' e = ground arith

  fput_loop-ok :
      (fuel file_size bn bn' cnt sum n : ℕ) (buf taken : Bytes) (w w₁ w₂ w₃ : W)
      → receive_block k bn buf 1000 (on_wire w)
        ≡ (record { xret = ok; bn = bn'; block = taken }, on_wire w₁)
      → send_chunk k net taken w₁ ≡ (pos n, w₂)
      → send_ack k (on_wire w₂) ≡ (pos 0, on_wire w₃)
      → fput_loop k net (suc fuel) file_size bn cnt sum buf w
        ≡ fput_loop k net fuel file_size bn' 0 (sum + n) taken w₃
  unfolding fput_loop receive_req_next_block
  fput_loop-ok fuel file_size bn bn' cnt sum n buf taken w w₁ w₂ w₃ r s a = ground arith

  fput_send_cb-first :
      (fuel file_size n : ℕ) (taken : Bytes) (w w₁ w₂ : W)
      → send_chunk k net taken w ≡ (pos n, w₁)
      → send_ack k (on_wire w₁) ≡ (pos 0, on_wire w₂)
      → fput_send_cb k net fuel file_size taken w ≡ fput_loop k net fuel file_size 1 0 n taken w₂
  unfolding fput_send_cb receive_req_next_block
  fput_send_cb-first fuel file_size n taken w w₁ w₂ s a = ground arith

first_block-ok :
    {W : Type 0} (k : Kernel W) (n bn : ℕ) (buf taken : Bytes) (s s₁ : Uart W)
    → receive_block k 0 buf 3000 s ≡ (record { xret = ok; bn = bn; block = taken }, s₁)
    → first_block k n buf s ≡ (block taken, s₁)
unfolding first_block
first_block-ok k zero bn buf taken s s₁ e = ground arith
first_block-ok k (suc n) bn buf taken s s₁ e = ground arith

module _ {W : Type 0} {k : Kernel W} (q : Queues k) {net : Net W} (z : Socket q net) where
  -- The loop of the callback, from block number `bn` on.
  fput_loop-forwards :
      (cs : List Bytes) (fuel file_size bn cnt sum : ℕ) (more buf : Bytes) (w : W)
      → length cs < fuel
      → AllFit cs
      → bn < 256
      → length buf ≡ 132
      → q.rx w ≡ frames ((bn + 1) % 256) cs ++ 0x04 ∷ more
      → length (q.tx w) + length cs < q.tx_cap
      → (total : ℕ) × (out : Bytes) × (w' : W) × (fput_loop k net fuel file_size bn cnt sum buf w
          ≡ some (fput_end k net file_size (sum + total) w'))
        × Sent cs total out
        × Moves q z w w' more (replicate (suc (length cs)) 0x06) out
  unfolding frames
  fput_loop-forwards cs zero file_size bn cnt sum more buf w f fit lt hb e h = absurd (omega arith)
  fput_loop-forwards [] (suc fuel) file_size bn cnt sum more buf w f fit lt hb e h =
      let (w', r, m) = receive_end q z bn 1000 more buf (on_wire w) e (omega arith) in
      let all : sum ≡ sum + 0 = omega arith in
      (
        0,
        [],
        w',
        fput_loop-finished k net fuel file_size bn cnt sum buf w w' r
            ∙ ap (λ n. some (fput_end k net file_size n w')) all,
        sent_none,
        m,
      )
  fput_loop-forwards (c ∷ cs) (suc fuel) file_size bn cnt sum more buf w f fit lt hb e h =
      let bn' : ℕ = (bn + 1) % 256 in
      let rest : Bytes = frames ((bn' + 1) % 256) cs ++ 0x04 ∷ more in
      let (w₁, r₁, m₁) =
        receive_frame q z bn 1000 c rest buf (on_wire w) lt fit.0 hb
          (e ∙ append_assoc (make_block bn' c) (frames ((bn' + 1) % 256) cs) (0x04 ∷ more)) in
      let same : q.tx w₁ ≡ q.tx w = m₁.acked ∙ append-nil (q.tx w) in
      let (n, w₂, w₃, r₂, r₃, few, m₂) =
        pass_on q z bn' c rest w₁ fit.0 m₁.left (omega (arith, ap length same)) in
      let m₁₃ : Moves q z w w₃ rest (0x06 ∷ []) (take n (padded c)) =
        then-Moves q z rest rest [] (0x06 ∷ []) [] (take n (padded c)) m₁ m₂ in
      let one : length (q.tx w₃) ≡ length (q.tx w) + 1 =
        ap length m₁₃.acked ∙ length-append (q.tx w) (0x06 ∷ []) in
      let (total, out, w₄, r₄, sent, m₄) =
        fput_loop-forwards cs fuel file_size bn' 0 (sum + n) more (make_block bn' c) w₃
          (omega arith) fit.1 (omega arith) (length-make_block bn' c fit.0) m₂.left (omega arith) in
      let all : sum + n + total ≡ sum + (n + total) = omega arith in
      (
        n + total,
        take n (padded c) ++ out,
        w₄,
        fput_loop-ok k net fuel file_size bn bn' cnt sum n buf (make_block bn' c) w w₁ w₂ w₃ r₁ r₂
              r₃
            ∙ r₄
            ∙ ap (λ t. some (fput_end k net file_size t w₄)) all,
        sent_some c n few sent,
        then-Moves q z rest more (0x06 ∷ []) (replicate (suc (length cs)) 0x06) (take n (padded c))
            out m₁₃ m₄,
      )

  -- The callback on the block that the command took, which has not been answered yet.
  fput_send_cb-block :
      (c : Bytes) (cs : List Bytes) (fuel file_size : ℕ) (more : Bytes) (w : W)
      → length cs < fuel
      → AllFit (c ∷ cs)
      → q.rx w ≡ frames 2 cs ++ 0x04 ∷ more
      → length (q.tx w) + length cs + 1 < q.tx_cap
      → (total : ℕ) × (out : Bytes) × (w' : W) × (fput_send_cb k net fuel file_size
            (make_block 1 c)
            w
          ≡ some (fput_end k net file_size total w'))
        × Sent (c ∷ cs) total out
        × Moves q z w w' more (replicate (length cs + 2) 0x06) out
  fput_send_cb-block c cs fuel file_size more w f fit e h =
      let rest : Bytes = frames 2 cs ++ 0x04 ∷ more in
      let (n, w₂, w₃, r₂, r₃, few, m₂) = pass_on q z 1 c rest w fit.0 e (omega arith) in
      let one : length (q.tx w₃) ≡ length (q.tx w) + 1 =
        ap length m₂.acked ∙ length-append (q.tx w) (0x06 ∷ []) in
      let (total, out, w₄, r₄, sent, m₄) =
        fput_loop-forwards cs fuel file_size 1 0 n more (make_block 1 c) w₃ f fit.1 (omega arith)
          (length-make_block 1 c fit.0) m₂.left (omega arith) in
      let acks : length cs + 2 ≡ suc (suc (length cs)) = omega arith in
      (
        n + total,
        take n (padded c) ++ out,
        w₄,
        fput_send_cb-first k net fuel file_size n (make_block 1 c) w w₂ w₃ r₂ r₃ ∙ r₄,
        sent_some c n few sent,
        rw acks (
            then-Moves q z rest more (0x06 ∷ []) (replicate (suc (length cs)) 0x06)
              (take n (padded c)) out m₂ m₄),
      )

  -- FPUT on a file that comes over XMODEM in one or more blocks, of which no byte is lost and which
  -- are numbered from 1 on, with EOT behind them, over a socket on which no send fails, but where a
  -- send may take fewer bytes than it is given: the command takes the first block. The request for
  -- the upload, `between`, does what it likes but to the two queues of the UART. Its callback then
  -- sends each block once, padded with 0x1A to 128 bytes and in order: of each block those bytes go
  -- out that its send takes, and no others. One ACK for each block and one for EOT are queued, and
  -- the result is that of the end of the file, for the bytes that went out. The transmit queue has
  -- room for the ACKs, and more rounds of the loop than there are blocks behind the first are enough.
  pub fput_send_cb-forwards :
      (c : Bytes) (cs : List Bytes) (fuel file_size : ℕ) (more buf : Bytes) (w : W)
      (between : W → W)
      → length cs < fuel
      → AllFit (c ∷ cs)
      → length buf ≡ 132
      → q.rx w ≡ frames 1 (c ∷ cs) ++ 0x04 ∷ more
      → length (q.tx w) + length cs + 1 < q.tx_cap
      → ((v : W) → q.rx (between v) ≡ q.rx v)
      → ((v : W) → q.tx (between v) ≡ q.tx v)
      → (w₁ : W) × (first_block k 10 buf (on_wire w) ≡ (block (make_block 1 c), on_wire w₁))
        × (total : ℕ) × (out : Bytes) × (w' : W) × (fput_send_cb k net fuel file_size
              (make_block 1 c)
              (between w₁)
            ≡ some (fput_end k net file_size total w'))
        × Sent (c ∷ cs) total out
        × Moves q z (between w₁) w' more (replicate (length cs + 2) 0x06) out
  unfolding frames
  fput_send_cb-forwards c cs fuel file_size more buf w between f fit hb e h rx tx =
      let (w₁, r₁, m₁) =
        receive_frame q z 0 3000 c (frames 2 cs ++ 0x04 ∷ more) buf (on_wire w) (omega arith) fit.0
          hb (e ∙ append_assoc (make_block 1 c) (frames 2 cs) (0x04 ∷ more)) in
      let same : q.tx (between w₁) ≡ q.tx w = tx w₁ ∙ m₁.acked ∙ append-nil (q.tx w) in
      let (total, out, w', r, sent, m) =
        fput_send_cb-block c cs fuel file_size more (between w₁) f fit (rx w₁ ∙ m₁.left)
          (omega (arith, ap length same)) in
      (
        w₁,
        first_block-ok k 10 1 buf (make_block 1 c) (on_wire w) (on_wire w₁) r₁,
        total,
        out,
        w',
        r,
        sent,
        m,
      )
