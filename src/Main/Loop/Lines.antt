-- ===== src/Main/Loop/Lines.antt =====
-- src/main.c: the inner loop of main on what stands in the receive queue: byte by byte, and line by
-- line.
use sipf_std_client_nrf.Cmd.Collect.{
  AllPlain, collecting, Collects, none_taken, takes, Collects-line,
}
use sipf_std_client_nrf.Cmd.Line.{answered, cmd_parse_newline}
use sipf_std_client_nrf.Cmd.{Reply, text, Cmd, wait, cleared, response, cmd_parse}
use sipf_std_client_nrf.CmdAscii.Dispatch.{Firmware, cmd_ascii_parse}
use sipf_std_client_nrf.Main.Loop.{Machine, Board, board_world, in_world, answer, take_byte, serve}
use sipf_std_client_nrf.Prelude.Runs.{Run, returns, faults, waits, ◌>>=◌}
use sipf_std_client_nrf.Prelude.{
  ℕ, zero, suc, ◌+◌, ◌-◌, ◌≤◌, ◌≡◌, ◌⊎◌, refl, ap, ◌∙◌, true, false, none, some, [], ◌∷◌, ◌++◌, pos,
  ℤ, is_zero, Bool, Bytes, length, drop, arith,
}
use sipf_std_client_nrf.Registers.{Registers}
use sipf_std_client_nrf.UartBroker.Traffic.{put-accepted}
use sipf_std_client_nrf.UartBroker.{get_byte}
use sipf_std_client_nrf.Zephyr.{Queues, Accepts-room}

module _ {P W : Type 0} where
  -- the board with this world and this line buffer
  abbrev pub at_line : Board P W → W → Cmd → Board P W
  at_line b w c = record (in_world b w) { cmd = c }

  -- the board with this lock and these registers
  abbrev pub with_registers : Bool → Registers → Board P W → Board P W
  with_registers u r b = record b {
    firmware = record b.firmware { is_unlocked = u; registers = r };
  }

-- the buffer behind a line
abbrev pub waiting : Bytes → ℕ → Cmd
waiting buf n = record { state = wait; in_buff = buf; in_buff_idx = pos n }

module _ {P W : Type 0} (m : Machine P W) where
  -- Behind a line's end: the answer to the command goes out, and the buffer waits.
  abbrev pub replied : Bytes → ℕ → Board P W → Run (Reply × Firmware P W) → Run (Board P W)
  replied buf n b r = do
    (reply, f) ← r
    returns (answer m (response reply) (record b { firmware = f; cmd = waiting buf n }))

  take_byte_silent :
      (byte : ℕ) (b : Board P W) (c : Cmd)
      → cmd_parse (cmd_ascii_parse m.outside) byte b.cmd b.firmware ≡ returns (none, c, b.firmware)
      → take_byte m byte b ≡ returns (record b { cmd = c })
  unfolding take_byte answer
  take_byte_silent byte b c e = rw e refl

  take_byte_newline :
      (byte : ℕ) (b : Board P W) (buf : Bytes) (n : ℕ)
      → b.cmd ≡ collecting buf n
      → (byte ≡ 0x0a) ⊎ (byte ≡ 0x0d)
      → n ≤ 4096
      → take_byte m byte b ≡ replied buf n b (cmd_ascii_parse m.outside buf n b.firmware)
  unfolding take_byte
  take_byte_newline byte b buf n c e h =
      rw (c, cmd_parse_newline (cmd_ascii_parse m.outside) buf n byte b.firmware e h)
        (rest (cmd_ascii_parse m.outside buf n b.firmware))
    where
      rest :
          (r : Run (Reply × Firmware P W))
          → (do
            (cr, c', f) ← answered r (waiting buf n)
            returns (answer m cr (record b { firmware = f; cmd = c' })))
            ≡ replied buf n b r
      rest (returns (reply, f)) = refl
      rest faults = refl
      rest waits = refl

  module _ (q : Queues m.outside.k) where
    -- what the inner loop does behind a read, where `next` is the rest of the loop
    abbrev behind_read : Board P W → (Board P W → Run (Board P W)) → ℤ × ℕ × W → Run (Board P W)
    behind_read b next r = elim (is_zero r.0) [
      | true ↦ take_byte m r.1 (in_world b r.2) >>= next
      | false ↦ returns (in_world b r.2)
    ]

    -- One round of the inner loop takes the first byte of the queue.
    serve_byte :
        (byte : ℕ) (bs : Bytes) (b : Board P W)
        → q.rx (board_world b) ≡ byte ∷ bs
        → (w : W) × (q.rx w ≡ bs)
          × (q.tx w ≡ q.tx (board_world b))
          × ((fuel : ℕ) → serve m (suc fuel) b ≡ (take_byte m byte (in_world b w) >>= serve m fuel))
    unfolding serve get_byte
    serve_byte byte bs b e =
        let (w, r, rx, tx) = q.rx_some 1 (board_world b) byte bs e in
        (w, rx, tx, λ fuel. ap (behind_read b (serve m fuel)) r)

    -- An empty queue ends the loop.
    pub serve_end :
        (b : Board P W)
        → q.rx (board_world b) ≡ []
        → (w : W) × (q.rx w ≡ [])
          × (q.tx w ≡ q.tx (board_world b))
          × ((fuel : ℕ) → serve m (suc fuel) b ≡ returns (in_world b w))
    unfolding serve get_byte
    serve_end b e =
        let (r, byte, w, read, failed, rx, tx) = q.rx_none 1 (board_world b) e in
        (w, rx, tx, λ fuel. ap (behind_read b (serve m fuel)) read ∙ rw (behind_read, failed) refl)

    skip_round :
        (x y z : Board P W) (n : ℕ)
        → ((fuel : ℕ) → serve m (suc fuel) x ≡ serve m fuel y)
        → ((fuel : ℕ) → n ≤ fuel → serve m fuel y ≡ serve m (fuel - n) z)
        → (fuel : ℕ) → suc n ≤ fuel
        → serve m fuel x ≡ serve m (fuel - suc n) z
    skip_round x y z n first others zero h = absurd (omega arith)
    skip_round x y z n first others (suc fuel) h =
        let less : suc fuel - suc n ≡ fuel - n = omega arith in
        first fuel ∙ others fuel (omega arith) ∙ rw less refl

    -- Bytes that are collected take a round each, and nothing else changes.
    serve-Collects :
        (b : Board P W) (more : Bytes) {c' c : Cmd} {bs : Bytes} (w : W)
        → q.rx w ≡ bs ++ more
        → Collects (cmd_ascii_parse m.outside) c' c bs
        → (w' : W) × (q.rx w' ≡ more)
          × (q.tx w' ≡ q.tx w)
          × ((fuel : ℕ)
              → length bs ≤ fuel
              → serve m fuel (at_line b w c) ≡ serve m (fuel - length bs) (at_line b w' c'))
    serve-Collects b more w e (none_taken same) =
        (w, e, refl, λ fuel h. let all : fuel - 0 ≡ fuel = omega arith in rw (all, same) refl)
    serve-Collects b more {c' = c'} {c = c} w e (takes byte {bs} c₁ step rest) =
        let (w₁, rx₁, tx₁, first) = serve_byte byte (bs ++ more) (at_line b w c) e in
        let (w₂, rx₂, tx₂, others) = serve-Collects b more w₁ rx₁ rest in
        (
          w₂,
          rx₂,
          tx₂ ∙ tx₁,
          skip_round (at_line b w c) (at_line b w₁ c₁) (at_line b w₂ c') (length bs)
              (λ fuel.
                first fuel
                ∙ ap (λ r. r >>= serve m fuel)
                    (take_byte_silent byte (at_line b w₁ c) c₁ (step (at_line b w₁ c).firmware)))
              others,
        )

    -- A line in the queue, with its end: the command parser is called once, on the line, and its
    -- answer goes out, before the loop takes the next byte.
    pub serve_line :
        (line : Bytes) (nl : ℕ) (more : Bytes) (b : Board P W)
        → b.cmd.state ≡ wait
        → AllPlain line
        → length line ≤ 4096
        → (nl ≡ 0x0a) ⊎ (nl ≡ 0x0d)
        → q.rx (board_world b) ≡ (b'$' ∷ line) ++ nl ∷ more
        → let buf = line ++ drop (length line) cleared in
          (w : W) × (q.rx w ≡ more)
          × (q.tx w ≡ q.tx (board_world b))
          × ((fuel : ℕ)
              → length line + 2 ≤ fuel
              → serve m fuel b ≡ (
                  replied buf
                    (length line)
                    (in_world b w)
                    (cmd_ascii_parse m.outside buf (length line) (in_world b w).firmware)
                  >>= serve m (fuel - (length line + 2))))
    serve_line line nl more b s p h e r =
        let buf = line ++ drop (length line) cleared in
        let (w₁, rx₁, tx₁, collected) =
          serve-Collects b (nl ∷ more) (board_world b) r
            (Collects-line (cmd_ascii_parse m.outside) line b.cmd s p h) in
        let (w₂, rx₂, tx₂, ended) =
          serve_byte nl more (at_line b w₁ (collecting buf (length line))) rx₁ in
        (
          w₂,
          rx₂,
          tx₂ ∙ tx₁,
          λ fuel k.
              collected fuel (omega arith)
              ∙ ap (λ n. serve m n (at_line b w₁ (collecting buf (length line)))) (one_left fuel k)
              ∙ ended (fuel - (length line + 2))
              ∙ ap (λ r. r >>= serve m (fuel - (length line + 2)))
                  (take_byte_newline nl (at_line b w₂ (collecting buf (length line))) buf
                    (length line) refl e h),
        )
      where
        one_left :
            (fuel : ℕ)
            → length line + 2 ≤ fuel
            → fuel - suc (length line) ≡ suc (fuel - (length line + 2))
        one_left fuel k = omega arith

    -- A response for which the transmit queue has room stands at its end.
    answer_queued :
        (bs : Bytes) (b : Board P W)
        → length (q.tx (board_world b)) + length bs ≤ q.tx_cap
        → (w : W) × (answer m (some bs) b ≡ in_world b w)
          × (q.rx w ≡ q.rx (board_world b))
          × (q.tx w ≡ q.tx (board_world b) ++ bs)
    unfolding answer
    answer_queued bs b h =
        let (w, a, rx, tx) = Accepts-room q bs (board_world b) h in
        (w, ap (λ r. in_world b r.1.world) (put-accepted m.outside.k bs _ a), rx, tx)

    -- A line whose command answers with a text and changes the lock and the registers alone.
    pub serve-text :
        (line : Bytes) (nl : ℕ) (more : Bytes) (b : Board P W) (u : Bool) (r : Registers) (c : ℕ)
        (cs : Bytes)
        → b.cmd.state ≡ wait
        → AllPlain line
        → length line ≤ 4096
        → (nl ≡ 0x0a) ⊎ (nl ≡ 0x0d)
        → q.rx (board_world b) ≡ (b'$' ∷ line) ++ nl ∷ more
        → length (q.tx (board_world b)) + length (c ∷ cs) ≤ q.tx_cap
        → let buf = line ++ drop (length line) cleared in
          ((w : W)
            → cmd_ascii_parse m.outside buf (length line) (in_world b w).firmware
              ≡ returns (text (c ∷ cs), (with_registers u r (in_world b w)).firmware))
          → (w : W) × (q.rx w ≡ more)
            × (q.tx w ≡ q.tx (board_world b) ++ c ∷ cs)
            × ((fuel : ℕ)
                → length line + 2 ≤ fuel
                → serve m fuel b
                  ≡ serve m
                      (fuel - (length line + 2))
                      (at_line (with_registers u r b) w (waiting buf (length line))))
    serve-text line nl more b u r c cs s p h e rx room parse =
        let buf = line ++ drop (length line) cleared in
        let (w₁, rx₁, tx₁, taken) = serve_line line nl more b s p h e rx in
        let b₁ = at_line (with_registers u r b) w₁ (waiting buf (length line)) in
        let (w₂, sent, rx₂, tx₂) = answer_queued (c ∷ cs) b₁ (rw tx₁ room) in
        (
          w₂,
          rx₂ ∙ rx₁,
          tx₂ ∙ ap (λ t. t ++ c ∷ cs) tx₁,
          λ fuel k.
              taken fuel k
              ∙ ap
                  (λ a.
                    replied buf (length line) (in_world b w₁) a
                    >>= serve m (fuel - (length line + 2)))
                  (parse w₁)
              ∙ ap (serve m (fuel - (length line + 2))) sent,
        )
