-- ===== src/Cmd/Line.antt =====
-- What CmdParse makes of a whole line (src/cmd.c).
use sipf_std_client_nrf.Cmd.Collect.{
  is_plain, AllPlain, collecting, length-cleared, Collects, none_taken, takes, Collects-line,
}
use sipf_std_client_nrf.Cmd.{Reply, wait, Cmd, cleared, response, cmd_parse, feed}
use sipf_std_client_nrf.Prelude.Runs.{Run, returns, faults, waits}
use sipf_std_client_nrf.Prelude.{
  ℕ, ◌%◌, ◌≤◌, ◌≡◌, ◌⊎◌, ap, ◌∙◌, true, Option, none, some, [], ◌∷◌, ◌++◌, List, arith, pos, Bytes,
  length, drop, length-append, length-drop,
}

abbrev pub respond : Option Bytes → List Bytes
respond none = []
respond (some r) = r ∷ []

-- What CmdParse makes of the command parser's answer.
abbrev pub answered : {S : Type 0} → Run (Reply × S) → Cmd → Run (Option Bytes × Cmd × S)
answered faults c = faults
answered waits c = waits
answered (returns (r, s)) c = returns (response r, c, s)

abbrev pub outputs : {S : Type 0} → Run (Reply × S) → Cmd → Run (List Bytes × Cmd × S)
outputs faults c = faults
outputs waits c = waits
outputs (returns (r, s)) c = returns (respond (response r), c, s)

module _ {S : Type 0} (ascii_parse : Bytes → ℕ → S → Run (Reply × S)) where
  feed_step :
      (b : ℕ) (bs : Bytes) (c c' : Cmd) (s s' : S)
      → cmd_parse ascii_parse b c s ≡ returns (none, c', s')
      → feed ascii_parse (b ∷ bs) c s ≡ feed ascii_parse bs c' s'
  unfolding feed
  feed_step b bs c c' s s' e = ground arith

  feed-Collects :
      (more : Bytes) (s : S) {c' c : Cmd} {bs : Bytes}
      → Collects ascii_parse c' c bs
      → feed ascii_parse (bs ++ more) c s ≡ feed ascii_parse more c' s
  feed-Collects more s (none_taken e) = ap (λ c. feed ascii_parse more c s) e
  feed-Collects more s {c = c} (takes b {bs} c₁ e rest) =
      feed_step b (bs ++ more) c c₁ s s (e s) ∙ feed-Collects more s rest

  pub cmd_parse_newline :
      (buf : Bytes) (n b : ℕ) (s : S)
      → (b ≡ 0x0a) ⊎ (b ≡ 0x0d)
      → n ≤ 4096
      → cmd_parse ascii_parse b (collecting buf n) s
        ≡ answered
            (ascii_parse buf n s)
            (record { state = wait; in_buff = buf; in_buff_idx = pos n })
  unfolding cmd_parse
  cmd_parse_newline buf n b s e h = let same : n % 65536 ≡ n = omega arith in ground (arith, same)

  feed_newline :
      (buf : Bytes) (n b : ℕ) (s : S)
      → (b ≡ 0x0a) ⊎ (b ≡ 0x0d)
      → n ≤ 4096
      → feed ascii_parse (b ∷ []) (collecting buf n) s
        ≡ outputs
            (ascii_parse buf n s)
            (record { state = wait; in_buff = buf; in_buff_idx = pos n })
  unfolding feed
  feed_newline buf n b s e h = ground (arith, cmd_parse_newline buf n b s e h)

  -- Over a buffer that waits: `$line`, where the line is at most 4096 bytes of which none is a line
  -- end or a backspace, with a line end behind it, makes exactly one call of the command parser: on
  -- the buffer that holds the line, followed by zeros, and with the length of the line. Its
  -- response, if there is one, is the only output, and the buffer waits for the next `$`.
  pub feed_line :
      (line : Bytes) (b : ℕ) (c : Cmd) (s : S)
      → c.state ≡ wait
      → AllPlain line
      → length line ≤ 4096
      → (b ≡ 0x0a) ⊎ (b ≡ 0x0d)
      → let buf = line ++ drop (length line) cleared in
        feed ascii_parse (b'$' ∷ (line ++ b ∷ [])) c s
        ≡ outputs
            (ascii_parse buf (length line) s)
            (record { state = wait; in_buff = buf; in_buff_idx = pos (length line) })
  feed_line line b c s w p h nl =
      feed-Collects (b ∷ []) s (Collects-line ascii_parse line c w p h)
      ∙ feed_newline (line ++ drop (length line) cleared) (length line) b s nl h

  feed_full :
      (buf : Bytes) (n b : ℕ) (more : Bytes) (s : S)
      → is_plain b ≡ true
      → length buf ≤ n
      → feed ascii_parse (b ∷ more) (collecting buf n) s ≡ faults
  unfolding feed cmd_parse
  feed_full buf n b more s p h = ground arith

  -- A line that fills the buffer is lost with its next byte: that byte is written behind the end
  -- of the array, before the index is checked, so the answer NG for a full buffer is not reached.
  feed_overflow :
      (line more : Bytes) (b : ℕ) (c : Cmd) (s : S)
      → c.state ≡ wait
      → AllPlain line
      → length line ≡ 4096
      → is_plain b ≡ true
      → feed ascii_parse (b'$' ∷ (line ++ b ∷ more)) c s ≡ faults
  feed_overflow line more b c s w p h pb =
      feed-Collects (b ∷ more) s (Collects-line ascii_parse line c w p (omega arith))
      ∙ feed_full (line ++ drop (length line) cleared) (length line) b more s pb (
          rw (length-append line (drop (length line) cleared))
            (omega (arith, length-drop {A = ℕ} (length line) cleared, length-cleared)))
