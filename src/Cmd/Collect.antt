-- ===== src/Cmd/Collect.antt =====
-- How CmdParse collects a line, byte by byte (src/cmd.c).
use sipf_std_client_nrf.Cmd.{Reply, wait, buffering_ascii, Cmd, cleared, cmd_parse}
use sipf_std_client_nrf.Prelude.Runs.{Run, returns}
use sipf_std_client_nrf.Prelude.{
  ℕ, suc, ◌+◌, ◌≤◌, ◌<◌, ◌≡◌, refl, ap, Bool, true, false, ◌||◌, none, [], ◌∷◌, ◌++◌, arith, ◌==◌,
  if◌then◌else◌, pos, Bytes, length, drop, append_assoc, length-append, set-length-append,
  length-replicate,
}

-- A byte that goes into the buffer: neither a line end nor a backspace.
abbrev pub is_plain : ℕ → Bool
is_plain b = if b == 0x0a || b == 0x0d then false else if b == 0x08 then false else true

abbrev pub AllPlain : Bytes → Type 0
AllPlain [] = Unit {0}
AllPlain (b ∷ bs) = (is_plain b ≡ true) × AllPlain bs

-- The buffer while a line is being collected.
abbrev pub collecting : Bytes → ℕ → Cmd
collecting buf n = record { state = buffering_ascii; in_buff = buf; in_buff_idx = pos n }

pub length-cleared : length cleared ≡ 4096
unfolding cleared
length-cleared = length-replicate {A = ℕ} 4096 0

module _ {S : Type 0} (ascii_parse : Bytes → ℕ → S → Run (Reply × S)) where
  -- From `c` on, CmdParse takes these bytes without a response and without a call of the command
  -- parser, and the line buffer is then `c'`.
  pub data Collects (c' : Cmd) : Cmd → Bytes → Type 0 where
    none_taken : {c : Cmd} → c ≡ c' → Collects c' c []
    takes :
        {c : Cmd} (b : ℕ) {bs : Bytes} (c₁ : Cmd)
        → ((s : S) → cmd_parse ascii_parse b c s ≡ returns (none, c₁, s))
        → Collects c' c₁ bs
        → Collects c' c (b ∷ bs)

  cmd_parse_plain :
      (pre rest : Bytes) (r b n : ℕ) (s : S)
      → is_plain b ≡ true
      → n ≡ length pre
      → n < 4096
      → cmd_parse ascii_parse b (collecting (pre ++ r ∷ rest) n) s
        ≡ returns (none, collecting (pre ++ b ∷ rest) (n + 1), s)
  unfolding cmd_parse
  cmd_parse_plain pre rest r b n s p e h =
      ground (arith, set-length-append pre r rest b, length-append pre (r ∷ rest))

  cmd_parse_dollar :
      (c : Cmd) (s : S)
      → c.state ≡ wait
      → cmd_parse ascii_parse b'$' c s ≡ returns (none, collecting cleared 0, s)
  unfolding cmd_parse
  cmd_parse_dollar c s e = ground arith

  same_place :
      (pre : Bytes) (b : ℕ) (line rest : Bytes) (n : ℕ)
      → collecting ((pre ++ b ∷ []) ++ (line ++ drop (length line) rest)) (n + 1 + length line)
        ≡ collecting (pre ++ (b ∷ line ++ drop (length line) rest)) (n + suc (length line))
  same_place pre b line rest n =
      let count : n + 1 + length line ≡ n + suc (length line) = omega arith in
      rw (append_assoc pre (b ∷ []) (line ++ drop (length line) rest), count) refl

  -- Plain bytes go into the buffer one behind the other, over what stood there.
  pub Collects-plain :
      (pre line rest : Bytes) (n : ℕ)
      → AllPlain line
      → n ≡ length pre
      → n + length line ≤ 4096
      → length line ≤ length rest
      → Collects
          (collecting (pre ++ (line ++ drop (length line) rest)) (n + length line))
          (collecting (pre ++ rest) n)
          line
  Collects-plain pre [] rest n p e h l =
      let same : n ≡ n + 0 = omega arith in none_taken (ap (λ m. collecting (pre ++ rest) m) same)
  Collects-plain pre (b ∷ line) [] n p e h l = absurd (omega arith)
  Collects-plain pre (b ∷ line) (r ∷ rest) n p e h l =
      let more =
        Collects-plain (pre ++ b ∷ []) line rest (n + 1) p.1
          (omega (arith, length-append pre (b ∷ []))) (omega arith) (omega arith) in
      takes b (collecting (pre ++ b ∷ rest) (n + 1))
        (λ s. cmd_parse_plain pre rest r b n s p.0 e (omega arith))
        (rw (← same_place pre b line rest n, ← append_assoc pre (b ∷ []) rest) more)

  -- `$` and a line, from the waiting state.
  pub Collects-line :
      (line : Bytes) (c : Cmd)
      → c.state ≡ wait
      → AllPlain line
      → length line ≤ 4096
      → Collects (collecting (line ++ drop (length line) cleared) (length line)) c (b'$' ∷ line)
  Collects-line line c w p h =
      let count : 0 + length line ≡ length line = omega arith in
      takes b'$' (collecting cleared 0) (λ s. cmd_parse_dollar c s w)
        (rw count at
          (Collects-plain [] line cleared 0 p refl (omega arith) (omega (arith, length-cleared))))
