-- ===== src/Cmd/Safe.antt =====
-- Which states of the line buffer are reachable, and where CmdParse leaves the array (src/cmd.c).
use sipf_std_client_nrf.Cmd.Collect.{is_plain, length-cleared}
use sipf_std_client_nrf.Cmd.{
  Reply, CmdState, wait, buffering_ascii, buffering_bin, Cmd, initial, to_uint16, cmd_parse,
  step_in, state_buffering_ascii,
}
use sipf_std_client_nrf.Prelude.Runs
use sipf_std_client_nrf.Prelude.Runs.{Run, returns, faults, waits}
use sipf_std_client_nrf.Prelude.{
  ◌⊎◌, ◌==◌, ◌||◌, ℕ, zero, suc, ◌≤◌, ◌≡◌, ◌↔◌, refl, true, Option, arith, ℤ, pos, negsuc, Bytes,
  length, length-set,
}

abbrev pub InRange : ℤ → Type 0
InRange (pos n) = n ≤ 4096
InRange (negsuc n) = ⊥

pub record IsValid (c : Cmd) : Type 0 where
  pub size : length c.in_buff ≡ 4096
  pub index : c.state ≡ buffering_ascii → InRange c.in_buff_idx

pub initial-IsValid : IsValid initial
unfolding initial
initial-IsValid = record { size = length-cleared; index = λ e. omega arith }

-- What holds of the buffer behind a call that does not fault.
abbrev pub Leaves : {S : Type 0} → Run (Option Bytes × Cmd × S) → Type 0
Leaves faults = Unit {0}
Leaves waits = Unit {0}
Leaves (returns (out, c, s)) = IsValid c

module _ {S : Type 0} (ascii_parse : Bytes → ℕ → S → Run (Reply × S)) where
  state_buffering_ascii-IsValid :
      (i : ℤ) (b : ℕ) (c : Cmd) (s : S)
      → c.in_buff_idx ≡ i
      → InRange i
      → length c.in_buff ≡ 4096
      → Leaves (state_buffering_ascii ascii_parse b c s)
  unfolding state_buffering_ascii
  state_buffering_ascii-IsValid (pos zero) b c s e h l = ground (arith, length-set c.in_buff 0 b)
  state_buffering_ascii-IsValid (pos (suc n)) b c s e h l =
      ground (arith, length-set c.in_buff (suc n) b)
  state_buffering_ascii-IsValid (negsuc n) b c s e h l = absurd h

  step_in-IsValid :
      (st : CmdState) (b : ℕ) (c : Cmd) (s : S)
      → c.state ≡ st
      → IsValid c
      → Leaves (step_in ascii_parse st b c s)
  unfolding cmd_parse
  step_in-IsValid wait b c s e v = ground (arith, length-cleared)
  step_in-IsValid buffering_ascii b c s e v =
      state_buffering_ascii-IsValid c.in_buff_idx b c s refl (v.index e) v.size
  step_in-IsValid buffering_bin b c s e v = v

  -- Between any two bytes the buffer has its 4096 places, and while a line is collected the index
  -- is neither negative nor above 4096.
  pub cmd_parse-IsValid :
      (b : ℕ) (c : Cmd) (s : S) → IsValid c → Leaves (cmd_parse ascii_parse b c s)
  unfolding cmd_parse
  cmd_parse-IsValid b c s v = step_in-IsValid c.state b c s refl v

  -- What the command parser keeps of the state, CmdParse keeps: it hands the state to nothing else.
  module _ (Q : S → Type 0)
      (keeps : (buf : Bytes) (n : ℕ) (s : S)
        → Q s
        → Runs.Leaves (λ r. Q r.1) (ascii_parse buf n s)) where
    step_in-keeps :
        (st : CmdState) (b : ℕ) (c : Cmd) (s : S)
        → Q s
        → Runs.Leaves (λ r. Q r.2) (step_in ascii_parse st b c s)
    unfolding cmd_parse
    step_in-keeps wait b c s q = q
    step_in-keeps buffering_ascii b c s q =
        let kept = keeps c.in_buff (to_uint16 c.in_buff_idx) s q in ground (arith, kept)
    step_in-keeps buffering_bin b c s q = q

    pub cmd_parse-keeps :
        (b : ℕ) (c : Cmd) (s : S) → Q s → Runs.Leaves (λ r. Q r.2) (cmd_parse ascii_parse b c s)
    unfolding cmd_parse
    cmd_parse-keeps b c s q = step_in-keeps c.state b c s q

  -- A plain byte behind a full line, or the end of a line on which the command parser faults.
  abbrev pub FaultsAt : ℕ → Cmd → S → Type 0
  FaultsAt b c s =
      (c.state ≡ buffering_ascii)
      × (((c.in_buff_idx ≡ pos 4096) × (is_plain b ≡ true))
          ⊎ ((b == 0x0a || b == 0x0d ≡ true)
              × (ascii_parse c.in_buff (to_uint16 c.in_buff_idx) s ≡ faults)))

  buffering-fault_iff :
      (i : ℤ) (b : ℕ) (c : Cmd) (s : S) (r : Run (Reply × S))
      → ascii_parse c.in_buff (to_uint16 c.in_buff_idx) s ≡ r
      → c.state ≡ buffering_ascii
      → c.in_buff_idx ≡ i
      → IsValid c
      → (step_in ascii_parse buffering_ascii b c s ≡ faults) ↔ FaultsAt b c s
  unfolding cmd_parse
  buffering-fault_iff (pos n) b c s faults p e f v =
      let bound : InRange (pos n) = rw f at (v.index e) in
      (λ h. ground (arith, v.size), λ h. ground (arith, v.size))
  buffering-fault_iff (pos n) b c s waits p e f v =
      let bound : InRange (pos n) = rw f at (v.index e) in
      (λ h. ground (arith, v.size), λ h. ground (arith, v.size))
  buffering-fault_iff (pos n) b c s (returns x) p e f v =
      let bound : InRange (pos n) = rw f at (v.index e) in
      (λ h. ground (arith, v.size), λ h. ground (arith, v.size))
  buffering-fault_iff (negsuc n) b c s r p e f v =
      let bound : InRange (negsuc n) = rw f at (v.index e) in absurd bound

  step_in-fault_iff :
      (st : CmdState) (b : ℕ) (c : Cmd) (s : S)
      → c.state ≡ st
      → IsValid c
      → (step_in ascii_parse st b c s ≡ faults) ↔ FaultsAt b c s
  unfolding cmd_parse
  step_in-fault_iff wait b c s e v = (λ h. cc, λ h. let at_wait = h.0 in cc)
  step_in-fault_iff buffering_bin b c s e v = (λ h. cc, λ h. let at_bin = h.0 in cc)
  step_in-fault_iff buffering_ascii b c s e v =
      buffering-fault_iff c.in_buff_idx b c s _ refl e refl v

  -- CmdParse, whatever the command parser does, over a valid buffer: it faults exactly when a line
  -- of 4096 bytes stands in the buffer and one more plain byte comes, which is written behind the
  -- array, or when the line ends and the command parser faults on it.
  pub cmd_parse-fault_iff :
      (b : ℕ) (c : Cmd) (s : S)
      → IsValid c
      → (cmd_parse ascii_parse b c s ≡ faults) ↔ FaultsAt b c s
  unfolding cmd_parse
  cmd_parse-fault_iff b c s v = step_in-fault_iff c.state b c s refl v
