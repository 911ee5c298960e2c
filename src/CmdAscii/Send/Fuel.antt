-- ===== src/CmdAscii/Send/Fuel.antt =====
-- The loop of cmdAsciiCmdTx (src/cmd_ascii.c) comes to an end.
use sipf_std_client_nrf.CmdAscii.Send.{
  TxSt, begin, tag_id, type, value, end, Tx, TxStep, go, parse_end, ill_param, Parsed, packet,
  refused, fault, out_of_fuel, tx_step, tx_loop, tx_initial, tx_fuel, step_in, value_step,
  value_end, value_byte,
}
use sipf_std_client_nrf.Prelude.{
  ℕ, zero, suc, ◌+◌, ◌-◌, ◌*◌, ◌≤◌, ◌<◌, ◌≡◌, ◌≢◌, refl, Option, none, some, Bytes, arith, ltb, leb,
  Bool-cases, inl, inr, length, get_or, ◌==◌,
}

abbrev rank : TxSt → ℕ
rank begin = 4
rank tag_id = 3
rank type = 2
rank value = 1
rank end = 0

-- How far the index may be behind the end of the line.
abbrev slack : TxSt → ℕ
slack begin = 0
slack tag_id = 1
slack type = 4
slack value = 7
slack end = 7

abbrev measure : ℕ → Tx → ℕ
measure in_len t = 3 * (in_len - t.idx_in_buff) + rank t.parse_state

abbrev InLine : ℕ → Tx → Type 0
InLine in_len t = t.idx_in_buff ≤ in_len + slack t.parse_state

-- Where the parse goes on, it is nearer to its end than `m`.
abbrev Nearer : ℕ → ℕ → Option TxStep → Type 0
Nearer in_len m none = Unit {0}
Nearer in_len m (some (parse_end t')) = Unit {0}
Nearer in_len m (some ill_param) = Unit {0}
Nearer in_len m (some (go t')) = InLine in_len t' × (measure in_len t' < m)

value_end-Nearer :
    (next : TxSt) (skip in_len m : ℕ) (t : Tx)
    → t.idx_in_buff + skip < 65536
    → t.idx_in_buff + skip ≤ in_len + slack next
    → 3 * (in_len - (t.idx_in_buff + skip)) + rank next < m
    → Nearer in_len m (value_end next skip t)
unfolding tx_step
value_end-Nearer next skip in_len m t small at less = ground arith

value_byte-Nearer :
    (in_buff : Bytes) (in_len m : ℕ) (t : Tx)
    → t.parse_state ≡ value
    → t.idx_in_buff + 2 < 65536
    → t.idx_in_buff < in_len
    → 3 * (in_len - (t.idx_in_buff + 2)) + 1 < m
    → Nearer in_len m (value_byte in_buff t)
unfolding tx_step
value_byte-Nearer in_buff in_len m t st small at less = ground arith

value_step-Nearer :
    (in_buff : Bytes) (in_len : ℕ) (t : Tx)
    → in_len < 65000
    → t.idx_in_buff ≤ in_len + 7
    → t.parse_state ≡ value
    → Nearer in_len (3 * (in_len - t.idx_in_buff) + 1) (value_step in_buff in_len t)
unfolding tx_step
value_step-Nearer in_buff in_len t lt h st =
    let m = 3 * (in_len - t.idx_in_buff) + 1 in
    elim (Bool-cases (leb in_len t.idx_in_buff)) [
      | inl over ↦
          rw over (value_end-Nearer end 0 in_len m t (omega arith) (omega arith) (omega arith))
      | inr more ↦
          let inside : t.idx_in_buff < in_len = ground arith in
          let at_end =
            value_end-Nearer tag_id 1 in_len m t (omega arith) (omega arith) (omega arith) in
          let at_byte =
            value_byte-Nearer in_buff in_len m t st (omega arith) inside (omega arith) in
          rw more (elim (Bool-cases (ltb (t.idx_in_buff + 1) (length in_buff))) [
            | inr out ↦ rw out tt
            | inl there ↦ rw there (elim (Bool-cases (get_or in_buff t.idx_in_buff 0 == 0x20)) [
              | inl space ↦ rw space at_end
              | inr digit ↦ rw digit at_byte
            ])
          ])
    ]

step_in-Nearer :
    (st : TxSt) (in_buff : Bytes) (in_len : ℕ) (t : Tx)
    → 0 < in_len
    → in_len < 65000
    → t.idx_in_buff ≤ in_len + slack st
    → t.parse_state ≡ st
    → Nearer in_len (3 * (in_len - t.idx_in_buff) + rank st) (step_in st in_buff in_len t)
unfolding tx_step
step_in-Nearer begin in_buff in_len t pos lt h st = ground arith
step_in-Nearer tag_id in_buff in_len t pos lt h st = ground arith
step_in-Nearer type in_buff in_len t pos lt h st = ground arith
step_in-Nearer value in_buff in_len t pos lt h st = value_step-Nearer in_buff in_len t lt h st
step_in-Nearer end in_buff in_len t pos lt h st = tt

tx_step-Nearer :
    (in_buff : Bytes) (in_len : ℕ) (t : Tx)
    → 0 < in_len
    → in_len < 65000
    → InLine in_len t
    → Nearer in_len (measure in_len t) (tx_step in_buff in_len t)
unfolding tx_step
tx_step-Nearer in_buff in_len t pos lt h =
    step_in-Nearer t.parse_state in_buff in_len t pos lt h refl

-- One round, where the rest of the loop comes to an end.
round_ends :
    (fuel : ℕ) (in_buff : Bytes) (in_len m : ℕ) (r : Option TxStep)
    → Nearer in_len m r
    → ((t' : Tx)
        → InLine in_len t'
        → measure in_len t' < m
        → tx_loop fuel in_buff in_len t' ≢ out_of_fuel)
    → ◌≢◌ {A = Parsed}
        (elim r [
          | none ↦ fault
          | some ill_param ↦ refused
          | some (parse_end t') ↦ packet t'.idx_tx_buff t'.tx_buff
          | some (go t') ↦ tx_loop fuel in_buff in_len t'
        ])
        out_of_fuel
round_ends fuel in_buff in_len m none near ends = ground arith
round_ends fuel in_buff in_len m (some ill_param) near ends = ground arith
round_ends fuel in_buff in_len m (some (parse_end t')) near ends = ground arith
round_ends fuel in_buff in_len m (some (go t')) near ends = ends t' near.0 near.1

tx_loop-enough :
    (fuel : ℕ) (in_buff : Bytes) (in_len : ℕ) (t : Tx)
    → 0 < in_len
    → in_len < 65000
    → InLine in_len t
    → measure in_len t < fuel
    → tx_loop fuel in_buff in_len t ≢ out_of_fuel
unfolding tx_loop
tx_loop-enough zero in_buff in_len t pos lt h m = absurd (omega arith)
tx_loop-enough (suc fuel) in_buff in_len t pos lt h m =
    round_ends fuel in_buff in_len (measure in_len t) (tx_step in_buff in_len t)
      (tx_step-Nearer in_buff in_len t pos lt h)
      (λ t' h' less. tx_loop-enough fuel in_buff in_len t' pos lt h' (omega arith))

-- The parse of a TX line always comes to an end: three rounds for each character, and six more, are
-- enough for every line of 1 to 64999 characters.
pub tx_loop-tx_fuel :
    (in_buff : Bytes) (in_len : ℕ)
    → 0 < in_len
    → in_len < 65000
    → tx_loop (tx_fuel in_len) in_buff in_len tx_initial ≢ out_of_fuel
tx_loop-tx_fuel in_buff in_len pos lt =
    tx_loop-enough (tx_fuel in_len) in_buff in_len tx_initial pos lt (omega arith) (omega arith)
