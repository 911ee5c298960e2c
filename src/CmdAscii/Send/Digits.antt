-- ===== src/CmdAscii/Send/Digits.antt =====
-- The steps of the parse of TX (src/cmd_ascii.c) over the digits of a value.
use sipf_std_client_nrf.CmdAscii.HexRoundTrip.{hex_to_uint8-hex_2}
use sipf_std_client_nrf.CmdAscii.Send.{value, Tx, go, tx_step, tx_loop, packet, check_type_len}
use sipf_std_client_nrf.CmdAscii.{hex_to_uint8}
use sipf_std_client_nrf.Libc.{hex_2, hex_bytes}
use sipf_std_client_nrf.Prelude.{
  ℕ, suc, ◌+◌, ◌*◌, ◌%◌, ◌≤◌, ◌<◌, ◌≡◌, ◌≢◌, refl, ◌∙◌, some, [], ◌∷◌, ◌++◌, Bytes, arith, true,
  length, get_or, set, drop, append_assoc, length-append, set-length-append, get_or-append_right,
  AreBytes, ap, sym, length-set,
}

abbrev pub in_value : ℕ → ℕ → ℕ → ℕ → ℕ → Bytes → Tx
in_value i j n tag type_id b = record {
  parse_state = value;
  idx_in_buff = i;
  idx_tx_buff = j;
  tag_id = tag;
  type_id = type_id;
  value_len = n;
  idx_value_len = 2;
  tx_buff = b;
}

tx_step-digits :
    (in_buff b : Bytes) (in_len i j n tag type_id x : ℕ)
    → hex_to_uint8 in_buff i ≡ record { ret = x; err = 0 }
    → get_or in_buff i 0 ≢ 0x20
    → i < in_len
    → i + 1 < length in_buff
    → j < length b
    → i + 2 < 65536
    → j + 1 < 65536
    → tx_step in_buff in_len (in_value i j n tag type_id b)
      ≡ some (go (in_value (i + 2) (j + 1) ((n + 1) % 256) tag type_id (set b j x)))
unfolding tx_step
tx_step-digits in_buff b in_len i j n tag type_id x hex digit h₁ h₂ h₃ h₄ h₅ = ground arith

tx_loop_go :
    (fuel : ℕ) (in_buff : Bytes) (in_len : ℕ) (t t' : Tx)
    → tx_step in_buff in_len t ≡ some (go t')
    → tx_loop (suc fuel) in_buff in_len t ≡ tx_loop fuel in_buff in_len t'
unfolding tx_loop
tx_loop_go fuel in_buff in_len t t' e = ground arith

digit-visible :
    (v : ℕ) (pre rest : Bytes) → v < 256 → get_or (pre ++ (hex_2 v ++ rest)) (length pre) 0 ≢ 0x20
unfolding hex_2
digit-visible v pre rest h =
    ground (arith, get_or-append_right pre (hex_2 v ++ rest) (length pre) 0 0)

pub length-hex_2 : (v : ℕ) → length (hex_2 v) ≡ 2
unfolding hex_2
length-hex_2 v = refl

-- The digits of a value, with any fuel that is left behind them.
pub tx_loop-hex_bytes :
    (v pre rest in_buff done room b : Bytes) (fuel in_len i j n tag type_id : ℕ)
    → AreBytes v
    → in_buff ≡ pre ++ (hex_bytes v ++ rest)
    → i ≡ length pre
    → b ≡ done ++ room
    → j ≡ length done
    → n < 256
    → i + 2 * length v ≤ in_len
    → in_len < length in_buff
    → in_len < 65000
    → length v ≤ length room
    → length b ≤ 1024
    → tx_loop (length v + fuel) in_buff in_len (in_value i j n tag type_id b)
      ≡ tx_loop fuel in_buff in_len (
          in_value
            (i + 2 * length v)
            (j + length v)
            ((n + length v) % 256)
            tag
            type_id
            (done ++ (v ++ drop (length v) room)))
unfolding hex_bytes
tx_loop-hex_bytes [] pre rest in_buff done room b fuel in_len i j n tag type_id bytes e₁ e₂ e₃ e₄
      small h₁ h₂ h₃ h₄ h₅ =
    ground arith
tx_loop-hex_bytes (x ∷ v) pre rest in_buff done [] b fuel in_len i j n tag type_id (bx, bs) e₁ e₂ e₃
      e₄ small h₁ h₂ h₃ h₄ h₅ =
    absurd (omega arith)
tx_loop-hex_bytes (x ∷ v) pre rest in_buff done (r ∷ room) b fuel in_len i j n tag type_id (bx, bs)
      e₁ e₂ e₃ e₄ small h₁ h₂ h₃ h₄ h₅ =
    let split = append_assoc (hex_2 x) (hex_bytes v) rest in
    let here : in_buff ≡ pre ++ (hex_2 x ++ (hex_bytes v ++ rest)) =
      e₁ ∙ ap (λ t. pre ++ t) split in
    let there : in_buff ≡ (pre ++ hex_2 x) ++ (hex_bytes v ++ rest) =
      here ∙ sym (append_assoc pre (hex_2 x) (hex_bytes v ++ rest)) in
    let hex : hex_to_uint8 in_buff i ≡ record { ret = x; err = 0 } =
      rw (here, e₂) (hex_to_uint8-hex_2 x pre (hex_bytes v ++ rest) bx) in
    let digit : get_or in_buff i 0 ≢ 0x20 =
      rw (here, e₂) (digit-visible x pre (hex_bytes v ++ rest) bx) in
    let stored : set b j x ≡ done ++ x ∷ room = rw (e₃, e₄) (set-length-append done r room x) in
    let total : length b ≡ length done + suc (length room) =
      rw e₃ (length-append done (r ∷ room)) in
    let grown : done ++ x ∷ room ≡ (done ++ x ∷ []) ++ room =
      sym (append_assoc done (x ∷ []) room) in
    let first =
      tx_step-digits in_buff b in_len i j n tag type_id x hex digit (omega arith) (omega arith)
        (omega arith) (omega arith) (omega arith) in
    let later =
      tx_loop-hex_bytes v (pre ++ hex_2 x) rest in_buff (done ++ x ∷ []) room (set b j x) fuel
        in_len (i + 2) (j + 1) ((n + 1) % 256) tag type_id bs there
        (omega (arith, length-append pre (hex_2 x), length-hex_2 x)) (stored ∙ grown)
        (omega (arith, length-append done (x ∷ []))) (omega arith) (omega arith) h₂ h₃ (omega arith)
        (omega (arith, length-set b j x)) in
    let one = tx_loop_go (length v + fuel) in_buff in_len _ _ first in
    let whole = append_assoc done (x ∷ []) (v ++ drop (length v) room) in
    let f : suc (length v) + fuel ≡ suc (length v + fuel) = omega arith in
    let f₁ : i + 2 * suc (length v) ≡ i + 2 + 2 * length v = omega arith in
    let f₂ : j + suc (length v) ≡ j + 1 + length v = omega arith in
    let f₃ : (n + suc (length v)) % 256 ≡ ((n + 1) % 256 + length v) % 256 = omega arith in
    rw (f, f₁, f₂, f₃, ← whole) (one ∙ later)

-- behind the last digit
pub tx_loop-value_end :
    (in_buff b : Bytes) (fuel in_len i j n tag type_id : ℕ)
    → in_len ≤ i
    → check_type_len type_id n ≡ true
    → 2 < length b
    → tx_loop (suc (suc fuel)) in_buff in_len (in_value i j n tag type_id b) ≡ packet j (set b 2 n)
unfolding tx_loop tx_step
tx_loop-value_end in_buff b fuel in_len i j n tag type_id over fits room = ground arith
