-- ===== src/CmdAscii/Send/Line.antt =====
-- The parse of cmdAsciiCmdTx (src/cmd_ascii.c) on a line with one object.
use sipf_std_client_nrf.CmdAscii.Send.Digits.{
  in_value, length-hex_2, tx_loop-hex_bytes, tx_loop-value_end,
}
use sipf_std_client_nrf.CmdAscii.HexRoundTrip.{hex_to_uint8-hex_2}
use sipf_std_client_nrf.CmdAscii.Send.{
  tx_step, tx_loop, tx_initial, packet, check_type_len, tx_cleared, tx_fuel,
}
use sipf_std_client_nrf.Libc.Copy.{drop-replicate}
use sipf_std_client_nrf.Libc.{hex_2, hex_bytes}
use sipf_std_client_nrf.Prelude.{
  ℕ, suc, ◌+◌, ◌-◌, ◌*◌, ◌%◌, ◌≤◌, ◌<◌, ◌≡◌, refl, ◌∙◌, [], ◌∷◌, ◌++◌, Bytes, arith, true, length,
  drop, length-append, AreBytes, replicate, length-replicate,
}

-- ` TT YY `, and the rest of the buffer.
abbrev pub object_line : ℕ → ℕ → Bytes → Bytes
object_line tag type_id digits = b' ' ∷ (hex_2 tag ++ b' ' ∷ (hex_2 type_id ++ b' ' ∷ digits))

tx_loop-head :
    (tag type_id : ℕ) (digits room : Bytes) (a₀ a₁ fuel in_len : ℕ)
    → tag < 256
    → type_id < 256
    → tx_loop
        (suc (suc (suc fuel)))
        (object_line tag type_id digits)
        in_len
        (record tx_initial { tx_buff = a₀ ∷ a₁ ∷ room })
      ≡ tx_loop fuel
          (object_line tag type_id digits)
          in_len
          (in_value 7 3 0 tag type_id (type_id ∷ tag ∷ room))
unfolding hex_2 tx_loop tx_step
tx_loop-head tag type_id digits room a₀ a₁ fuel in_len h₁ h₂ =
    let tag_hex = hex_to_uint8-hex_2 tag (b' ' ∷ []) (b' ' ∷ (hex_2 type_id ++ b' ' ∷ digits)) h₁ in
    let type_hex =
      hex_to_uint8-hex_2 type_id (b' ' ∷ (hex_2 tag ++ b' ' ∷ [])) (b' ' ∷ digits) h₂ in
    ground (arith, tag_hex, type_hex)

length-hex_bytes : (v : Bytes) → length (hex_bytes v) ≡ 2 * length v
unfolding hex_bytes
length-hex_bytes [] = refl
length-hex_bytes (x ∷ v) =
    omega (arith, length-append (hex_2 x) (hex_bytes v), length-hex_2 x, length-hex_bytes v)

length-object_line :
    (tag type_id : ℕ) (digits : Bytes) → length (object_line tag type_id digits) ≡ 7 + length digits
unfolding hex_2
length-object_line tag type_id digits = omega arith

-- The whole parse, for any `tx_buff` whose first three bytes are 0.
tx_loop-room :
    (tag type_id : ℕ) (v rest room : Bytes)
    → tag < 256
    → type_id < 256
    → AreBytes v
    → 0 < length rest
    → length v ≤ length room
    → length room ≡ 1021
    → check_type_len type_id (length v % 256) ≡ true
    → tx_loop
        (tx_fuel (7 + 2 * length v))
        (object_line tag type_id (hex_bytes v ++ rest))
        (7 + 2 * length v)
        (record tx_initial { tx_buff = 0 ∷ 0 ∷ 0 ∷ room })
      ≡ packet (3 + length v) (type_id ∷ tag ∷ length v % 256 ∷ (v ++ drop (length v) room))
unfolding hex_2
tx_loop-room tag type_id v rest room h₁ h₂ bytes more le size fits =
    let n = length v in
    let line = object_line tag type_id (hex_bytes v ++ rest) in
    let f : tx_fuel (7 + 2 * n) ≡ suc (suc (suc (n + suc (suc (22 + 5 * n))))) = omega arith in
    let long : 7 + 2 * n < length line = omega (
      arith,
      length-object_line tag type_id (hex_bytes v ++ rest),
      length-append (hex_bytes v) rest,
      length-hex_bytes v,
    ) in
    let head =
      tx_loop-head tag type_id (hex_bytes v ++ rest) (0 ∷ room) 0 0 (n + suc (suc (22 + 5 * n)))
        (7 + 2 * n) h₁ h₂ in
    let digits =
      tx_loop-hex_bytes v (b' ' ∷ (hex_2 tag ++ b' ' ∷ (hex_2 type_id ++ b' ' ∷ []))) rest line
        (type_id ∷ tag ∷ 0 ∷ []) room (type_id ∷ tag ∷ 0 ∷ room) (suc (suc (22 + 5 * n)))
        (7 + 2 * n) 7 3 0 tag type_id bytes refl refl refl refl (omega arith) (omega arith) long
        (omega arith) le (omega arith) in
    let tail =
      tx_loop-value_end line (type_id ∷ tag ∷ 0 ∷ (v ++ drop n room)) (22 + 5 * n) (7 + 2 * n)
        (7 + 2 * n) (3 + n) (n % 256) tag type_id (omega arith) fits (omega arith) in
    let none_yet : 0 + n ≡ n = omega arith in
    let digits' = rw none_yet at digits in rw f (head ∙ digits' ∙ tail)

-- `tx_buff` behind its first three bytes
tx_room : Bytes
tx_room = replicate 1021 0

length-tx_room : length tx_room ≡ 1021
unfolding tx_room
length-tx_room = length-replicate {A = ℕ} 1021 0

drop-tx_room : (n : ℕ) → drop n tx_room ≡ replicate (1021 - n) 0
unfolding tx_room
drop-tx_room n = drop-replicate n 1021 0

tx_cleared_lem : tx_cleared ≡ 0 ∷ 0 ∷ 0 ∷ tx_room
unfolding tx_room tx_cleared
tx_cleared_lem = refl

-- The parse of TX turns the line ` TT YY VV...` with the digits of a tag, of a type and of at most
-- 1021 bytes into the object for the upload: type, tag, length and bytes. The length is that of the
-- value modulo 256, and only this remainder is checked against the type.
pub tx_loop-object_line :
    (tag type_id : ℕ) (v rest : Bytes)
    → tag < 256
    → type_id < 256
    → AreBytes v
    → 0 < length rest
    → length v ≤ 1021
    → check_type_len type_id (length v % 256) ≡ true
    → tx_loop
        (tx_fuel (7 + 2 * length v))
        (object_line tag type_id (hex_bytes v ++ rest))
        (7 + 2 * length v)
        tx_initial
      ≡ packet
          (3 + length v)
          (type_id ∷ tag ∷ length v % 256 ∷ (v ++ replicate (1021 - length v) 0))
tx_loop-object_line tag type_id v rest h₁ h₂ bytes more le fits =
    rw (tx_cleared_lem, ← (drop-tx_room (length v)))
      (tx_loop-room tag type_id v rest tx_room h₁ h₂ bytes more (omega (arith, length-tx_room))
        length-tx_room fits)
