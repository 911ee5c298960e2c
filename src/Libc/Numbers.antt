-- ===== src/Libc/Numbers.antt =====
-- `strtol` reads what `%02X` prints.
use sipf_std_client_nrf.Libc.Hex.{digit_value-upper_digit}
use sipf_std_client_nrf.Libc.{
  upper_digit, hex_2, c_string, strtol16, skip_space, is_space, take_sign, skip_prefix, take_digits,
}
use sipf_std_client_nrf.Prelude.{
  ℕ, ◌/◌, ◌%◌, ◌<◌, ◌≡◌, false, [], ◌∷◌, ◌++◌, Bytes, pos, arith, ◌==◌,
}

digit-plain :
    (d : ℕ)
    → d < 16
    → (is_space (upper_digit d) ≡ false)
      × ((upper_digit d == b'-') ≡ false)
      × ((upper_digit d == b'+') ≡ false)
      × ((upper_digit d == 0) ≡ false)
unfolding is_space
digit-plain d h = (ground arith, ground arith, ground arith, ground arith)

pub strtol16-hex_2 : (v : ℕ) → v < 256 → strtol16 (hex_2 v) ≡ (pos v, [])
unfolding hex_2 strtol16 skip_space take_sign skip_prefix take_digits
strtol16-hex_2 v h =
    let (p₁, p₂, p₃, p₄) = digit-plain (v / 16) (omega arith) in
    ground (
      arith,
      digit_value-upper_digit (v / 16) (omega arith),
      digit_value-upper_digit (v % 16) (omega arith),
    )

pub c_string-hex_2 : (v : ℕ) (rest : Bytes) → v < 256 → c_string (hex_2 v ++ 0 ∷ rest) ≡ hex_2 v
unfolding hex_2 c_string
c_string-hex_2 v rest h =
    let (p₁, p₂, p₃, p₄) = digit-plain (v / 16) (omega arith) in
    let (q₁, q₂, q₃, q₄) = digit-plain (v % 16) (omega arith) in ground arith
