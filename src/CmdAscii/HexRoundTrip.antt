-- ===== src/CmdAscii/HexRoundTrip.antt =====
-- hexToUint8 (src/cmd_ascii.c): what it accepts, and that it reads what `%02X` prints.
use sipf_std_client_nrf.CmdAscii.{hex_to_uint8}
use sipf_std_client_nrf.Libc.Hex.{digit_value-upper_digit, digit_value-lt}
use sipf_std_client_nrf.Libc.{digit_value, is_xdigit, hex_2}
use sipf_std_client_nrf.Prelude.{
  ℕ, ◌+◌, ◌*◌, ◌/◌, ◌%◌, ◌<◌, ◌≡◌, ◌↔◌, refl, ◌∙◌, true, some, ◌++◌, arith, Bytes, get_or,
  bit_or_nibbles, zero-bit_or_nibble, length, get_or-append_right,
}

-- The value of two characters that are digits.
pub hex_to_uint8-digits :
    (buf : Bytes) (i : ℕ) {h l : ℕ}
    → digit_value (get_or buf i 0) ≡ some h
    → digit_value (get_or buf (i + 1) 0) ≡ some l
    → hex_to_uint8 buf i ≡ record { ret = h * 16 + l; err = 0 }
unfolding hex_to_uint8
hex_to_uint8-digits buf i {h} {l} eh el =
    let hh = digit_value-lt (get_or buf i 0) eh in
    let hl = digit_value-lt (get_or buf (i + 1) 0) el in
    ground (arith, bit_or_nibbles h l hh hl, zero-bit_or_nibble h hh)

-- hexToUint8 reports no error exactly when both characters are hexadecimal digits.
pub hex_to_uint8-err_iff :
    (buf : Bytes) (i : ℕ)
    → ((hex_to_uint8 buf i).err ≡ 0)
      ↔ ((is_xdigit (get_or buf i 0) ≡ true) × (is_xdigit (get_or buf (i + 1) 0) ≡ true))
unfolding hex_to_uint8 is_xdigit
hex_to_uint8-err_iff buf i = (λ e. ground arith, λ e. ground arith)

-- hexToUint8 reads back every byte that `%02X` prints, with no error.
pub hex_to_uint8-hex_2 :
    (v : ℕ) (pre rest : Bytes)
    → v < 256
    → hex_to_uint8 (pre ++ (hex_2 v ++ rest)) (length pre) ≡ record { ret = v; err = 0 }
unfolding hex_2
hex_to_uint8-hex_2 v pre rest h =
    let buf = pre ++ (hex_2 v ++ rest) in
    hex_to_uint8-digits buf (length pre) {h = v / 16} {l = v % 16}
      (rw (get_or-append_right pre (hex_2 v ++ rest) (length pre) 0 0 (omega arith))
        (digit_value-upper_digit (v / 16) (omega arith)))
      (rw (get_or-append_right pre (hex_2 v ++ rest) (length pre + 1) 1 0 refl)
        (digit_value-upper_digit (v % 16) (omega arith)))
    ∙ ground arith
