-- ===== src/Libc/Hex.antt =====
-- Facts about hexadecimal digits.
use sipf_std_client_nrf.Libc.{digit_value, upper_digit}
use sipf_std_client_nrf.Prelude.{ℕ, ◌<◌, ◌≡◌, some, arith}

pub digit_value-upper_digit : (d : ℕ) → d < 16 → digit_value (upper_digit d) ≡ some d
unfolding digit_value
digit_value-upper_digit d h = ground arith

pub digit_value-lt : (c : ℕ) {d : ℕ} → digit_value c ≡ some d → d < 16
unfolding digit_value
digit_value-lt c e = ground arith
