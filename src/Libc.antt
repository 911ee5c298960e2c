-- ===== src/Libc.antt =====
-- The parts of the C library that the firmware's text handling uses: `strtol` to base 16 on a
-- NUL-terminated string, `memcmp` with a literal, `strlen`, and the conversions `%02X`, `%02x`
-- and `%08X`.
pub mod Hex
pub mod Copy
pub mod Numbers
use sipf_std_client_nrf.Prelude.{
  ℕ, zero, suc, ◌+◌, ◌-◌, ◌*◌, ◌/◌, ◌%◌, ◌^◌, Bool, true, false, ◌&&◌, ◌||◌, not, Option, none,
  some, [], ◌∷◌, ◌++◌, List, ltb, leb, ◌==◌, if◌then◌else◌, ℤ, pos, negsuc, neg, Bytes, length,
  get_or, take, drop, replicate,
}

abbrev pub between : ℕ → ℕ → ℕ → Bool
between lo hi c = leb lo c && leb c hi

-- The value of a hexadecimal digit, for the three ranges of characters that have one.
unfoldable pub digit_value : ℕ → Option ℕ
digit_value c =
    if between b'0' b'9' c
    then some (c - b'0')
    else if between b'a' b'f' c
    then some (c - b'a' + 10)
    else if between b'A' b'F' c
    then some (c - b'A' + 10)
    else none

unfoldable pub is_xdigit : ℕ → Bool
is_xdigit c = elim (digit_value c) [ none ↦ false | some d ↦ true ]

-- isspace in the "C" locale
unfoldable pub is_space : ℕ → Bool
is_space c = c == b' ' || between 9 13 c

unfoldable pub skip_space : Bytes → Bytes
unfolding is_space
skip_space [] = []
skip_space (c ∷ cs) = elim (is_space c) [ true ↦ skip_space cs | false ↦ c ∷ cs ]

-- The digits at the front, added to `acc`; whether there was one; the rest.
unfoldable pub take_digits : ℕ → Bool → Bytes → ℕ × Bool × Bytes
unfolding digit_value
take_digits acc seen [] = (acc, seen, [])
take_digits acc seen (c ∷ cs) = elim (digit_value c) [
  | some d ↦ take_digits (acc * 16 + d) true cs
  | none ↦ (acc, seen, c ∷ cs)
]

-- The optional prefix 0x counts only if a digit follows it.
unfoldable pub skip_prefix : Bytes → Bytes
unfolding is_xdigit
skip_prefix (z ∷ x ∷ d ∷ cs) =
    if z == b'0' && ((x == b'x' || x == b'X') && is_xdigit d) then d ∷ cs else z ∷ x ∷ d ∷ cs
skip_prefix cs = cs

-- The sign, and what follows it.
unfoldable pub take_sign : Bytes → Bool × Bytes
take_sign [] = (false, [])
take_sign (c ∷ cs) =
    if c == b'-' then (true, cs) else if c == b'+' then (false, cs) else (false, c ∷ cs)

-- strtol(s, &endptr, 16): the value and the string at `endptr`. Values beyond `long` do not occur:
-- every caller ends the string behind two characters.
unfoldable pub strtol16 : Bytes → ℤ × Bytes
unfolding skip_space take_sign skip_prefix take_digits
strtol16 s =
    let (minus, body) = take_sign (skip_space s) in
    let (value, seen, rest) = take_digits 0 false (skip_prefix body) in
    if seen then (if minus then neg value else pos value, rest) else (pos 0, s)

-- memcmp(p, buf, length p) == 0
unfoldable pub starts_with : Bytes → Bytes → Bool
starts_with [] buf = true
starts_with (c ∷ p) [] = false
starts_with (c ∷ p) (b ∷ buf) = c == b && starts_with p buf

-- The string that starts here: the bytes before the first NUL.
unfoldable pub c_string : Bytes → Bytes
c_string [] = []
c_string (c ∷ cs) = let rest = c ∷ c_string cs in if c == 0 then [] else rest

abbrev pub upper_digit : ℕ → ℕ
upper_digit d = if ltb d 10 then b'0' + d else b'A' + (d - 10)

-- "%02X" of a `uint8_t`
unfoldable pub hex_2 : ℕ → Bytes
hex_2 v = upper_digit (v / 16) ∷ upper_digit (v % 16) ∷ []

-- "%02x" of a `uint8_t`
unfoldable pub lower_hex_2 : ℕ → Bytes
lower_hex_2 v =
    let digit = λ (d : ℕ). if ltb d 10 then b'0' + d else b'a' + (d - 10) in
    digit (v / 16) ∷ digit (v % 16) ∷ []

-- "%02X" of each byte of an array
unfoldable pub hex_bytes : Bytes → Bytes
unfolding hex_2
hex_bytes [] = []
hex_bytes (b ∷ bs) = hex_2 b ++ hex_bytes bs

-- "%08X" of a 32-bit value
unfoldable pub hex_8 : ℕ → Bytes
unfolding hex_2
hex_8 v =
    hex_2 (v / 2 ^ 24 % 256)
    ++ (hex_2 (v / 2 ^ 16 % 256) ++ (hex_2 (v / 2 ^ 8 % 256) ++ hex_2 (v % 256)))

-- memcpy(&dst[i], xs, length xs): `none` if it leaves `dst`.
unfoldable pub memcpy : Bytes → ℕ → Bytes → Option Bytes
memcpy dst i xs =
    if leb (i + length xs) (length dst)
    then some (take i dst ++ (xs ++ drop (i + length xs) dst))
    else none

-- The `n` bytes that a memcpy reads from &src[i] on: `none` if they leave `src`.
unfoldable pub slice : Bytes → ℕ → ℕ → Option Bytes
slice src i n = if leb (i + n) (length src) then some (take n (drop i src)) else none

-- strcmp(a, b) == 0, for texts without a NUL
unfoldable pub same_text : Bytes → Bytes → Bool
same_text [] [] = true
same_text [] (b ∷ bs) = false
same_text (a ∷ xs) [] = false
same_text (a ∷ xs) (b ∷ bs) = a == b && same_text xs bs

-- strlen of the string that starts here: `none` if no NUL ends it within the array.
unfoldable pub strlen : Bytes → Option ℕ
strlen [] = none
strlen (c ∷ cs) = elim (c == 0) [
  | true ↦ some 0
  | false ↦ elim (strlen cs) [ none ↦ none | some n ↦ some (suc n) ]
]

-- What strncpy(dst, src, n) writes: the string at `src`, cut at `n` bytes and filled up with NULs.
-- `none` if it would read behind the array.
unfoldable pub strncpy_text : Bytes → ℕ → Option Bytes
strncpy_text src zero = some []
strncpy_text [] (suc n) = none
strncpy_text (c ∷ cs) (suc n) = elim (c == 0) [
  | true ↦ some (replicate (suc n) 0)
  | false ↦ elim (strncpy_text cs n) [ none ↦ none | some text ↦ some (c ∷ text) ]
]

-- "%d" of a number that is not negative, by fuel: at least as many rounds as there are digits.
unfoldable pub decimal_digits : ℕ → ℕ → Bytes → Bytes
decimal_digits zero n acc = acc
decimal_digits (suc fuel) n acc =
    let more = decimal_digits fuel (n / 10) ((b'0' + n % 10) ∷ acc) in
    if ltb n 10 then (b'0' + n) ∷ acc else more

-- "%d" of an `int` that is not negative: it has at most 10 digits.
unfoldable pub decimal : ℕ → Bytes
unfolding decimal_digits
decimal n = decimal_digits 10 n []
