-- ===== src/Prelude/Text.antt =====
-- Bytes and ASCII text. A byte is a number below 256, an array of bytes a list of numbers.
use Prim.Native.Char.{code}
use Prim.Native.Nat.{ℕ, zero, suc, ◌+◌, ◌*◌, ◌<◌, bit_or}
use Prim.Native.String.{String}
use mathlib.Core.Path.{◌≡◌, refl, subst}
use mathlib.Core.Bool.{Bool, true, false}
use mathlib.Core.List.{List, [], ◌∷◌, ◌++◌}
use native.Mathlib.Omega.{arith}
use sipf_std_client_nrf.Prelude.Tests.{◌==◌, ==_iff, if◌then◌else◌}

abbrev pub Bytes : Type 0
Bytes = List ℕ

-- The code points of a text: its bytes, if it is ASCII.
abbrev pub codes : String → Bytes
codes String.[] = []
codes (String.◌∷◌ c s) = code c ∷ codes s

-- Every element is a `uint8_t`.
abbrev pub AreBytes : Bytes → Type 0
AreBytes [] = Unit {0}
AreBytes (x ∷ xs) = (x < 256) × AreBytes xs

-- `p` is true of the `n` numbers from `lo` on.
pub holds_from : (ℕ → Bool) → ℕ → ℕ → Bool
holds_from p lo zero = true
holds_from p lo (suc n) = if p lo then holds_from p (suc lo) n else false

-- A small table, computed once, answers for each of its entries.
pub holds_from-at :
    (p : ℕ → Bool) (lo n k : ℕ) → holds_from p lo n ≡ true → k < n → p (lo + k) ≡ true
unfolding holds_from
holds_from-at p lo zero k h lt = absurd (omega arith)
holds_from-at p lo (suc n) zero h lt = ground arith
holds_from-at p lo (suc n) (suc k) h lt =
    let rest = holds_from-at p (suc lo) n k in ground (arith, rest)

holds_below : (p : ℕ → Bool) (n k : ℕ) → holds_from p 0 n ≡ true → k < n → p k ≡ true
holds_below p n k h lt =
    let shift : 0 + k ≡ k = omega arith in
    subst (λ i. p i ≡ true) shift (holds_from-at p 0 n k h lt)

abbrev joins : ℕ → ℕ → Bool
joins h l = bit_or (h * 16) l == h * 16 + l

joins_table : holds_from (λ h. holds_from (joins h) 0 16) 0 16 ≡ true
unfolding holds_from
joins_table = refl

-- Two hexadecimal digits are joined by `|` as by `+`.
pub bit_or_nibbles : (h l : ℕ) → h < 16 → l < 16 → bit_or (h * 16) l ≡ h * 16 + l
bit_or_nibbles h l hh hl =
    let row = holds_below (λ h. holds_from (joins h) 0 16) 16 h joins_table hh in
    (==_iff _ _).0 (holds_below (joins h) 16 l row hl)

abbrev keeps : ℕ → Bool
keeps h = bit_or 0 (h * 16) == h * 16

keeps_table : holds_from keeps 0 16 ≡ true
unfolding holds_from
keeps_table = refl

pub zero-bit_or_nibble : (h : ℕ) → h < 16 → bit_or 0 (h * 16) ≡ h * 16
zero-bit_or_nibble h lt = (==_iff _ _).0 (holds_below keeps 16 h keeps_table lt)

-- one text behind the other
unfoldable pub joined : List Bytes → Bytes
joined [] = []
joined (s ∷ ss) = s ++ joined ss
