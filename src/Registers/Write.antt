-- ===== src/Registers/Write.antt =====
-- Laws of RegistersReset, RegistersWrite and RegistersRead (src/registers.c).
use sipf_std_client_nrf.Prelude.{
  ℕ, ◌-◌, ◌<◌, ◌≡◌, ◌≢◌, refl, ◌&&◌, Option, none, some, arith, ltb, ◌==◌, if◌then◌else◌, length,
  get_or, set, replicate, ℤ, pos, negsuc, length-set, get_or-set_self, lt→ltb, sym, ◌∙◌,
  get_or-set_ne, Bool-cases, inl, inr,
}
use sipf_std_client_nrf.Registers.{
  Version, Registers, initial, bank_of, registers_reset, registers_write, registers_read,
}

pub record IsValid (r : Registers) : Type 0 where
  pub common_size : length r.reg_common ≡ 16
  pub bank00_size : length r.bank00 ≡ 240
  pub bank_zero : bank_of r ≡ 0

pub initial-IsValid : (v : Version) → IsValid (initial v)
unfolding initial
initial-IsValid v = record { common_size = refl; bank00_size = refl; bank_zero = refl }

-- A reset of valid registers leaves them valid, clears bank 0 and keeps the common registers.
pub registers_reset_lem :
    (r : Registers)
    → IsValid r
    → IsValid (registers_reset r)
      × ((registers_reset r).bank00 ≡ replicate 240 0)
      × ((registers_reset r).reg_common ≡ r.reg_common)
unfolding registers_reset
registers_reset_lem r v = (
  record { common_size = v.common_size; bank00_size = refl; bank_zero = v.bank_zero },
  refl,
  refl,
)

-- On valid registers a write never faults. Below 0xF0 it stores the value in bank 0 and
-- returns it; at 0xF0 it accepts the value 0 alone, and then stores bank 0 in the bank register;
-- every other write is refused with -1 and changes nothing.
pub registers_write_lem :
    (addr value : ℕ) (r : Registers)
    → IsValid r
    → registers_write addr value r
      ≡ some (
          if ltb addr 0xf0
          then (pos value, record r { bank00 = set r.bank00 addr value })
          else if addr == 0xf0 && value == 0
          then (pos 0, record r { reg_common = set r.reg_common 0xf 0 })
          else (negsuc 0, r))
unfolding registers_write
registers_write_lem addr value r v = ground (arith, v.bank_zero, v.common_size, v.bank00_size)

-- What holds of the registers behind a call that does not fault.
abbrev pub Leaves : (Registers → Type 0) → Option (ℤ × Registers) → Type 0
Leaves P none = ⊥
Leaves P (some (ret, r)) = P r

pub set_common-IsValid :
    (r : Registers) → IsValid r → IsValid (record r { reg_common = set r.reg_common 0xf 0 })
set_common-IsValid r v = record {
  common_size = length-set r.reg_common 0xf 0 ∙ v.common_size;
  bank00_size = v.bank00_size;
  bank_zero = get_or-set_self r.reg_common 0xf 0 0 (omega arith);
}

pub set_bank00-IsValid :
    (addr value : ℕ) (r : Registers)
    → IsValid r
    → IsValid (record r { bank00 = set r.bank00 addr value })
set_bank00-IsValid addr value r v = record {
  common_size = v.common_size;
  bank00_size = length-set r.bank00 addr value ∙ v.bank00_size;
  bank_zero = v.bank_zero;
}

-- What holds of valid registers, and holds with a stored value and with bank 0 selected, holds
-- behind a write.
pub registers_write-Holds :
    (P : Registers → Type 0) (addr value : ℕ) (r : Registers)
    → IsValid r
    → P r
    → P (record r { bank00 = set r.bank00 addr value })
    → P (record r { reg_common = set r.reg_common 0xf 0 })
    → Leaves P (registers_write addr value r)
registers_write-Holds P addr value r v kept stored selected =
    rw (registers_write_lem addr value r v) (elim (Bool-cases (ltb addr 0xf0)) [
      | inl low ↦ rw low stored
      | inr high ↦ rw high (elim (Bool-cases (addr == 0xf0 && value == 0)) [
        | inl sel ↦ rw sel selected
        | inr bad ↦ rw bad kept
      ])
    ])

-- No write, accepted or refused, faults or makes valid registers invalid.
pub registers_write-IsValid :
    (addr value : ℕ) (r : Registers) → IsValid r → Leaves IsValid (registers_write addr value r)
registers_write-IsValid addr value r v =
    registers_write-Holds IsValid addr value r v v (set_bank00-IsValid addr value r v)
      (set_common-IsValid r v)

-- On valid registers a read at an address of 8 bits never faults and always delivers the value it returns: below 0xF0
-- that of bank 0, from 0xF0 on that of the common register at the address less 0xF0.
pub registers_read_lem :
    (addr : ℕ) (r : Registers)
    → IsValid r
    → addr < 256
    → let value =
        if ltb addr 0xf0 then get_or r.bank00 addr 0 else get_or r.reg_common (addr - 0xf0) 0 in
      registers_read addr r ≡ some (pos value, some value)
unfolding registers_read
registers_read_lem addr r v h = ground (arith, v.bank_zero, v.common_size, v.bank00_size)

pub read_self :
    (addr value : ℕ) (r : Registers)
    → IsValid r
    → addr < 0xf0
    → registers_read addr (record r { bank00 = set r.bank00 addr value })
      ≡ some (pos value, some value)
read_self addr value r v low = ground (
  arith,
  registers_read_lem addr (record r { bank00 = set r.bank00 addr value })
      (set_bank00-IsValid addr value r v) (omega arith),
  get_or-set_self r.bank00 addr value 0,
  v.bank00_size,
)

read_ne :
    (addr value other : ℕ) (r : Registers)
    → IsValid r
    → other < 256
    → other ≢ addr
    → registers_read other (record r { bank00 = set r.bank00 addr value }) ≡ registers_read other r
read_ne addr value other r v h ne = ground (
  arith,
  registers_read_lem other (record r { bank00 = set r.bank00 addr value })
      (set_bank00-IsValid addr value r v) h,
  registers_read_lem other r v h,
  get_or-set_ne r.bank00 {i = addr} {j = other} value 0 (λ e. ne (sym e)),
)

-- After a write below 0xF0 to valid registers, that address reads back the value written and
-- every other address of 8 bits, common registers included, reads as before.
pub registers_read-write :
    (addr value other : ℕ) (r : Registers)
    → IsValid r
    → addr < 0xf0
    → Leaves
        (λ r'.
          (registers_read addr r' ≡ some (pos value, some value))
          × (other < 256 → other ≢ addr → registers_read other r' ≡ registers_read other r))
        (registers_write addr value r)
registers_read-write addr value other r v low =
    rw (registers_write_lem addr value r v, lt→ltb addr 0xf0 low)
      (read_self addr value r v low, read_ne addr value other r v)
