-- ===== src/Registers.antt =====
-- The register file of src/registers.c: 16 common registers and the 240 registers of bank 0,
-- with the table of banks. `none` is an access outside an array or a call through NULL.
pub mod Typed
pub mod Write
use sipf_std_client_nrf.Prelude.{
  ℕ, zero, suc, ◌+◌, ◌-◌, ◌/◌, ◌%◌, ◌^◌, Bool, true, false, Option, none, some, List, [], ◌∷◌, leb,
  ltb, ◌==◌, if◌then◌else◌, length, get_or, get_elem?, set, replicate, ℤ, pos, negsuc, Bytes,
}

-- CONFIG_SIPF_APP_TYPE and CONFIG_SIPF_APP_VER_*, which the build configuration gives.
pub record Version : Type 0 where
  pub fw_type : ℕ
  pub mjr : ℕ
  pub mnr : ℕ
  pub rel : ℕ

pub record Registers : Type 0 where
  pub reg_common : Bytes
  pub bank00 : Bytes

unfoldable pub initial : Version → Registers
initial v = record {
  reg_common =
      v.fw_type % 256
      ∷ v.mjr % 256
      ∷ v.mnr % 256
      ∷ v.rel % 256
      ∷ v.rel / 256 % 256
      ∷ replicate 11 0;
  bank00 = replicate 240 0;
}

-- `RegistersBankFuncs`: the functions of bank 0, or three NULLs.
pub data Bank : Type 0 where
  bank_0 null_bank : Bank

abbrev pub bank_func : List Bank
bank_func = bank_0 ∷ null_bank ∷ []

-- *REG_CMN_BANK
abbrev pub bank_of : Registers → ℕ
bank_of r = get_or r.reg_common 0xf 0

unfoldable pub bank00_reset : Registers → Registers
bank00_reset r = record r { bank00 = replicate 240 0 }

unfoldable pub bank00_write : ℕ → ℕ → Registers → Option (ℤ × Registers)
bank00_write addr value r =
    if leb 0xf0 addr
    then some (negsuc 0, r)
    else if ltb addr (length r.bank00)
    then some (pos value, record r { bank00 = set r.bank00 addr value })
    else none

-- The second component is what goes through `value`, if the call writes it.
unfoldable pub bank00_read : ℕ → Registers → Option (ℤ × Option ℕ)
bank00_read addr r =
    if leb 0xf0 addr
    then some (negsuc 0, none)
    else if ltb addr (length r.bank00)
    then some (pos (get_or r.bank00 addr 0), some (get_or r.bank00 addr 0))
    else none

-- `bank_func[value].read == NULL`
abbrev pub is_null_bank : ℕ → Bool
is_null_bank value = elim (get_or bank_func value null_bank) [ bank_0 ↦ false | null_bank ↦ true ]

unfoldable pub reg_common_write : ℕ → ℕ → Registers → Option (ℤ × Registers)
reg_common_write addr value r =
    if addr == 0xf0
    then (if ltb (length bank_func) (value + 1)
        then some (negsuc 0, r)
        else if is_null_bank value
        then some (negsuc 0, r)
        else if ltb 0xf (length r.reg_common)
        then some (pos value, record r { reg_common = set r.reg_common 0xf value })
        else none)
    else some (negsuc 0, r)

unfoldable pub reg_common_read : ℕ → Registers → Option (ℤ × Option ℕ)
reg_common_read addr r =
    if ltb addr 0xf0
    then some (negsuc 0, none)
    else if ltb (addr - 0xf0) (length r.reg_common)
    then some
        (pos (get_or r.reg_common (addr - 0xf0) 0), some (get_or r.reg_common (addr - 0xf0) 0))
    else none

reset_bank : Bank → Registers → Registers
reset_bank bank_0 r = bank00_reset r
reset_bank null_bank r = r

reset_banks : List Bank → Registers → Registers
reset_banks [] r = r
reset_banks (b ∷ bs) r = reset_banks bs (reset_bank b r)

unfoldable pub registers_reset : Registers → Registers
unfolding reset_banks reset_bank bank00_reset
registers_reset r = reset_banks bank_func r

-- The call through the table.
write_bank : Option Bank → ℕ → ℕ → Registers → Option (ℤ × Registers)
write_bank none addr value r = none
write_bank (some null_bank) addr value r = none
write_bank (some bank_0) addr value r = bank00_write addr value r

read_bank : Option Bank → ℕ → Registers → Option (ℤ × Option ℕ)
read_bank none addr r = none
read_bank (some null_bank) addr r = none
read_bank (some bank_0) addr r = bank00_read addr r

unfoldable pub registers_write : ℕ → ℕ → Registers → Option (ℤ × Registers)
unfolding reg_common_write write_bank bank00_write
registers_write addr value r =
    if leb 0xf0 addr
    then reg_common_write addr value r
    else write_bank (get_elem? bank_func (bank_of r)) addr value r

unfoldable pub registers_read : ℕ → Registers → Option (ℤ × Option ℕ)
unfolding reg_common_read read_bank bank00_read
registers_read addr r =
    if leb 0xf0 addr
    then reg_common_read addr r
    else read_bank (get_elem? bank_func (bank_of r)) addr r
