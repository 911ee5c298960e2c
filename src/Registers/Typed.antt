-- ===== src/Registers/Typed.antt =====
-- The registers stay what their declarations in src/registers.c say: arrays of 16 and of 240
-- `uint8_t`, of which the bank register names bank 0.
use sipf_std_client_nrf.Prelude.{ℕ, zero, suc, ◌<◌, [], ◌∷◌, arith, Bytes, AreBytes, set, replicate}
use sipf_std_client_nrf.Registers.Write.{
  IsValid, initial-IsValid, Leaves, registers_write-Holds, registers_reset_lem, set_bank00-IsValid,
  set_common-IsValid,
}
use sipf_std_client_nrf.Registers.{Version, Registers, initial, registers_reset, registers_write}

pub record AreTyped (r : Registers) : Type 0 where
  pub valid : IsValid r
  pub common : AreBytes r.reg_common
  pub bank : AreBytes r.bank00

pub set-AreBytes : (xs : Bytes) (i v : ℕ) → v < 256 → AreBytes xs → AreBytes (set xs i v)
set-AreBytes [] i v h a = tt
set-AreBytes (x ∷ xs) zero v h a = (h, a.1)
set-AreBytes (x ∷ xs) (suc i) v h a = (a.0, set-AreBytes xs i v h a.1)

pub replicate-AreBytes : (n : ℕ) → AreBytes (replicate n 0)
replicate-AreBytes zero = tt
replicate-AreBytes (suc n) = (omega arith, replicate-AreBytes n)

-- The build's version numbers are cut to their bytes.
pub initial-AreTyped : (v : Version) → AreTyped (initial v)
unfolding initial
initial-AreTyped v = record {
  valid = initial-IsValid v;
  common = (
    omega arith,
    (omega arith, (omega arith, (omega arith, (omega arith, replicate-AreBytes 11)))),
  );
  bank = replicate-AreBytes 240;
}

pub reset-AreTyped : (r : Registers) → AreTyped r → AreTyped (registers_reset r)
unfolding registers_reset
reset-AreTyped r t = record {
  valid = (registers_reset_lem r t.valid).0;
  common = t.common;
  bank = replicate-AreBytes 240;
}

pub bank00-AreTyped :
    (r : Registers) (addr v : ℕ)
    → v < 256
    → AreTyped r
    → AreTyped (record r { bank00 = set r.bank00 addr v })
bank00-AreTyped r addr v h t = record {
  valid = set_bank00-IsValid addr v r t.valid;
  common = t.common;
  bank = set-AreBytes r.bank00 addr v h t.bank;
}

-- *REG_00_MODE = 0
pub mode_0-AreTyped :
    (r : Registers) → AreTyped r → AreTyped (record r { bank00 = set r.bank00 0 0 })
mode_0-AreTyped r t = bank00-AreTyped r 0 0 (omega arith) t

pub write-AreTyped :
    (addr v : ℕ) (r : Registers) → v < 256 → AreTyped r → Leaves AreTyped (registers_write addr v r)
write-AreTyped addr v r h t =
    registers_write-Holds AreTyped addr v r t.valid t (bank00-AreTyped r addr v h t) (record {
      valid = set_common-IsValid r t.valid;
      common = set-AreBytes r.reg_common 0xf 0 (omega arith) t.common;
      bank = t.bank;
    })
