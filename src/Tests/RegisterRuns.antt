-- ===== src/Tests/RegisterRuns.antt =====
-- The register file at concrete addresses.
use sipf_std_client_nrf.Prelude.{◌≡◌, ◌&&◌, refl, some, pos, negsuc, set, ltb, ◌==◌, if◌then◌else◌}
use sipf_std_client_nrf.Registers.Write.{initial-IsValid, registers_write_lem}
use sipf_std_client_nrf.Registers.{Version, Registers, initial, registers_write, registers_read}

abbrev version : Version
version = record { fw_type = 1; mjr = 0; mnr = 5; rel = 258 }

abbrev regs : Registers
regs = initial version

-- The release number is little-endian at 0xF3, and the bank register follows at 0xFF.
read_version : registers_read 0xf4 regs ≡ some (pos 1, some 1)
unfolding initial registers_read
read_version = refl

-- Bank 1 exists in the table, but its functions are NULL.
refuse_bank_1 : registers_write 0xf0 1 regs ≡ some (negsuc 0, regs)
unfolding initial registers_write
refuse_bank_1 = refl

registers_write_lem_example :
    registers_write 0x10 7 regs
    ≡ some (
        if ltb 0x10 0xf0
        then (pos 7, record regs { bank00 = set regs.bank00 0x10 7 })
        else if 0x10 == 0xf0 && 7 == 0
        then (pos 0, record regs { reg_common = set regs.reg_common 0xf 0 })
        else (negsuc 0, regs))
registers_write_lem_example = registers_write_lem 0x10 7 regs (initial-IsValid version)
