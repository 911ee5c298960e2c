-- ===== src/Tests/CommandRuns.antt =====
-- The commands W and R on concrete lines.
use sipf_std_client_nrf.Cmd.{text}
use sipf_std_client_nrf.CmdAscii.RegisterCmds.WriteRead.{w_line, IsSafe, cmd_w_lem, cmd_w-IsSafe}
use sipf_std_client_nrf.CmdAscii.RegisterCmds.{Bench, cmd_w, cmd_r}
use sipf_std_client_nrf.CmdAscii.{res_ok}
use sipf_std_client_nrf.Prelude.{◌≡◌, true, false, some, [], arith, set, codes}
use sipf_std_client_nrf.Registers.Write.{initial-IsValid}
use sipf_std_client_nrf.Registers.{Version, initial}

abbrev version : Version
version = record { fw_type = 1; mjr = 0; mnr = 5; rel = 1 }

abbrev bench : Bench
bench = record { is_unlocked = true; registers = initial version }

-- bank 0 is stored to
cmd_w_lem_example :
    cmd_w (w_line 0x10 0xa5 0x0d []) 6 bench
    ≡ some (
      text res_ok,
      record {
        is_unlocked = false;
        registers = record bench.registers { bank00 = set bench.registers.bank00 0x10 0xa5 };
      },
    )
cmd_w_lem_example =
    cmd_w_lem 0x10 0xa5 0x0d [] bench (initial-IsValid version) (omega arith) (omega arith)

cmd_w-IsSafe_example :
    IsSafe (cmd_w (codes " zz-1+x") 6 bench) × IsSafe (cmd_r (codes " zz-1+x") 6 bench)
cmd_w-IsSafe_example =
    cmd_w-IsSafe (codes " zz-1+x") 6 bench (initial-IsValid version) (omega arith)
