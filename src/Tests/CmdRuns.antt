-- ===== src/Tests/CmdRuns.antt =====
-- The line buffer with a command parser that returns the line it is given.
use sipf_std_client_nrf.Cmd.Collect.{length-cleared}
use sipf_std_client_nrf.Cmd.Line.{outputs, feed_line}
use sipf_std_client_nrf.Cmd.Safe.{IsValid, FaultsAt, cmd_parse-fault_iff}
use sipf_std_client_nrf.CmdAscii.Dispatch.{cmd_ascii_parse}
use sipf_std_client_nrf.Tests.FirmwareRuns.{outside, firmware}
use sipf_std_client_nrf.Cmd.{
  Cmd, Reply, text, wait, buffering_ascii, cleared, initial, cmd_parse, feed,
}
use sipf_std_client_nrf.Prelude.Runs.{Run, returns, faults}
use sipf_std_client_nrf.Prelude.{
  ℕ, suc, ◌≡◌, ◌↔◌, refl, [], ◌∷◌, ◌++◌, arith, inr, pos, Bytes, take, drop, codes,
}

-- The state counts the calls.
abbrev echo_parser : Bytes → ℕ → ℕ → Run (Reply × ℕ)
echo_parser buf n calls = returns (text (take n buf), suc calls)

feed_line_example :
    let buf = codes "W 10" ++ drop 4 cleared in
    feed echo_parser (b'$' ∷ (codes "W 10" ++ 0x0d ∷ [])) initial 0
    ≡ outputs (echo_parser buf 4 0) (record { state = wait; in_buff = buf; in_buff_idx = pos 4 })
unfolding initial
feed_line_example =
    feed_line echo_parser (codes "W 10") 0x0d initial 0 refl (refl, (refl, (refl, (refl, tt))))
      (omega arith) (inr refl)

-- A line of 4096 bytes, in front of the parser of the commands.
abbrev full : Cmd
full = record { state = buffering_ascii; in_buff = cleared; in_buff_idx = pos 4096 }

full-IsValid : IsValid full
full-IsValid = record { size = length-cleared; index = λ e. omega arith }

cmd_parse-fault_iff_example :
    (cmd_parse (cmd_ascii_parse outside) b'x' full firmware ≡ faults)
    ↔ FaultsAt (cmd_ascii_parse outside) b'x' full firmware
cmd_parse-fault_iff_example =
    cmd_parse-fault_iff (cmd_ascii_parse outside) b'x' full firmware full-IsValid
