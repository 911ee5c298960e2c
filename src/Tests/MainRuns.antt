-- ===== src/Tests/MainRuns.antt =====
-- main, its loop, FPUT, and the way out of the UART broker, on concrete inputs.
use sipf_std_client_nrf.Cmd.Safe.{initial-IsValid}
use sipf_std_client_nrf.Cmd.{wait, initial}
use sipf_std_client_nrf.CmdAscii.Dispatch.Typed.{LeavesTyped, cmd_ascii_parse-LeavesTyped}
use sipf_std_client_nrf.CmdAscii.Dispatch.{cmd_ascii_parse}
use sipf_std_client_nrf.CmdAscii.Transfer.Put.Forwarded.{fput_send_cb-forwards}
use sipf_std_client_nrf.CmdAscii.Transfer.Put.Wire.{frames, Sent, on_wire, Moves}
use sipf_std_client_nrf.CmdAscii.Transfer.Put.{first_block, block, fput_send_cb, fput_end}
use sipf_std_client_nrf.Main.Boot.Stages.{Stands, main-IsValid}
use sipf_std_client_nrf.Main.Boot.{main}
use sipf_std_client_nrf.Main.Loop.Commands.{
  w_command, r_command, value_text, stored, serve_write_read,
}
use sipf_std_client_nrf.Main.Loop.Valid.{IsValid}
use sipf_std_client_nrf.Main.Loop.{Board, board_world, serve}
use sipf_std_client_nrf.Prelude.Runs.{returns, Leaves}
use sipf_std_client_nrf.Prelude.{
  ℕ, ◌+◌, ◌≡◌, refl, false, none, some, [], ◌∷◌, ◌++◌, List, Bytes, inl, inr, length, replicate,
  codes, arith,
}
use sipf_std_client_nrf.Registers.Typed.{initial-AreTyped}
use sipf_std_client_nrf.Registers.Write
use sipf_std_client_nrf.Tests.Pipe.{
  Pipe, pipe, pipes, pipe_queues, pipe_net, pipe_socket, pipe_path, machine, board, version,
}
use sipf_std_client_nrf.UartBroker.Order.{
  Turn, puts_bytes, thread_runs, interrupts, traffic, flow, traffic-flow,
}
use sipf_std_client_nrf.UartBroker.{Uart}
use sipf_std_client_nrf.Xmodem.{make_block}

abbrev typed : Bytes
typed = (b'$' ∷ w_command 0x10 0xa5) ++ 0x0d ∷ ((b'$' ∷ r_command 0x10) ++ 0x0a ∷ [])

serve_write_read_example :
    (b' : Board ℕ Pipe) × (serve machine 16 (board (pipe typed)) ≡ returns b')
    × ((board_world b').rx ≡ [])
    × ((board_world b').tx ≡ ([] ++ codes "OK\r\n") ++ value_text 0xa5)
    × (b'.firmware.registers ≡ stored 0x10 0xa5 (board (pipe typed)).firmware.registers)
    × (b'.firmware.is_unlocked ≡ false)
    × (b'.cmd.state ≡ wait)
unfolding initial
serve_write_read_example =
    serve_write_read machine pipe_queues 0x10 0xa5 0x0d 0x0a 16 (board (pipe typed)) refl
      (Write.initial-IsValid version) (omega arith) (omega arith) (inr refl) (inl refl) refl
      (omega arith) (omega arith)

abbrev start : Board ℕ Pipe
start = board (pipe (codes "$R 00\r"))

start-IsValid : IsValid start
start-IsValid = record { registers = initial-AreTyped version; line = initial-IsValid }

main-IsValid_example :
    Leaves (Stands IsValid) (main machine (some (codes "44020")) none 3 5 9 start)
main-IsValid_example = main-IsValid machine (some (codes "44020")) none 3 5 9 start start-IsValid

cmd_ascii_parse-LeavesTyped_example :
    LeavesTyped (cmd_ascii_parse machine.outside (codes "W 00-1zz") 7 start.firmware)
cmd_ascii_parse-LeavesTyped_example =
    cmd_ascii_parse-LeavesTyped machine.outside (codes "W 00-1zz") 7 start.firmware
      (initial-AreTyped version)

abbrev pieces : List Bytes
pieces = codes "xy" ∷ codes "z" ∷ []

abbrev uploading : Pipe
uploading = pipe (frames 1 (codes "abc" ∷ pieces) ++ 0x04 ∷ [])

-- The request for the upload sends a head of its own.
abbrev head_sent : Pipe → Pipe
head_sent w = record w { sent = w.sent ++ codes "PUT /" }

fput_send_cb-forwards_example :
    (w₁ : Pipe) × (first_block pipes 10 (replicate 132 0) (on_wire uploading)
      ≡ (block (make_block 1 (codes "abc")), on_wire w₁))
    × (total : ℕ) × (out : Bytes) × (w' : Pipe) × (fput_send_cb pipes pipe_net 3 384
          (make_block 1 (codes "abc"))
          (head_sent w₁)
        ≡ some (fput_end pipes pipe_net 384 total w'))
    × Sent (codes "abc" ∷ pieces) total out
    × Moves pipe_queues pipe_socket (head_sent w₁) w' [] (replicate (length pieces + 2) 0x06) out
fput_send_cb-forwards_example =
    fput_send_cb-forwards pipe_queues pipe_socket (codes "abc") pieces 3 384 [] (replicate 132 0)
      uploading head_sent (omega arith) (omega arith, (omega arith, (omega arith, tt))) refl refl
      (omega arith) (λ v. refl) (λ v. refl)

-- 300 bytes for a queue of 256 places, with the thread and the interrupt in between.
abbrev turns : List Turn
turns =
    puts_bytes (replicate 300 0x41)
    ∷ thread_runs 2
    ∷ interrupts
    ∷ puts_bytes (codes "xyz")
    ∷ thread_runs 5
    ∷ []

abbrev quiet : Uart Pipe
quiet = record { is_echo = false; world = pipe [] }

traffic-flow_example :
    flow pipe_path (traffic pipes turns quiet).1.world
    ≡ flow pipe_path quiet.world ++ (traffic pipes turns quiet).0
traffic-flow_example = traffic-flow pipe_path turns quiet refl
