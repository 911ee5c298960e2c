-- ===== src/Tests/XmodemRuns.antt =====
-- XMODEM blocks over a scripted line.
use sipf_std_client_nrf.Prelude.{
  ℕ, ◌+◌, ◌-◌, ◌%◌, ◌≡◌, ◌↔◌, refl, [], ◌∷◌, arith, pos, Bytes, replicate, codes,
}
use sipf_std_client_nrf.Tests.Script.{
  Script, scripted, script, arriving, line_of, Delivers-arriving, room_for, Accepts-room,
}
use sipf_std_client_nrf.UartBroker.{Uart, get_byte_tm}
use sipf_std_client_nrf.Xmodem.Frame.{total, padded, layout, block_validation-iff_valid}
use sipf_std_client_nrf.Xmodem.Receive.{
  Sound, block_tail, receive_block-make_block, receive_block-Sound, receive_block-cut,
}
use sipf_std_client_nrf.Xmodem.Send.{send_block-sends}
use sipf_std_client_nrf.Xmodem.{
  RecvRet, recv_ret, block_validation, make_block, receive_block, send_reply, send_block, sum_block,
  add_sum, copy, check_block, receive_body, block_validation,
}
use sipf_std_client_nrf.Zephyr.{eagain}

abbrev payload : Bytes
payload = codes "hello"

abbrev buffer : Bytes
buffer = replicate 132 0

-- The receiver takes block 1 behind block 0, whole and in order.
receives_hello :
    (receive_block scripted 0 buffer 3000 (line_of (arriving (make_block 1 payload)) 0)).0
    ≡ record { xret = RecvRet.ok; bn = 1; block = make_block 1 payload }
unfolding receive_block receive_body make_block add_sum copy check_block block_validation sum_block
    get_byte_tm
receives_hello = refl

abbrev hello_line : Uart Script
hello_line = line_of ((pos 0, 0x01) ∷ arriving (block_tail ((0 + 1) % 256) payload)) 0

receive_block-make_block_example : receive_block scripted 0 buffer 3000 hello_line ≡ (
  record { xret = RecvRet.ok; bn = (0 + 1) % 256; block = make_block ((0 + 1) % 256) payload },
  record hello_line { world = script [] [] 0 },
)
receive_block-make_block_example =
    receive_block-make_block scripted 0 buffer payload 3000 hello_line (omega arith) (omega arith)
      (omega arith) refl (Delivers-arriving 100 (block_tail ((0 + 1) % 256) payload) [] 0)

receive_block-Sound_example : Sound 0 (receive_block scripted 0 buffer 3000 hello_line).0
receive_block-Sound_example = receive_block-Sound scripted 0 buffer 3000 hello_line

-- Two bytes behind the header, and then silence.
abbrev cut_line : Uart Script
cut_line = line_of (arriving (0x01 ∷ 1 ∷ 254 ∷ [])) 5

receive_block-cut_example :
    ((receive_block scripted 0 buffer 3000 cut_line).0.xret ≡ recv_ret eagain)
    × ((receive_block scripted 0 buffer 3000 cut_line).0.bn ≡ 0)
    × ((receive_block scripted 0 buffer 3000 cut_line).1
        ≡ record cut_line { world = script [] [] 5 })
receive_block-cut_example =
    receive_block-cut scripted {w₁ = script (arriving (1 ∷ 254 ∷ [])) [] 5} {b = 0} 0 buffer
      (1 ∷ 254 ∷ []) 3000 cut_line refl (Delivers-arriving 100 (1 ∷ 254 ∷ []) [] 5) (omega arith)
      refl refl

-- That result is none of the values that the callers test for.
cut_is_other : recv_ret eagain ≡ RecvRet.other eagain
unfolding recv_ret
cut_is_other = refl

abbrev zeros : Bytes
zeros = replicate 128 0

block_validation-iff_valid_example :
    (block_validation (layout 0x01 5 250 zeros 0) 4 ≡ pos 5)
    ↔ ((◌≡◌ {A = ℕ} (5 + 250) 0xff) × (◌≡◌ {A = ℕ} 5 ((4 + 1) % 256)) × (0 ≡ total zeros % 256))
block_validation-iff_valid_example =
    block_validation-iff_valid 0x01 5 250 zeros 0 4 (omega arith) (omega arith)

abbrev hello_block : Bytes
hello_block = layout 0x01 1 (255 - 1) (padded payload) (total (padded payload) % 256)

abbrev ready_line : Uart Script
ready_line = line_of (arriving (0x06 ∷ [])) (room_for hello_block 0)

send_block-sends_example :
    send_block scripted 1 payload 500 ready_line
    ≡ (send_reply (pos 0) 0x06, record ready_line { world = script [] hello_block 0 })
send_block-sends_example =
    send_block-sends scripted 1 payload 500 ready_line (omega arith)
      (Accepts-room (arriving (0x06 ∷ [])) hello_block [] 0) refl
