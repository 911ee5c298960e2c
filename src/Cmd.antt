-- ===== src/Cmd.antt =====
-- src/cmd.c: the line buffer in front of the ASCII commands. The command parser that a complete
-- line is handed to is the section's parameter `ascii_parse`, over the state `S` that commands work
-- on, and may fault or wait for ever. `faults` is an access outside an array.
pub mod Collect
pub mod Line
pub mod Safe
use sipf_std_client_nrf.Prelude.Runs.{Run, returns, faults, waits, ◌>>=◌}
use sipf_std_client_nrf.Prelude.{
  ℕ, zero, suc, ◌+◌, ◌-◌, ◌%◌, Bool, true, false, ◌||◌, Option, none, some, [], ◌∷◌, List, ltb,
  ◌==◌, if◌then◌else◌, ℤ, pos, negsuc, is_zero, Bytes, length, set, replicate, codes,
}

-- What a command leaves: the text in `out_buff`, whose length it returns, or a return value of
-- its own, which is never above 0.
pub data Reply : Type 0 where
  text : Bytes → Reply
  code : ℤ → Reply

pub data CmdState : Type 0 where
  wait buffering_ascii buffering_bin : CmdState

pub record Cmd : Type 0 where
  pub state : CmdState
  pub in_buff : Bytes
  pub in_buff_idx : ℤ

abbrev pub cmd_buff_sz : ℕ
cmd_buff_sz = 4096

-- `in_buff` behind memset(in_buff, 0, CMD_BUFF_SZ)
unfoldable pub cleared : Bytes
cleared = replicate cmd_buff_sz 0

unfoldable pub initial : Cmd
initial = record { state = wait; in_buff = cleared; in_buff_idx = pos 0 }

-- `in_buff_idx--`
abbrev pub decrement : ℤ → ℤ
decrement (pos zero) = negsuc 0
decrement (pos (suc n)) = pos n
decrement (negsuc n) = negsuc (suc n)

-- The conversion of the index to `uint16_t` in the call of CmdAsciiParse.
abbrev pub to_uint16 : ℤ → ℕ
to_uint16 (pos n) = n % 65536
to_uint16 (negsuc n) = 65535 - n % 65536

-- `out_len > 0`: there is a response to send.
abbrev pub response : Reply → Option Bytes
response (text []) = none
response (text (c ∷ cs)) = some (c ∷ cs)
response (code r) = none

-- in_buff[i] = b
abbrev pub store : Bytes → ℕ → ℕ → Option Bytes
store buf i b = if ltb i (length buf) then some (set buf i b) else none

unfoldable pub state_wait : ℕ → Cmd → Cmd
state_wait b c =
    if b == b'$'
    then record { state = buffering_ascii; in_buff = cleared; in_buff_idx = pos 0 }
    else c

module _ {S : Type 0} (ascii_parse : Bytes → ℕ → S → Run (Reply × S)) where
  end_of_line : Cmd → S → Run (Option Bytes × Cmd × S)
  end_of_line c s = elim (ascii_parse c.in_buff (to_uint16 c.in_buff_idx) s) [
    | faults ↦ faults
    | waits ↦ waits
    | returns (r, s') ↦ returns (response r, record c { state = wait }, s')
  ]

  -- The byte goes in first, and the index is checked behind the write.
  append : ℤ → ℕ → Cmd → S → Run (Option Bytes × Cmd × S)
  append (negsuc n) b c s = faults
  append (pos n) b c s = elim (store c.in_buff n b) [
    | none ↦ faults
    | some buf ↦
        (if ltb cmd_buff_sz (n + 1)
          then returns (
            some (codes "\r\nNG\r\n"),
            record c { state = wait; in_buff = buf; in_buff_idx = pos (n + 1) },
            s,
          )
          else returns (none, record c { in_buff = buf; in_buff_idx = pos (n + 1) }, s))
  ]

  unfoldable pub state_buffering_ascii : ℕ → Cmd → S → Run (Option Bytes × Cmd × S)
  unfolding append end_of_line
  state_buffering_ascii b c s =
      if b == 0x0a || b == 0x0d
      then end_of_line c s
      else if b == 0x08
      then returns (
        none,
        record c {
          state = (if is_zero c.in_buff_idx then wait else c.state);
          in_buff_idx = decrement c.in_buff_idx;
        },
        s,
      )
      else append c.in_buff_idx b c s

  step_in : CmdState → ℕ → Cmd → S → Run (Option Bytes × Cmd × S)
  step_in wait b c s = returns (none, state_wait b c, s)
  step_in buffering_ascii b c s = state_buffering_ascii b c s
  step_in buffering_bin b c s = returns (none, c, s)

  unfoldable pub cmd_parse : ℕ → Cmd → S → Run (Option Bytes × Cmd × S)
  unfolding step_in state_wait state_buffering_ascii
  cmd_parse b c s = step_in c.state b c s

  -- The bytes of a transmission, one call of CmdParse each, with the responses in order.
  unfoldable pub feed : Bytes → Cmd → S → Run (List Bytes × Cmd × S)
  feed [] c s = returns ([], c, s)
  feed (b ∷ bs) c s = do
    (cr, c', s') ← cmd_parse b c s
    (out, c'', s'') ← feed bs c' s'
    returns (elim cr [ none ↦ out | some r ↦ r ∷ out ], c'', s'')
