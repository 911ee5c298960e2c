-- ===== src/CmdAscii/Send.antt =====
-- src/cmd_ascii.c: the command TX, which reads objects from the line and uploads them, and TXRAW,
-- which uploads bytes as they are. `in_buff` is the buffer behind the name of the command; what the
-- commands write into it is not kept, since CmdParse clears it before the next line. `none` is an
-- access outside an array.
pub mod Fuel
pub mod Command
pub mod Line
pub mod Digits
use sipf_std_client_nrf.ClientHttp.{Net}
use sipf_std_client_nrf.Cmd.{Reply, text}
use sipf_std_client_nrf.CmdAscii.{res_ill_param, res_ng, HexState, hex_to_uint8}
use sipf_std_client_nrf.Libc.{hex_bytes}
use sipf_std_client_nrf.Prelude.{
  ℕ, zero, suc, ◌+◌, ◌*◌, ◌%◌, ◌++◌, Bool, true, false, ◌||◌, not, Option, none, some, ◌==◌,
  if◌then◌else◌, leb, ltb, ℤ, to_uint8, Bytes, length, get_or, set, replicate, codes, take,
}
use sipf_std_client_nrf.SipfObject.Client.{Client, Connector, Up, obj_up_raw}

-- The result of checkTypeLen.
unfoldable pub check_type_len : ℕ → ℕ → Bool
check_type_len type_id len =
    if type_id == 0x00 || type_id == 0x01
    then len == 1
    else if type_id == 0x02 || type_id == 0x03
    then len == 2
    else if type_id == 0x04 || (type_id == 0x05 || type_id == 0x08)
    then len == 4
    else if type_id == 0x06 || (type_id == 0x07 || type_id == 0x09)
    then len == 8
    else if type_id == 0x10 || type_id == 0x20
    then leb len 1000
    else false

pub data TxSt : Type 0 where
  begin tag_id type value end : TxSt

-- The locals of cmdAsciiCmdTx with `tx_buff`.
pub record Tx : Type 0 where
  pub parse_state : TxSt
  pub idx_in_buff : ℕ
  pub idx_tx_buff : ℕ
  pub tag_id : ℕ
  pub type_id : ℕ
  pub value_len : ℕ
  pub idx_value_len : ℕ
  pub tx_buff : Bytes

-- One round of the loop: it goes on, it is over, or the line is refused.
pub data TxStep : Type 0 where
  go : Tx → TxStep
  parse_end : Tx → TxStep
  ill_param : TxStep

-- tx_buff[idx] = b
abbrev pub put_tx : ℕ → ℕ → Tx → Option Tx
put_tx idx b t =
    if ltb idx (length t.tx_buff) then some (record t { tx_buff = set t.tx_buff idx b }) else none

-- An index is a `uint16_t`.
abbrev pub advance : ℕ → ℕ → ℕ
advance idx n = (idx + n) % 65536

-- The end of a value: its length goes in front of it, and the parse goes on at `next`, where
-- `skip` characters are passed.
value_end : TxSt → ℕ → Tx → Option TxStep
value_end next skip t =
    if check_type_len t.type_id t.value_len
    then elim (put_tx t.idx_value_len t.value_len t) [
      | none ↦ none
      | some t' ↦
          some (go (record t' { parse_state = next; idx_in_buff = advance t.idx_in_buff skip }))
    ]
    else some ill_param

-- two digits of a value
value_byte : Bytes → Tx → Option TxStep
value_byte in_buff t =
    let h = hex_to_uint8 in_buff t.idx_in_buff in
    elim (put_tx t.idx_tx_buff h.ret t) [
      | none ↦ none
      | some t' ↦
          (if h.err == 0
            then some (
                go (record t' {
                  idx_tx_buff = advance t.idx_tx_buff 1;
                  value_len = (t.value_len + 1) % 256;
                  idx_in_buff = advance t.idx_in_buff 2;
                }))
            else some ill_param)
    ]

-- the two digits of a type, and the place for the length of the value
type_parsed : Bytes → Tx → Option TxStep
type_parsed in_buff t =
    let h = hex_to_uint8 in_buff t.idx_in_buff in
    let i = t.idx_tx_buff in
    if not (h.err == 0) then some ill_param else elim (put_tx i h.ret t) [
      | none ↦ none
      | some t₁ ↦ elim (put_tx (advance i 1) t.tag_id t₁) [
        | none ↦ none
        | some t₂ ↦ some (
            go (record t₂ {
              parse_state = value;
              idx_in_buff = advance t.idx_in_buff 3;
              idx_tx_buff = advance i 3;
              type_id = h.ret;
              idx_value_len = advance i 2;
              value_len = 0;
            }))
      ]
    ]

-- the two digits of a tag
tag_parsed : Bytes → Tx → TxStep
tag_parsed in_buff t =
    let h = hex_to_uint8 in_buff t.idx_in_buff in
    if h.err == 0
    then go (record t { tag_id = h.ret; parse_state = type; idx_in_buff = advance t.idx_in_buff 3 })
    else ill_param

-- The character at in_buff[i] is a space: `none` if there is no such place.
abbrev pub space_at : Bytes → ℕ → Option Bool
space_at in_buff i = if ltb i (length in_buff) then some (get_or in_buff i 0 == 0x20) else none

value_step : Bytes → ℕ → Tx → Option TxStep
value_step in_buff in_len t =
    if leb in_len t.idx_in_buff
    then value_end end 0 t
    else if not (ltb (t.idx_in_buff + 1) (length in_buff))
    then none
    else if get_or in_buff t.idx_in_buff 0 == 0x20
    then value_end tag_id 1 t
    else value_byte in_buff t

step_in : TxSt → Bytes → ℕ → Tx → Option TxStep
step_in begin in_buff in_len t = elim (space_at in_buff t.idx_in_buff) [
  | none ↦ none
  | some false ↦ some ill_param
  | some true ↦ some (go (record t { parse_state = tag_id; idx_in_buff = advance t.idx_in_buff 1 }))
]
step_in tag_id in_buff in_len t = elim (space_at in_buff (t.idx_in_buff + 2)) [
  | none ↦ none
  | some false ↦ some ill_param
  | some true ↦ some (tag_parsed in_buff t)
]
step_in type in_buff in_len t = elim (space_at in_buff (t.idx_in_buff + 2)) [
  | none ↦ none
  | some false ↦ some ill_param
  | some true ↦ type_parsed in_buff t
]
step_in value in_buff in_len t = value_step in_buff in_len t
step_in end in_buff in_len t = some (parse_end t)

unfoldable pub tx_step : Bytes → ℕ → Tx → Option TxStep
unfolding step_in value_step value_end value_byte type_parsed tag_parsed
tx_step in_buff in_len t = step_in t.parse_state in_buff in_len t

-- How the parse of a line ends.
pub data Parsed : Type 0 where
  packet : ℕ → Bytes → Parsed
  refused : Parsed
  fault : Parsed
  out_of_fuel : Parsed

-- The endless loop of the parse, by fuel.
unfoldable pub tx_loop : ℕ → Bytes → ℕ → Tx → Parsed
tx_loop zero in_buff in_len t = out_of_fuel
tx_loop (suc fuel) in_buff in_len t = elim (tx_step in_buff in_len t) [
  | none ↦ fault
  | some ill_param ↦ refused
  | some (parse_end t') ↦ packet t'.idx_tx_buff t'.tx_buff
  | some (go t') ↦ tx_loop fuel in_buff in_len t'
]

-- `tx_buff` behind its memset
unfoldable pub tx_cleared : Bytes
tx_cleared = replicate 1024 0

abbrev pub tx_initial : Tx
tx_initial = record {
  parse_state = begin;
  idx_in_buff = 0;
  idx_tx_buff = 0;
  tag_id = 0;
  type_id = 0;
  value_len = 0;
  idx_value_len = 0;
  tx_buff = tx_cleared;
}

-- Each round passes a character or changes the state: three rounds for each character are enough.
abbrev pub tx_fuel : ℕ → ℕ
tx_fuel in_len = 3 * in_len + 6

module _ {W : Type 0} (net : Net W) (cfg : Connector) where
  -- from SipfObjClientObjUpRaw on: `err` is a `uint8_t`
  pub upload_reply : Bytes → ℕ → Client W → Option (Reply × Client W)
  upload_reply payload size c = elim (obj_up_raw net cfg payload size c) [
    | none ↦ none
    | some u ↦
        (if to_uint8 u.ret == 0
          then elim u.otid [
            | none ↦ none
            | some otid ↦ some (text (hex_bytes otid ++ codes "\r\nOK\r\n"), u.client)
          ]
          else some (text res_ng, u.client))
  ]

  unfoldable pub cmd_tx : Bytes → ℕ → Client W → Option (Reply × Client W)
  unfolding upload_reply
  cmd_tx in_buff in_len c =
      if ltb in_len 8
      then some (text res_ill_param, c)
      else elim (tx_loop (tx_fuel in_len) in_buff in_len tx_initial) [
        | packet size tx_buff ↦ upload_reply tx_buff size c
        | refused ↦ some (text res_ill_param, c)
        | fault ↦ none
        | out_of_fuel ↦ none
      ]
