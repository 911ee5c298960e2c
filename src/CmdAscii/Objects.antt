-- ===== src/CmdAscii/Objects.antt =====
-- src/cmd_ascii.c: the commands TXRAW and RX over the object protocol. `in_buff` is the buffer
-- behind the name of the command. `none` is an access outside an array.
pub mod Raw
pub mod Received
use sipf_std_client_nrf.ClientHttp.{Net}
use sipf_std_client_nrf.Cmd.{Reply, text}
use sipf_std_client_nrf.CmdAscii.RegisterCmds.{is_cut}
use sipf_std_client_nrf.CmdAscii.Send.{upload_reply}
use sipf_std_client_nrf.CmdAscii.{res_ill_param, res_ok, res_ng}
use sipf_std_client_nrf.Libc.{c_string, strtol16, is_xdigit, hex_2, hex_bytes, slice}
use sipf_std_client_nrf.Prelude.Faults.{◌>>=◌}
use sipf_std_client_nrf.Prelude.{
  ℕ, zero, suc, ◌++◌, Bool, false, not, ◌||◌, Option, none, some, [], ◌∷◌, List, ◌==◌,
  if◌then◌else◌, ltb, to_uint8, pos, negsuc, Bytes, length, get_or, set, take, drop, codes,
}
use sipf_std_client_nrf.SipfObject.Client.{Client, Connector, Listing, Down, obj_down}
use sipf_std_client_nrf.SipfObject.{Object, object_parse}

-- How the loop over the pairs of digits ends: with the values and the string at `head`, with the
-- answer ILLPARM, or behind the buffer.
pub data Pairs : Type 0 where
  values : Bytes → Bytes → Pairs
  refused fault : Pairs

abbrev prepend : ℕ → Pairs → Pairs
prepend v (values vs head) = values (v ∷ vs) head
prepend v refused = refused
prepend v fault = fault

-- `n` values are left, and the string is the one at `head`.
unfoldable pub raw_values : ℕ → Bytes → Pairs
raw_values zero head = values [] head
raw_values (suc n) [] = fault
raw_values (suc n) (a ∷ []) = if is_xdigit a then fault else refused
raw_values (suc n) (a ∷ b ∷ head) =
    let rest = raw_values n head in
    let (value, end) = strtol16 (c_string (a ∷ b ∷ 0 ∷ [])) in
    if not (is_xdigit a) || not (is_xdigit b)
    then refused
    else if is_cut end
    then refused
    else prepend (to_uint8 value) rest

-- `*head` behind the last value: a NUL, CR or LF
abbrev ends_here : ℕ → Bool
ends_here c = c == 0 || (c == 0x0d || c == 0x0a)

module _ {W : Type 0} (net : Net W) (cfg : Connector) where
  -- behind the size
  raw_upload : ℕ → Bytes → Client W → Option (Reply × Client W)
  raw_upload size head c = elim (raw_values size head) [
    | values buffer [] ↦ none
    | values buffer (h ∷ rest) ↦
        (if ends_here h then upload_reply net cfg buffer size c else some (text res_ill_param, c))
    | refused ↦ some (text res_ill_param, c)
    | fault ↦ none
  ]

  -- behind the check of the length
  raw_parsed : Bytes → Client W → Option (Reply × Client W)
  raw_parsed in_buff c =
      if not (ltb 4 (length in_buff))
      then none
      else if not (get_or in_buff 0 0 == 0x20) || not (get_or in_buff 3 0 == 0x20)
      then some (text res_ill_param, c)
      else (let (size, end) = strtol16 (c_string (drop 1 (set (set in_buff 0 0) 3 0))) in
          if is_cut end
          then some (text res_ill_param, c)
          else raw_upload (to_uint8 size) (drop 4 in_buff) c)

  -- The answer, what `is_unlocked` is then, and the rest.
  unfoldable pub cmd_tx_raw : Bytes → ℕ → Client W → Option (Reply × Bool × Client W)
  unfolding raw_upload raw_parsed
  cmd_tx_raw in_buff in_len c = do
    (r, c') ← if ltb in_len 5 then some (text res_ill_param, c) else raw_parsed in_buff c
    some (r, false, c')

abbrev crlf : Bytes
crlf = codes "\r\n"

-- one object's line
unfoldable pub object_text : Object → Bytes → Bytes
object_text o value =
    hex_2 o.obj_tagid
    ++ (0x20 ∷ hex_2 o.obj_type
        ++ (0x20 ∷ hex_2 o.value_len ++ (0x20 ∷ hex_bytes (take o.value_len value) ++ crlf)))

-- SipfObjectParse into `buff_work`
abbrev unset : Bytes → Object
unset buff_work = record { obj_type = 0; obj_tagid = 0; value_len = 0; value = some buff_work }

-- The lines of the objects, or `none` where one of them is refused; and `buff_work`.
unfoldable pub object_lines : List ℕ → Bytes → Bytes → Option (Option Bytes × Bytes)
object_lines [] payload buff_work = some (some [], buff_work)
object_lines (p ∷ ps) payload buff_work = do
  (ret, obj) ← object_parse (some (drop p payload)) 256 (some (unset buff_work))
  elim obj [
    | none ↦ some (none, buff_work)
    | some o ↦ elim o.value [
      | none ↦ some (none, buff_work)
      | some value ↦ elim ret [
        | negsuc e ↦ some (none, value)
        | pos zero ↦ do
          (rest, work) ← object_lines ps payload value
          some (elim rest [ none ↦ none | some t ↦ some (object_text o value ++ t) ], work)
        | pos (suc n) ↦ some (none, value)
      ]
    ]
  ]

-- The text in front of the objects.
unfoldable pub listing_text : Listing → Bytes → Option Bytes
listing_text l payload = do
  snd ← slice payload l.user_send_datetime 8
  rcv ← slice payload l.recv_datetime 8
  some (
      hex_bytes l.otid
      ++ (crlf
          ++ (hex_bytes snd
              ++ (crlf
                  ++ (hex_bytes rcv
                      ++ (crlf
                          ++ (hex_2 l.remains ++ (crlf ++ (hex_2 (length l.p_objs) ++ crlf)))))))))

-- The answer for a listing, and `buff_work`.
unfoldable pub rx_text : Listing → Bytes → Bytes → Option (Bytes × Bytes)
rx_text l res_buff buff_work = if length l.p_objs == 0 then some (res_ok, buff_work) else do
  let payload = drop l.sipf_obj_payload res_buff
  head ← listing_text l payload
  (lines, work) ← object_lines l.p_objs payload buff_work
  some (elim lines [ none ↦ res_ng | some t ↦ head ++ (t ++ codes "OK\r\n") ], work)

module _ {W : Type 0} (net : Net W) (cfg : Connector) where
  -- `err` is a `uint8_t`. A result of 0 has a listing.
  rx_reply : Bytes → Down W → Option (Reply × Bytes × Client W)
  rx_reply buff_work d =
      if not (to_uint8 d.ret == 0)
      then some (text res_ng, buff_work, d.client)
      else elim d.listing [
        | none ↦ none
        | some l ↦ do
          (t, work) ← rx_text l d.client.httpc_res_buff buff_work
          some (text t, work, d.client)
      ]

  -- The result, `buff_work`, and the rest.
  unfoldable pub cmd_rx : ℕ → Bytes → Client W → Option (Reply × Bytes × Client W)
  unfolding rx_reply
  cmd_rx in_len buff_work c =
      if not (in_len == 0)
      then some (text res_ill_param, buff_work, c)
      else do d ← obj_down net cfg false c; rx_reply buff_work d
