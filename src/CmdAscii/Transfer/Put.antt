-- ===== src/CmdAscii/Transfer/Put.antt =====
-- src/cmd_ascii.c: the command FPUT. The callback that sends the file while the HTTP client runs is
-- `fput_send_cb`.
pub mod Forwarded
pub mod Wire
use sipf_std_client_nrf.ClientHttp.{Net}
use sipf_std_client_nrf.Cmd.{Reply, text, code}
use sipf_std_client_nrf.CmdAscii.Transfer.{Console, on_uart, msleep, sz_block}
use sipf_std_client_nrf.CmdAscii.{res_ill_param, res_ng, hex_to_uint8}
use sipf_std_client_nrf.Libc.{c_string, strlen, hex_8}
use sipf_std_client_nrf.Prelude.Faults.{◌>>=◌}
use sipf_std_client_nrf.Prelude.{
  ℕ, zero, suc, ◌+◌, ◌-◌, ◌*◌, ◌^◌, ◌++◌, true, false, not, ◌||◌, Option, none, some, ◌==◌, [],
  if◌then◌else◌, ltb, ℤ, pos, negsuc, neg, is_neg, to_int32, Bytes, length, get_or, set, take, drop,
  codes,
}
use sipf_std_client_nrf.SipfFile.{FileConfig, file_upload}
use sipf_std_client_nrf.UartBroker.{M}
use sipf_std_client_nrf.Xmodem.{
  RecvRet, begin, end, transmit_cancel, receive_start, receive_block, receive_req_next_block,
  receive_req_current_block,
}
use sipf_std_client_nrf.Zephyr.{Kernel}

-- The loop over in_buff[i] for `n` values of `i`: every space becomes a NUL, and the last one found
-- is in front of the file size.
unfoldable pub split_spaces : ℕ → ℕ → Bytes → Option ℕ → Bytes × Option ℕ
split_spaces zero i buf last = (buf, last)
split_spaces (suc n) i buf last =
    if get_or buf i 0 == 0x20
    then split_spaces n (i + 1) (set buf i 0) (some (i + 1))
    else split_spaces n (i + 1) buf last

-- The eight digits at `i`: `none` if one of them is none.
unfoldable pub file_size_at : Bytes → ℕ → Option ℕ
file_size_at buf i =
    let a = hex_to_uint8 buf i in
    let b = hex_to_uint8 buf (i + 2) in
    let c = hex_to_uint8 buf (i + 4) in
    let d = hex_to_uint8 buf (i + 6) in
    if a.err == 0
    then (if b.err == 0
        then (if c.err == 0
            then (if d.err == 0
                then some (a.ret * 2 ^ 24 + b.ret * 2 ^ 16 + c.ret * 2 ^ 8 + d.ret)
                else none)
            else none)
        else none)
    else none

-- The two parameters of the command: a refusal is `some none`.
unfoldable pub fput_params : Bytes → ℕ → Option (Option (Bytes × ℕ))
fput_params in_buff in_len =
    if not (get_or in_buff 0 0 == 0x20) || ltb in_len 2
    then some none
    else if ltb (length in_buff) in_len
    then none
    else (let (buf, last) = split_spaces (in_len - 1) 1 in_buff none in
        elim last [
          | none ↦ some none
          | some i ↦ do
            n ← strlen (drop i buf)
            some (
                if n == 8
                then elim (file_size_at buf i) [
                  | none ↦ none
                  | some size ↦ some (c_string (drop 1 buf), size)
                ]
                else none)
        ])

unfoldable pub fput_ok_res : ℕ → Bytes
fput_ok_res file_size = hex_8 file_size ++ codes "\r\nOK\r\n"

module _ {W : Type 0} (k : Kernel W) (net : Net W) where
  -- A function of the UART broker or of XMODEM, inside of the callback: the echo flag is not read.
  abbrev at_uart : {A : Type 0} → M W A → W → A × W
  at_uart m w = let (a, s) = m (record { is_echo = false; world = w }) in (a, s.world)

  -- sendChunkedData: the 128 bytes behind the header of `xmodem_block`. The errno is read behind a
  -- failure.
  unfoldable pub send_chunk : Bytes → W → ℤ × W
  send_chunk block w =
      let (ret, w') = net.send (take sz_block (drop 3 block)) w in
      (if is_neg ret then neg (net.errno w') else ret, w')

  -- total_sent += ret, for a result that is not negative
  abbrev add_sent : ℕ → ℤ → ℕ
  add_sent total (pos n) = total + n
  add_sent total (negsuc n) = total

  -- Behind the loop: a file that came out shorter than announced closes the socket.
  unfoldable pub fput_end : ℕ → ℕ → W → ℤ × W
  fput_end file_size total w = (pos total, if ltb total file_size then net.close w else w)

  -- The loop of cmdFputSendCb, by fuel: `none` if the fuel is used up. A result other than the four
  -- that are tested goes round again.
  unfoldable pub fput_loop : ℕ → ℕ → ℕ → ℕ → ℕ → Bytes → W → Option (ℤ × W)
  fput_loop zero file_size bn cnt_retry total block w = none
  fput_loop (suc fuel) file_size bn cnt_retry total block w =
      let (r, w₁) = at_uart (receive_block k bn block 1000) w in
      elim r.xret [
        | RecvRet.ok ↦
            let (ret, w₂) = send_chunk r.block w₁ in
            elim (is_neg ret) [
              | true ↦ (let (_, w₃) = at_uart (transmit_cancel k) w₂ in some (ret, w₃))
              | false ↦
                  let (_, w₃) = at_uart (receive_req_next_block k) w₂ in
                  fput_loop fuel file_size r.bn 0 (add_sent total ret) r.block w₃
            ]
        | RecvRet.finished ↦ some (fput_end file_size total w₁)
        | RecvRet.retry ↦ elim (ltb 10 cnt_retry) [
          | true ↦ (let (_, w₂) = at_uart (transmit_cancel k) w₁ in some (negsuc 0, w₂))
          | false ↦
              let (_, w₂) = at_uart (receive_req_current_block k) w₁ in
              fput_loop fuel file_size r.bn (cnt_retry + 1) total r.block w₂
        ]
        | RecvRet.canceled ↦ some (fput_end file_size total w₁)
        | _ ↦ fput_loop fuel file_size r.bn cnt_retry total r.block w₁
      ]

  -- cmdFputSendCb, where `block` is what the command left in `xmodem_block`. A failure at the first
  -- block is returned with its sign turned.
  unfoldable pub fput_send_cb : ℕ → ℕ → Bytes → W → Option (ℤ × W)
  fput_send_cb fuel file_size block w =
      let (ret, w₁) = send_chunk block w in
      elim ret [
        | negsuc e ↦ some (pos (suc e), w₁)
        | pos n ↦
            let (_, w₂) = at_uart (receive_req_next_block k) w₁ in
            fput_loop fuel file_size 1 0 n block w₂
      ]

-- How the wait for the first block ends: with the block, with too many retries, or otherwise.
pub data First : Type 0 where
  block : Bytes → First
  retry_over failed : First

module _ {W : Type 0} (k : Kernel W) where
  -- `n` of the ten retries are left.
  unfoldable pub first_block : ℕ → Bytes → M W First
  first_block zero buf s =
      let (r, s₁) = receive_block k 0 buf 3000 s in
      elim r.xret [
        | RecvRet.ok ↦ (block r.block, s₁)
        | RecvRet.retry ↦ (retry_over, s₁)
        | _ ↦ (failed, s₁)
      ]
  first_block (suc n) buf s =
      let (r, s₁) = receive_block k 0 buf 3000 s in
      elim r.xret [
        | RecvRet.ok ↦ (block r.block, s₁)
        | RecvRet.retry ↦ (let (_, s₂) = receive_req_current_block k s₁ in first_block n r.block s₂)
        | _ ↦ (failed, s₁)
      ]

-- `fuel` bounds the rounds of the callback.
module _ {W : Type 0} (k : Kernel W) (net : Net W) (cfg : FileConfig) (fuel : ℕ) where
  -- cmdFputSendCb as the HTTP client calls it. One that has not come to its end with its fuel, which
  -- need not end at all, is taken for one that fails.
  fput_callback : ℕ → Bytes → W → ℤ × W
  fput_callback file_size taken w = elim (fput_send_cb k net fuel file_size taken w) [
    | none ↦ (negsuc 0, w)
    | some r ↦ r
  ]

  -- the label fput_end
  fput_leave : Reply → Console W → Reply × Console W
  fput_leave reply c =
      let (_, c₁) = on_uart (end k) c in let (_, c₂) = on_uart (msleep k 10) c₁ in (reply, c₂)

  -- behind the first block
  fput_upload : Bytes → ℕ → Bytes → Console W → Option (Reply × Console W)
  fput_upload file_id file_size xmodem_block c = do
    (ret, files) ←
        file_upload net cfg file_id [] (some (fput_callback file_size xmodem_block))
          (to_int32 file_size) c.files
    some (
        fput_leave (text (if is_neg ret then res_ng else fput_ok_res file_size))
          (record c { files = files }))

  -- `xmodem_block` holds what an earlier command left there.
  unfoldable pub fput_receive : Bytes → Bytes → ℕ → Console W → Option (Reply × Console W)
  unfolding fput_leave fput_upload fput_callback
  fput_receive xmodem_block file_id file_size c =
      let (first, c₁) = on_uart (first_block k 10 xmodem_block) c in
      elim first [
        | block b ↦ fput_upload file_id file_size b c₁
        | retry_over ↦
            let (_, c₂) = on_uart (transmit_cancel k) c₁ in
            let (_, c₃) = on_uart (end k) c₂ in some (text res_ng, c₃)
        | failed ↦ some (fput_leave (text res_ng) c₁)
      ]

  unfoldable pub cmd_fput : Bytes → Bytes → ℕ → Console W → Option (Reply × Console W)
  cmd_fput xmodem_block in_buff in_len c = do
    params ← fput_params in_buff in_len
    elim params [
      | none ↦ some (text res_ill_param, c)
      | some (file_id, file_size) ↦
          let (_, c₁) = on_uart (msleep k 10) c in
          let (_, c₂) = on_uart (begin k) c₁ in
          let (ret, c₃) = on_uart (receive_start k) c₂ in
          if is_neg ret then some (code ret, c₃) else fput_receive xmodem_block file_id file_size c₃
    ]
