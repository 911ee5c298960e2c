-- ===== src/CmdAscii/Transfer.antt =====
-- src/cmd_ascii.c: the commands FPUT and FGET, which move a file between the UART, by XMODEM, and
-- the file service. `in_buff` is the buffer behind the name of the command; what the commands write
-- into it is not kept, since CmdParse clears it before the next line.
pub mod Put
pub mod Blocks
use sipf_std_client_nrf.ClientHttp.{Net}
use sipf_std_client_nrf.Cmd.{Reply, text, code}
use sipf_std_client_nrf.CmdAscii.{res_ill_param, res_ng, HexState, hex_to_uint8}
use sipf_std_client_nrf.Libc.{strlen, hex_8}
use sipf_std_client_nrf.Prelude.Runs.{Run, returns, lift, ◌>>=◌, ◌>>◌}
use sipf_std_client_nrf.Prelude.{
  ℕ, zero, suc, ◌+◌, ◌-◌, ◌*◌, ◌/◌, ◌%◌, ◌^◌, ◌++◌, Bool, true, false, not, ◌||◌, Option, none,
  some, ◌==◌, if◌then◌else◌, ltb, ℤ, pos, negsuc, is_neg, Bytes, length, get_or, set, take, drop,
  codes,
}
use sipf_std_client_nrf.SipfFile.Download.{Downloader, Downloaded, file_download}
use sipf_std_client_nrf.SipfFile.{FileConfig, Files}
use sipf_std_client_nrf.UartBroker.{M, Uart}
use sipf_std_client_nrf.Xmodem.{
  SendRet, begin, end, transmit_cancel, send_wait_request, send_end, send_block,
}
use sipf_std_client_nrf.Zephyr.{Kernel}

-- The statics of the file client and the echo flag of the UART, over one world.
pub record Console (W : Type 0) : Type 0 where
  pub is_echo : Bool
  pub files : Files W

-- A function of the UART broker or of XMODEM, on the console.
abbrev pub on_uart : {W A : Type 0} → M W A → Console W → A × Console W
on_uart m c =
    let (a, s) = m (record { is_echo = c.is_echo; world = c.files.client.world }) in
    (
      a,
      record {
        is_echo = s.is_echo;
        files = record c.files { client = record c.files.client { world = s.world } };
      },
    )

abbrev pub msleep : {W : Type 0} → Kernel W → ℕ → M W (Unit {0})
msleep k t s = (tt, record s { world = k.msleep t s.world })

unfoldable pub fget_ok_res : ℕ → Bytes
fget_ok_res file_size = codes "\r\n" ++ (hex_8 file_size ++ codes "\r\nOK\r\n")

unfoldable pub fget_ng_res : Bytes
fget_ng_res = codes "\r\nNG\r\n"

abbrev pub sz_block : ℕ
sz_block = 128

-- How the tries at one block end: it is sent, they are used up, or the transfer is given up.
pub data Tried : Type 0 where
  sent used_up : Tried
  stop : ℤ → Tried

module _ {W : Type 0} (k : Kernel W) where
  -- `n` of the three tries are left. XmodemSendBlock does not change the number.
  unfoldable pub fget_try : ℕ → ℕ → Bytes → M W Tried
  fget_try zero bn payload s = (used_up, s)
  fget_try (suc n) bn payload s =
      let (xret, s') = send_block k bn payload 500 s in
      elim xret [
        | SendRet.failed ↦ (stop (negsuc 0), s')
        | SendRet.timeout ↦ fget_try n bn payload s'
        | SendRet.retry ↦ fget_try n bn payload s'
        | SendRet.canceled ↦ (stop (negsuc 1), s')
        | SendRet.ok ↦ (sent, s')
      ]

  -- `n` blocks are left, and the next starts at `idx`. The result, and `fget_bn`.
  unfoldable pub fget_blocks : ℕ → ℕ → Bytes → ℕ → M W (ℤ × ℕ)
  fget_blocks zero idx buff bn s = ((pos 0, bn), s)
  fget_blocks (suc n) idx buff bn s =
      let len = length buff in
      let payload_len = if ltb (len - idx) sz_block then len % sz_block else sz_block in
      let (r, s') = fget_try 3 bn (take payload_len (drop idx buff)) s in
      elim r [
        | sent ↦ fget_blocks n (idx + sz_block) buff ((bn + 1) % 256) s'
        | used_up ↦ fget_blocks n (idx + sz_block) buff bn s'
        | stop e ↦ ((e, bn), s')
      ]

  -- cmdFgetCb on the bytes of a fragment: `fget_bn` is its static.
  unfoldable pub fget_cb : Bytes → ℕ → W → ℤ × ℕ × W
  fget_cb buff fget_bn w =
      let ((r, bn), s) =
        fget_blocks ((length buff + 127) / sz_block) 0 buff fget_bn
          (record { is_echo = false; world = w }) in
      (r, bn, s.world)

module _ {W : Type 0} (k : Kernel W) (net : Net W) (cfg : FileConfig) (dl : Downloader W) where
  -- the label fget_end
  fget_end : Bytes → Console W → Reply × Console W
  fget_end res c =
      let (_, c₁) = on_uart (end k) c in let (_, c₂) = on_uart (msleep k 10) c₁ in (text res, c₂)

  -- the answer NG behind a cancellation
  fget_cancel : Console W → Reply × Console W
  fget_cancel c = let (_, c') = on_uart (transmit_cancel k) c in fget_end fget_ng_res c'

  -- behind the download: the end of the transmission
  fget_close : ℕ → Console W → Reply × Console W
  fget_close file_size c =
      let (xret, c') = on_uart (send_end k 500) c in
      elim xret [
        | SendRet.timeout ↦ fget_cancel c'
        | SendRet.failed ↦ fget_cancel c'
        | _ ↦ fget_end (fget_ok_res file_size) c'
      ]

  -- `in_buff` starts with the file id here.
  fget_download : Bytes → Console W → Run (Reply × Console W)
  fget_download in_buff c = do
    len ← lift (strlen in_buff)
    d ← file_download net cfg dl (take len in_buff) (sz_block * 8) (fget_cb k) 1 c.files
    let c' = record c { files = d.files }
    returns (elim d.ret [ negsuc e ↦ fget_cancel c' | pos n ↦ fget_close n c' ])

  unfoldable pub cmd_fget : Bytes → ℕ → Console W → Run (Reply × Console W)
  unfolding fget_end fget_cancel fget_close fget_download
  cmd_fget in_buff in_len c =
      if not (get_or in_buff 0 0 == 0x20) || ltb in_len 2
      then returns (text res_ill_param, c)
      else (let (_, c₁) = on_uart (msleep k 10) c in
          let (_, c₂) = on_uart (begin k) c₁ in
          let (xret, c₃) = on_uart (send_wait_request k 30000) c₂ in
          elim xret [
            | SendRet.ok ↦ fget_download (drop 1 in_buff) c₃
            | _ ↦ returns (fget_cancel c₃)
          ])
