-- ===== src/Xmodem.antt =====
-- src/xmodem.c: the XMODEM block protocol over the UART broker. Log calls are left out.
pub mod Frame
pub mod Build
pub mod Receive
pub mod Send
use sipf_std_client_nrf.Prelude.{
  ℕ, zero, suc, ◌+◌, ◌-◌, ◌/◌, ◌%◌, Bool, true, false, not, [], ◌∷◌, ltb, ◌==◌, if◌then◌else◌, ℤ,
  pos, negsuc, to_uint8, is_neg, is_zero, eq_ℤ, Bytes, length, get_or, set, replicate,
}
use sipf_std_client_nrf.UartBroker.{
  M, pure, ◌>>=◌, ◌>>◌, Uart, put_byte, put, get_byte_tm, clear_receive_queue, set_echo,
}
use sipf_std_client_nrf.Zephyr.{Kernel, eagain}

-- XmodemRecvRet is an `int` that also carries the broker's status codes.
pub data RecvRet : Type 0 where
  ok finished canceled retry dup failed timeout : RecvRet
  other : ℤ → RecvRet

-- `return ret;` of an int from a function of type XmodemRecvRet
unfoldable pub recv_ret : ℤ → RecvRet
recv_ret (pos zero) = ok
recv_ret (pos (suc zero)) = finished
recv_ret (pos (suc (suc zero))) = canceled
recv_ret (pos (suc (suc (suc zero)))) = retry
recv_ret (pos (suc (suc (suc (suc zero))))) = dup
recv_ret (negsuc zero) = failed
recv_ret (negsuc (suc zero)) = timeout
recv_ret r = other r

pub data SendRet : Type 0 where
  ok retry canceled failed timeout : SendRet

-- s += block[i] for `n` values of i, on a `uint8_t`
unfoldable pub sum_block : Bytes → ℕ → ℕ → ℕ → ℕ
sum_block block i zero s = s
sum_block block i (suc n) s = sum_block block (i + 1) n ((s + get_or block i 0) % 256)

-- -1: refused, -2: the block number of the last block; otherwise the block number.
unfoldable pub block_validation : Bytes → ℕ → ℤ
block_validation block bn =
    if not (get_or block 1 0 + get_or block 2 0 == 0xff)
    then negsuc 0
    else if bn == get_or block 1 0
    then negsuc 1
    else if not ((bn + 1) % 256 == get_or block 1 0)
    then negsuc 0
    else if sum_block block 3 128 0 == get_or block 131 0
    then pos (get_or block 1 0)
    else negsuc 0

-- for (i = 3; i < 131; i++) block[131] += block[i];
unfoldable pub add_sum : ℕ → ℕ → Bytes → Bytes
add_sum i zero block = block
add_sum i (suc n) block =
    add_sum (i + 1) n (set block 131 ((get_or block 131 0 + get_or block i 0) % 256))

-- memcpy(&buf[i], xs, length xs)
unfoldable pub copy : Bytes → ℕ → Bytes → Bytes
copy buf i [] = buf
copy buf i (x ∷ xs) = copy (set buf i x) (i + 1) xs

-- The block that XmodemSendBlock builds for a payload of at most 128 bytes.
unfoldable pub make_block : ℕ → Bytes → Bytes
make_block bn payload =
    let b₀ = set (replicate 132 0x1a) 0 0x01 in
    let b₁ = set b₀ 1 bn in
    let b₂ = set b₁ 2 (255 - bn) in let b₃ = copy b₂ 3 payload in add_sum 3 128 (set b₃ 131 0)

-- The result with what `*bn` and `block` hold behind the call.
pub record Received : Type 0 where
  pub xret : RecvRet
  pub bn : ℕ
  pub block : Bytes

unfoldable pub check_block : ℕ → Bytes → Received
check_block bn block =
    let bn_recv = block_validation block bn in
    if eq_ℤ bn_recv (negsuc 0)
    then record { xret = retry; bn = bn; block = block }
    else if eq_ℤ bn_recv (negsuc 1)
    then record { xret = dup; bn = bn; block = block }
    else record { xret = ok; bn = to_uint8 bn_recv; block = block }

unfoldable pub send_reply : ℤ → ℕ → SendRet
send_reply ret b =
    if eq_ℤ ret eagain
    then timeout
    else if is_neg ret
    then failed
    else if b == 0x06
    then ok
    else if b == 0x15
    then retry
    else if b == 0x18
    then canceled
    else failed

module _ {W : Type 0} (k : Kernel W) where
  -- -1 if the byte cannot be queued
  send_control : ℕ → M W ℤ
  send_control c = do ret ← put_byte k c; pure (if is_zero ret then pos 0 else negsuc 0)

  unfoldable pub send_ack : M W ℤ
  unfolding send_control
  send_ack = send_control 0x06

  unfoldable pub send_nak : M W ℤ
  unfolding send_control
  send_nak = send_control 0x15

  unfoldable pub begin : M W (Unit {0})
  begin = do _ ← set_echo k false; clear_receive_queue k

  unfoldable pub end : M W (Unit {0})
  end = do _ ← set_echo k true; pure tt

  unfoldable pub receive_start : M W ℤ
  receive_start = send_nak

  unfoldable pub receive_req_next_block : M W ℤ
  receive_req_next_block = send_ack

  unfoldable pub receive_req_current_block : M W ℤ
  receive_req_current_block = send_nak

  -- The `n` bytes left of a block, into `block` from `idx_block` on; a status other than 0 ends it.
  receive_rest : ℕ → ℕ → Bytes → M W (ℤ × Bytes)
  receive_rest zero idx_block block s = ((pos 0, block), s)
  receive_rest (suc n) idx_block block s =
      let ((ret, b), s') = get_byte_tm k 100 s in
      elim (is_zero ret) [
        | true ↦ receive_rest n ((idx_block + 1) % 256) (set block idx_block b) s'
        | false ↦ ((ret, block), s')
      ]

  -- behind the header byte 0x01
  unfoldable pub receive_body : ℕ → Bytes → M W Received
  unfolding receive_rest
  receive_body bn block = do
    (ret, block') ← receive_rest 131 1 (set block 0 0x01)
    pure (
        if is_zero ret
        then check_block bn block'
        else record { xret = recv_ret ret; bn = bn; block = block' })

  unfoldable pub receive_block : ℕ → Bytes → ℕ → M W Received
  receive_block bn block time_out s =
      let ((ret, b), s') = get_byte_tm k time_out s in
      let stay : RecvRet → Received = λ x. record { xret = x; bn = bn; block = block } in
      if eq_ℤ ret eagain
      then (stay retry, s')
      else if not (is_zero ret)
      then (stay (recv_ret ret), s')
      else if b == 0x01
      then receive_body bn block s'
      else if b == 0x04
      then (let (a, s'') = send_ack s' in (stay (if is_zero a then finished else failed), s''))
      else if b == 0x18
      then (stay canceled, s')
      else (stay retry, s')

  unfoldable pub transmit_cancel : M W ℤ
  unfolding send_control
  transmit_cancel = do
    ret ← put_byte k 0x18
    elim (is_zero ret) [ false ↦ pure (negsuc 0) | true ↦ send_control 0x18 ]

  -- `n` of the ten rounds are left.
  wait_request_loop : ℕ → ℕ → M W SendRet
  wait_request_loop zero time_out s = (failed, s)
  wait_request_loop (suc n) time_out s =
      let ((ret, b), s') = get_byte_tm k (time_out / 10) s in
      let next = wait_request_loop n time_out s' in
      if is_neg ret
      then (if eq_ℤ ret eagain then next else (failed, s'))
      else if b == 0x15
      then (ok, s')
      else if b == 0x18
      then (canceled, s')
      else next

  unfoldable pub send_wait_request : ℕ → M W SendRet
  unfolding wait_request_loop
  send_wait_request time_out = wait_request_loop 10 time_out

  unfoldable pub send_end : ℕ → M W SendRet
  send_end time_out = do
    ret ← put_byte k 0x04
    elim (is_neg ret) [
      | true ↦ pure failed
      | false ↦ do
        (ret', b) ← get_byte_tm k time_out
        pure (
            if is_neg ret'
            then (if eq_ℤ ret' eagain then timeout else failed)
            else if b == 0x06
            then ok
            else failed)
    ]

  -- UartBrokerPut returns a count, so `ret < 0` behind it never holds.
  unfoldable pub send_block : ℕ → Bytes → ℕ → M W SendRet
  unfolding send_reply
  send_block bn payload time_out = elim (ltb 128 (length payload)) [
    | true ↦ pure failed
    | false ↦ do
      _ ← put k (make_block bn payload)
      (ret, b) ← get_byte_tm k time_out
      pure (send_reply ret b)
  ]
