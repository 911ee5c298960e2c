-- ===== src/CmdAscii/Send/Command.antt =====
-- The command TX (src/cmd_ascii.c) as a whole, on a line with one object.
use sipf_std_client_nrf.ClientHttp.{Net}
use sipf_std_client_nrf.CmdAscii.Send.Line.{object_line, tx_loop-object_line}
use sipf_std_client_nrf.CmdAscii.Send.{check_type_len, cmd_tx, upload_reply}
use sipf_std_client_nrf.Libc.{hex_bytes}
use sipf_std_client_nrf.Prelude.{
  ℕ, ◌+◌, ◌-◌, ◌*◌, ◌%◌, ◌≤◌, ◌<◌, ◌≡◌, true, ◌∷◌, ◌++◌, Bytes, arith, length, replicate, AreBytes,
}
use sipf_std_client_nrf.SipfObject.Client.{Client, Connector}

module _ {W : Type 0} (net : Net W) (cfg : Connector) where
  -- The command TX on ` TT YY VV...`, the digits of a tag, of a type and of 1 to 1021 bytes, uploads
  -- one object, as type, tag, length and bytes, and answers for this upload. The length is that of
  -- the value modulo 256, and only this remainder is checked against the type: a text of 256 bytes
  -- goes out with the length 0.
  pub cmd_tx-object_line :
      (tag type_id : ℕ) (v rest : Bytes) (c : Client W)
      → tag < 256
      → type_id < 256
      → AreBytes v
      → 0 < length rest
      → 0 < length v
      → length v ≤ 1021
      → check_type_len type_id (length v % 256) ≡ true
      → cmd_tx net cfg (object_line tag type_id (hex_bytes v ++ rest)) (7 + 2 * length v) c
        ≡ upload_reply net cfg
            (type_id ∷ tag ∷ length v % 256 ∷ (v ++ replicate (1021 - length v) 0))
            (3 + length v)
            c
  unfolding cmd_tx
  cmd_tx-object_line tag type_id v rest c h₁ h₂ bytes more some_value le fits =
      ground (arith, tx_loop-object_line tag type_id v rest h₁ h₂ bytes more le fits)
