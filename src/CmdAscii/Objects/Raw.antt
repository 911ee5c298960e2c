-- ===== src/CmdAscii/Objects/Raw.antt =====
-- The command TXRAW (src/cmd_ascii.c) as a whole, on a line with a payload.
use sipf_std_client_nrf.ClientHttp.{Net}
use sipf_std_client_nrf.CmdAscii.Objects.{
  values, raw_values, ends_here, raw_upload, raw_parsed, cmd_tx_raw,
}
use sipf_std_client_nrf.CmdAscii.Send.{upload_reply}
use sipf_std_client_nrf.Libc.Hex.{digit_value-upper_digit}
use sipf_std_client_nrf.Libc.Numbers.{strtol16-hex_2, c_string-hex_2}
use sipf_std_client_nrf.Libc.{hex_2, hex_bytes, is_xdigit, upper_digit}
use sipf_std_client_nrf.Prelude.Faults.{◌>>=◌}
use sipf_std_client_nrf.Prelude.{
  ℕ, ◌+◌, ◌*◌, ◌/◌, ◌%◌, ◌<◌, ◌≡◌, refl, true, false, some, [], ◌∷◌, ◌++◌, Bytes, arith, length,
  ltb, lt→ltb, length-append, AreBytes,
}
use sipf_std_client_nrf.SipfObject.Client.{Client, Connector}

is_xdigit-upper_digit : (d : ℕ) → d < 16 → is_xdigit (upper_digit d) ≡ true
unfolding is_xdigit
is_xdigit-upper_digit d h = rw (is_xdigit, digit_value-upper_digit d h) refl

-- The pairs of digits that `%02X` prints are read back, up to what stands behind them.
raw_values-hex_bytes :
    (v rest : Bytes) → AreBytes v → raw_values (length v) (hex_bytes v ++ rest) ≡ values v rest
unfolding raw_values hex_bytes hex_2
raw_values-hex_bytes [] rest h = refl
raw_values-hex_bytes (x ∷ v) rest (hx, h) =
    let high = is_xdigit-upper_digit (x / 16) (omega arith) in
    let low = is_xdigit-upper_digit (x % 16) (omega arith) in
    ground (arith, raw_values-hex_bytes v rest h, c_string-hex_2 x [] hx, strtol16-hex_2 x hx)

abbrev pub raw_line : Bytes → Bytes → Bytes
raw_line v rest = 0x20 ∷ (hex_2 (length v) ++ 0x20 ∷ (hex_bytes v ++ rest))

module _ {W : Type 0} (net : Net W) (cfg : Connector) where
  raw_upload-hex_bytes :
      (v rest : Bytes) (z : ℕ) (c : Client W)
      → AreBytes v
      → ends_here z ≡ true
      → raw_upload net cfg (length v) (hex_bytes v ++ z ∷ rest) c
        ≡ upload_reply net cfg v (length v) c
  unfolding cmd_tx_raw
  raw_upload-hex_bytes v rest z c bytes ends =
      rw (raw_upload, raw_values-hex_bytes v (z ∷ rest) bytes, ends) refl

  raw_parsed-raw_line :
      (v rest : Bytes) (z : ℕ) (c : Client W)
      → AreBytes v
      → length v < 256
      → ends_here z ≡ true
      → raw_parsed net cfg (raw_line v (z ∷ rest)) c ≡ upload_reply net cfg v (length v) c
  unfolding cmd_tx_raw hex_2
  raw_parsed-raw_line v rest z c bytes few ends =
      let tail : Bytes = hex_bytes v ++ z ∷ rest in
      let long : ltb 4 (length (raw_line v (z ∷ rest))) ≡ true =
        lt→ltb 4 (length (raw_line v (z ∷ rest)))
          (omega (arith, length-append (hex_bytes v) (z ∷ rest))) in
      rw long (
        ground (
          arith,
          c_string-hex_2 (length v) tail few,
          strtol16-hex_2 (length v) few,
          raw_upload-hex_bytes v rest z c bytes ends,
        ))

  -- TXRAW on ` NN VV...`, the number of the bytes and the digits of 1 to 255 bytes, with a NUL, CR or LF
  -- behind them, uploads exactly these bytes as a payload, and answers for this upload; the device
  -- is locked.
  pub cmd_tx_raw-raw_line :
      (v rest : Bytes) (z : ℕ) (c : Client W)
      → AreBytes v
      → 0 < length v
      → length v < 256
      → ends_here z ≡ true
      → cmd_tx_raw net cfg (raw_line v (z ∷ rest)) (4 + 2 * length v) c
        ≡ (do (r, c') ← upload_reply net cfg v (length v) c; some (r, false, c'))
  unfolding cmd_tx_raw
  cmd_tx_raw-raw_line v rest z c bytes some_byte few ends =
      rw (raw_parsed-raw_line v rest z c bytes few ends) (ground arith)
