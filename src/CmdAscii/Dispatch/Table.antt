-- ===== src/CmdAscii/Dispatch/Table.antt =====
-- The loop of CmdAsciiParse over its table (src/cmd_ascii.c): what holds of the result of each
-- function that the line may call holds of the loop's result.
use sipf_std_client_nrf.Cmd.{Reply, text}
use sipf_std_client_nrf.CmdAscii.Dispatch.{Handler, is_named, rest_len, parse_table}
use sipf_std_client_nrf.CmdAscii.{res_ng}
use sipf_std_client_nrf.Prelude.Runs.{Run, returns}
use sipf_std_client_nrf.Prelude.{
  ℕ, ◌≡◌, refl, Bool, true, false, [], ◌∷◌, List, Bytes, length, drop,
}

module _ {S : Type 0} (Q : Run (Reply × S) → Type 0) (b : Bytes) (n : ℕ) (s : S) where
  -- The entries that the line names have results with this property.
  unfoldable pub AllHold : List (Bytes × Handler S) → Type 0
  AllHold [] = Unit {0}
  AllHold ((name, h) ∷ table) =
      (is_named b n name ≡ true → Q (h (drop (length name) b) (rest_len n (length name)) s))
      × AllHold table

  entry-Holds :
      (name : Bytes) (h : Handler S) (table : List (Bytes × Handler S)) (named : Bool)
      → is_named b n name ≡ named
      → (is_named b n name ≡ true → Q (h (drop (length name) b) (rest_len n (length name)) s))
      → Q (parse_table table b n s)
      → Q (parse_table ((name, h) ∷ table) b n s)
  unfolding parse_table
  entry-Holds name h table true e k t = rw e (k e)
  entry-Holds name h table false e k t = rw e t

  pub parse_table-Holds :
      (table : List (Bytes × Handler S))
      → Q (returns (text res_ng, s))
      → AllHold table
      → Q (parse_table table b n s)
  unfolding AllHold parse_table
  parse_table-Holds [] ng k = ng
  parse_table-Holds ((name, h) ∷ table) ng (kh, kt) =
      entry-Holds name h table _ refl kh (parse_table-Holds table ng kt)
