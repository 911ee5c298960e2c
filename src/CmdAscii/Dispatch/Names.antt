-- ===== src/CmdAscii/Dispatch/Names.antt =====
-- src/cmd_ascii.c: CmdAsciiParse against a lookup of the line's first word.
use sipf_std_client_nrf.Cmd.{text}
use sipf_std_client_nrf.CmdAscii.Dispatch.{
  Handler, is_named, rest_len, parse_table, Firmware, Outside, cmdfunc, cmd_ascii_parse,
}
use sipf_std_client_nrf.CmdAscii.{res_ng}
use sipf_std_client_nrf.Libc.{starts_with, same_text}
use sipf_std_client_nrf.Prelude.Runs.{returns}
use sipf_std_client_nrf.Prelude.{
  ℕ, ◌+◌, ◌<◌, ◌≡◌, ◌^◌, refl, ◌++◌, Bool, true, false, not, ◌&&◌, Option, none, some, [], ◌∷◌,
  List, ◌==◌, if◌then◌else◌, Bytes, length, arith, drop-length-append,
}

-- A text with neither a space nor a NUL.
unfoldable pub is_word : Bytes → Bool
is_word [] = true
is_word (c ∷ cs) = not (c == 0) && (not (c == 0x20) && is_word cs)

-- What is in the buffer behind the first word, where `k` characters of the line are left: a space,
-- or, behind the line, a NUL.
pub data Behind : Bytes → ℕ → Type 0 where
  parameters : {rest : Bytes} {k : ℕ} → Behind (0x20 ∷ rest) k
  line_end : {rest : Bytes} → Behind (0 ∷ rest) 0

-- The entry with this name.
unfoldable pub lookup : {S : Type 0} → List (Bytes × Handler S) → Bytes → Option (Handler S)
lookup [] word = none
lookup ((name, h) ∷ table) word =
    let rest = lookup table word in if same_text name word then some h else rest

-- What the entry does, and NG where there is none.
unfoldable pub run_entry : {S : Type 0} → Option (Handler S) → Handler S
run_entry none rest k s = returns (text res_ng, s)
run_entry (some h) rest k s = h rest k s

unfoldable pub names_are_words : {S : Type 0} → List (Bytes × Handler S) → Bool
names_are_words [] = true
names_are_words ((name, h) ∷ table) = is_word name && names_are_words table

is_named-word :
    (name word : Bytes) {rest : Bytes} {k : ℕ}
    → is_word name ≡ true
    → is_word word ≡ true
    → Behind rest k
    → is_named (word ++ rest) (length word + k) name ≡ same_text name word
unfolding is_word starts_with same_text
is_named-word [] [] n w parameters = ground arith
is_named-word [] [] n w line_end = refl
is_named-word [] (c ∷ cs) n w b = ground arith
is_named-word (x ∷ xs) [] n w parameters = ground arith
is_named-word (x ∷ xs) [] n w line_end = ground arith
is_named-word (x ∷ xs) (c ∷ cs) {rest} {k} n w b =
    let n' : is_word xs ≡ true = ground arith in
    let w' : is_word cs ≡ true = ground arith in
    ground (arith, is_named-word xs cs {rest = rest} {k = k} n' w' b)

same_text-eq : (a b : Bytes) → same_text a b ≡ true → a ≡ b
unfolding same_text
same_text-eq [] [] h = refl
same_text-eq [] (b ∷ bs) h = absurd (ground arith)
same_text-eq (a ∷ xs) [] h = absurd (ground arith)
same_text-eq (a ∷ xs) (b ∷ bs) h =
    let e : a ≡ b = ground arith in
    let t : same_text xs bs ≡ true = ground arith in rw (e, same_text-eq xs bs t) refl

-- The rest of a line of fewer than 65536 characters.
rest_len_lem : (n k : ℕ) → n + k < 2 ^ 16 → rest_len (n + k) n ≡ k
rest_len_lem n k h = omega arith

parse_table-lookup_in :
    {S : Type 0} (name : Bytes) (h : Handler S) (table : List (Bytes × Handler S))
    (word rest : Bytes) (k : ℕ) (s : S) (b : Bool)
    → same_text name word ≡ b
    → is_named (word ++ rest) (length word + k) name ≡ b
    → length word + k < 2 ^ 16
    → parse_table table (word ++ rest) (length word + k) s ≡ run_entry (lookup table word) rest k s
    → parse_table ((name, h) ∷ table) (word ++ rest) (length word + k) s
      ≡ run_entry (lookup ((name, h) ∷ table) word) rest k s
unfolding parse_table lookup run_entry
parse_table-lookup_in name h table word rest k s true e m small ih =
    let same = same_text-eq name word e in
    rw (m, e, same, drop-length-append word rest, rest_len_lem (length word) k small) refl
parse_table-lookup_in name h table word rest k s false e m small ih = rw (m, e) ih

parse_table-lookup :
    {S : Type 0} (table : List (Bytes × Handler S)) (word : Bytes) {rest : Bytes} {k : ℕ} (s : S)
    → names_are_words table ≡ true
    → is_word word ≡ true
    → Behind rest k
    → length word + k < 2 ^ 16
    → parse_table table (word ++ rest) (length word + k) s ≡ run_entry (lookup table word) rest k s
unfolding parse_table lookup run_entry names_are_words
parse_table-lookup [] word s n w b small = refl
parse_table-lookup ((name, h) ∷ table) word s n w b small =
    let n₁ : is_word name ≡ true = ground arith in
    let n₂ : names_are_words table ≡ true = ground arith in
    parse_table-lookup_in name h table word _ _ s (same_text name word) refl
      (is_named-word name word n₁ w b) small (parse_table-lookup table word s n₂ w b small)

-- CmdAsciiParse on a line of fewer than 65536 characters that starts with a word of neither spaces
-- nor NULs, behind which stands a space or the end of the line: the result is that of the function
-- whose name in the table is this word, on the buffer behind the word and the length of the line
-- behind it, and NG without a change where no name is this word.
pub cmd_ascii_parse-lookup :
    {P W : Type 0} (o : Outside P W) (word : Bytes) {rest : Bytes} {k : ℕ} (s : Firmware P W)
    → is_word word ≡ true
    → Behind rest k
    → length word + k < 2 ^ 16
    → cmd_ascii_parse o (word ++ rest) (length word + k) s
      ≡ run_entry (lookup (cmdfunc o) word) rest k s
unfolding cmd_ascii_parse cmdfunc names_are_words is_word
cmd_ascii_parse-lookup o word s w b small = parse_table-lookup (cmdfunc o) word s refl w b small
