-- ===== src/SipfObject/Client/Download.antt =====
-- SipfObjClientObjDown (lib/sipf/src/sipf_object.c): the objects in an answer.
use sipf_std_client_nrf.ClientHttp.{Response}
use sipf_std_client_nrf.Prelude.{
  ℕ, zero, suc, ◌+◌, ◌-◌, ◌≤◌, ◌≡◌, some, [], ◌∷◌, ◌++◌, List, Bytes, length, get_elem?, arith,
  append_assoc, length-append, get_elem?-append_right, refl, ◌∙◌, ap, sym,
}
use sipf_std_client_nrf.SipfObject.Client.{walk, body_at}
use sipf_std_client_nrf.SipfObject.Payload.{Item, encode, encode_all, length-wire}

-- Where the objects start, the first of them at `i`.
abbrev pub starts : ℕ → List Item → List ℕ
starts i [] = []
starts i (x ∷ xs) = i ∷ starts (i + length (encode x)) xs

-- The third byte of an object.
size_byte :
    (pre rest : Bytes) (x : Item) (at : ℕ)
    → at ≡ length pre + 2
    → get_elem? (pre ++ (encode x ++ rest)) at ≡ some (length x.bytes)
size_byte pre rest x at e = get_elem?-append_right pre (encode x ++ rest) at 2 e

walk_last :
    (res : Response) (buf : Bytes) (n i len : ℕ)
    → body_at res buf (12 + (i + 2)) ≡ some len
    → res.content_length - 12 ≤ i + (3 + len)
    → walk res buf (suc n) i ≡ some (i ∷ [])
unfolding walk
walk_last res buf zero i len e le = refl
walk_last res buf (suc n) i len e le = ground arith

walk_next :
    (res : Response) (buf : Bytes) (n i len : ℕ) (rest : List ℕ)
    → body_at res buf (12 + (i + 2)) ≡ some len
    → suc (i + (3 + len)) ≤ res.content_length - 12
    → walk res buf (suc n) (i + (3 + len)) ≡ some rest
    → walk res buf (suc (suc n)) i ≡ some (i ∷ rest)
unfolding walk
walk_next res buf n i len rest e lt later = ground arith

-- The first object of several, wherever they stand.
first_size :
    (x : Item) (xs : List Item) (pre rest buf : Bytes) (at : ℕ)
    → buf ≡ pre ++ (encode_all (x ∷ xs) ++ rest)
    → at ≡ length pre + 2
    → get_elem? buf at ≡ some (length x.bytes)
first_size x xs pre rest buf at e₁ e₂ =
    let split = append_assoc (encode x) (encode_all xs) rest in
    let size = size_byte pre (encode_all xs ++ rest) x at e₂ in rw (e₁, split) size

pub walk-starts :
    (x : Item) (xs : List Item) (res : Response) (pre rest buf : Bytes) (n i : ℕ)
    → buf ≡ pre ++ (encode_all (x ∷ xs) ++ rest)
    → length pre ≡ res.body_frag_start + (12 + i)
    → res.content_length ≡ 12 + i + length (encode_all (x ∷ xs))
    → length xs ≤ n
    → walk res buf (suc n) i ≡ some (starts i (x ∷ xs))
walk-starts x [] res pre rest buf n i e at total fits =
    let size =
      first_size x [] pre rest buf (res.body_frag_start + (12 + (i + 2))) e (omega arith) in
    walk_last res buf n i (length x.bytes) size
      (omega (arith, length-append (encode x) [], length-wire x))
walk-starts x (y ∷ ys) res pre rest buf zero i e at total fits = absurd (omega arith)
walk-starts x (y ∷ ys) res pre rest buf (suc n) i e at total fits =
    let size =
      first_size x (y ∷ ys) pre rest buf (res.body_frag_start + (12 + (i + 2))) e (omega arith) in
    let sum = length-append (encode x) (encode_all (y ∷ ys)) in
    let more = length-append (encode y) (encode_all ys) in
    let width : length (encode x) ≡ 3 + length x.bytes = omega (arith, length-wire x) in
    let moved : buf ≡ (pre ++ encode x) ++ (encode_all (y ∷ ys) ++ rest) =
      e
      ∙ ap (λ t. pre ++ t) (append_assoc (encode x) (encode_all (y ∷ ys)) rest)
      ∙ sym (append_assoc pre (encode x) (encode_all (y ∷ ys) ++ rest)) in
    let later =
      walk-starts y ys res (pre ++ encode x) rest buf n (i + length (encode x)) moved
        (omega (arith, length-append pre (encode x))) (omega arith) (omega arith) in
    let next : i + (3 + length x.bytes) ≡ i + length (encode x) = omega arith in
    walk_next res buf n i (length x.bytes) (starts (i + length (encode x)) (y ∷ ys)) size
      (omega arith) (rw next later)
