-- ===== src/SipfObject/Payload.antt =====
-- SipfObjectCreateObjUpPayload and SipfObjectParse (lib/sipf/src/sipf_object.c) against a
-- description of the format that knows no buffer and no index.
use mathlib.Core.List.{reverse}
use mathlib.Mathlib.Data.List.Basic.{reverse-concat'}
use sipf_std_client_nrf.Libc.Copy.{drop-drop, memcpy-at, memset_all, drop-replicate}
use sipf_std_client_nrf.Libc.{memcpy, slice}
use sipf_std_client_nrf.Prelude.{
  ℕ, zero, suc, ◌+◌, ◌-◌, ◌%◌, ◌≤◌, ◌≡◌, refl, ap, sym, ◌∙◌, true, ◌||◌, some, [], ◌∷◌, ◌++◌, List,
  map, ◌==◌, if◌then◌else◌, pos, Bytes, length, get_or, take, drop, replicate, arith, append_assoc,
  length-append, length-drop, length-replicate,
}
use sipf_std_client_nrf.SipfObject.{
  Object, no_swap, swapped, put_object, put_objects, create_obj_up_payload,
}

-- An object as the caller means it.
pub record Item : Type 0 where
  pub type_id : ℕ
  pub tag_id : ℕ
  pub bytes : Bytes

abbrev pub object_of : Item → Object
object_of x = record {
  obj_type = x.type_id;
  obj_tagid = x.tag_id;
  value_len = length x.bytes;
  value = some x.bytes;
}

-- The value as it is sent: numbers of several bytes with the most significant byte first.
abbrev pub wire : Item → Bytes
wire x = if no_swap x.type_id then x.bytes else reverse x.bytes

abbrev pub encode : Item → Bytes
encode x = x.type_id ∷ x.tag_id ∷ length x.bytes ∷ wire x

abbrev pub encode_all : List Item → Bytes
encode_all [] = []
encode_all (x ∷ xs) = encode x ++ encode_all xs

abbrev pub Sendable : Item → Type 0
Sendable x = (length x.bytes ≤ 220) × ((no_swap x.type_id || length x.bytes % 2 == 0) ≡ true)

abbrev pub AllSendable : List Item → Type 0
AllSendable [] = Unit {0}
AllSendable (x ∷ xs) = Sendable x × AllSendable xs

take-suc : (v : Bytes) (n : ℕ) → suc n ≤ length v → take (suc n) v ≡ take n v ++ get_or v n 0 ∷ []
take-suc [] n h = absurd (omega arith)
take-suc (x ∷ v) zero h = refl
take-suc (x ∷ v) (suc n) h = ap (◌∷◌ x) (take-suc v n (omega arith))

swapped-take : (v : Bytes) (n : ℕ) → n ≤ length v → swapped v n ≡ reverse (take n v)
unfolding swapped
swapped-take v zero h = refl
swapped-take v (suc n) h =
    ap (◌∷◌ (get_or v n 0)) (swapped-take v n (omega arith))
    ∙ sym (reverse-concat' (take n v) (get_or v n 0))
    ∙ ap reverse (sym (take-suc v n h))

take_all : (v : Bytes) → take (length v) v ≡ v
take_all [] = refl
take_all (x ∷ v) = ap (◌∷◌ x) (take_all v)

swapped-length : (v : Bytes) → swapped v (length v) ≡ reverse v
swapped-length v = swapped-take v (length v) (omega arith) ∙ ap reverse (take_all v)

length-swapped : (v : Bytes) (n : ℕ) → length (swapped v n) ≡ n
unfolding swapped
length-swapped v zero = refl
length-swapped v (suc n) = ap suc (length-swapped v n)

length-reverse : (v : Bytes) → length (reverse v) ≡ length v
length-reverse v = ap length (sym (swapped-length v)) ∙ length-swapped v (length v)

pub length-wire : (x : Item) → length (wire x) ≡ length x.bytes
length-wire x = ground (arith, length-reverse x.bytes)

-- A second piece behind a first one.
memcpy-behind :
    (pre h w rest : Bytes)
    → length h + length w ≤ length rest
    → memcpy (pre ++ (h ++ drop (length h) rest)) (length pre + length h) w
      ≡ some (pre ++ ((h ++ w) ++ drop (length h + length w) rest))
memcpy-behind pre h w rest le =
    let room : length w ≤ length (drop (length h) rest) =
      omega (arith, length-drop (length h) rest) in
    let at = memcpy-at (pre ++ h) (drop (length h) rest) w room in
    let e₁ = append_assoc pre h (drop (length h) rest) in
    let e₂ = append_assoc pre h (w ++ drop (length h + length w) rest) in
    let e₃ = append_assoc h w (drop (length h + length w) rest) in
    let e₄ = drop-drop (length h) (length w) rest in
    let e₅ : length (pre ++ h) ≡ length pre + length h = length-append pre h in cc

slice_all : (v : Bytes) → slice v 0 (length v) ≡ some v
unfolding slice
slice_all v = ground (arith, take_all v)

abbrev head_of : Item → Bytes
head_of x = x.type_id ∷ x.tag_id ∷ length x.bytes ∷ []

put_object-encode :
    (x : Item) (pre rest : Bytes)
    → Sendable x
    → length (encode x) ≤ length rest
    → put_object (object_of x) (pre ++ rest) (length pre)
      ≡ some
          (pos (length pre + length (encode x)), pre ++ (encode x ++ drop (length (encode x)) rest))
unfolding put_object
put_object-encode x pre rest (small, even) le = ground (
  arith,
  memcpy-at pre rest (head_of x) (omega arith),
  memcpy-behind pre (head_of x) (wire x) rest (omega arith),
  slice_all x.bytes,
  swapped-length x.bytes,
  length-wire x,
)

-- An object that comes to the bytes `e`, and others that come to `es`.
put_objects_step :
    (o : Object) (os : List Object) (pre rest e es : Bytes)
    → put_object o (pre ++ rest) (length pre)
      ≡ some (pos (length pre + length e), pre ++ (e ++ drop (length e) rest))
    → put_objects os ((pre ++ e) ++ drop (length e) rest) (length (pre ++ e))
      ≡ some (
        pos (length (pre ++ e) + length es),
        (pre ++ e) ++ (es ++ drop (length es) (drop (length e) rest)),
      )
    → put_objects (o ∷ os) (pre ++ rest) (length pre)
      ≡ some
          (pos (length pre + length (e ++ es)), pre ++ ((e ++ es) ++ drop (length (e ++ es)) rest))
unfolding put_objects
put_objects_step o os pre rest e es first later =
    let e₁ = append_assoc pre e (drop (length e) rest) in
    let e₂ = append_assoc pre e (es ++ drop (length es) (drop (length e) rest)) in
    let e₃ = append_assoc e es (drop (length es) (drop (length e) rest)) in
    let e₄ = drop-drop (length e) (length es) rest in
    ground (arith, length-append pre e, length-append e es, e₁, e₂, e₃, e₄)

pub put_objects-encode_all :
    (xs : List Item) (pre rest : Bytes)
    → AllSendable xs
    → length (encode_all xs) ≤ length rest
    → put_objects (map object_of xs) (pre ++ rest) (length pre)
      ≡ some (
        pos (length pre + length (encode_all xs)),
        pre ++ (encode_all xs ++ drop (length (encode_all xs)) rest),
      )
unfolding put_objects
put_objects-encode_all [] pre rest ok le = ground arith
put_objects-encode_all (x ∷ xs) pre rest (ok, oks) le =
    let sum = length-append (encode x) (encode_all xs) in
    put_objects_step (object_of x) (map object_of xs) pre rest (encode x) (encode_all xs)
      (put_object-encode x pre rest ok (omega arith))
      (put_objects-encode_all xs (pre ++ encode x) (drop (length (encode x)) rest) oks
        (omega (arith, length-drop (length (encode x)) rest)))

-- SipfObjectCreateObjUpPayload writes objects of at most 220 bytes, where all but those of the
-- byte, binary and text types have an even length, one behind the other: type, tag, length, and
-- the value, which is turned around for all but these types. The rest of the buffer is zero, and
-- the result is the number of bytes written, where the buffer has room for them.
pub create_obj_up_payload-encode_all :
    (xs : List Item) (raw : Bytes)
    → AllSendable xs
    → length (encode_all xs) ≤ length raw
    → create_obj_up_payload (some raw) (length raw) (map object_of xs)
      ≡ some (
        pos (length (encode_all xs)),
        some (encode_all xs ++ replicate (length raw - length (encode_all xs)) 0),
      )
unfolding create_obj_up_payload
create_obj_up_payload-encode_all xs raw ok le = ground (
  arith,
  memset_all raw,
  length-replicate {A = ℕ} (length raw) 0,
  put_objects-encode_all xs [] (replicate (length raw) 0) ok
      (omega (arith, length-replicate {A = ℕ} (length raw) 0)),
  drop-replicate (length (encode_all xs)) (length raw) 0,
)
