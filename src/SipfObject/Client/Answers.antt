-- ===== src/SipfObject/Client/Answers.antt =====
-- SipfObjClientObjDown (lib/sipf/src/sipf_object.c) on an answer of the documented form.
use sipf_std_client_nrf.ClientHttp.{Response}
use sipf_std_client_nrf.Libc.Copy.{slice-at}
use sipf_std_client_nrf.Libc.{slice, same_text}
use sipf_std_client_nrf.Prelude.{
  ℕ, ◌+◌, ◌≤◌, ◌<◌, ◌≡◌, some, [], ◌∷◌, ◌++◌, List, Bytes, length, arith, append_assoc,
  length-append, get_elem?-append_right, refl, ◌∙◌, sym, pos, codes, if◌then◌else◌, ◌==◌, true,
}
use sipf_std_client_nrf.SipfObject.Client.Download.{starts, walk-starts}
use sipf_std_client_nrf.SipfObject.Client.{walk, body_at, objects_down, obj_max_cnt, listing_of}
use sipf_std_client_nrf.SipfObject.Payload.{Item, encode, encode_all}

-- An answer without its objects: what the header says of it, the OTID, the two times of 8 bytes.
pub record Answer : Type 0 where
  pub head : Bytes
  pub otid : Bytes
  pub times : Bytes
  pub remains : ℕ
  pub reserved : ℕ

abbrev pub IsAnswer : Answer → Type 0
IsAnswer a = (length a.head ≡ 11) × (length a.otid ≡ 16) × (length a.times ≡ 16)

-- The answer with its objects, and whatever stands behind it in the buffer.
abbrev pub answer_bytes : Answer → List Item → Bytes → Bytes
answer_bytes a xs rest =
    (0x12 ∷ a.head)
    ++ ((0x00 ∷ a.otid) ++ (a.times ++ ((a.remains ∷ a.reserved ∷ []) ++ (encode_all xs ++ rest))))

-- The five parts, split behind each of them.
parts_assoc :
    (p a b c d e : Bytes)
    → (p ++ (a ++ (b ++ (c ++ (d ++ e)))) ≡ (p ++ a) ++ (b ++ (c ++ (d ++ e))))
      × (p ++ (a ++ (b ++ (c ++ (d ++ e)))) ≡ ((p ++ a) ++ b) ++ (c ++ (d ++ e)))
      × (p ++ (a ++ (b ++ (c ++ (d ++ e)))) ≡ (((p ++ a) ++ b) ++ c) ++ (d ++ e))
      × (p ++ (a ++ (b ++ (c ++ (d ++ e)))) ≡ ((((p ++ a) ++ b) ++ c) ++ d) ++ e)
parts_assoc p a b c d e =
    let s₁ = sym (append_assoc p a (b ++ (c ++ (d ++ e)))) in
    let s₂ = s₁ ∙ sym (append_assoc (p ++ a) b (c ++ (d ++ e))) in
    let s₃ = s₂ ∙ sym (append_assoc ((p ++ a) ++ b) c (d ++ e)) in
    (s₁, s₂, s₃, s₃ ∙ sym (append_assoc (((p ++ a) ++ b) ++ c) d e))

listing_objects :
    (a : Answer) (xs : List Item) (res : Response) (pre rest : Bytes)
    → IsAnswer a
    → length pre ≡ res.body_frag_start
    → res.content_length ≡ 47 + length (encode_all xs)
    → length xs ≤ 255
    → (if res.content_length == 12 + 35
        then some []
        else walk res (pre ++ answer_bytes a xs rest) obj_max_cnt 35)
      ≡ some (starts 35 xs)
listing_objects a [] res pre rest (ha, ho, ht) at total fits = ground arith
listing_objects a (x ∷ xs) res pre rest (ha, ho, ht) at total fits =
    let front : Bytes =
      (((pre ++ (0x12 ∷ a.head)) ++ (0x00 ∷ a.otid)) ++ a.times) ++ (a.remains ∷ a.reserved ∷ []) in
    let width = length-append (encode x) (encode_all xs) in
    let l₁ = length-append pre (0x12 ∷ a.head) in
    let l₂ = length-append (pre ++ (0x12 ∷ a.head)) (0x00 ∷ a.otid) in
    let l₃ = length-append ((pre ++ (0x12 ∷ a.head)) ++ (0x00 ∷ a.otid)) a.times in
    let l₄ =
      length-append (((pre ++ (0x12 ∷ a.head)) ++ (0x00 ∷ a.otid)) ++ a.times)
        (a.remains ∷ a.reserved ∷ []) in
    let tail = encode_all (x ∷ xs) ++ rest in
    let (s₁, s₂, s₃, moved) =
      parts_assoc pre (0x12 ∷ a.head) (0x00 ∷ a.otid) a.times (a.remains ∷ a.reserved ∷ []) tail in
    let walked =
      walk-starts x xs res front rest (pre ++ answer_bytes a (x ∷ xs) rest) 254 35 moved
        (omega arith) (omega arith) (omega arith) in
    ground (arith, walked)

slice-part :
    (p xs rest : Bytes) (i n : ℕ)
    → i ≡ length p
    → n ≡ length xs
    → slice (p ++ (xs ++ rest)) i n ≡ some xs
slice-part p xs rest i n at len = rw (at, len) (slice-at p xs rest)

-- What stands where in the buffer.
answer_places :
    (a : Answer) (tail : Bytes) (res : Response) (pre buf : Bytes)
    → IsAnswer a
    → length pre ≡ res.body_frag_start
    → buf
      ≡ pre
        ++ ((0x12 ∷ a.head)
            ++ ((0x00 ∷ a.otid) ++ (a.times ++ ((a.remains ∷ a.reserved ∷ []) ++ tail))))
    → (body_at res buf 0 ≡ some 0x12)
      × (body_at res buf 12 ≡ some 0x00)
      × (slice buf (res.body_frag_start + 13) 16 ≡ some a.otid)
      × (body_at res buf (12 + 33) ≡ some a.remains)
answer_places a tail res pre buf (ha, ho, ht) at e =
    let d : Bytes = a.remains ∷ a.reserved ∷ [] in
    let (s₁, s₂, s₃, s₄) = parts_assoc pre (0x12 ∷ a.head) (0x00 ∷ a.otid) a.times d tail in
    let l₁ = length-append pre (0x12 ∷ a.head) in
    let l₂ = length-append (pre ++ (0x12 ∷ a.head)) (0x00 ∷ a.otid) in
    let l₃ = length-append ((pre ++ (0x12 ∷ a.head)) ++ (0x00 ∷ a.otid)) a.times in
    let f = res.body_frag_start in
    (
      rw e (get_elem?-append_right pre _ (f + 0) 0 (omega arith)),
      rw (e, s₁) (get_elem?-append_right (pre ++ (0x12 ∷ a.head)) _ (f + 12) 0 (omega arith)),
      rw
          (
            e,
            s₁,
            ← (
                append_assoc (pre ++ (0x12 ∷ a.head)) (0x00 ∷ [])
                  (a.otid ++ (a.times ++ (d ++ tail)))),
          )
          (slice-part ((pre ++ (0x12 ∷ a.head)) ++ (0x00 ∷ [])) a.otid (a.times ++ (d ++ tail))
            (f + 13) 16 (omega (arith, length-append (pre ++ (0x12 ∷ a.head)) (0x00 ∷ [])))
            (omega arith)),
      rw (e, s₃)
          (get_elem?-append_right (((pre ++ (0x12 ∷ a.head)) ++ (0x00 ∷ a.otid)) ++ a.times) _
            (f + (12 + 33)) 0 (omega arith)),
    )

-- SipfObjClientObjDown takes an answer of the documented form apart: with the status OK, with as
-- many bytes as its objects need, fewer than 1512, and with at most 255 objects, the result is 0,
-- and the caller gets the OTID, the number of objects that remain, and for each object, in order,
-- the place where it starts; none, if the answer has no object.
pub objects_down-answer :
    (a : Answer) (xs : List Item) (res : Response) (pre rest : Bytes)
    → IsAnswer a
    → res.http_status ≡ codes "OK"
    → length pre ≡ res.body_frag_start
    → res.content_length ≡ 47 + length (encode_all xs)
    → res.content_length < 1512
    → length xs ≤ 255
    → objects_down res (pre ++ answer_bytes a xs rest)
      ≡ some (
        pos 0,
        some (record {
          sipf_obj_payload = res.body_frag_start + 12;
          otid = a.otid;
          user_send_datetime = 17;
          recv_datetime = 25;
          remains = a.remains;
          p_objs = starts 35 xs;
        }),
      )
unfolding objects_down listing_of same_text
objects_down-answer a xs res pre rest ok status at total small fits =
    let buf = pre ++ answer_bytes a xs rest in
    let (p₁, p₂, p₃, p₄) = answer_places a (encode_all xs ++ rest) res pre buf ok at refl in
    let objects = listing_objects a xs res pre rest ok at total fits in
    let text : same_text res.http_status (codes "OK") ≡ true = rw status in ground (arith)
