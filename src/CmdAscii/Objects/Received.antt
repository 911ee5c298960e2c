-- ===== src/CmdAscii/Objects/Received.antt =====
-- src/cmd_ascii.c: what RX prints for an answer with objects (lib/sipf/src/sipf_object.c).
use sipf_std_client_nrf.ClientHttp.{Response}
use sipf_std_client_nrf.CmdAscii.Objects.{
  crlf, unset, object_text, object_lines, listing_text, rx_text,
}
use sipf_std_client_nrf.Libc.Copy.{slice-at}
use sipf_std_client_nrf.Libc.{hex_2, hex_bytes, slice}
use sipf_std_client_nrf.Prelude.{
  ℕ, suc, ◌+◌, ◌≤◌, ◌<◌, ◌≡◌, refl, ap, sym, ◌∙◌, ◌++◌, false, some, [], ◌∷◌, List, ◌==◌, pos,
  Bytes, length, take, drop, codes, arith, append_assoc, length-append, length-drop,
  take-length-append, drop-length-append,
}
use sipf_std_client_nrf.SipfObject.Client.Answers.{
  Answer, IsAnswer, answer_bytes, objects_down-answer,
}
use sipf_std_client_nrf.SipfObject.Client.Download.{starts}
use sipf_std_client_nrf.SipfObject.Client.{Listing, objects_down}
use sipf_std_client_nrf.SipfObject.Payload.{Item, encode, encode_all, wire, length-wire}
use sipf_std_client_nrf.SipfObject.RoundTrip.{object_parse-encode}

-- The line of an object: tag, type, size and value.
unfoldable pub rx_line : Item → Bytes
rx_line x =
    hex_2 x.tag_id
    ++ (0x20 ∷ hex_2 x.type_id
        ++ (0x20 ∷ hex_2 (length x.bytes) ++ (0x20 ∷ hex_bytes (wire x) ++ crlf)))

unfoldable pub rx_lines : List Item → Bytes
rx_lines [] = []
rx_lines (x ∷ xs) = rx_line x ++ rx_lines xs

-- No value is longer than a byte can say.
unfoldable pub AllShort : List Item → Type 0
AllShort [] = Unit {0}
AllShort (x ∷ xs) = (length x.bytes ≤ 255) × AllShort xs

-- One object, and what is behind it.
lines_step :
    (x : Item) (rest work : Bytes) (i : ℕ) (ps : List ℕ) (payload : Bytes) (ls work' : Bytes)
    → drop i payload ≡ encode x ++ rest
    → length x.bytes ≤ length work
    → object_lines ps payload (wire x ++ drop (length x.bytes) work) ≡ some (some ls, work')
    → object_lines (i ∷ ps) payload work ≡ some (some (rx_line x ++ ls), work')
unfolding object_lines object_text rx_line
lines_step x rest work i ps payload ls work' d room more =
    let parsed =
      object_parse-encode x rest work 256 (unset work) refl room (omega arith) (omega arith) in
    let value : take (length x.bytes) (wire x ++ drop (length x.bytes) work) ≡ wire x =
      ap (λ n. take n (wire x ++ drop (length x.bytes) work)) (sym (length-wire x))
      ∙ take-length-append (wire x) (drop (length x.bytes) work) in
    rw (object_lines, d, parsed, more, value) refl

object_lines-encode_all :
    (xs : List Item) (front tail payload work : Bytes) (i : ℕ)
    → payload ≡ front ++ (encode_all xs ++ tail)
    → i ≡ length front
    → AllShort xs
    → length work ≡ 256
    → (work' : Bytes) × (object_lines (starts i xs) payload work ≡ some (some (rx_lines xs), work'))
unfolding object_lines rx_lines AllShort
object_lines-encode_all [] front tail payload work i e at short len = (work, refl)
object_lines-encode_all (x ∷ xs) front tail payload work i e at (s, short) len =
    let split : encode_all (x ∷ xs) ++ tail ≡ encode x ++ (encode_all xs ++ tail) =
      append_assoc (encode x) (encode_all xs) tail in
    let whole : payload ≡ front ++ (encode x ++ (encode_all xs ++ tail)) =
      e ∙ ap (λ t. front ++ t) split in
    let here : drop i payload ≡ encode x ++ (encode_all xs ++ tail) =
      rw (whole, at) (drop-length-append front (encode x ++ (encode_all xs ++ tail))) in
    let moved : payload ≡ (front ++ encode x) ++ (encode_all xs ++ tail) =
      whole ∙ sym (append_assoc front (encode x) (encode_all xs ++ tail)) in
    let work₁ = wire x ++ drop (length x.bytes) work in
    let len₁ : length work₁ ≡ 256 = omega (
      arith,
      length-append (wire x) (drop (length x.bytes) work),
      length-wire x,
      length-drop (length x.bytes) work,
    ) in
    let (work', more) =
      object_lines-encode_all xs (front ++ encode x) tail payload work₁ (i + length (encode x))
        moved (omega (arith, length-append front (encode x))) short len₁ in
    (
      work',
      lines_step x (encode_all xs ++ tail) work i (starts (i + length (encode x)) xs) payload
          (rx_lines xs) work' here (omega arith) more,
    )

length-starts : (i : ℕ) (xs : List Item) → length (starts i xs) ≡ length xs
length-starts i [] = refl
length-starts i (x ∷ xs) = ap suc (length-starts (i + length (encode x)) xs)

-- The listing that a download gives for an answer.
abbrev pub listing_for : ℕ → Answer → List Item → Listing
listing_for at a xs = record {
  sipf_obj_payload = at + 12;
  otid = a.otid;
  user_send_datetime = 17;
  recv_datetime = 25;
  remains = a.remains;
  p_objs = starts 35 xs;
}

-- What RX prints for an answer whose two times are `snd` and `rcv`.
unfoldable pub rx_answer : Answer → Bytes → Bytes → List Item → Bytes
rx_answer a snd rcv xs =
    (hex_bytes a.otid
      ++ (crlf
          ++ (hex_bytes snd
              ++ (crlf
                  ++ (hex_bytes rcv
                      ++ (crlf ++ (hex_2 a.remains ++ (crlf ++ (hex_2 (length xs) ++ crlf)))))))))
    ++ (rx_lines xs ++ codes "OK\r\n")

-- The payload of an answer, behind the head of 12 bytes.
abbrev payload_of : Answer → List Item → Bytes → Bytes
payload_of a xs rest =
    (0x00 ∷ a.otid) ++ (a.times ++ ((a.remains ∷ a.reserved ∷ []) ++ (encode_all xs ++ rest)))

payload_at :
    (a : Answer) (xs : List Item) (pre rest : Bytes) (at : ℕ)
    → length a.head ≡ 11
    → at ≡ length pre
    → drop (at + 12) (pre ++ answer_bytes a xs rest) ≡ payload_of a xs rest
payload_at a xs pre rest at h e =
    let whole : pre ++ answer_bytes a xs rest ≡ (pre ++ 0x12 ∷ a.head) ++ payload_of a xs rest =
      sym (append_assoc pre (0x12 ∷ a.head) (payload_of a xs rest)) in
    let place : at + 12 ≡ length (pre ++ 0x12 ∷ a.head) =
      omega (arith, length-append pre (0x12 ∷ a.head)) in
    rw (whole, place) (drop-length-append (pre ++ 0x12 ∷ a.head) (payload_of a xs rest))

slice_time :
    (p xs rest buf : Bytes) (i n : ℕ)
    → buf ≡ p ++ (xs ++ rest)
    → i ≡ length p
    → n ≡ length xs
    → slice buf i n ≡ some xs
slice_time p xs rest buf i n e ei en = rw (e, ei, en) (slice-at p xs rest)

times_of :
    (a : Answer) (snd rcv : Bytes) (xs : List Item) (rest : Bytes)
    → length a.otid ≡ 16
    → a.times ≡ snd ++ rcv
    → length snd ≡ 8
    → length rcv ≡ 8
    → (slice (payload_of a xs rest) 17 8 ≡ some snd)
      × (slice (payload_of a xs rest) 25 8 ≡ some rcv)
times_of a snd rcv xs rest ho t ls lr =
    let o = 0x00 ∷ a.otid in
    let tail = (a.remains ∷ a.reserved ∷ []) ++ (encode_all xs ++ rest) in
    let first : payload_of a xs rest ≡ o ++ (snd ++ (rcv ++ tail)) =
      ap (λ b. o ++ (b ++ tail)) t ∙ ap (λ b. o ++ b) (append_assoc snd rcv tail) in
    let second : payload_of a xs rest ≡ (o ++ snd) ++ (rcv ++ tail) =
      first ∙ sym (append_assoc o snd (rcv ++ tail)) in
    (
      slice_time o snd (rcv ++ tail) (payload_of a xs rest) 17 8 first (omega arith) (omega arith),
      slice_time (o ++ snd) rcv tail (payload_of a xs rest) 25 8 second
          (omega (arith, length-append o snd)) (omega arith),
    )

-- What RX makes of an answer of the documented form, with the status OK, two times of 8 bytes, at
-- least one and at most 255 objects of at most 255 bytes each, fewer than 1512 bytes in all, as many
-- as its objects need: SipfObjClientObjDown gives a listing with the result 0, and from this listing
-- RX prints the OTID, the two times, the number of objects that remain, the number of objects, for
-- each object, in order, a line with its tag, type, size and value, and OK.
pub rx_text-answer :
    (a : Answer) (x : Item) (xs : List Item) (res : Response) (pre rest snd rcv work : Bytes)
    → IsAnswer a
    → a.times ≡ snd ++ rcv
    → length snd ≡ 8
    → length rcv ≡ 8
    → res.http_status ≡ codes "OK"
    → length pre ≡ res.body_frag_start
    → res.content_length ≡ 47 + length (encode_all (x ∷ xs))
    → res.content_length < 1512
    → length (x ∷ xs) ≤ 255
    → AllShort (x ∷ xs)
    → length work ≡ 256
    → (l : Listing) × (work' : Bytes) × (objects_down res (pre ++ answer_bytes a (x ∷ xs) rest)
        ≡ some (pos 0, some l))
      × (rx_text l (pre ++ answer_bytes a (x ∷ xs) rest) work
          ≡ some (rx_answer a snd rcv (x ∷ xs), work'))
unfolding rx_text listing_text rx_answer
rx_text-answer a x xs res pre rest snd rcv work ok t ls lr status at total small fits short len =
    let (ha, ho, ht) = ok in
    let items = x ∷ xs in
    let payload = payload_of a items rest in
    let there = payload_at a items pre rest res.body_frag_start ha (sym at) in
    let (s₁, s₂) = times_of a snd rcv items rest ho t ls lr in
    let front = (0x00 ∷ a.otid) ++ (a.times ++ (a.remains ∷ a.reserved ∷ [])) in
    let apart : payload ≡ front ++ (encode_all items ++ rest) = simp append_assoc in
    let place : 35 ≡ length front = omega (
      arith,
      length-append (0x00 ∷ a.otid) (a.times ++ (a.remains ∷ a.reserved ∷ [])),
      length-append a.times (a.remains ∷ a.reserved ∷ []),
    ) in
    let some_left : (length items == 0) ≡ false = ground arith in
    let (work', lines) =
      object_lines-encode_all items front rest payload work 35 apart place short len in
    (
      listing_for res.body_frag_start a items,
      work',
      objects_down-answer a items res pre rest ok status at total small fits,
      rw (rx_text, there, s₁, s₂, lines, length-starts 35 items, some_left) refl,
    )
