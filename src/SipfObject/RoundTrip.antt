-- ===== src/SipfObject/RoundTrip.antt =====
-- SipfObjectParse (lib/sipf/src/sipf_object.c) on what SipfObjectCreateObjUpPayload writes.
use sipf_std_client_nrf.Libc.Copy.{memcpy-at, slice-at}
use sipf_std_client_nrf.Prelude.{ℕ, ◌≤◌, ◌≡◌, Bytes, some, ◌∷◌, [], ◌++◌, length, drop, arith, pos}
use sipf_std_client_nrf.SipfObject.Payload.{Item, encode, wire, length-wire}
use sipf_std_client_nrf.SipfObject.{Object, object_parse}

-- SipfObjectParse reads the object at the front of a payload: the fields, and the value as it is
-- sent, into the array that `value` led to, where that has room for it and the length passed is
-- from 4 to 256.
pub object_parse-encode :
    (x : Item) (rest dst : Bytes) (raw_len : ℕ) (o : Object)
    → o.value ≡ some dst
    → length x.bytes ≤ length dst
    → 4 ≤ raw_len
    → raw_len ≤ 256
    → object_parse (some (encode x ++ rest)) raw_len (some o)
      ≡ some (
        pos 0,
        some (record {
          obj_type = x.type_id;
          obj_tagid = x.tag_id;
          value_len = length x.bytes;
          value = some (wire x ++ drop (length x.bytes) dst);
        }),
      )
unfolding object_parse
object_parse-encode x rest dst raw_len o e room lo hi = ground (
  arith,
  length-wire x,
  memcpy-at [] dst (wire x) (omega (arith, length-wire x)),
  slice-at (x.type_id ∷ x.tag_id ∷ length x.bytes ∷ []) (wire x) rest,
)
