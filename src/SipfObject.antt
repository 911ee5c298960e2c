-- ===== src/SipfObject.antt =====
-- lib/sipf/src/sipf_object.c: the objects in a payload, and the two requests of the object
-- protocol. A memory access outside an array, or through NULL, is `none`.
pub mod Payload
pub mod RoundTrip
pub mod Client
use sipf_std_client_nrf.Libc.{memcpy, slice}
use sipf_std_client_nrf.Prelude.{
  ℕ, zero, suc, ◌+◌, ◌-◌, ◌%◌, Bool, true, false, ◌||◌, Option, none, some, [], ◌∷◌, ◌++◌, List,
  ltb, ◌==◌, if◌then◌else◌, ℤ, pos, negsuc, Bytes, length, get_or, drop, replicate,
}

-- `value` is the array that the struct's pointer leads to, and `none` is NULL.
pub record Object : Type 0 where
  pub obj_type : ℕ
  pub obj_tagid : ℕ
  pub value_len : ℕ
  pub value : Option Bytes

-- memcpy(obj->value, &raw_buff[3], obj->value_len), with `dst` at obj->value
copy_value : Bytes → Bytes → Object → Option (ℤ × Option Object)
copy_value raw dst o = elim (slice raw 3 o.value_len) [
  | none ↦ none
  | some bytes ↦ elim (memcpy dst 0 bytes) [
    | none ↦ none
    | some value ↦ some (pos 0, some (record o { value = some value }))
  ]
]

-- The result and `*obj`.
unfoldable pub object_parse : Option Bytes → ℕ → Option Object → Option (ℤ × Option Object)
unfolding copy_value
object_parse none raw_len obj = some (negsuc 0, obj)
object_parse (some raw) raw_len none = some (negsuc 0, none)
object_parse (some raw) raw_len (some o) = elim o.value [
  | none ↦ some (negsuc 0, some o)
  | some dst ↦
      (if ltb raw_len 4 || ltb 256 raw_len
        then some (negsuc 0, some o)
        else if ltb (length raw) 3
        then none
        else copy_value raw dst (record {
          obj_type = get_or raw 0 0;
          obj_tagid = get_or raw 1 0;
          value_len = get_or raw 2 0;
          value = o.value;
        }))
]

-- OBJ_TYPE_UINT8, OBJ_TYPE_INT8, OBJ_TYPE_BIN and OBJ_TYPE_STR_UTF8
abbrev pub no_swap : ℕ → Bool
no_swap t = t == 0x00 || (t == 0x01 || (t == 0x10 || t == 0x20))

-- `work`: value[n - j - 1] for the j below `n`, in order of j
unfoldable pub swapped : Bytes → ℕ → Bytes
swapped value zero = []
swapped value (suc n) = get_or value n 0 ∷ swapped value n

-- The write of a value of `n` bytes at `idx`, with the index behind it.
put_bytes : Bytes → ℕ → Bytes → Option (ℤ × Bytes)
put_bytes raw idx bytes = elim (memcpy raw idx bytes) [
  | none ↦ none
  | some raw' ↦ some (pos (idx + length bytes), raw')
]

put_value : Object → Bytes → Bytes → ℕ → Option (ℤ × Bytes)
put_value o bytes raw idx =
    if no_swap o.obj_type
    then put_bytes raw idx bytes
    else if o.value_len % 2 == 0
    then put_bytes raw idx (swapped bytes o.value_len)
    else some (negsuc 0, raw)

-- What stands at objs[i].value: its first `n` bytes.
abbrev pub value_of : Option Bytes → ℕ → Option Bytes
value_of none n = none
value_of (some v) n = slice v 0 n

-- One round of the loop: the next index or -1, and the buffer.
unfoldable pub put_object : Object → Bytes → ℕ → Option (ℤ × Bytes)
unfolding put_value put_bytes
put_object o raw idx = elim (ltb 220 o.value_len) [
  | true ↦ some (negsuc 0, raw)
  | false ↦ elim (memcpy raw idx (o.obj_type ∷ o.obj_tagid ∷ o.value_len ∷ [])) [
    | none ↦ none
    | some raw' ↦ elim (value_of o.value o.value_len) [
      | none ↦ (if no_swap o.obj_type || o.value_len % 2 == 0 then none else some (negsuc 0, raw'))
      | some bytes ↦ put_value o bytes raw' (idx + 3)
    ]
  ]
]

unfoldable pub put_objects : List Object → Bytes → ℕ → Option (ℤ × Bytes)
put_objects [] raw idx = some (pos idx, raw)
put_objects (o ∷ os) raw idx = elim (put_object o raw idx) [
  | none ↦ none
  | some (negsuc e, raw') ↦ some (negsuc e, raw')
  | some (pos idx', raw') ↦ put_objects os raw' idx'
]

-- `objs` has the `obj_qty` objects. The result and `raw_buff`.
unfoldable pub create_obj_up_payload : Option Bytes → ℕ → List Object → Option (ℤ × Option Bytes)
create_obj_up_payload none sz_raw_buff objs = some (negsuc 0, none)
create_obj_up_payload (some raw) sz_raw_buff objs = elim (memcpy raw 0 (replicate sz_raw_buff 0)) [
  | none ↦ none
  | some cleared ↦ elim (put_objects objs cleared 0) [
    | none ↦ none
    | some (r, raw') ↦ some (r, some raw')
  ]
]
