-- ===== src/SipfObject/Client/Upload.antt =====
-- SipfObjClientObjUpRaw and SipfObjClientObjUp (lib/sipf/src/sipf_object.c): sizes, and the answer
-- of an earlier upload.
use mathlib.Core.Path.{subst}
use sipf_std_client_nrf.ClientHttp.{Net}
use sipf_std_client_nrf.Libc.Copy.{memcpy-at, memset_all}
use sipf_std_client_nrf.Libc.{slice}
use sipf_std_client_nrf.Prelude.{
  ℕ, ◌+◌, ◌≤◌, ◌<◌, ◌≡◌, ◌≢◌, true, Option, none, some, [], ◌∷◌, List, negsuc, is_neg, Bytes,
  length, codes, arith, sym, ◌∙◌, replicate, length-replicate, length-take, ◌++◌, take, drop,
  take-length-append,
}
use sipf_std_client_nrf.SipfObject.Client.{
  Client, Connector, Up, exchange_up, obj_up_raw, obj_up, packet_head,
}
use sipf_std_client_nrf.SipfObject.{Object, create_obj_up_payload, put_object, put_objects}

-- The response struct still holds the status of an upload that was not authorized.
abbrev pub IsStuck : {W : Type 0} → Client W → Type 0
IsStuck c =
    (c.up_res.http_status ≡ codes "Unauthorized") × (◌≢◌ {A = ℕ} c.up_res.http_status_code 0)

-- The upload returns, with an error and no OTID, and the client is as before in this respect.
abbrev pub Refused : {W : Type 0} → Option (Up W) → Type 0
Refused none = ⊥
Refused (some u) = (is_neg u.ret ≡ true) × (u.otid ≡ none) × IsStuck u.client

create_too_long :
    (o : Object) (os : List Object) (raw : Bytes) (n : ℕ)
    → n ≡ length raw
    → 220 < o.value_len
    → create_obj_up_payload (some raw) n (o ∷ os) ≡ some (negsuc 0, some (replicate (length raw) 0))
unfolding create_obj_up_payload put_objects put_object
create_too_long o os raw n e big =
    subst
      (λ m.
        create_obj_up_payload (some raw) m (o ∷ os)
        ≡ some (negsuc 0, some (replicate (length raw) 0)))
      (sym e) (ground (arith, memset_all raw))

module _ {W : Type 0} (net : Net W) (cfg : Connector) where
  -- the packet that is sent
  abbrev packet_of : Bytes → ℕ → Bytes
  packet_of payload size = packet_head 0x00 size ++ take size payload

  length-packet_of :
      (payload : Bytes) (size : ℕ)
      → size ≤ length payload
      → length (packet_of payload size) ≡ 12 + size
  length-packet_of payload size le = omega (arith, length-take size payload)

  -- An upload that fits sends the 12 bytes of the header, with the size, and then the payload: no
  -- byte more, whatever an earlier request left in the buffer.
  pub obj_up_raw-sends :
      (payload : Bytes) (size : ℕ) (c : Client W)
      → size ≤ length payload
      → length c.httpc_req_buff ≡ 1500
      → 12 + size < 1500
      → obj_up_raw net cfg payload size c
        ≡ exchange_up net cfg (packet_head 0x00 size ++ take size payload) (record c {
          httpc_req_buff =
              (packet_head 0x00 size ++ take size payload) ++ drop (12 + size) c.httpc_req_buff;
        })
  unfolding obj_up_raw slice
  obj_up_raw-sends payload size c le full lt =
      let p = packet_of payload size in
      let len = length-packet_of payload size le in
      let written = memcpy-at [] c.httpc_req_buff p (omega arith) in
      let front = take-length-append p (drop (12 + size) c.httpc_req_buff) in ground (arith)

  obj_up_raw-overrun :
      (payload : Bytes) (c : Client W)
      → length payload ≡ 512
      → length c.httpc_req_buff ≡ 1500
      → obj_up_raw net cfg payload 65535 c ≡ none
  unfolding obj_up_raw slice
  obj_up_raw-overrun payload c n full = ground arith

  -- SipfObjClientObjUp reads beyond the array of its payload where the first object is longer than
  -- 220 bytes: the -1 that SipfObjectCreateObjUpPayload returns is taken for the size.
  pub obj_up-fault :
      (o : Object) (os : List Object) (payload : Bytes) (c : Client W)
      → length payload ≡ 512
      → length c.httpc_req_buff ≡ 1500
      → 220 < o.value_len
      → obj_up net cfg (some (o ∷ os)) payload c ≡ none
  unfolding obj_up
  obj_up-fault o os payload c n full big =
      let zeros : Bytes = replicate (length payload) 0 in
      let len : length zeros ≡ 512 = length-replicate {A = ℕ} (length payload) 0 ∙ n in
      rw (obj_up, create_too_long o os payload 512 (sym n) big)
        (obj_up_raw-overrun zeros c len full)
