-- ===== src/SipfObject/Client.antt =====
-- lib/sipf/src/sipf_object.c: the requests of the object protocol. `none` is an access outside an
-- array, or through NULL. `Net` is the network of ClientHttp.antt.
pub mod Upload
pub mod Download
pub mod Answers
use sipf_std_client_nrf.ClientHttp.{Net, Method, Response, no_response, run_request}
use sipf_std_client_nrf.Libc.{memcpy, slice, same_text}
use sipf_std_client_nrf.Prelude.{
  ℕ, zero, suc, ◌+◌, ◌-◌, ◌/◌, ◌%◌, Bool, true, false, ◌||◌, not, Option, none, some, [], ◌∷◌, ◌++◌,
  List, leb, ltb, ◌==◌, if◌then◌else◌, ℤ, pos, negsuc, neg, is_neg, Bytes, length, get_elem?, take,
  drop, replicate, codes,
}
use sipf_std_client_nrf.SipfObject.{Object, create_obj_up_payload}

-- What the build configuration gives.
pub record Connector : Type 0 where
  pub host : Bytes
  pub path : Bytes
  pub ssl : Bool

-- `up_res` is the static `http_res` of SipfObjClientObjUpRaw.
pub record Client (W : Type 0) : Type 0 where
  pub auth_header : Bytes
  pub httpc_req_buff : Bytes
  pub httpc_res_buff : Bytes
  pub up_res : Response
  pub world : W

abbrev pub buff_sz : ℕ
buff_sz = 1500

-- `httpc_res_buff` behind its memset
unfoldable pub res_cleared : Bytes
res_cleared = replicate buff_sz 0

-- The parameter `ur` is what `user_data` points to.
unfoldable pub http_response_cb : Response → Response → Response
http_response_cb resp ur =
    if ltb 0 resp.data_len
    then (if ur.http_status_code == 0
        then resp
        else record ur { data_len = ur.data_len + resp.data_len })
    else ur

-- The callback on each response, in order.
unfoldable pub call_back : List Response → Response → Response
call_back [] ur = ur
call_back (r ∷ rs) ur = call_back rs (http_response_cb r ur)

-- What the caller gets: the result of the call, 16 bytes of an OTID, the client.
pub record Up (W : Type 0) : Type 0 where
  pub ret : ℤ
  pub otid : Option Bytes
  pub client : Client W

-- The first 12 bytes of a packet: command type, time, option flag, payload size.
abbrev pub packet_head : ℕ → ℕ → Bytes
packet_head command size =
    command ∷ 0 ∷ 0 ∷ 0 ∷ 0 ∷ 0 ∷ 0 ∷ 0 ∷ 0 ∷ 0 ∷ size / 256 % 256 ∷ size % 256 ∷ []

-- body_frag_start[i]
abbrev pub body_at : Response → Bytes → ℕ → Option ℕ
body_at res buf i = get_elem? buf (res.body_frag_start + i)

abbrev pub object_down : ℕ
object_down = 0x12

-- The answer to an upload, from the status on: the result, and the OTID if there is one.
unfoldable pub notification : Response → Bytes → Option (ℤ × Option Bytes)
notification res buf =
    if not (same_text res.http_status (codes "OK"))
    then some (if same_text res.http_status (codes "Unauthorized") then neg 401 else negsuc 0, none)
    else if not (res.content_length == 30)
    then some (negsuc 0, none)
    else elim (body_at res buf 0) [
      | none ↦ none
      | some head ↦ elim (head == 0x02) [
        | false ↦ some (negsuc 0, none)
        | true ↦ elim (body_at res buf 12) [
          | none ↦ none
          | some result ↦ elim (result == 0x00) [
            | false ↦ some (negsuc 0, none)
            | true ↦ elim (slice buf (res.body_frag_start + 14) 16) [
              | none ↦ none
              | some otid ↦ some (pos 0, some otid)
            ]
          ]
        ]
      ]
    ]

module _ {W : Type 0} (net : Net W) (cfg : Connector) where
  unfoldable pub run_connector_http_request : Bytes → Response → Client W → ℤ × Response × Client W
  run_connector_http_request payload http_res c =
      let (x, w') =
        run_request net cfg.host
          (record {
            method = Method.post;
            payload_cb = none;
            url = cfg.path;
            host = cfg.host;
            payload = payload;
            header_fields =
                codes "Connection: Close\r\n"
                ∷ codes "Content-Type: application/octet-stream\r\n"
                ∷ c.auth_header
                ∷ [];
          })
          3000 res_cleared cfg.ssl c.world in
      (x.ret, call_back x.responses http_res, record c { httpc_res_buff = x.recv_buf; world = w' })

  -- from the call of run_connector_http_request on
  unfoldable pub exchange_up : Bytes → Client W → Option (Up W)
  exchange_up packet c =
      let (ret, res, c₁) = run_connector_http_request packet c.up_res c in
      let c₂ = record c₁ { up_res = res } in
      if is_neg ret
      then some (record { ret = ret; otid = none; client = c₂ })
      else elim (notification res c₂.httpc_res_buff) [
        | none ↦ none
        | some (r, otid) ↦ some (record { ret = r; otid = otid; client = c₂ })
      ]

  -- `size` is a `uint16_t`, and so is `sz_packet`.
  unfoldable pub obj_up_raw : Bytes → ℕ → Client W → Option (Up W)
  unfolding exchange_up
  obj_up_raw payload_buffer size c =
      let sz_packet = (12 + size) % 65536 in
      if leb (length c.httpc_req_buff) sz_packet
      then some (record { ret = negsuc 0; otid = none; client = c })
      else elim (slice payload_buffer 0 size) [
        | none ↦ none
        | some payload ↦ elim (memcpy c.httpc_req_buff 0 (packet_head 0x00 size ++ payload)) [
          | none ↦ none
          | some req ↦ exchange_up (take sz_packet req) (record c { httpc_req_buff = req })
        ]
      ]

  -- The conversion of `size` to uint16_t, and the array payload[512]. The third argument is what
  -- that array holds at the start of the call.
  size_of : ℤ → ℕ
  size_of (pos n) = n % 65536
  size_of (negsuc n) = 65535 - n % 65536

  -- `objs` is the array that simp_obj_up->objs leads to; `none` is NULL.
  unfoldable pub obj_up : Option (List Object) → Bytes → Client W → Option (Up W)
  unfolding size_of
  obj_up none payload c = some (record { ret = negsuc 0; otid = none; client = c })
  obj_up (some objs) payload c = elim (create_obj_up_payload (some payload) 512 objs) [
    | none ↦ none
    | some (r, none) ↦ none
    | some (r, some payload') ↦ obj_up_raw payload' (size_of r) c
  ]

-- What a download gives to the caller: the place of `sipf_obj_payload` in `httpc_res_buff`, the OTID,
-- the places in that payload of the two times, the number of objects that remain, and the places of
-- the objects.
pub record Listing : Type 0 where
  pub sipf_obj_payload : ℕ
  pub otid : Bytes
  pub user_send_datetime : ℕ
  pub recv_datetime : ℕ
  pub remains : ℕ
  pub p_objs : List ℕ

pub record Down (W : Type 0) : Type 0 where
  pub ret : ℤ
  pub listing : Option Listing
  pub client : Client W

abbrev pub obj_max_cnt : ℕ
obj_max_cnt = 255

-- The loop over the objects with `n` places of `p_objs` free: the size of an object is read unless
-- the list is full.
unfoldable pub walk : Response → Bytes → ℕ → ℕ → Option (List ℕ)
walk res buf zero idx = some []
walk res buf (suc zero) idx = some (idx ∷ [])
walk res buf (suc (suc n)) idx = elim (body_at res buf (12 + (idx + 2))) [
  | none ↦ none
  | some len ↦ elim (leb (res.content_length - 12) (idx + (3 + len))) [
    | true ↦ some (idx ∷ [])
    | false ↦ elim (walk res buf (suc n) (idx + (3 + len))) [
      | none ↦ none
      | some rest ↦ some (idx ∷ rest)
    ]
  ]
]

-- behind the check of the request's result
unfoldable pub listing_of : Response → Bytes → Option Listing
listing_of res buf = elim (slice buf (res.body_frag_start + 13) 16) [
  | none ↦ none
  | some otid ↦ elim (body_at res buf (12 + 33)) [
    | none ↦ none
    | some remains ↦
        elim (if res.content_length == 12 + 35 then some [] else walk res buf obj_max_cnt 35) [
          | none ↦ none
          | some p_objs ↦ some (record {
            sipf_obj_payload = res.body_frag_start + 12;
            otid = otid;
            user_send_datetime = 17;
            recv_datetime = 25;
            remains = remains;
            p_objs = p_objs;
          })
        ]
  ]
]

-- The answer to a download request, from the status on.
unfoldable pub objects_down : Response → Bytes → Option (ℤ × Option Listing)
unfolding listing_of
objects_down res buf =
    if not (same_text res.http_status (codes "OK"))
    then some (if same_text res.http_status (codes "Unauthorized") then neg 401 else negsuc 0, none)
    else if ltb res.content_length 12 || leb (12 + buff_sz) res.content_length
    then some (negsuc 0, none)
    else elim (body_at res buf 0) [
      | none ↦ none
      | some head ↦ elim (head == object_down) [
        | false ↦ some (negsuc 0, none)
        | true ↦ elim (body_at res buf 12) [
          | none ↦ none
          | some result ↦ elim (result == 0x00) [
            | false ↦ some (negsuc 0, none)
            | true ↦ elim (listing_of res buf) [
              | none ↦ none
              | some listing ↦ some (pos 0, some listing)
            ]
          ]
        ]
      ]
    ]

module _ {W : Type 0} (net : Net W) (cfg : Connector) where
  -- memset(httpc_req_buff, 0, BUFF_SZ), and the packet at its front
  download_packet : Bytes → Option Bytes
  download_packet req = elim (memcpy req 0 (replicate buff_sz 0)) [
    | none ↦ none
    | some zeros ↦ memcpy zeros 0 (packet_head 0x11 1 ++ 0 ∷ [])
  ]

  exchange_down : Bytes → Client W → Option (Down W)
  exchange_down packet c =
      let (ret, res, c') = run_connector_http_request net cfg packet no_response c in
      if is_neg ret
      then some (record { ret = ret; listing = none; client = c' })
      else elim (objects_down res c'.httpc_res_buff) [
        | none ↦ none
        | some (r, listing) ↦ some (record { ret = r; listing = listing; client = c' })
      ]

  -- `has_null`: one of the pointers that are checked is NULL.
  unfoldable pub obj_down : Bool → Client W → Option (Down W)
  unfolding exchange_down download_packet
  obj_down true c = some (record { ret = negsuc 0; listing = none; client = c })
  obj_down false c = elim (download_packet c.httpc_req_buff) [
    | none ↦ none
    | some req ↦ exchange_down (take 13 req) (record c { httpc_req_buff = req })
  ]
