-- ===== src/Tests/ObjectRuns.antt =====
-- Payloads of two objects, the answer with two objects, and uploads over a server that answers
-- Unauthorized first.
use sipf_std_client_nrf.CmdAscii.Objects.Received.{AllShort, rx_answer, rx_text-answer}
use sipf_std_client_nrf.CmdAscii.Objects.Raw.{raw_line, cmd_tx_raw-raw_line}
use sipf_std_client_nrf.CmdAscii.Objects.{rx_text, cmd_tx_raw}
use sipf_std_client_nrf.Prelude.Faults.{◌>>=◌}
use sipf_std_client_nrf.CmdAscii.Send.Command.{cmd_tx-object_line}
use sipf_std_client_nrf.CmdAscii.Send.Fuel.{tx_loop-tx_fuel}
use sipf_std_client_nrf.CmdAscii.Send.Line.{object_line}
use sipf_std_client_nrf.CmdAscii.Send.{
  cmd_tx, upload_reply, tx_loop, tx_fuel, tx_initial, out_of_fuel, check_type_len,
}
use sipf_std_client_nrf.Libc.{hex_bytes}
use sipf_std_client_nrf.ClientHttp.{Response, no_response}
use sipf_std_client_nrf.Prelude.{
  AreBytes, ◌*◌, ◌%◌, zero, suc, ◌≢◌, ℕ, ◌+◌, ◌-◌, ◌≡◌, refl, false, [], ◌∷◌, ◌++◌, List, arith,
  some, none, pos, Bytes, length, drop, codes, replicate, map,
}
use sipf_std_client_nrf.SipfObject.Client.Answers.{Answer, answer_bytes, objects_down-answer}
use sipf_std_client_nrf.SipfObject.Client.Upload.{obj_up_raw-sends, obj_up-fault}
use sipf_std_client_nrf.SipfObject.Client.{
  Client, Connector, Listing, obj_up_raw, obj_up, objects_down, exchange_up, packet_head,
}
use sipf_std_client_nrf.SipfObject.Payload.{
  Item, encode, encode_all, object_of, create_obj_up_payload-encode_all,
}
use sipf_std_client_nrf.SipfObject.RoundTrip.{object_parse-encode}
use sipf_std_client_nrf.SipfObject.{Object, create_obj_up_payload, object_parse}
use sipf_std_client_nrf.Tests.HttpRuns.{Census, census, two_open}

abbrev number : Item
number = record { type_id = 0x02; tag_id = 0x07; bytes = 0x34 ∷ 0x12 ∷ [] }

abbrev text : Item
text = record { type_id = 0x20; tag_id = 0x08; bytes = codes "hi" }

abbrev both : List Item
both = number ∷ text ∷ []

abbrev dirty : Bytes
dirty = replicate 16 0xff

create_obj_up_payload-encode_all_example :
    create_obj_up_payload (some dirty) (length dirty) (map object_of both)
    ≡ some (
      pos (length (encode_all both)),
      some (encode_all both ++ replicate (length dirty - length (encode_all both)) 0),
    )
create_obj_up_payload-encode_all_example =
    create_obj_up_payload-encode_all both dirty ((omega arith, refl), ((omega arith, refl), tt))
      (omega arith)

abbrev target : Object
target = record { obj_type = 0; obj_tagid = 0; value_len = 0; value = some (replicate 4 0) }

object_parse-encode_example :
    object_parse (some (encode number ++ encode text)) 256 (some target)
    ≡ some (
      pos 0,
      some (record {
        obj_type = 0x02;
        obj_tagid = 0x07;
        value_len = 2;
        value = some (0x12 ∷ 0x34 ∷ 0 ∷ 0 ∷ []);
      }),
    )
object_parse-encode_example =
    object_parse-encode number (encode text) (replicate 4 0) 256 target refl (omega arith)
      (omega arith) (omega arith)

abbrev answer : Answer
answer = record {
  head = replicate 11 0;
  otid = replicate 16 0xab;
  times = replicate 16 1;
  remains = 3;
  reserved = 0;
}

abbrev answered : Response
answered = record {
  http_status = codes "OK";
  http_status_code = 200;
  content_length = 57;
  data_len = 57;
  body_frag_start = 2;
}

objects_down-answer_example :
    objects_down answered (codes "\r\n" ++ answer_bytes answer both (0 ∷ []))
    ≡ some (
      pos 0,
      some (record {
        sipf_obj_payload = 14;
        otid = replicate 16 0xab;
        user_send_datetime = 17;
        recv_datetime = 25;
        remains = 3;
        p_objs = 35 ∷ 40 ∷ [];
      }),
    )
objects_down-answer_example =
    objects_down-answer answer both answered (codes "\r\n") (0 ∷ []) (refl, refl, refl) refl refl
      refl (omega arith) (omega arith)

abbrev connector : Connector
connector = record { host = codes "h.jp"; path = codes "/v0"; ssl = false }

-- 1500 bytes
req_buff : Bytes
req_buff = replicate 1500 0

length-req_buff : length req_buff ≡ 1500
unfolding req_buff
length-req_buff = refl

abbrev refused_once : Client Census
refused_once = record {
  auth_header = codes "Authorization: BASIC eA==\r\n";
  httpc_req_buff = req_buff;
  httpc_res_buff = [];
  up_res = record no_response { http_status = codes "Unauthorized"; http_status_code = 401 };
  world = two_open;
}

obj_up_raw-sends_example :
    obj_up_raw census connector (codes "data!") 4 refused_once
    ≡ exchange_up census connector (packet_head 0x00 4 ++ codes "data") (record refused_once {
      httpc_req_buff = (packet_head 0x00 4 ++ codes "data") ++ drop (12 + 4) req_buff;
    })
obj_up_raw-sends_example =
    obj_up_raw-sends census connector (codes "data!") 4 refused_once (omega arith) length-req_buff
      (omega arith)

abbrev long_object : Object
long_object = record { obj_type = 0x20; obj_tagid = 0; value_len = 221; value = some [] }

obj_up-fault_example :
    obj_up census connector (some (long_object ∷ [])) (replicate 512 0) refused_once ≡ none
obj_up-fault_example =
    obj_up-fault census connector long_object [] (replicate 512 0) refused_once refl length-req_buff
      (omega arith)

tx_loop-tx_fuel_example : tx_loop (tx_fuel 3) (codes " 0 ") 3 tx_initial ≢ out_of_fuel
tx_loop-tx_fuel_example = tx_loop-tx_fuel (codes " 0 ") 3 (omega arith) (omega arith)

-- A text of 256 bytes passes with the length 0.
abbrev long_text : Bytes
long_text = replicate 256 0x41

are_bytes : (n : ℕ) → AreBytes (replicate n 0x41)
are_bytes zero = tt
are_bytes (suc n) = (omega arith, are_bytes n)

cmd_tx-object_line_example :
    cmd_tx census connector
      (object_line 0x07 0x20 (hex_bytes long_text ++ 0 ∷ []))
      (7 + 2 * length long_text)
      refused_once
    ≡ upload_reply census connector
        (0x20
          ∷ 0x07
          ∷ length long_text % 256
          ∷ (long_text ++ replicate (1021 - length long_text) 0))
        (3 + length long_text)
        refused_once
unfolding check_type_len
cmd_tx-object_line_example =
    cmd_tx-object_line census connector 0x07 0x20 long_text (0 ∷ []) refused_once (omega arith)
      (omega arith) (are_bytes 256) (omega arith) (omega arith) (omega arith) refl

cmd_tx_raw-raw_line_example :
    cmd_tx_raw census connector (raw_line (0xca ∷ 0xfe ∷ []) (0 ∷ [])) (4 + 2 * 2) refused_once
    ≡ (do
      (r, c') ← upload_reply census connector (0xca ∷ 0xfe ∷ []) 2 refused_once
      some (r, false, c'))
cmd_tx_raw-raw_line_example =
    cmd_tx_raw-raw_line census connector (0xca ∷ 0xfe ∷ []) [] 0 refused_once
      (omega arith, (omega arith, tt)) (omega arith) (omega arith) refl

rx_text-answer_example :
    (l : Listing) × (work' : Bytes) × (objects_down answered
        (codes "\r\n" ++ answer_bytes answer both (0 ∷ []))
      ≡ some (pos 0, some l))
    × (rx_text l (codes "\r\n" ++ answer_bytes answer both (0 ∷ [])) (replicate 256 0)
        ≡ some (rx_answer answer (replicate 8 1) (replicate 8 1) both, work'))
unfolding AllShort
rx_text-answer_example =
    rx_text-answer answer number (text ∷ []) answered (codes "\r\n") (0 ∷ []) (replicate 8 1)
      (replicate 8 1) (replicate 256 0) (refl, refl, refl) refl refl refl refl refl refl
      (omega arith) (omega arith) (omega arith, (omega arith, tt)) refl
