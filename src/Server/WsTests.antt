-- ===== src/Server/WsTests.antt =====
-- The theorems on the handshake and on a WebSocket conversation at small inputs.
use jerry.Base.{
  ℕ, ◌≡◌, refl, false, List, [], ◌∷◌, ◌++◌, none, length, arith, codes, beq, take_until,
}
use jerry.Base.Result.{ok}
use jerry.Buffer.{Buffer, to_string}
use jerry.Buffer.Tests.{full, full-IsValid, to_string-full}
use jerry.Conn.{Event, open_conn, run}
use jerry.Conn.Drain.{writables}
use jerry.Conn.Tests.{one_taken, one_taken-TakesSome}
use jerry.Http.Headers.{fold_case}
use jerry.Http.Req.{post, http11, method_string, version_string}
use jerry.Http.Decoder.RequestLine.{request_line}
use jerry.Http.Decoder.HeaderLines.{Fields, CleanFields, header_text}
use jerry.Ws.Frame.{unmask}
use jerry.Ws.Codec.{
  WebsocketCodec, decode, new_codec, set_recv, get_sec_websocket_accept, except_handshake,
}
use jerry.Ws.Encode.{short}
use jerry.Ws.Head
use jerry.Ws.Head.{head_bytes}
use jerry.Ws.Handshake.{Upgrade, other_method, switching_text, refused, hand_shake_refuses}
use jerry.Ws.Resp.{append_data}
use jerry.Ws.Tests.{outside, hello}
use jerry.Server.Frames.{Plain}
use jerry.Server.Phases.{between, IsHead}
use jerry.Server.Ws.{WsUser}
use jerry.Server.Talk.{Talk, ends, whole, opens, goes_on, completes, run_reads}
use jerry.Server.WsConversation.{new_client, ws_serves}

abbrev upgrade_fields : Fields
upgrade_fields =
    (codes "Host", codes "a")
    ∷ (codes "upgrade", codes "websocket")
    ∷ (codes "Connection", codes "Upgrade")
    ∷ (codes "Sec-WebSocket-Key", codes "k")
    ∷ (codes "Sec-WebSocket-Version", codes "13")
    ∷ []

upgrade_fields-CleanFields : CleanFields upgrade_fields
upgrade_fields-CleanFields = omega arith

abbrev is_upgrade : Upgrade upgrade_fields
unfolding fold_case beq take_until
is_upgrade = record {
  host = codes "a";
  key = codes "k";
  upgrade = codes "websocket";
  connection = codes "Upgrade";
  version = codes "13";
  has_host = refl;
  has_key = refl;
  has_upgrade = refl;
  has_connection = refl;
  has_version = refl;
}

-- It answers every request with `hello`.
abbrev greeter : WsUser
greeter = record {
  on_connected = λ c. c;
  on_request = λ req resp c. (append_data hello resp, c);
  is_limited = λ c. false;
}

abbrev plain_greeter : Plain outside greeter
plain_greeter = record {
  respond = λ r. append_data hello (record { type = 1; payload = [] });
  quiet = λ c. refl;
  responds = λ r c. refl;
  payload_moved = λ r. refl;
}

abbrev mask : List ℕ
mask = 1 ∷ 2 ∷ 3 ∷ 4 ∷ []

abbrev upgrade_request : List ℕ
upgrade_request = request_line (codes "GET") (codes "/") http11 (header_text upgrade_fields [])

-- A frame with one byte, and one with three that comes in three reads.
abbrev parts : List (List ℕ)
parts =
    head_bytes 129 129 [] mask (unmask mask 0 (65 ∷ []))
    ∷ head_bytes 129 131 [] mask (unmask mask 0 (65 ∷ []))
    ∷ unmask mask 1 (66 ∷ [])
    ∷ unmask mask 2 (67 ∷ [])
    ∷ []

abbrev hello_frame : List ℕ
hello_frame = 129 ∷ 5 ∷ hello

one-IsHead : IsHead 129 129 1 [] mask
one-IsHead = record {
  field = Head.short (omega arith) refl refl;
  four = refl;
  bytes = omega arith;
  not_close = omega arith;
}

three-IsHead : IsHead 129 131 3 [] mask
three-IsHead = record {
  field = Head.short (omega arith) refl refl;
  four = refl;
  bytes = omega arith;
  not_close = omega arith;
}

greeter-Talk :
    Talk plain_greeter.respond
      (codes "a")
      (codes "/")
      between
      parts
      (hello_frame ++ (hello_frame ++ []))
unfolding unmask
greeter-Talk =
    whole 129 129 [] mask (65 ∷ []) hello_frame _ _ one-IsHead (omega arith) (omega arith)
      (short (omega arith) (omega arith))
      (opens 129 131 [] mask (65 ∷ []) (66 ∷ 67 ∷ []) _ _ three-IsHead (omega arith) (omega arith)
        (omega arith)
        (goes_on 129 mask (65 ∷ []) (66 ∷ []) (67 ∷ []) _ _ (omega arith) (omega arith)
          (omega arith) (omega arith) (omega arith)
          (completes 129 mask (65 ∷ 66 ∷ []) (67 ∷ []) hello_frame [] [] (omega arith) (omega arith)
            (omega arith) (omega arith) (short (omega arith) (omega arith)) (ends between))))

ws_serves_example :
    (c : WebsocketCodec) × (run_reads outside greeter (upgrade_request ∷ parts) (new_client greeter)
      ≡ ok c)
    × ((run (writables one_taken (length (to_string c.conn.send_buffer))) c.conn).kernel_out
        ≡ switching_text (get_sec_websocket_accept outside (codes "k")) []
          ++ (hello_frame ++ (hello_frame ++ [])))
unfolding version_string is_upgrade
ws_serves_example =
    ws_serves outside greeter plain_greeter (codes "/") upgrade_fields [] is_upgrade parts
      (hello_frame ++ (hello_frame ++ [])) one_taken (omega arith) upgrade_fields-CleanFields
      (omega arith) (omega arith) greeter-Talk one_taken-TakesSome

-- The same by POST.
abbrev post_request : List ℕ
post_request = request_line (codes "POST") (codes "/") http11 (header_text upgrade_fields [])

abbrev shaking : WebsocketCodec
shaking = new_codec (record (open_conn false) { recv_buffer = full post_request })

hand_shake_refuses_example :
    (b : Buffer) × (decode outside shaking ≡ ok (none, refused outside (set_recv b shaking)))
    × ((refused outside (set_recv b shaking)).state ≡ except_handshake)
    × ((es : List Event)
        → (run es (refused outside (set_recv b shaking)).conn).kernel_out ≡ shaking.conn.kernel_out)
unfolding method_string
hand_shake_refuses_example =
    hand_shake_refuses outside post (codes "POST") (codes "/") http11 upgrade_fields [] shaking
      (other_method (λ e. cc e)) refl refl (omega arith) upgrade_fields-CleanFields (omega arith)
      (record { valid = full-IsValid post_request; unread = to_string-full post_request })
