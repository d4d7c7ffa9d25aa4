-- ===== src/Ws/Tests.antt =====
-- The theorems on WebSocket frames at small inputs.
use jerry.Base.{
  ℕ, ◌<◌, ◌≡◌, ◌≢◌, ◌⊎◌, refl, true, false, List, [], ◌∷◌, ◌++◌, some, length, replicate, arith,
}
use jerry.Base.Result.{Ended, ok}
use jerry.Buffer.Tests.{full, full-IsValid, to_string-full}
use jerry.Conn.{open_conn}
use jerry.Ws.Frame.{unmask, opcode_of, close_frame, encode_frame_head}
use jerry.Ws.Codec.{
  WebsocketCodec, Outside, new_codec, decode_frame_head, decode, close, except_frame_head,
  except_payload,
}
use jerry.Ws.Payload.{Receives}
use jerry.Ws.Head.{LengthField, short, head_bytes, decode_frame_head-no_wait}
use jerry.Ws.Enough.{codec_decode-Ended}
use jerry.Ws.RoundTrip.{decode_frame}
use jerry.Ws.Encode.{empty, head_size, encode_frame_head-Cut}

abbrev key : List ℕ
key = 1 ∷ 2 ∷ 3 ∷ 4 ∷ []

abbrev pub hello : List ℕ
hello = 104 ∷ 101 ∷ 108 ∷ 108 ∷ 111 ∷ []

abbrev pub outside : Outside
outside = record {
  sha1 = λ s. replicate 20 0;
  base64_encode = λ s. s;
  gmt_date = [];
  shutdown_ok = true;
  moved_http = λ r. r;
  moved = λ r. record r { payload = [] };
}

-- A text frame with five bytes, then the first byte of another frame.
abbrev pub frame : List ℕ
frame = head_bytes 129 133 [] key (unmask key 0 hello ++ 129 ∷ [])

-- A codec with these bytes in a full receive buffer.
abbrev pub holding : List ℕ → WebsocketCodec
holding text = record (new_codec (record (open_conn false) { recv_buffer = full text })) {
  state = except_frame_head;
}

frame-Receives : Receives frame (holding frame)
frame-Receives = record { valid = full-IsValid frame; unread = to_string-full frame }

text_not_close : opcode_of 129 ≢ close_frame
text_not_close = omega arith

hello-LengthField : LengthField 5 133 []
hello-LengthField = short (omega arith) refl refl

decode_frame_example :
    (c' : WebsocketCodec) × (decode outside (holding frame)
      ≡ ok (
        some (record { type = opcode_of 129; payload = hello; host = []; request_uri = [] }),
        c',
      ))
    × (c'.state ≡ except_frame_head)
    × (c'.last_read_idx ≡ 0)
    × Receives (129 ∷ []) c'
decode_frame_example =
    decode_frame outside (holding frame) 129 133 [] key hello (129 ∷ []) refl refl refl
      (omega arith) refl (omega arith) text_not_close hello-LengthField frame-Receives

-- One byte has come in.
abbrev one_byte : WebsocketCodec
one_byte =
    record (new_codec (record (open_conn false) {
      recv_buffer = record { storage = replicate 20 129; read_idx = 0; write_idx = 1 };
    })) { state = except_frame_head }

decode_frame_head-no_wait_example :
    (decode_frame_head outside one_byte ≡ ok (false, close outside one_byte))
    ⊎ ((c' : WebsocketCodec) × (decode_frame_head outside one_byte ≡ ok (true, c'))
        × (c'.state ≡ except_payload))
decode_frame_head-no_wait_example = decode_frame_head-no_wait outside one_byte (omega arith)

encode_frame_head-cut_example : length (encode_frame_head [] close_frame) < head_size 0
encode_frame_head-cut_example = encode_frame_head-Cut [] close_frame (empty refl)

codec_decode-Ended_example : Ended (decode outside one_byte)
codec_decode-Ended_example = codec_decode-Ended outside one_byte (omega arith)
