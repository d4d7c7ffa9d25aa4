-- ===== src/Ws/RoundTrip.antt =====
-- A whole frame of a client, through `Decode` of src/proto/ws/WebsocketCodec.cc.
use jerry.Base.{ℕ, ◌≡◌, ◌≢◌, ◌∙◌, refl, sym, ap, List, [], ◌++◌, some, length}
use jerry.Base.Result.{ok}
use jerry.Ws.Frame.{unmask, opcode_of, close_frame}
use jerry.Ws.Unmask.{Bytes}
use jerry.Ws.Payload.{Receives}
use jerry.Ws.Head.{LengthField, head_bytes}
use jerry.Ws.Rounds.{announced, returned, with_payload, head_lem, payload_completes}
use jerry.Ws.Codec.{WebsocketCodec, Outside, take_payload, decode, except_frame_head}

-- A codec that waits for a frame (no payload collected, `last_read_idx` 0), and whose valid
-- buffer begins with a whole frame that is masked with a key of four bytes, does not close, and
-- has its length in any of the three forms, returns in one call of `Decode` the request with the
-- data that the client masked, its opcode, and the host and URI of the handshake; what follows
-- the frame stays in the buffer, and the codec waits for the next frame.
pub decode_frame :
    (o : Outside) (c : WebsocketCodec) (b0 b1 : ℕ) (size key data' rest : List ℕ)
    → c.state ≡ except_frame_head
    → c.req.payload ≡ []
    → c.last_read_idx ≡ 0
    → Bytes key
    → length key ≡ 4
    → Bytes data'
    → opcode_of b0 ≢ close_frame
    → LengthField (length data') b1 size
    → Receives (head_bytes b0 b1 size key (unmask key 0 data' ++ rest)) c
    → (c' : WebsocketCodec) × (decode o c
        ≡ ok (
          some (record {
            type = opcode_of b0;
            payload = data';
            host = c.host;
            request_uri = c.request_uri;
          }),
          c',
        ))
      × (c'.state ≡ except_frame_head)
      × (c'.last_read_idx ≡ 0)
      × Receives rest c'
unfolding decode
decode_frame o c b0 b1 size key data' rest s p i bk four bd not_close f r =
    let n = length data' in
    let c1 = announced b0 n size key c in
    let (head, left) =
      head_lem o 2 b0 b1 n size key (unmask key 0 data' ++ rest) c s four not_close f r in
    let (decoded, after) = payload_completes o 0 data' rest c1 refl bk bd refl (record {
      valid = left.valid;
      unread = left.unread ∙ ap (λ j. unmask key j data' ++ rest) (sym i);
    }) in
    let done = returned o (with_payload data' c1.req) (take_payload n c1) in
    (
      done,
      head
          ∙ decoded
          ∙ ap
              (λ x. ok (
                some (record {
                  type = opcode_of b0;
                  payload = x ++ data';
                  host = c.host;
                  request_uri = c.request_uri;
                }),
                done,
              ))
              p,
      refl,
      refl,
      record { valid = after.valid; unread = after.unread },
    )
