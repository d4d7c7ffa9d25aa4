-- ===== src/Ws/Payload.antt =====
-- `DecodePayload` of src/proto/ws/WebsocketCodec.cc, on a payload that arrives in pieces.
use jerry.Base.{
  ℕ, zero, suc, ◌+◌, ◌-◌, ◌≤◌, ◌<◌, ◌≡◌, ◌≢◌, ◌∙◌, refl, sym, ap, ap₂, subst, Bool, true, false,
  List, [], ◌∷◌, ◌++◌, length, take, drop, min, arith, append_assoc, append-nil, length-append,
  length-take, length-drop, take_all, drop_all, drop-take, drop-drop, drop-append, if◌then◌else◌,
  ◌==◌, Bool-cases, inl, inr,
}
pub mod Pieces
use jerry.Buffer.{Buffer, overwrite, to_string, readable_bytes, drop_bytes, append}
use jerry.Buffer.Valid.{
  IsValid, drop_bytes-IsValid, append-IsValid, length-overwrite, length-to_string,
}
use jerry.Buffer.Content.{readable_bytes-length, to_string-drop_bytes, to_string-append}
use jerry.Conn.{Conn}
use jerry.Ws.Frame.{unmask}
use jerry.Ws.Unmask.{length-unmask, unmask-append}
use jerry.Ws.Codec.{
  WebsocketCodec, WsReq, State, take_payload, finish_payload, decode_payload, parse_finished,
}

-- Bytes changed in place and then dropped are not seen.
drop-overwrite :
    (s xs : List ℕ) (r k : ℕ)
    → r ≤ length s
    → k ≡ r + length xs
    → drop k (overwrite s r xs) ≡ drop (r + length xs) s
drop-overwrite s xs r k h e =
    ap (drop k) (sym (append_assoc (take r s) xs (drop (r + length xs) s)))
    ∙ drop-append (take r s ++ xs) (drop (r + length xs) s) k
        (omega (arith, length-append (take r s) xs, length-take r s))

window-overwrite_dropped :
    (s xs : List ℕ) (r w : ℕ)
    → r + length xs ≤ w
    → w ≤ length s
    → drop (length xs) (take (w - r) (drop r (overwrite s r xs)))
      ≡ drop (length xs) (take (w - r) (drop r s))
window-overwrite_dropped s xs r w h k =
    drop-take (w - r) (length xs) (w - r - length xs) (drop r (overwrite s r xs)) (omega arith)
    ∙ ap (take (w - r - length xs)) (
        drop-drop r (length xs) (r + length xs) (overwrite s r xs) refl
        ∙ drop-overwrite s xs r (r + length xs) (omega arith) refl
        ∙ sym (drop-drop r (length xs) (r + length xs) s refl))
    ∙ sym (drop-take (w - r) (length xs) (w - r - length xs) (drop r s) (omega arith))

to_string-overwritten :
    (xs : List ℕ) (k : ℕ) (b : Buffer)
    → IsValid b
    → b.read_idx + length xs ≤ b.write_idx
    → length xs ≡ k
    → drop k (to_string (record b { storage = overwrite b.storage b.read_idx xs }))
      ≡ drop k (to_string b)
unfolding to_string
to_string-overwritten xs k b v h e =
    subst
      (λ n.
        drop n
          (take (b.write_idx - b.read_idx) (drop b.read_idx (overwrite b.storage b.read_idx xs)))
        ≡ drop n (take (b.write_idx - b.read_idx) (drop b.read_idx b.storage)))
      e (window-overwrite_dropped b.storage xs b.read_idx b.write_idx h v.inside)

-- The receive buffer of the codec is valid and holds `text`.
pub record Receives (text : List ℕ) (c : WebsocketCodec) : Type 0 where
  pub valid : IsValid c.conn.recv_buffer
  pub unread : to_string c.conn.recv_buffer ≡ text

-- The unmasked bytes leave the buffer, the others stay.
pub take_payload-Receives :
    (size : ℕ) (text : List ℕ) (c : WebsocketCodec)
    → Receives text c
    → size ≤ length text
    → Receives (drop size text) (take_payload size c)
      × ((take_payload size c).req.payload
          ≡ c.req.payload ++ unmask c.mask_key c.last_read_idx (take size text))
unfolding take_payload
take_payload-Receives size text c r h =
    let b = c.conn.recv_buffer in
    let xs = unmask c.mask_key c.last_read_idx (take size (to_string b)) in
    let n : length xs ≡ size = omega (
      arith,
      length-unmask c.mask_key c.last_read_idx (take size (to_string b)),
      length-take size (to_string b),
      ap length r.unread,
    ) in
    let l = length-to_string b r.valid in
    let fits : b.read_idx + length xs ≤ b.write_idx =
      omega (arith, n, l, ap length r.unread, r.valid.ordered) in
    let b2 : Buffer = record b { storage = overwrite b.storage b.read_idx xs } in
    let v2 : IsValid b2 = record {
      ordered = r.valid.ordered;
      inside = omega (arith, length-overwrite b.storage b.read_idx xs, fits, r.valid.inside);
    } in
    (
      record {
        valid = drop_bytes-IsValid size b2 v2;
        unread =
            to_string-drop_bytes size b2 v2
            ∙ to_string-overwritten xs size b r.valid fits n
            ∙ ap (drop size) r.unread;
      },
      ap (λ t. c.req.payload ++ unmask c.mask_key c.last_read_idx (take size t)) r.unread,
    )

abbrev pub finished : WebsocketCodec → WebsocketCodec
finished c = record c { last_read_idx = 0; state = parse_finished }

finish_done : (c : WebsocketCodec) → c.payload_remains ≡ 0 → finish_payload c ≡ (true, finished c)
unfolding finish_payload
finish_done c e = ground arith

finish_more : (c : WebsocketCodec) → c.payload_remains ≢ 0 → finish_payload c ≡ (false, c)
unfolding finish_payload
finish_more c e = ground arith

pub payload_remains-take_payload :
    (n : ℕ) (c : WebsocketCodec) → (take_payload n c).payload_remains ≡ c.payload_remains - n
unfolding take_payload
payload_remains-take_payload n c = refl

readable-Receives :
    (text : List ℕ) (c : WebsocketCodec)
    → Receives text c
    → readable_bytes c.conn.recv_buffer ≡ length text
readable-Receives text c r = readable_bytes-length c.conn.recv_buffer r.valid ∙ ap length r.unread

-- All of the payload is there.
pub decode_payload_done :
    (text : List ℕ) (c : WebsocketCodec)
    → Receives text c
    → c.payload_remains ≤ length text
    → decode_payload c ≡ (true, finished (take_payload c.payload_remains c))
unfolding decode_payload
decode_payload_done text c r h =
    let e : min (readable_bytes c.conn.recv_buffer) c.payload_remains ≡ c.payload_remains =
      omega (arith, readable-Receives text c r) in
    ap (λ n. finish_payload (take_payload n c)) e
    ∙ finish_done (take_payload c.payload_remains c)
        (omega (arith, payload_remains-take_payload c.payload_remains c))

-- Only the bytes of `text` are there.
pub decode_payload_more :
    (text : List ℕ) (c : WebsocketCodec)
    → Receives text c
    → length text < c.payload_remains
    → decode_payload c ≡ (false, take_payload (length text) c)
unfolding decode_payload
decode_payload_more text c r h =
    let e : min (readable_bytes c.conn.recv_buffer) c.payload_remains ≡ length text =
      omega (arith, readable-Receives text c r) in
    ap (λ n. finish_payload (take_payload n c)) e
    ∙ finish_more (take_payload (length text) c)
        (λ k. absurd (omega (arith, k, payload_remains-take_payload (length text) c)))
