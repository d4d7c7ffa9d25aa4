-- ===== src/Ws/Rounds.antt =====
-- The rounds of `Decode` of src/proto/ws/WebsocketCodec.cc, on the bytes that a client masked.
use jerry.Base.{
  ℕ, suc, ◌+◌, ◌≡◌, ◌≢◌, ◌∙◌, refl, sym, ap, ◌≤◌, ◌<◌, true, false, List, [], ◌++◌, none, some,
  length, arith, take-append, drop-append, length-append, append-nil,
}
use jerry.Base.Result.{ok}
use jerry.Ws.Frame.{unmask, opcode_of, close_frame}
use jerry.Ws.Unmask.{Bytes, length-unmask, unmask-unmask}
use jerry.Ws.Payload.{
  Receives, finished, take_payload-Receives, decode_payload_done, decode_payload_more,
}
use jerry.Ws.Head.{LengthField, head_bytes, decode_frame_head_lem}
use jerry.Ws.Codec.{
  WsReq, WebsocketCodec, Outside, begin_payload, take_payload, decode_frame_head, decode_payload,
  decode_loop, except_frame_head, except_payload, parse_finished,
}

module _ (o : Outside) (fuel : ℕ) where
  loop_head :
      (c c' : WebsocketCodec)
      → c.state ≡ except_frame_head
      → decode_frame_head o c ≡ ok (true, c')
      → decode_loop o (suc fuel) c ≡ decode_loop o fuel c'
  unfolding decode_loop
  loop_head c c' s e = ground arith

  loop_payload :
      (c c' : WebsocketCodec)
      → c.state ≡ except_payload
      → decode_payload c ≡ (true, c')
      → decode_loop o (suc fuel) c ≡ decode_loop o fuel c'
  unfolding decode_loop
  loop_payload c c' s e = ground arith

  loop_payload_waits :
      (c c' : WebsocketCodec)
      → c.state ≡ except_payload
      → decode_payload c ≡ (false, c')
      → decode_loop o (suc fuel) c ≡ ok (none, c')
  unfolding decode_loop
  loop_payload_waits c c' s e = ground arith

  loop_finished :
      (c : WebsocketCodec)
      → c.state ≡ parse_finished
      → decode_loop o (suc fuel) c
        ≡ ok (some c.req, record c { state = except_frame_head; req = o.moved c.req })
  unfolding decode_loop
  loop_finished c s = ground arith

-- The request once `xs` has joined its payload.
abbrev pub with_payload : List ℕ → WsReq → WsReq
with_payload xs r = record r { payload = r.payload ++ xs }

-- The codec once it has taken `n` bytes, the last of a frame, and returned `req`.
abbrev pub returned : Outside → WsReq → WebsocketCodec → WebsocketCodec
returned o req c = record (finished c) { state = except_frame_head; req = o.moved req }

-- What the client masked with the codec's key from its offset on.
abbrev pub masked_for : WebsocketCodec → List ℕ → List ℕ
masked_for c xs = unmask c.mask_key c.last_read_idx xs

-- Data that the client masked joins the payload.
taken_data :
    (xs after : List ℕ) (n : ℕ) (c : WebsocketCodec)
    → Bytes c.mask_key
    → Bytes xs
    → n ≡ length xs
    → Receives (masked_for c xs ++ after) c
    → Receives after (take_payload n c) × ((take_payload n c).req ≡ with_payload xs c.req)
unfolding take_payload
taken_data xs after n c bk bx e r =
    let text = masked_for c xs in
    let size : n ≡ length text = e ∙ sym (length-unmask c.mask_key c.last_read_idx xs) in
    let (left, payload) =
      take_payload-Receives n (text ++ after) c r (omega (arith, size, length-append text after)) in
    (
      record { valid = left.valid; unread = left.unread ∙ drop-append text after n size },
      ap (λ p. record c.req { payload = p })
          (payload
            ∙ ap (λ l. c.req.payload ++ unmask c.mask_key c.last_read_idx l)
                (take-append text after n size)
            ∙ ap (λ l. c.req.payload ++ l) (unmask-unmask c.mask_key c.last_read_idx xs bk bx)),
    )

module _ (o : Outside) (fuel : ℕ) where
  -- The rest of the payload is there.
  pub payload_completes :
      (xs after : List ℕ) (c : WebsocketCodec)
      → c.state ≡ except_payload
      → Bytes c.mask_key
      → Bytes xs
      → c.payload_remains ≡ length xs
      → Receives (masked_for c xs ++ after) c
      → let t = take_payload c.payload_remains c in
        (decode_loop o (suc (suc fuel)) c
          ≡ ok (some (with_payload xs c.req), returned o (with_payload xs c.req) t))
        × Receives after t
  payload_completes xs after c s bk bx e r =
      let text = masked_for c xs in
      let t = take_payload c.payload_remains c in
      let (left, req) = taken_data xs after c.payload_remains c bk bx e r in
      let enough : c.payload_remains ≤ length (text ++ after) =
        omega (arith, e, length-append text after, length-unmask c.mask_key c.last_read_idx xs) in
      (
        loop_payload o (suc fuel) c (finished t) s (decode_payload_done (text ++ after) c r enough)
            ∙ loop_finished o fuel (finished t) refl
            ∙ ap (λ q. ok (some q, returned o q t)) req,
        left,
      )

  -- Only a part of it is there.
  pub payload_waits :
      (xs : List ℕ) (c : WebsocketCodec)
      → c.state ≡ except_payload
      → Bytes c.mask_key
      → Bytes xs
      → length xs < c.payload_remains
      → Receives (masked_for c xs) c
      → let t = take_payload (length xs) c in
        (decode_loop o (suc fuel) c ≡ ok (none, t))
        × Receives [] t
        × (t.req ≡ with_payload xs c.req)
  payload_waits xs c s bk bx less r =
      let text = masked_for c xs in
      let size = length-unmask c.mask_key c.last_read_idx xs in
      let (left, req) =
        taken_data xs [] (length xs) c bk bx refl
          (record { valid = r.valid; unread = r.unread ∙ sym (append-nil text) }) in
      (
        loop_payload_waits o fuel c (take_payload (length xs) c) s (
            decode_payload_more text c r (omega (arith, size, less))
            ∙ ap (λ n. (false, take_payload n c)) size),
        left,
        req,
      )

-- The codec once it has read a head and dropped it.
abbrev pub announced : ℕ → ℕ → List ℕ → List ℕ → WebsocketCodec → WebsocketCodec
announced b0 n size key c = begin_payload (6 + length size) (opcode_of b0) n key c

-- A whole head, and the first bytes of its payload.
pub head_lem :
    (o : Outside) (fuel b0 b1 n : ℕ) (size key rest : List ℕ) (c : WebsocketCodec)
    → c.state ≡ except_frame_head
    → length key ≡ 4
    → opcode_of b0 ≢ close_frame
    → LengthField n b1 size
    → Receives (head_bytes b0 b1 size key rest) c
    → (decode_loop o (suc fuel) c ≡ decode_loop o fuel (announced b0 n size key c))
      × Receives rest (announced b0 n size key c)
head_lem o fuel b0 b1 n size key rest c s four not_close f r =
    let (decoded, left) = decode_frame_head_lem b0 b1 n size key rest c r four o f not_close in
    (loop_head o fuel c (announced b0 n size key c) s decoded, left)
