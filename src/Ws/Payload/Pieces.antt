-- ===== src/Ws/Payload/Pieces.antt =====
-- A WebSocket payload that arrives in pieces (`DecodePayload` of src/proto/ws/WebsocketCodec.cc called
-- after each of them).
use native.Mathlib.Decide.{dec_lt}
use jerry.Base.{
  ℕ, ◌+◌, ◌-◌, ◌<◌, ◌≡◌, ◌∙◌, refl, sym, ap, subst, Bool, true, false, List, [], ◌∷◌, ◌++◌, length,
  arith, append_assoc, append-nil, length-append, take_all, drop_all,
}
use jerry.Buffer.{append}
use jerry.Buffer.Valid.{append-IsValid}
use jerry.Buffer.Content.{to_string-append}
use jerry.Ws.Frame.{unmask}
use jerry.Ws.Unmask.{unmask-append}
use jerry.Ws.Codec.{WebsocketCodec, take_payload, decode_payload, parse_finished}
use jerry.Ws.Payload.{
  Receives, finished, take_payload-Receives, decode_payload_done, decode_payload_more,
  payload_remains-take_payload,
}

-- The bytes arrive, and the codec is called.
abbrev pub arrive : List ℕ → WebsocketCodec → WebsocketCodec
arrive xs c = record c { conn = record (c.conn) { recv_buffer = append xs c.conn.recv_buffer } }

unfoldable pub feed : List (List ℕ) → WebsocketCodec → Bool × WebsocketCodec
feed [] c = (false, c)
feed (xs ∷ rest) c =
    let (done, c') = decode_payload (arrive xs c) in
    elim done [ true ↦ (true, c') | false ↦ feed rest c' ]

abbrev pub concat : List (List ℕ) → List ℕ
concat [] = []
concat (xs ∷ rest) = xs ++ concat rest

-- What is said of the codec once a payload has come in.
pub record Complete (before xs key : List ℕ) (i : ℕ) (r : Bool × WebsocketCodec) : Type 0 where
  pub done : r.0 ≡ true
  pub state : r.1.state ≡ parse_finished
  pub offset : r.1.last_read_idx ≡ 0
  pub empty : Receives [] r.1
  pub payload : r.1.req.payload ≡ before ++ unmask key i xs

arrive-Receives : (xs : List ℕ) (c : WebsocketCodec) → Receives [] c → Receives xs (arrive xs c)
arrive-Receives xs c r = record {
  valid = append-IsValid xs c.conn.recv_buffer r.valid;
  unread = to_string-append xs c.conn.recv_buffer r.valid ∙ ap (λ l. l ++ xs) r.unread;
}

feed_done :
    (xs : List ℕ) (rest : List (List ℕ)) (c d : WebsocketCodec)
    → decode_payload (arrive xs c) ≡ (true, d)
    → feed (xs ∷ rest) c ≡ (true, d)
unfolding feed
feed_done xs rest c d e = ground arith

feed_more :
    (xs : List ℕ) (rest : List (List ℕ)) (c d : WebsocketCodec)
    → decode_payload (arrive xs c) ≡ (false, d)
    → feed (xs ∷ rest) c ≡ feed rest d
unfolding feed
feed_more xs rest c d e = ground arith

nil_of_length : (xs : List ℕ) → length xs ≡ 0 → xs ≡ []
nil_of_length [] e = refl
nil_of_length (x ∷ xs) e = absurd (omega arith)

-- The piece that completes the payload.
feed_last :
    (xs : List ℕ) (rest : List (List ℕ)) (c : WebsocketCodec)
    → Receives [] c
    → length xs ≡ c.payload_remains
    → concat rest ≡ []
    → Complete c.req.payload (xs ++ concat rest) c.mask_key c.last_read_idx (feed (xs ∷ rest) c)
unfolding take_payload
feed_last xs rest c r e n =
    let a = arrive xs c in
    let ra = arrive-Receives xs c r in
    let size = c.payload_remains in
    let t = take_payload-Receives size xs a ra (omega (arith, e)) in
    let whole : xs ++ concat rest ≡ xs = ap (λ l. xs ++ l) n ∙ append-nil xs in
    subst (Complete c.req.payload (xs ++ concat rest) c.mask_key c.last_read_idx)
      (sym (
        feed_done xs rest c (finished (take_payload size a))
          (decode_payload_done xs a ra (omega (arith, e)))))
      (record {
        done = refl;
        state = refl;
        offset = refl;
        empty = record {
          valid = t.0.valid;
          unread = t.0.unread ∙ drop_all size xs (omega (arith, e));
        };
        payload =
            t.1
            ∙ ap (λ l. c.req.payload ++ unmask c.mask_key c.last_read_idx l)
                (take_all size xs (omega (arith, e)) ∙ sym whole);
      })

-- A piece that leaves some of the payload to come.
feed_next :
    (xs : List ℕ) (rest : List (List ℕ)) (c : WebsocketCodec)
    → Receives [] c
    → length xs < c.payload_remains
    → ((d : WebsocketCodec)
        → d ≡ take_payload (length xs) (arrive xs c)
        → Receives [] d
        → Complete d.req.payload (concat rest) d.mask_key d.last_read_idx (feed rest d))
    → Complete c.req.payload (xs ++ concat rest) c.mask_key c.last_read_idx (feed (xs ∷ rest) c)
unfolding take_payload
feed_next xs rest c r less more =
    let a = arrive xs c in
    let ra = arrive-Receives xs c r in
    let n = length xs in
    let d = take_payload n a in
    let t = take_payload-Receives n xs a ra (omega arith) in
    let k =
      more d refl
        (record { valid = t.0.valid; unread = t.0.unread ∙ drop_all n xs (omega arith) }) in
    subst (Complete c.req.payload (xs ++ concat rest) c.mask_key c.last_read_idx)
      (sym (feed_more xs rest c d (decode_payload_more xs a ra less)))
      (record {
        done = k.done;
        state = k.state;
        offset = k.offset;
        empty = k.empty;
        payload =
            k.payload
            ∙ ap (λ l. l ++ unmask c.mask_key (c.last_read_idx + n) (concat rest))
                (t.1
                  ∙ ap (λ l. c.req.payload ++ unmask c.mask_key c.last_read_idx l)
                      (take_all n xs (omega arith)))
            ∙ append_assoc c.req.payload (unmask c.mask_key c.last_read_idx xs)
                (unmask c.mask_key (c.last_read_idx + n) (concat rest))
            ∙ ap (λ l. c.req.payload ++ l)
                (sym (unmask-append c.mask_key c.last_read_idx xs (concat rest)));
      })

-- When the receive buffer is valid and empty and a payload of one byte or more is still to come,
-- then however it is cut into pieces, `DecodePayload` called after each of them ends with `true`
-- when all have arrived, has appended to the request exactly the bytes unmasked as one piece with
-- the key from `last_read_idx` on, leaves nothing in the buffer, and is ready for the next frame.
pub feed_lem :
    (pieces : List (List ℕ)) (c : WebsocketCodec)
    → Receives [] c
    → 0 < c.payload_remains
    → length (concat pieces) ≡ c.payload_remains
    → Complete c.req.payload (concat pieces) c.mask_key c.last_read_idx (feed pieces c)
feed_lem [] c r pos e = absurd (omega arith)
feed_lem (xs ∷ rest) c r pos e =
    let total : length xs + length (concat rest) ≡ c.payload_remains =
      omega (arith, e, length-append xs (concat rest)) in
    elim (dec_lt (length xs) c.payload_remains) [
      | yes less ↦ feed_next xs rest c r less (λ d same rd.
          let left : d.payload_remains ≡ c.payload_remains - length xs =
            ap (λ (x : WebsocketCodec). x.payload_remains) same
            ∙ payload_remains-take_payload (length xs) (arrive xs c) in
          feed_lem rest d rd (omega (arith, left)) (omega (arith, left, total)))
      | no all ↦
          feed_last xs rest c r (omega (arith, total))
            (nil_of_length (concat rest) (omega (arith, total)))
    ]
