-- ===== src/Ws/Head.antt =====
-- `DecodeFrameHead` of src/proto/ws/WebsocketCodec.cc, on the frame heads of RFC 6455, section 5.2.
use jerry.Base.{
  ℕ, ◌+◌, ◌-◌, ◌≤◌, ◌<◌, ◌≡◌, ◌≢◌, ◌⊎◌, inl, inr, ◌∙◌, refl, sym, ap, true, false, List, [], ◌∷◌,
  ◌++◌, length, take, drop, arith, append_assoc, length-append, length-take, length-drop, take-take,
  drop-take, drop-drop, drop-append, take-append, get_or, ◌==◌, Bool-cases, ltb, ◌||◌,
}
use jerry.Base.Result.{ok}
use jerry.Buffer.{Buffer, to_string}
use jerry.Buffer.Valid.{IsValid, drop_bytes-IsValid}
use jerry.Buffer.Content.{to_string-drop_bytes}
use jerry.Ws.Frame.{big_endian, opcode_of, length_of, mask_of, close_frame}
use jerry.Ws.Payload.{Receives}
use jerry.Ws.Codec.{
  WebsocketCodec, Outside, bytes_at, begin_payload, read_length, decode_frame_head, close,
  except_payload,
}

-- The unread bytes stand in the vector.
bytes_at_lem :
    (pre mid post : List ℕ) (i n : ℕ) (b : Buffer)
    → IsValid b
    → to_string b ≡ pre ++ (mid ++ post)
    → i ≡ length pre
    → n ≡ length mid
    → bytes_at i n b ≡ ok mid
unfolding bytes_at to_string
bytes_at_lem pre mid post i n b v u e f =
    let r = b.read_idx in
    let w = b.write_idx in
    let s = b.storage in
    let size : i + n ≤ w - r = omega (
      arith,
      ap length u,
      length-append pre (mid ++ post),
      length-append mid post,
      length-take (w - r) (drop r s),
      length-drop r s,
    ) in
    let at : take n (drop (r + i) s) ≡ mid =
      ap (take n) (sym (drop-drop r i (r + i) s refl))
      ∙ sym (take-take n (w - r - i) (drop i (drop r s)) (omega (arith, size)))
      ∙ ap (take n) (sym (drop-take (w - r) i (w - r - i) (drop r s) (omega (arith, size))))
      ∙ ap (λ l. take n (drop i l)) u
      ∙ ap (take n) (drop-append pre (mid ++ post) i e)
      ∙ take-append mid post n f in
    ground (arith, at, length-drop (r + i) s, size, v.inside, v.ordered)

-- The second byte and the length field of a masked frame with `n` bytes of payload.
pub data LengthField (n b1 : ℕ) (size : List ℕ) : Type 0 where
  short : n < 126 → b1 ≡ 128 + n → size ≡ [] → LengthField n b1 size
  medium : b1 ≡ 254 → length size ≡ 2 → big_endian 0 size ≡ n → LengthField n b1 size
  long : b1 ≡ 255 → length size ≡ 8 → big_endian 0 size ≡ n → LengthField n b1 size

abbrev pub head_bytes : ℕ → ℕ → List ℕ → List ℕ → List ℕ → List ℕ
head_bytes b0 b1 size key rest = (b0 ∷ b1 ∷ []) ++ (size ++ (key ++ rest))

module _ (b0 b1 n : ℕ) (size key rest : List ℕ) (c : WebsocketCodec)
    (r : Receives (head_bytes b0 b1 size key rest) c) (four : length key ≡ 4) where
  abbrev b : Buffer
  b = c.conn.recv_buffer

  size_at : (k : ℕ) → length size ≡ k → bytes_at 2 k b ≡ ok size
  size_at k e = bytes_at_lem (b0 ∷ b1 ∷ []) size (key ++ rest) 2 k b r.valid r.unread refl (sym e)

  key_at : (i : ℕ) → i ≡ 2 + length size → bytes_at i 4 b ≡ ok key
  key_at i e =
      bytes_at_lem ((b0 ∷ b1 ∷ []) ++ size) key rest i 4 b r.valid
        (r.unread ∙ sym (append_assoc (b0 ∷ b1 ∷ []) size (key ++ rest))) (omega (arith, e))
        (sym four)

  read_length_lem :
      LengthField n b1 size
      → read_length (opcode_of b0) (length_of b1) c
        ≡ ok (begin_payload (6 + length size) (opcode_of b0) n key c)
  unfolding read_length
  read_length_lem (short lt e z) =
      let k = key_at 2 (omega (arith, ap length z)) in
      let len : length_of b1 ≡ n = omega (arith, e, lt) in
      let no_size : length size ≡ 0 = ap length z in ground (arith, k, len, no_size)
  read_length_lem (medium e two v) =
      let s = size_at 2 two in
      let k = key_at 4 (omega (arith, two)) in ground (arith, s, k, e, two, v)
  read_length_lem (long e eight v) =
      let s = size_at 8 eight in
      let k = key_at 10 (omega (arith, eight)) in ground (arith, s, k, e, eight, v)

  masked : LengthField n b1 size → mask_of b1 ≡ 1
  masked (short lt e z) = omega arith
  masked (medium e two v) = omega arith
  masked (long e eight v) = omega arith

  -- When the unread bytes of a valid buffer begin with the complete head of a frame that is
  -- masked with a key of four bytes and does not close, it is read as it stands, for each of the
  -- three forms of the length: the payload length and the key are those of the frame, the frame
  -- type is the opcode, and exactly the head is dropped.
  pub decode_frame_head_lem :
      (o : Outside)
      → LengthField n b1 size
      → opcode_of b0 ≢ close_frame
      → let c' = begin_payload (6 + length size) (opcode_of b0) n key c in
        (decode_frame_head o c ≡ ok (true, c')) × Receives rest c'
  unfolding decode_frame_head
  decode_frame_head_lem o f not_close =
      let start : bytes_at 0 2 b ≡ ok (b0 ∷ b1 ∷ []) =
        bytes_at_lem [] (b0 ∷ b1 ∷ []) (size ++ (key ++ rest)) 0 2 b r.valid r.unread refl refl in
      let m = masked f in
      let l = read_length_lem f in
      (
        ground (arith, start, m, not_close, l),
        record {
          valid = drop_bytes-IsValid (6 + length size) b r.valid;
          unread =
              to_string-drop_bytes (6 + length size) b r.valid
              ∙ ap (drop (6 + length size)) (
                  r.unread
                  ∙ sym (append_assoc (b0 ∷ b1 ∷ []) size (key ++ rest))
                  ∙ sym (append_assoc ((b0 ∷ b1 ∷ []) ++ size) key rest))
              ∙ drop-append (((b0 ∷ b1 ∷ []) ++ size) ++ key) rest (6 + length size)
                  (omega (arith, four, length-append ((b0 ∷ b1 ∷ []) ++ size) key));
        },
      )

bytes_at_any :
    (i n : ℕ) (b : Buffer)
    → b.read_idx + (i + n) ≤ length b.storage
    → bytes_at i n b ≡ ok (take n (drop (b.read_idx + i) b.storage))
unfolding bytes_at
bytes_at_any i n b h = ground (arith, length-drop (b.read_idx + i) b.storage)

read_length_any :
    (opcode len : ℕ) (c : WebsocketCodec)
    → c.conn.recv_buffer.read_idx + 14 ≤ length c.conn.recv_buffer.storage
    → (c' : WebsocketCodec) × (read_length opcode len c ≡ ok c') × (c'.state ≡ except_payload)
unfolding read_length
read_length_any opcode len c h =
    let b = c.conn.recv_buffer in
    let r = b.read_idx in
    let s = b.storage in
    elim (Bool-cases (ltb len 126)) [
      | inl small ↦
          let k = bytes_at_any 2 4 b (omega arith) in
          (begin_payload 6 opcode len (take 4 (drop (r + 2) s)) c, ground arith, refl)
      | inr large ↦ elim (Bool-cases (len == 126)) [
        | inl medium_len ↦
            let z = bytes_at_any 2 2 b (omega arith) in
            let k = bytes_at_any 4 4 b (omega arith) in
            (
              begin_payload 8 opcode (big_endian 0 (take 2 (drop (r + 2) s)))
                  (take 4 (drop (r + 4) s)) c,
              ground arith,
              refl,
            )
        | inr long_len ↦
            let z = bytes_at_any 2 8 b (omega arith) in
            let k = bytes_at_any 10 4 b (omega arith) in
            (
              begin_payload 14 opcode (big_endian 0 (take 8 (drop (r + 2) s)))
                  (take 4 (drop (r + 10) s)) c,
              ground arith,
              refl,
            )
      ]
    ]

-- Whether the bytes have come in is not asked: if the vector goes on for 14 bytes behind `read_idx`,
-- then a head is read there however few of them are unread, and the codec either answers with a
-- close frame or goes on to the payload.
pub decode_frame_head-no_wait :
    (o : Outside) (c : WebsocketCodec)
    → c.conn.recv_buffer.read_idx + 14 ≤ length c.conn.recv_buffer.storage
    → (decode_frame_head o c ≡ ok (false, close o c))
      ⊎ ((c' : WebsocketCodec) × (decode_frame_head o c ≡ ok (true, c'))
          × (c'.state ≡ except_payload))
unfolding decode_frame_head
decode_frame_head-no_wait o c h =
    let b = c.conn.recv_buffer in
    let head = take 2 (drop (b.read_idx + 0) b.storage) in
    let start = bytes_at_any 0 2 b (omega arith) in
    let b0 = get_or head 0 0 in
    let b1 = get_or head 1 0 in
    let (c', e, s) = read_length_any (opcode_of b0) (length_of b1) c h in
    elim (Bool-cases ((mask_of b1 == 0) || (opcode_of b0 == close_frame))) [
      | inl stop ↦ inl (ground arith)
      | inr go ↦ inr (c', ground arith, s)
    ]
