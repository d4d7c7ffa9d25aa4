-- ===== src/Ws/Encode.antt =====
-- What `EncodeFrameHead` of src/proto/ws/WebsocketCodec.cc sends in front of a payload.
use jerry.Base.{
  ℕ, zero, suc, ◌+◌, ◌/◌, ◌%◌, ◌^◌, ◌≤◌, ◌<◌, ◌≡◌, ◌≢◌, refl, List, [], ◌∷◌, some, length,
  get_elem?, arith, ap, ◌++◌, ltb, if◌then◌else◌, take_until,
}
use jerry.Ws.Frame.{
  text_frame, big_endian, encode_head, encode_frame_head, bytes_of_be16, bytes_of_le,
}

-- A zero byte at an offset cuts the string there at the latest.
length-take_until : (xs : List ℕ) (i : ℕ) → get_elem? xs i ≡ some 0 → length (take_until 0 xs) ≤ i
unfolding take_until
length-take_until [] i h = cc h
length-take_until (x ∷ xs) zero h = ground arith
length-take_until (x ∷ xs) (suc i) h = ground (arith, length-take_until xs i)

-- The bytes that the head of an unmasked frame with `n` bytes of payload takes.
abbrev pub head_size : ℕ → ℕ
head_size n = if ltb n 126 then 2 else if ltb n 65536 then 4 else 10

-- The lengths for which the bytes written hold a zero before their end.
pub data Cut (n : ℕ) : Type 0 where
  empty : n ≡ 0 → Cut n
  small : 126 ≤ n → n < 256 → Cut n
  round : 126 ≤ n → n < 65535 → n % 256 ≡ 0 → Cut n
  large : 65536 ≤ n → n < 2 ^ 56 → Cut n

-- For an empty payload, one of 126 to 255 bytes, one whose length is a multiple of 256, and one of
-- 2 ^ 16 bytes or more (below 2 ^ 56), the head that is sent is shorter than the head of such a frame:
-- the string made of the array ends at a zero byte of the length.
pub encode_frame_head-Cut :
    (payload : List ℕ) (opcode : ℕ)
    → Cut (length payload)
    → length (encode_frame_head payload opcode) < head_size (length payload)
unfolding encode_frame_head encode_head bytes_of_be16 bytes_of_le
encode_frame_head-Cut payload opcode (empty e) =
    ground (arith, length-take_until (encode_head (length payload) opcode) 1)
encode_frame_head-Cut payload opcode (small h k) =
    ground (arith, length-take_until (encode_head (length payload) opcode) 2)
encode_frame_head-Cut payload opcode (round h k e) =
    ground (arith, length-take_until (encode_head (length payload) opcode) 3)
encode_frame_head-Cut payload opcode (large h k) =
    ground (arith, length-take_until (encode_head (length payload) opcode) 9)

-- For a payload of 1 to 125 bytes the head is whole: FIN and the opcode, and the length.
encode_frame_head-short :
    (payload : List ℕ) (opcode : ℕ)
    → 0 < length payload
    → length payload < 126
    → encode_frame_head payload opcode ≡ (128 + opcode % 16) ∷ length payload ∷ []
unfolding encode_frame_head encode_head
encode_frame_head-short payload opcode pos h = ground arith

-- For a payload of 256 to 65534 bytes whose length is no multiple of 256 the head is whole: FIN and
-- the opcode, 126, and the length in two bytes, the high one first.
pub encode_frame_head-whole :
    (payload : List ℕ) (opcode : ℕ)
    → 256 ≤ length payload
    → length payload < 65535
    → length payload % 256 ≢ 0
    → (size : List ℕ) × (encode_frame_head payload opcode ≡ (128 + opcode % 16) ∷ 126 ∷ size)
      × (length size ≡ 2)
      × (big_endian 0 size ≡ length payload)
unfolding encode_frame_head encode_head bytes_of_be16 big_endian
encode_frame_head-whole payload opcode h k z =
    ((length payload / 256 % 256) ∷ (length payload % 256) ∷ [], ground arith, refl, omega arith)

-- A whole text frame for a payload whose head is sent whole, as RFC 6455 has it.
pub data Framed (payload : List ℕ) : List ℕ → Type 0 where
  short :
      0 < length payload → length payload < 126 → Framed payload (129 ∷ length payload ∷ payload)
  medium :
      256 ≤ length payload
      → length payload < 65535
      → length payload % 256 ≢ 0
      → Framed payload (129 ∷ 126 ∷ (length payload / 256) ∷ (length payload % 256) ∷ payload)

pub encode_frame_head-Framed :
    {payload frame : List ℕ}
    → Framed payload frame
    → encode_frame_head payload text_frame ++ payload ≡ frame
unfolding encode_frame_head encode_head bytes_of_be16
encode_frame_head-Framed {payload} (short pos h) =
    ap (λ l. l ++ payload) (encode_frame_head-short payload text_frame pos h)
encode_frame_head-Framed {payload} (medium h k z) =
    let head : encode_frame_head payload text_frame
        ≡ 129 ∷ 126 ∷ (length payload / 256) ∷ (length payload % 256) ∷ [] =
      ground arith in
    ap (λ l. l ++ payload) head
