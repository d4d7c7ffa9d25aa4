-- ===== src/Ws/Frame.antt =====
-- src/proto/ws/WsFrameFormat.h: the layout of a frame head in memory, on a little-endian machine, and
-- `EncodeFrameHead` of src/proto/ws/WebsocketCodec.cc.
use jerry.Base.{
  ℕ, zero, suc, ◌+◌, ◌*◌, ◌/◌, ◌%◌, List, [], ◌∷◌, ◌++◌, length, ltb, if◌then◌else◌, bit_xor,
  get_or, replicate, take_until,
}

-- `enum class WsFrameType : uint8_t`, as its number.
abbrev pub text_frame : ℕ
text_frame = 0x01

abbrev pub close_frame : ℕ
close_frame = 0x08

-- The fields of `ws_base_head`: the first bit-field of a byte is its lowest bits.
abbrev pub opcode_of : ℕ → ℕ
opcode_of b0 = b0 % 16

abbrev pub length_of : ℕ → ℕ
length_of b1 = b1 % 128

abbrev pub mask_of : ℕ → ℕ
mask_of b1 = b1 / 128

-- `be16toh` and `be64toh` of the bytes of a field.
unfoldable pub big_endian : ℕ → List ℕ → ℕ
big_endian acc [] = acc
big_endian acc (x ∷ xs) = big_endian (acc * 256 + x) xs

-- The bytes in memory of `htobe16(n)` and `htole64(n)`, conversions to the type included.
unfoldable pub bytes_of_be16 : ℕ → List ℕ
bytes_of_be16 n = (n / 256 % 256) ∷ (n % 256) ∷ []

unfoldable pub bytes_of_le : ℕ → ℕ → List ℕ
bytes_of_le zero n = []
bytes_of_le (suc k) n = (n % 256) ∷ bytes_of_le k (n / 256)

-- `encode_head` when the function returns: FIN, no mask, and the length of the data; the array is
-- zero where nothing was written.
unfoldable pub encode_head : ℕ → ℕ → List ℕ
unfolding bytes_of_be16 bytes_of_le
encode_head size opcode =
    if ltb size 126
    then (128 + opcode % 16) ∷ (size % 128) ∷ replicate 9 0
    else if ltb size 65535
    then (128 + opcode % 16) ∷ 126 ∷ (bytes_of_be16 size ++ replicate 7 0)
    else (128 + opcode % 16) ∷ 127 ∷ (bytes_of_le 8 size ++ 0 ∷ [])

-- The `std::string` made of the `const char*` stops before the first zero byte.
unfoldable pub encode_frame_head : List ℕ → ℕ → List ℕ
unfolding encode_head take_until
encode_frame_head payload opcode = take_until 0 (encode_head (length payload) opcode)

-- One byte of `data[i] ^= mask_key[(i + last_read_idx) % 4]` after the other; `mask_key` is the list
-- of its four bytes in memory.
unfoldable pub unmask : List ℕ → ℕ → List ℕ → List ℕ
unmask mask_key i [] = []
unmask mask_key i (x ∷ xs) = bit_xor x (get_or mask_key (i % 4) 0) ∷ unmask mask_key (i + 1) xs
