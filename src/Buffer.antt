-- ===== src/Buffer.antt =====
-- src/net/BaseBuffer.h and BaseBuffer.cc: the byte buffer of a connection. The vector is the list
-- `storage`, and the two iterators are offsets into it. Sizes are taken not to reach 2 ^ 64.
pub mod Valid
pub mod Content
pub mod Socket
pub mod Seek
pub mod Tests
use jerry.Base.{
  ℕ, zero, suc, ◌+◌, ◌-◌, ◌*◌, ◌/◌, max, Bool, List, [], ◌∷◌, ◌++◌, Option, none, some, length,
  take, drop, replicate, leb, ◌==◌, if◌then◌else◌,
}

pub record Buffer : Type 0 where
  pub storage : List ℕ
  pub read_idx : ℕ
  pub write_idx : ℕ

-- The bytes `xs` copied into `s` from offset `i` on.
abbrev pub overwrite : List ℕ → ℕ → List ℕ → List ℕ
overwrite s i xs = take i s ++ (xs ++ drop (i + length xs) s)

unfoldable pub init : ℕ → Buffer
init n = record { storage = replicate n 0; read_idx = 0; write_idx = 0 }

unfoldable pub readable_bytes : Buffer → ℕ
readable_bytes b = b.write_idx - b.read_idx

unfoldable pub writable_bytes : Buffer → ℕ
writable_bytes b = length b.storage - b.write_idx

-- `ToStringView` and `ToString`: the bytes from `read_idx` up to `write_idx`.
unfoldable pub to_string : Buffer → List ℕ
to_string b = take (b.write_idx - b.read_idx) (drop b.read_idx b.storage)

unfoldable pub drop_all_bytes : Buffer → Buffer
drop_all_bytes b = record b { read_idx = 0; write_idx = 0 }

unfoldable pub drop_bytes : ℕ → Buffer → Buffer
unfolding readable_bytes drop_all_bytes
drop_bytes n b =
    if leb (readable_bytes b) n then drop_all_bytes b else record b { read_idx = b.read_idx + n }

-- `while (read_idx != pos) read_idx += 1`, with fuel: `none` means that it ran out.
advance : ℕ → ℕ → ℕ → Option ℕ
advance zero i pos = none
advance (suc fuel) i pos = let rest = advance fuel (i + 1) pos in if i == pos then some i else rest

-- An iterator is an offset. Past the end of the storage the loop would leave the vector, so the
-- storage bounds the rounds: `none` stands for that.
unfoldable pub drop_bytes_until : ℕ → Buffer → Option Buffer
unfolding advance
drop_bytes_until pos b = elim (advance (suc (length b.storage)) b.read_idx pos) [
  | none ↦ none
  | some i ↦ some (record b { read_idx = i })
]

unfoldable pub release : Buffer → Buffer
release b = record { storage = []; read_idx = 0; write_idx = 0 }

-- `buffer.size() * 1.5`, truncated to a whole number.
unfoldable pub grown_size : ℕ → ℕ → ℕ
grown_size size len = max (size + len) (size * 3 / 2)

unfoldable pub ensure_writable_space : ℕ → Buffer → Buffer
unfolding writable_bytes to_string grown_size
ensure_writable_space len b =
    if leb len (writable_bytes b)
    then b
    else if leb len (b.read_idx + writable_bytes b)
    then record {
      storage = overwrite b.storage 0 (to_string b);
      read_idx = 0;
      write_idx = b.write_idx - b.read_idx;
    }
    else record b {
      storage = b.storage ++ replicate (grown_size (length b.storage) len - length b.storage) 0;
    }

-- The copy to `BeginOfWritable()` and the move of `write_idx` behind it.
unfoldable pub copy_in : List ℕ → Buffer → Buffer
copy_in xs b = record b {
  storage = overwrite b.storage b.write_idx xs;
  write_idx = b.write_idx + length xs;
}

unfoldable pub append : List ℕ → Buffer → Buffer
append xs b = if length xs == 0 then b else copy_in xs (ensure_writable_space (length xs) b)
