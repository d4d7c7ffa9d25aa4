-- ===== src/Buffer/Valid.antt =====
-- The representation invariant of the buffer, kept by every operation of BaseBuffer.cc.
use jerry.Base.{
  ℕ, ◌+◌, ◌-◌, ◌≤◌, ◌≡◌, List, ◌++◌, arith, length, take, drop, replicate, length-append,
  length-take, length-drop, length-replicate,
}
use jerry.Buffer.{
  Buffer, overwrite, init, writable_bytes, to_string, drop_bytes, release, grown_size,
  ensure_writable_space, copy_in, append,
}

pub record IsValid (b : Buffer) : Type 0 where
  pub ordered : b.read_idx ≤ b.write_idx
  pub inside : b.write_idx ≤ length b.storage

pub length-overwrite :
    (s : List ℕ) (i : ℕ) (xs : List ℕ)
    → i + length xs ≤ length s
    → length (overwrite s i xs) ≡ length s
length-overwrite s i xs h = omega (
  arith,
  length-append (take i s) (xs ++ drop (i + length xs) s),
  length-append xs (drop (i + length xs) s),
  length-take i s,
  length-drop (i + length xs) s,
)

pub length-to_string : (b : Buffer) → IsValid b → length (to_string b) ≡ b.write_idx - b.read_idx
unfolding to_string
length-to_string b v = omega (
  arith,
  length-take (b.write_idx - b.read_idx) (drop b.read_idx b.storage),
  length-drop b.read_idx b.storage,
)

-- The constructor's buffer is valid.
pub init-IsValid : (n : ℕ) → IsValid (init n)
unfolding init
init-IsValid n = omega arith

pub drop_bytes-IsValid : (n : ℕ) (b : Buffer) → IsValid b → IsValid (drop_bytes n b)
unfolding drop_bytes
drop_bytes-IsValid n b v = ground arith

-- `EnsureWritableSpace` keeps a valid buffer valid and makes the room that was asked for.
pub ensure_writable_space-IsValid :
    (len : ℕ) (b : Buffer)
    → IsValid b
    → IsValid (ensure_writable_space len b) × (len ≤ writable_bytes (ensure_writable_space len b))
unfolding ensure_writable_space to_string
ensure_writable_space-IsValid len b v = ground (
  arith,
  length-overwrite b.storage 0 (take (b.write_idx - b.read_idx) (drop b.read_idx b.storage)),
  length-take (b.write_idx - b.read_idx) (drop b.read_idx b.storage),
  length-drop b.read_idx b.storage,
  length-append b.storage (replicate (grown_size (length b.storage) len - length b.storage) 0),
  length-replicate {A = ℕ} (grown_size (length b.storage) len - length b.storage) 0,
)

pub copy_in-IsValid :
    (xs : List ℕ) (b : Buffer) → IsValid b → length xs ≤ writable_bytes b → IsValid (copy_in xs b)
unfolding copy_in writable_bytes
copy_in-IsValid xs b v h = omega (arith, length-overwrite b.storage b.write_idx xs)

pub append-IsValid : (xs : List ℕ) (b : Buffer) → IsValid b → IsValid (append xs b)
unfolding append
append-IsValid xs b v =
    let e = ensure_writable_space-IsValid (length xs) b v in
    ground (arith, copy_in-IsValid xs (ensure_writable_space (length xs) b) e.0 e.1)

pub release-IsValid : (b : Buffer) → IsValid (release b)
unfolding release
release-IsValid b = omega arith
