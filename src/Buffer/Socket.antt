-- ===== src/Buffer/Socket.antt =====
-- src/net/BaseBuffer.cc, the transfers to and from a descriptor or a TLS session. The system call
-- is a parameter that is given what the code passes; `none` is a negative result. The `int` in
-- which the code keeps a count is taken to hold it.
use jerry.Base.{
  ℕ, zero, suc, ◌+◌, ◌≤◌, ◌≡◌, ◌∙◌, ap, refl, sym, List, [], ◌∷◌, ◌++◌, Option, none, some, arith,
  length, take, drop, ltb, leb, ◌==◌, if◌then◌else◌, append_assoc, append-nil, take-append-drop,
  length-take, Bool-cases, inl, inr, leb→lt,
}
use jerry.Buffer.{
  Buffer, overwrite, writable_bytes, to_string, drop_bytes, ensure_writable_space, copy_in, append,
}
use jerry.Buffer.Valid.{
  IsValid, drop_bytes-IsValid, ensure_writable_space-IsValid, copy_in-IsValid, append-IsValid,
  length-overwrite,
}
use jerry.Buffer.Content.{
  to_string-drop_bytes, to_string-ensure_writable_space, to_string-copy_in, to_string-append,
}

-- `sizeof(extra_buffer)`
abbrev pub extra_size : ℕ
extra_size = 65535

-- How much the vector that `readv` is given can take.
unfoldable pub iov_capacity : Buffer → ℕ
iov_capacity b =
    if ltb (writable_bytes b) extra_size then writable_bytes b + extra_size else writable_bytes b

-- What `readv` has put behind `write_idx`, when that part is filled to the end.
unfoldable pub fill : List ℕ → Buffer → Buffer
fill xs b = record b {
  storage = overwrite b.storage b.write_idx xs;
  write_idx = length (overwrite b.storage b.write_idx xs);
}

-- The bytes that `readv` returned go first behind `write_idx`, and then into `extra_buffer`.
unfoldable pub store : List ℕ → Buffer → Buffer
unfolding fill
store xs b =
    if leb (length xs) (writable_bytes b)
    then copy_in xs b
    else append (drop (writable_bytes b) xs) (fill (take (writable_bytes b) xs) b)

-- What follows `readv`.
after_readv : Option (List ℕ) → Buffer → Option ℕ × Buffer
after_readv none b = (none, b)
after_readv (some xs) b = if length xs == 0 then (some 0, b) else (some (length xs), store xs b)

unfoldable pub read_bytes_from_fd : (ℕ → Option (List ℕ)) → Buffer → Option ℕ × Buffer
unfolding after_readv
read_bytes_from_fd readv b = after_readv (readv (iov_capacity b)) b

-- What follows `write` and `SSL_write`.
after_write : Option ℕ → Buffer → Option ℕ × Buffer
after_write none b = (none, b)
after_write (some n) b = (some n, if ltb 0 n then drop_bytes n b else b)

unfoldable pub write_bytes_to_fd : (List ℕ → Option ℕ) → Buffer → Option ℕ × Buffer
unfolding after_write
write_bytes_to_fd write b = after_write (write (to_string b)) b

-- What follows `SSL_read`.
after_ssl_read : Option (List ℕ) → Buffer → Option ℕ × Buffer
after_ssl_read none b = (none, b)
after_ssl_read (some xs) b = (some (length xs), if ltb 0 (length xs) then copy_in xs b else b)

unfoldable pub read_bytes_from_ssl : (ℕ → Option (List ℕ)) → Buffer → Option ℕ × Buffer
unfolding after_ssl_read
read_bytes_from_ssl ssl_read b =
    let b' = ensure_writable_space 1024 b in after_ssl_read (ssl_read (writable_bytes b')) b'

unfoldable pub write_bytes_to_ssl : (List ℕ → Option ℕ) → Buffer → Option ℕ × Buffer
unfolding after_write
write_bytes_to_ssl ssl_write b = after_write (ssl_write (to_string b)) b

-- The bytes that a read delivered, and the number of those that a write took.
abbrev pub received : Option (List ℕ) → List ℕ
received none = []
received (some xs) = xs

abbrev pub taken : Option ℕ → ℕ
taken none = 0
taken (some n) = n

abbrev pub count : Option (List ℕ) → Option ℕ
count none = none
count (some xs) = some (length xs)

fill-copy_in :
    (xs : List ℕ) (b : Buffer) → IsValid b → length xs ≡ writable_bytes b → fill xs b ≡ copy_in xs b
unfolding fill copy_in writable_bytes
fill-copy_in xs b v h = ground (arith, length-overwrite b.storage b.write_idx xs)

store_lem :
    (xs : List ℕ) (b : Buffer)
    → IsValid b
    → IsValid (store xs b) × (to_string (store xs b) ≡ to_string b ++ xs)
unfolding store
store_lem xs b v = elim (Bool-cases (leb (length xs) (writable_bytes b))) [
  | inl fits ↦ rw fits (ground (arith, copy_in-IsValid xs b v, to_string-copy_in xs b v))
  | inr over ↦
      let more = leb→lt (length xs) (writable_bytes b) over in
      let n = writable_bytes b in
      let head : List ℕ = take n xs in
      let e : length head ≡ n = omega (arith, length-take n xs) in
      let v' = copy_in-IsValid head b v (omega arith) in
      rw (over, fill-copy_in head b v e)
        (
          append-IsValid (drop n xs) (copy_in head b) v',
          to_string-append (drop n xs) (copy_in head b) v'
              ∙ ap (λ l. l ++ drop n xs) (to_string-copy_in head b v (omega arith))
              ∙ append_assoc (to_string b) head (drop n xs)
              ∙ ap (λ l. to_string b ++ l) (take-append-drop n xs),
        )
]

after_readv_lem :
    (got : Option (List ℕ)) (b : Buffer)
    → IsValid b
    → let (n, b') = after_readv got b in
      (n ≡ count got) × (to_string b' ≡ to_string b ++ received got) × IsValid b'
unfolding after_readv
after_readv_lem none b v = (refl, sym (append-nil (to_string b)), v)
after_readv_lem (some []) b v = (refl, sym (append-nil (to_string b)), v)
after_readv_lem (some (x ∷ xs)) b v =
    let e = store_lem (x ∷ xs) b v in (ground arith, ground arith, ground arith)

-- On a valid buffer `ReadBytesFromFd` adds exactly the bytes that were read, in order, whether or
-- not they fit behind `write_idx`, returns their number (or the error), and keeps the buffer
-- valid.
pub read_bytes_from_fd_lem :
    (readv : ℕ → Option (List ℕ)) (b : Buffer)
    → IsValid b
    → let (n, b') = read_bytes_from_fd readv b in
      let got = readv (iov_capacity b) in
      (n ≡ count got) × (to_string b' ≡ to_string b ++ received got) × IsValid b'
unfolding read_bytes_from_fd
read_bytes_from_fd_lem readv b v = after_readv_lem (readv (iov_capacity b)) b v

after_write_lem :
    (sent : Option ℕ) (b : Buffer)
    → IsValid b
    → let (n, b') = after_write sent b in
      (n ≡ sent) × (take (taken sent) (to_string b) ++ to_string b' ≡ to_string b) × IsValid b'
unfolding after_write
after_write_lem none b v = (refl, refl, v)
after_write_lem (some zero) b v = (refl, refl, v)
after_write_lem (some (suc n)) b v =
    let keep = drop_bytes-IsValid (suc n) b v in
    (
      refl,
      ground (arith, to_string-drop_bytes (suc n) b v, take-append-drop (suc n) (to_string b)),
      ground arith,
    )

-- On a valid buffer `WriteBytesToFd` returns what `write` did, and drops exactly the bytes that
-- were written: these and the ones still unread make up the bytes unread before. The buffer stays
-- valid.
pub write_bytes_to_fd_lem :
    (write : List ℕ → Option ℕ) (b : Buffer)
    → IsValid b
    → let (n, b') = write_bytes_to_fd write b in
      let sent = write (to_string b) in
      (n ≡ sent) × (take (taken sent) (to_string b) ++ to_string b' ≡ to_string b) × IsValid b'
unfolding write_bytes_to_fd
write_bytes_to_fd_lem write b v = after_write_lem (write (to_string b)) b v

pub write_bytes_to_ssl_lem :
    (write : List ℕ → Option ℕ) (b : Buffer)
    → IsValid b
    → let (n, b') = write_bytes_to_ssl write b in
      let sent = write (to_string b) in
      (n ≡ sent) × (take (taken sent) (to_string b) ++ to_string b' ≡ to_string b) × IsValid b'
unfolding write_bytes_to_ssl
write_bytes_to_ssl_lem write b v = after_write_lem (write (to_string b)) b v

after_ssl_read_lem :
    (got : Option (List ℕ)) (b : Buffer)
    → length (received got) ≤ writable_bytes b
    → IsValid b
    → let (n, b') = after_ssl_read got b in
      (n ≡ count got) × (to_string b' ≡ to_string b ++ received got) × IsValid b'
unfolding after_ssl_read
after_ssl_read_lem none b h v = (refl, sym (append-nil (to_string b)), v)
after_ssl_read_lem (some []) b h v = (refl, sym (append-nil (to_string b)), v)
after_ssl_read_lem (some (x ∷ xs)) b h v =
    let e = to_string-copy_in (x ∷ xs) b v h in
    let k = copy_in-IsValid (x ∷ xs) b v h in (refl, ground arith, ground arith)

-- On a valid buffer `ReadBytesFromSsl` makes room for 1024 bytes, adds exactly what `SSL_read`
-- delivered, returns its number (or the error) and keeps the buffer valid, given that `SSL_read`
-- delivers no more than it is asked for.
pub read_bytes_from_ssl_lem :
    (ssl_read : ℕ → Option (List ℕ)) (b : Buffer)
    → ((room : ℕ) → length (received (ssl_read room)) ≤ room)
    → IsValid b
    → let (n, b') = read_bytes_from_ssl ssl_read b in
      let room = writable_bytes (ensure_writable_space 1024 b) in
      (1024 ≤ room)
      × (n ≡ count (ssl_read room))
      × (to_string b' ≡ to_string b ++ received (ssl_read room))
      × IsValid b'
unfolding read_bytes_from_ssl
read_bytes_from_ssl_lem ssl_read b h v =
    let b' = ensure_writable_space 1024 b in
    let e = ensure_writable_space-IsValid 1024 b v in
    let k = after_ssl_read_lem (ssl_read (writable_bytes b')) b' (h (writable_bytes b')) e.0 in
    (e.1, k.0, rw (← to_string-ensure_writable_space 1024 b v) k.1, k.2)
