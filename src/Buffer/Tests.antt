-- ===== src/Buffer/Tests.antt =====
-- The buffer's theorems at small inputs.
use jerry.Base.{
  ℕ, ◌-◌, ◌≤◌, ◌≡◌, List, [], ◌∷◌, ◌++◌, Option, some, arith, length, take, length-take, take_all,
}
use jerry.Buffer.{Buffer, to_string, append}
use jerry.Buffer.Valid.{IsValid}
use jerry.Buffer.Content.{to_string-append}
use jerry.Buffer.Socket.{read_bytes_from_fd, read_bytes_from_fd_lem, iov_capacity, count, received}

-- Three unread bytes, two places before them and one behind.
abbrev used : Buffer
used = record { storage = 9 ∷ 9 ∷ 1 ∷ 2 ∷ 3 ∷ 9 ∷ []; read_idx = 2; write_idx = 5 }

used-IsValid : IsValid used
used-IsValid = omega arith

-- A buffer that is full of a text.
abbrev pub full : List ℕ → Buffer
full text = record { storage = text; read_idx = 0; write_idx = length text }

pub full-IsValid : (text : List ℕ) → IsValid (full text)
full-IsValid text = omega arith

pub to_string-full : (text : List ℕ) → to_string (full text) ≡ text
unfolding to_string
to_string-full text = take_all (length text - 0) text (omega arith)

to_string-append_example : to_string (append (4 ∷ 5 ∷ []) used) ≡ to_string used ++ 4 ∷ 5 ∷ []
to_string-append_example = to_string-append (4 ∷ 5 ∷ []) used used-IsValid

-- `readv` that finds five bytes, and the end of the stream where there is no room.
abbrev five_bytes : ℕ → Option (List ℕ)
five_bytes n = some (take n (5 ∷ 6 ∷ 7 ∷ 8 ∷ 9 ∷ []))

read_bytes_from_fd_example :
    let (n, b') = read_bytes_from_fd five_bytes used in
    let got = five_bytes (iov_capacity used) in
    (n ≡ count got) × (to_string b' ≡ to_string used ++ received got) × IsValid b'
read_bytes_from_fd_example = read_bytes_from_fd_lem five_bytes used used-IsValid

five_bytes-fit : (room : ℕ) → length (received (five_bytes room)) ≤ room
five_bytes-fit room = omega (arith, length-take {A = ℕ} room (5 ∷ 6 ∷ 7 ∷ 8 ∷ 9 ∷ []))
