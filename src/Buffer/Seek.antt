-- ===== src/Buffer/Seek.antt =====
-- `DropBytesUntil` of src/net/BaseBuffer.cc: the loop that moves `read_idx` up to an iterator.
use jerry.Base.{
  ℕ, zero, suc, ◌+◌, ◌-◌, ◌≤◌, ◌<◌, ◌≡◌, refl, subst, List, none, some, arith, length, take, drop,
}
use jerry.Buffer.{Buffer, to_string, advance, drop_bytes_until}
use jerry.Buffer.Valid.{IsValid}
use jerry.Buffer.Content.{window-drop}

advance-reaches : (fuel i pos : ℕ) → i ≤ pos → pos < i + fuel → advance fuel i pos ≡ some pos
unfolding advance
advance-reaches zero i pos h k = absurd (omega arith)
advance-reaches (suc fuel) i pos h k = ground (arith, advance-reaches fuel (i + 1) pos)

advance-misses : (fuel i pos : ℕ) → pos < i → advance fuel i pos ≡ none
unfolding advance
advance-misses zero i pos h = refl
advance-misses (suc fuel) i pos h = ground (arith, advance-misses fuel (i + 1) pos)

window-drop_until :
    (pos r w : ℕ) (s : List ℕ)
    → r ≤ pos
    → pos ≤ w
    → take (w - pos) (drop pos s) ≡ drop (pos - r) (take (w - r) (drop r s))
window-drop_until pos r w s h k =
    subst (λ p. take (w - p) (drop p s) ≡ drop (pos - r) (take (w - r) (drop r s))) (omega arith)
      (window-drop (pos - r) r w s (omega arith))

-- For a position inside the unread bytes of a valid buffer the loop of `DropBytesUntil` ends
-- there: exactly the bytes before it are dropped, and the buffer stays valid.
pub drop_bytes_until_lem :
    (pos : ℕ) (b : Buffer)
    → IsValid b
    → b.read_idx ≤ pos
    → pos ≤ b.write_idx
    → (b' : Buffer) × (drop_bytes_until pos b ≡ some b')
      × (to_string b' ≡ drop (pos - b.read_idx) (to_string b))
      × IsValid b'
unfolding drop_bytes_until to_string
drop_bytes_until_lem pos b v h k = (
  record b { read_idx = pos },
  ground (arith, advance-reaches (suc (length b.storage)) b.read_idx pos),
  window-drop_until pos b.read_idx b.write_idx b.storage h k,
  omega arith,
)

-- Before `read_idx` the loop never meets its end, whatever the size of the storage.
pub drop_bytes_until-misses :
    (pos : ℕ) (b : Buffer) → pos < b.read_idx → drop_bytes_until pos b ≡ none
unfolding drop_bytes_until
drop_bytes_until-misses pos b h =
    ground (arith, advance-misses (suc (length b.storage)) b.read_idx pos h)
