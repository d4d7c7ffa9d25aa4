-- ===== src/Buffer/Content.antt =====
-- The buffer as a queue of bytes: what each operation does to the unread bytes.
use jerry.Base.{
  ℕ, ◌+◌, ◌-◌, ◌≤◌, ◌≡◌, ◌∙◌, ap, refl, sym, List, [], ◌∷◌, ◌++◌, arith, length, take, drop,
  replicate, length-append, length-take, length-drop, take-append, take-append_le, drop-append_le,
  drop-take, drop-drop, drop_all, append_assoc, append-nil, leb, Bool-cases, inl, inr, leb→le,
  leb→lt,
}
use jerry.Buffer.{
  Buffer, overwrite, readable_bytes, writable_bytes, to_string, drop_all_bytes, drop_bytes,
  grown_size, ensure_writable_space, copy_in, append,
}
use jerry.Buffer.Valid.{IsValid, length-to_string, ensure_writable_space-IsValid}

pub readable_bytes-length : (b : Buffer) → IsValid b → readable_bytes b ≡ length (to_string b)
unfolding readable_bytes
readable_bytes-length b v = omega (arith, length-to_string b v)

pub to_string-drop_all_bytes : (b : Buffer) → to_string (drop_all_bytes b) ≡ []
unfolding to_string drop_all_bytes
to_string-drop_all_bytes b = refl

-- The unread bytes of a window that starts `n` later.
pub window-drop :
    (n r w : ℕ) (s : List ℕ)
    → r + n ≤ w
    → take (w - (r + n)) (drop (r + n) s) ≡ drop n (take (w - r) (drop r s))
window-drop n r w s h =
    ap (take (w - (r + n))) (sym (drop-drop r n (r + n) s refl))
    ∙ sym (drop-take (w - r) n (w - (r + n)) (drop r s) (omega arith))

-- On a valid buffer `DropBytes` removes that many bytes from the front, all of them if there are
-- fewer.
pub to_string-drop_bytes :
    (n : ℕ) (b : Buffer) → IsValid b → to_string (drop_bytes n b) ≡ drop n (to_string b)
unfolding drop_bytes to_string
to_string-drop_bytes n b v = elim (Bool-cases (leb (b.write_idx - b.read_idx) n)) [
  | inl all ↦ rw all (
      sym (
        drop_all n (take (b.write_idx - b.read_idx) (drop b.read_idx b.storage)) (
          omega (
            arith,
            leb→le (b.write_idx - b.read_idx) n all,
            length-take (b.write_idx - b.read_idx) (drop b.read_idx b.storage),
          ))))
  | inr part ↦ rw part (
      window-drop n b.read_idx b.write_idx b.storage
        (omega (arith, leb→lt (b.write_idx - b.read_idx) n part)))
]

-- A window that ends inside `s` does not see what follows `s`.
window-append :
    (r w : ℕ) (s z : List ℕ)
    → r ≤ w
    → w ≤ length s
    → take (w - r) (drop r (s ++ z)) ≡ take (w - r) (drop r s)
window-append r w s z h k =
    ap (take (w - r)) (drop-append_le s z r (omega arith))
    ∙ take-append_le (drop r s) z (w - r) (omega (arith, length-drop r s))

-- On a valid buffer `EnsureWritableSpace` leaves the unread bytes as they are, moved or not.
pub to_string-ensure_writable_space :
    (len : ℕ) (b : Buffer) → IsValid b → to_string (ensure_writable_space len b) ≡ to_string b
unfolding ensure_writable_space to_string
to_string-ensure_writable_space len b v = ground (
  arith,
  window-append b.read_idx b.write_idx b.storage
      (replicate (grown_size (length b.storage) len - length b.storage) 0),
  take-append (take (b.write_idx - b.read_idx) (drop b.read_idx b.storage))
      (drop (0 + length (take (b.write_idx - b.read_idx) (drop b.read_idx b.storage))) b.storage)
      (b.write_idx - b.read_idx),
  length-take (b.write_idx - b.read_idx) (drop b.read_idx b.storage),
  length-drop b.read_idx b.storage,
)

-- Writing `xs` just behind a window extends it by `xs`.
window-overwrite :
    (r w k : ℕ) (s xs : List ℕ)
    → r ≤ w
    → w + length xs ≤ length s
    → k ≡ w + length xs - r
    → take k (drop r (overwrite s w xs)) ≡ take (w - r) (drop r s) ++ xs
window-overwrite r w k s xs h j e =
    ap (take k) (
      drop-append_le (take w s) rest r (omega (arith, length-take w s))
      ∙ ap (λ l. l ++ rest) (drop-take w r (w - r) s (omega arith))
      ∙ sym (append_assoc seen xs (drop (w + length xs) s)))
    ∙ take-append (seen ++ xs) (drop (w + length xs) s) k
        (omega (arith, length-append seen xs, length-take (w - r) (drop r s), length-drop r s))
  where
    rest : List ℕ
    rest = xs ++ drop (w + length xs) s

    seen : List ℕ
    seen = take (w - r) (drop r s)

pub to_string-copy_in :
    (xs : List ℕ) (b : Buffer)
    → IsValid b
    → length xs ≤ writable_bytes b
    → to_string (copy_in xs b) ≡ to_string b ++ xs
unfolding copy_in to_string writable_bytes
to_string-copy_in xs b v h =
    window-overwrite b.read_idx b.write_idx (b.write_idx + length xs - b.read_idx) b.storage xs
      v.ordered (omega arith) refl

-- On a valid buffer `Append` adds the bytes at the end, in order, and loses none of those that
-- are unread.
pub to_string-append :
    (xs : List ℕ) (b : Buffer) → IsValid b → to_string (append xs b) ≡ to_string b ++ xs
unfolding append
to_string-append [] b v = sym (append-nil (to_string b))
to_string-append (x ∷ xs) b v =
    let e = ensure_writable_space-IsValid (length (x ∷ xs)) b v in
    ground (
      arith,
      to_string-copy_in (x ∷ xs) (ensure_writable_space (length (x ∷ xs)) b) e.0 e.1,
      to_string-ensure_writable_space (length (x ∷ xs)) b v,
    )
