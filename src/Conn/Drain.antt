-- ===== src/Conn/Drain.antt =====
-- A plain connection whose socket takes bytes empties its send buffer.
use jerry.Base.{
  ℕ, zero, suc, ◌-◌, ◌≤◌, ◌≡◌, ◌∙◌, refl, sym, ap, false, List, [], ◌∷◌, ◌++◌, Option, none, some,
  arith, length, take, replicate, append-nil, length-append,
}
use jerry.Buffer.{to_string}
use jerry.Buffer.Socket.{write_bytes_to_fd, write_bytes_to_fd_lem, taken}
use jerry.Conn.{
  Conn, connected, on_channel_writable, write_plain, rest_if_sent, Event, writable, step, run,
}
use jerry.Conn.Awake.{Inv, step-Inv}
use jerry.Conn.Delivery.{stream, run-Adds, accepted}

-- `write` takes at least one byte when there is one.
pub record TakesSome (write : List ℕ → Option ℕ) : Type 0 where
  pub count : ℕ → List ℕ → ℕ
  pub takes : (x : ℕ) (xs : List ℕ) → write (x ∷ xs) ≡ some (suc (count x xs))

record Open (c : Conn) : Type 0 where
  on : c.state ≡ connected
  plain : c.encrypted ≡ false
  inv : Inv c

step-Open :
    (write : List ℕ → Option ℕ) (c : Conn)
    → Open c
    → let d = step (writable write false) c in
      (d.state ≡ connected)
      × (d.encrypted ≡ false)
      × (d.send_buffer ≡ (write_bytes_to_fd write c.send_buffer).1)
unfolding step on_channel_writable write_plain rest_if_sent
step-Open write c o =
    let on = o.on in let plain = o.plain in (ground arith, ground arith, ground arith)

-- A write that takes something leaves less to send.
shrinks :
    (n : Option ℕ) (k x : ℕ) (xs ys : List ℕ)
    → n ≡ some (suc k)
    → take (taken n) (x ∷ xs) ++ ys ≡ x ∷ xs
    → length ys ≤ length xs
shrinks none k x xs ys e h = cc e
shrinks (some zero) k x xs ys e h = cc e
shrinks (some (suc j)) k x xs ys e h = omega (arith, ap length h, length-append (take j xs) ys)

shrinks_any :
    (write : List ℕ → Option ℕ) (n : Option ℕ) (xs ys : List ℕ)
    → TakesSome write
    → n ≡ write xs
    → take (taken n) xs ++ ys ≡ xs
    → length ys ≤ length xs - 1
shrinks_any write n [] ys t e h = omega (arith, ap length h, length-append (take (taken n) []) ys)
shrinks_any write n (x ∷ xs) ys t e h =
    let s = shrinks n (t.count x xs) x xs ys (e ∙ t.takes x xs) h in omega (arith, s)

module _ (write : List ℕ → Option ℕ) where
  -- `k` writable events in a row.
  abbrev pub writables : ℕ → List Event
  writables k = replicate k (writable write false)

  step-shrinks :
      (c : Conn)
      → TakesSome write
      → Open c
      → Open (step (writable write false) c)
        × (length (to_string (step (writable write false) c).send_buffer)
            ≤ length (to_string c.send_buffer) - 1)
  step-shrinks c t o =
      let q = write_bytes_to_fd_lem write c.send_buffer o.inv.send_valid in
      let s = step-Open write c o in
      let (n, b) = write_bytes_to_fd write c.send_buffer in
      (
        record { on = s.0; plain = s.1; inv = step-Inv (writable write false) c o.inv },
        rw (s.2) (
            shrinks_any write (write (to_string c.send_buffer)) (to_string c.send_buffer)
              (to_string b) t refl q.1),
      )

  accepted-writables : (k : ℕ) (c : Conn) → accepted (writables k) c ≡ []
  unfolding accepted
  accepted-writables zero c = refl
  accepted-writables (suc k) c = accepted-writables k (step (writable write false) c)

  run-shrinks :
      (k : ℕ) (c : Conn)
      → TakesSome write
      → Open c
      → length (to_string c.send_buffer) ≤ k
      → Open (run (writables k) c) × (to_string (run (writables k) c).send_buffer ≡ [])
  unfolding run
  run-shrinks zero c t o h = (o, empty (to_string c.send_buffer) h)
    where
      empty : (xs : List ℕ) → length xs ≤ 0 → xs ≡ []
      empty [] h = refl
      empty (x ∷ xs) h = absurd (omega arith)
  run-shrinks (suc k) c t o h =
      let s = step-shrinks c t o in
      run-shrinks k (step (writable write false) c) t s.0 (omega (arith, s.1))

-- If each `write` of one byte or more takes at least one, then a connected plain client in whose
-- state the invariant of a run holds, with at most `k` unsent bytes, has given all of them to the
-- kernel, in order, after `k` writable events, and is still connected.
pub run_drains :
    (write : List ℕ → Option ℕ) (k : ℕ) (c : Conn)
    → TakesSome write
    → Inv c
    → c.state ≡ connected
    → c.encrypted ≡ false
    → length (to_string c.send_buffer) ≤ k
    → let d = run (writables write k) c in
      (d.state ≡ connected)
      × (to_string d.send_buffer ≡ [])
      × (d.kernel_out ≡ c.kernel_out ++ to_string c.send_buffer)
unfolding stream
run_drains write k c t i on plain h =
    let r = run-shrinks write k c t (record { on = on; plain = plain; inv = i }) h in
    let d = run (writables write k) c in
    (
      r.0.on,
      r.1,
      sym (append-nil d.kernel_out)
          ∙ ap (λ l. d.kernel_out ++ l) (sym r.1)
          ∙ (run-Adds (writables write k) c i).added r.0.on
          ∙ ap (λ l. (c.kernel_out ++ to_string c.send_buffer) ++ l) (accepted-writables write k c)
          ∙ append-nil (c.kernel_out ++ to_string c.send_buffer),
    )
