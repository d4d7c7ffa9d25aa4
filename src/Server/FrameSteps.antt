-- ===== src/Server/FrameSteps.antt =====
-- The reads of a client of src/proto/ws/WebsocketServer.cc after its handshake, one frame after another, in
-- any number of pieces behind its head.
use jerry.Base.{
  ℕ, ◌+◌, ◌≤◌, ◌<◌, ◌≡◌, ◌∙◌, refl, sym, ap, ap₂, subst, false, List, [], ◌++◌, length, arith,
  append-nil, length-append,
}
use jerry.Buffer.Socket.{extra_size}
use jerry.Ws.Frame.{unmask, opcode_of}
use jerry.Ws.Unmask.{Bytes, length-unmask}
use jerry.Ws.Encode.{Framed}
use jerry.Ws.Head.{head_bytes}
use jerry.Ws.Rounds.{
  announced, returned, with_payload, masked_for, head_lem, payload_completes, payload_waits,
}
use jerry.Ws.Codec.{WebsocketCodec, Outside, decode, take_payload}
use jerry.Server.Reads.{gives, has_read}
use jerry.Server.Frames.{Plain, Live, read_lem}
use jerry.Server.Ws.{WsUser, on_readable}
use jerry.Server.Phases.{between, inside, Stands, IsHead, Step, req_eq, waits-Step, answers-Step}

module _ (o : Outside) (u : WsUser) (plain : Plain o u) (host uri : List ℕ) where
  -- A whole frame in one read.
  pub whole-Step :
      (b0 b1 : ℕ) (size key xs frame : List ℕ) (c : WebsocketCodec)
      → Live c.conn
      → Stands host uri between c
      → IsHead b0 b1 (length xs) size key
      → Bytes xs
      → length (head_bytes b0 b1 size key (unmask key 0 xs)) ≤ extra_size
      → Framed
          (plain.respond
            (record { type = opcode_of b0; payload = xs; host = host; request_uri = uri })).payload
          frame
      → Step host uri between frame c
          (on_readable o u (gives (head_bytes b0 b1 size key (unmask key 0 xs))) false false c)
  unfolding decode take_payload
  whole-Step b0 b1 size key xs frame c l (s, p, i, h, x) head bx fits f =
      let q = head_bytes b0 b1 size key (unmask key 0 xs) in
      let (b, called, r) = read_lem o u q c l (omega arith) fits in
      let c0 : WebsocketCodec = record c { conn = has_read b c.conn } in
      let c1 = announced b0 (length xs) size key c0 in
      let (looped, left) =
        head_lem o 2 b0 b1 (length xs) size key (unmask key 0 xs) c0 s head.four head.not_close
          head.field r in
      let (decoded, after) = payload_completes o 0 xs [] c1 refl head.bytes bx refl (record {
        valid = left.valid;
        unread =
            left.unread
            ∙ sym (append-nil (unmask key 0 xs))
            ∙ ap (λ j. unmask key j xs ++ []) (sym i);
      }) in
      let req = with_payload xs c1.req in
      let d = returned o req (take_payload (length xs) c1) in
      let same : req
          ≡ record { type = opcode_of b0; payload = xs; host = host; request_uri = uri } =
        req_eq req refl (ap (λ l. l ++ xs) p) h x in
      answers-Step o u plain host uri c c0 d req called (looped ∙ decoded) refl
        (record { valid = after.valid; unread = after.unread }) l
        (refl, plain.payload_moved req, refl, h, x)
        (subst (λ t. Framed (plain.respond t).payload frame) (sym same) f)

  -- A head with the first bytes of its payload.
  pub opens-Step :
      (b0 b1 : ℕ) (size key got rest : List ℕ) (c : WebsocketCodec)
      → Live c.conn
      → Stands host uri between c
      → IsHead b0 b1 (length got + length rest) size key
      → Bytes got
      → 0 < length rest
      → length (head_bytes b0 b1 size key (unmask key 0 got)) ≤ extra_size
      → Step host uri
          (inside b0 key got rest)
          []
          c
          (on_readable o u (gives (head_bytes b0 b1 size key (unmask key 0 got))) false false c)
  unfolding decode take_payload
  opens-Step b0 b1 size key got rest c l (s, p, i, h, x) head bx more fits =
      let n = length got + length rest in
      let q = head_bytes b0 b1 size key (unmask key 0 got) in
      let (b, called, r) = read_lem o u q c l (omega arith) fits in
      let c0 : WebsocketCodec = record c { conn = has_read b c.conn } in
      let c1 = announced b0 n size key c0 in
      let (looped, left) =
        head_lem o 2 b0 b1 n size key (unmask key 0 got) c0 s head.four head.not_close head.field
          r in
      let (decoded, after, req) =
        payload_waits o 1 got c1 refl head.bytes bx (omega (arith, more)) (record {
          valid = left.valid;
          unread = left.unread ∙ ap (λ j. unmask key j got) (sym i);
        }) in
      waits-Step o u plain host uri (inside b0 key got rest) c c0 (take_payload (length got) c1)
        called (looped ∙ decoded) refl after l
        (
          refl,
          req ∙ req_eq (with_payload got c1.req) refl (ap (λ l. l ++ got) p) h x,
          omega (arith, i),
          h,
          x,
          refl,
          omega arith,
        )

  -- More of the payload, but not all.
  pub goes_on-Step :
      (b0 : ℕ) (key got xs rest : List ℕ) (c : WebsocketCodec)
      → Live c.conn
      → Stands host uri (inside b0 key got (xs ++ rest)) c
      → Bytes key
      → Bytes xs
      → 0 < length xs
      → 0 < length rest
      → length xs ≤ extra_size
      → Step host uri
          (inside b0 key (got ++ xs) rest)
          []
          c
          (on_readable o u (gives (unmask key (length got) xs)) false false c)
  unfolding decode take_payload
  goes_on-Step b0 key got xs rest c l (s, req, i, h, x, k, n) bk bx pos more fits =
      let q = unmask key (length got) xs in
      let size = length-unmask key (length got) xs in
      let (b, called, r) =
        read_lem o u q c l (omega (arith, size, pos)) (omega (arith, size, fits)) in
      let c0 : WebsocketCodec = record c { conn = has_read b c.conn } in
      let (decoded, after, req') =
        payload_waits o 2 xs c0 s (subst Bytes (sym k) bk) bx
          (omega (arith, n, length-append xs rest, more))
          (record {
            valid = r.valid;
            unread = r.unread ∙ ap₂ (λ m j. unmask m j xs) (sym k) (sym i);
          }) in
      waits-Step o u plain host uri (inside b0 key (got ++ xs) rest) c c0
        (take_payload (length xs) c0) called decoded refl after l
        (
          s,
          req' ∙ ap (with_payload xs) req,
          omega (arith, i, length-append got xs),
          h,
          x,
          k,
          omega (arith, n, length-append xs rest),
        )

  -- The rest of the payload.
  pub completes-Step :
      (b0 : ℕ) (key got rest frame : List ℕ) (c : WebsocketCodec)
      → Live c.conn
      → Stands host uri (inside b0 key got rest) c
      → Bytes key
      → Bytes rest
      → 0 < length rest
      → length rest ≤ extra_size
      → Framed
          (plain.respond (record {
            type = opcode_of b0;
            payload = got ++ rest;
            host = host;
            request_uri = uri;
          })).payload
          frame
      → Step host uri between frame c
          (on_readable o u (gives (unmask key (length got) rest)) false false c)
  unfolding decode take_payload
  completes-Step b0 key got rest frame c l (s, req, i, h, x, k, n) bk bx pos fits f =
      let q = unmask key (length got) rest in
      let size = length-unmask key (length got) rest in
      let (b, called, r) =
        read_lem o u q c l (omega (arith, size, pos)) (omega (arith, size, fits)) in
      let c0 : WebsocketCodec = record c { conn = has_read b c.conn } in
      let (decoded, after) =
        payload_completes o 1 rest [] c0 s (subst Bytes (sym k) bk) bx n (record {
          valid = r.valid;
          unread =
              r.unread
              ∙ ap₂ (λ m j. unmask m j rest) (sym k) (sym i)
              ∙ sym (append-nil (masked_for c0 rest));
        }) in
      let req' = with_payload rest c0.req in
      let d = returned o req' (take_payload c0.payload_remains c0) in
      answers-Step o u plain host uri c c0 d req' called decoded refl
        (record { valid = after.valid; unread = after.unread }) l
        (refl, plain.payload_moved req', refl, h, x)
        (subst (λ t. Framed (plain.respond t).payload frame) (sym (ap (with_payload rest) req)) f)
