-- ===== src/Server/Talk.antt =====
-- The frames of a client of src/proto/ws/WebsocketServer.cc, read by read.
use jerry.Base.{
  ℕ, ◌+◌, ◌≤◌, ◌<◌, ◌≡◌, ◌∙◌, refl, sym, ap, false, List, [], ◌∷◌, ◌++◌, length, append-nil,
  append_assoc,
}
use jerry.Base.Result.{Result, ok, ◌>>=◌}
use jerry.Buffer.Socket.{extra_size}
use jerry.Conn.Delivery.{stream}
use jerry.Ws.Frame.{unmask, opcode_of}
use jerry.Ws.Unmask.{Bytes}
use jerry.Ws.Encode.{Framed}
use jerry.Ws.Head.{head_bytes}
use jerry.Ws.Resp.{WsResp}
use jerry.Ws.Codec.{WsReq, WebsocketCodec, Outside}
use jerry.Server.Reads.{gives}
use jerry.Server.Frames.{Plain, Live}
use jerry.Server.Phases.{Phase, between, inside, Stands, IsHead, Step}
use jerry.Server.FrameSteps.{whole-Step, opens-Step, goes_on-Step, completes-Step}
use jerry.Server.Ws.{WsUser, on_readable}

-- The connection is readable once for each part.
unfoldable pub run_reads : Outside → WsUser → List (List ℕ) → WebsocketCodec → Result WebsocketCodec
run_reads o u [] c = ok c
run_reads o u (q ∷ qs) c = on_readable o u (gives q) false false c >>= run_reads o u qs

-- The request that a frame of a client makes.
abbrev pub request_of : List ℕ → List ℕ → ℕ → List ℕ → WsReq
request_of host uri b0 xs = record {
  type = opcode_of b0;
  payload = xs;
  host = host;
  request_uri = uri;
}

-- What the protocol asks of the server after the handshake, by the parts that come in: a frame comes whole,
-- or its head with the first bytes of the payload and then the rest in pieces, and when it is complete its
-- data is answered with one text frame.
pub data Talk (respond : WsReq → WsResp) (host uri : List ℕ)
    : Phase → List (List ℕ) → List ℕ → Type 0 where
  ends : (s : Phase) → Talk respond host uri s [] []
  whole :
      (b0 b1 : ℕ) (size key xs frame : List ℕ) (qs : List (List ℕ)) (out : List ℕ)
      → IsHead b0 b1 (length xs) size key
      → Bytes xs
      → length (head_bytes b0 b1 size key (unmask key 0 xs)) ≤ extra_size
      → Framed (respond (request_of host uri b0 xs)).payload frame
      → Talk respond host uri between qs out
      → Talk respond host uri between
          (head_bytes b0 b1 size key (unmask key 0 xs) ∷ qs)
          (frame ++ out)
  opens :
      (b0 b1 : ℕ) (size key got rest : List ℕ) (qs : List (List ℕ)) (out : List ℕ)
      → IsHead b0 b1 (length got + length rest) size key
      → Bytes got
      → 0 < length rest
      → length (head_bytes b0 b1 size key (unmask key 0 got)) ≤ extra_size
      → Talk respond host uri (inside b0 key got rest) qs out
      → Talk respond host uri between (head_bytes b0 b1 size key (unmask key 0 got) ∷ qs) out
  goes_on :
      (b0 : ℕ) (key got xs rest : List ℕ) (qs : List (List ℕ)) (out : List ℕ)
      → Bytes key
      → Bytes xs
      → 0 < length xs
      → 0 < length rest
      → length xs ≤ extra_size
      → Talk respond host uri (inside b0 key (got ++ xs) rest) qs out
      → Talk respond host uri (inside b0 key got (xs ++ rest)) (unmask key (length got) xs ∷ qs) out
  completes :
      (b0 : ℕ) (key got rest frame : List ℕ) (qs : List (List ℕ)) (out : List ℕ)
      → Bytes key
      → Bytes rest
      → 0 < length rest
      → length rest ≤ extra_size
      → Framed (respond (request_of host uri b0 (got ++ rest))).payload frame
      → Talk respond host uri between qs out
      → Talk respond host uri
          (inside b0 key got rest)
          (unmask key (length got) rest ∷ qs)
          (frame ++ out)

-- What a run of reads comes to.
pub record Runs (out : List ℕ) (c : WebsocketCodec) (r : Result WebsocketCodec) : Type 0 where
  pub last : WebsocketCodec
  pub result : r ≡ ok last
  pub live : Live last.conn
  pub sent : stream last.conn ≡ stream c.conn ++ out

module _ (o : Outside) (u : WsUser) (plain : Plain o u) (host uri : List ℕ) where
  pub Runs-Step :
      (s : Phase) (q : List ℕ) (qs : List (List ℕ)) (first out : List ℕ) (c : WebsocketCodec)
      (t : Step host uri s first c (on_readable o u (gives q) false false c))
      → Runs out t.next (run_reads o u qs t.next)
      → Runs (first ++ out) c (run_reads o u (q ∷ qs) c)
  unfolding run_reads
  Runs-Step s q qs first out c t r = record {
    last = r.last;
    result = ap (λ x. x >>= run_reads o u qs) t.result ∙ r.result;
    live = r.live;
    sent = r.sent ∙ ap (λ l. l ++ out) t.sent ∙ append_assoc (stream c.conn) first out;
  }

  pub run-Talk :
      (s : Phase) (qs : List (List ℕ)) (out : List ℕ) (c : WebsocketCodec)
      → Live c.conn
      → Stands host uri s c
      → Talk plain.respond host uri s qs out
      → Runs out c (run_reads o u qs c)
  unfolding run_reads
  run-Talk s [] _ c l at (ends _) = record {
    last = c;
    result = refl;
    live = l;
    sent = sym (append-nil (stream c.conn));
  }
  run-Talk _ (q ∷ qs) _ c l at (whole b0 b1 size key xs frame _ out head bx fits f rest) =
      let t = whole-Step o u plain host uri b0 b1 size key xs frame c l at head bx fits f in
      Runs-Step between q qs frame out c t (run-Talk between qs out t.next t.live t.stands rest)
  run-Talk _ (q ∷ qs) _ c l at (opens b0 b1 size key got rest _ out head bx more fits talk) =
      let t = opens-Step o u plain host uri b0 b1 size key got rest c l at head bx more fits in
      let s = inside b0 key got rest in
      Runs-Step s q qs [] out c t (run-Talk s qs out t.next t.live t.stands talk)
  run-Talk _ (q ∷ qs) _ c l at (goes_on b0 key got xs rest _ out bk bx pos more fits talk) =
      let t = goes_on-Step o u plain host uri b0 key got xs rest c l at bk bx pos more fits in
      let s = inside b0 key (got ++ xs) rest in
      Runs-Step s q qs [] out c t (run-Talk s qs out t.next t.live t.stands talk)
  run-Talk _ (q ∷ qs) _ c l at (completes b0 key got rest frame _ out bk bx pos fits f talk) =
      let t = completes-Step o u plain host uri b0 key got rest frame c l at bk bx pos fits f in
      Runs-Step between q qs frame out c t (run-Talk between qs out t.next t.live t.stands talk)
