-- ===== src/Ws/Enough.antt =====
-- The rounds of `Decode` of src/proto/ws/WebsocketCodec.cc are enough on every input.
use jerry.Base.{
  ℕ, suc, ◌+◌, ◌≡◌, ◌⊎◌, inl, inr, refl, sym, subst, Bool, true, false, ◌||◌, List, Option, none,
  some, ◌==◌, leb, ltb, length, drop, take, Bool-cases, Option-cases, if◌then◌else◌, arith, get_or,
  min,
}
use jerry.Base.Result.{
  Result, ok, fault, bad_access, Ended, returns, throws, reads_outside, asserts, ◌>>=◌,
}
use jerry.Buffer.{Buffer, readable_bytes}
use jerry.Buffer.Valid.{IsValid}
use jerry.Conn.{send, shutdown}
use jerry.Http.Req.{HttpReq}
use jerry.Http.Resp.{HttpResp, empty_resp, set_status, reason, to_string as resp_string}
use jerry.Http.Decoder.{HttpReqDecoder, new_decoder, decode as http_decode}
use jerry.Http.Decoder.Enough.{decode-Ended}
use jerry.Ws.Frame.{opcode_of, length_of, mask_of, close_frame, big_endian}
use jerry.Ws.Codec.{
  WebsocketCodec, WsReq, Outside, State, bytes_at, begin_payload, read_length, decode_frame_head,
  decode_payload, finish_payload, take_payload, close, set_recv, is_refused, hand_shake, refuse,
  accept, decode_loop, decode, except_handshake, except_frame_head, except_payload, parse_finished,
}

-- A part of the codec ends by a read outside the vector, with `false`, or with `true` in the state `s`.
data Ends (s : State) : Result (Bool × WebsocketCodec) → Type 0 where
  outside : Ends s (fault bad_access)
  waits : (c : WebsocketCodec) → Ends s (ok (false, c))
  reaches : (c : WebsocketCodec) → c.state ≡ s → Ends s (ok (true, c))

bytes_at_cases :
    (i n : ℕ) (b : Buffer)
    → (bytes_at i n b ≡ fault bad_access) ⊎ ((xs : List ℕ) × (bytes_at i n b ≡ ok xs))
unfolding bytes_at
bytes_at_cases i n b = elim (Bool-cases (leb n (length (drop (b.read_idx + i) b.storage)))) [
  | inl fits ↦ inr (take n (drop (b.read_idx + i) b.storage), ground arith)
  | inr out ↦ inl (ground arith)
]

read_length_cases :
    (opcode len : ℕ) (c : WebsocketCodec)
    → (read_length opcode len c ≡ fault bad_access)
      ⊎ ((c' : WebsocketCodec) × (read_length opcode len c ≡ ok c') × (c'.state ≡ except_payload))
unfolding read_length
read_length_cases opcode len c =
    let b = c.conn.recv_buffer in
    elim (Bool-cases (ltb len 126)) [
      | inl small ↦ elim (bytes_at_cases 2 4 b) [
        | inl out ↦ inl (ground arith)
        | inr (key, e) ↦ inr (begin_payload 6 opcode len key c, ground arith, refl)
      ]
      | inr large ↦ elim (Bool-cases (len == 126)) [
        | inl medium ↦ elim (bytes_at_cases 2 2 b) [
          | inl out ↦ inl (ground arith)
          | inr (size, e) ↦ elim (bytes_at_cases 4 4 b) [
            | inl out ↦ inl (ground arith)
            | inr (key, e') ↦
                inr (begin_payload 8 opcode (big_endian 0 size) key c, ground arith, refl)
          ]
        ]
        | inr long ↦ elim (bytes_at_cases 2 8 b) [
          | inl out ↦ inl (ground arith)
          | inr (size, e) ↦ elim (bytes_at_cases 10 4 b) [
            | inl out ↦ inl (ground arith)
            | inr (key, e') ↦
                inr (begin_payload 14 opcode (big_endian 0 size) key c, ground arith, refl)
          ]
        ]
      ]
    ]

decode_frame_head-Ends :
    (o : Outside) (c : WebsocketCodec) → Ends except_payload (decode_frame_head o c)
unfolding decode_frame_head
decode_frame_head-Ends o c = elim (bytes_at_cases 0 2 c.conn.recv_buffer) [
  | inl out ↦ rw out outside
  | inr (head, e) ↦
      let b0 = get_or head 0 0 in
      let b1 = get_or head 1 0 in
      elim (Bool-cases ((mask_of b1 == 0) || (opcode_of b0 == close_frame))) [
        | inl stop ↦
            let r : decode_frame_head o c ≡ ok (false, close o c) = ground arith in
            subst (Ends except_payload) (sym r) (waits (close o c))
        | inr go ↦ elim (read_length_cases (opcode_of b0) (length_of b1) c) [
          | inl out ↦
              let r : decode_frame_head o c ≡ fault bad_access = ground arith in
              subst (Ends except_payload) (sym r) outside
          | inr (c', l, s) ↦
              let r : decode_frame_head o c ≡ ok (true, c') = ground arith in
              subst (Ends except_payload) (sym r) (reaches c' s)
        ]
      ]
]

finish_payload-Ends : (c : WebsocketCodec) → Ends parse_finished (ok (finish_payload c))
unfolding finish_payload
finish_payload-Ends c = elim (Bool-cases (c.payload_remains == 0)) [
  | inl whole ↦
      let c' : WebsocketCodec = record c { last_read_idx = 0; state = parse_finished } in
      let e : finish_payload c ≡ (true, c') = ground arith in
      subst (λ r. Ends parse_finished (ok r)) (sym e) (reaches c' refl)
  | inr part ↦
      let e : finish_payload c ≡ (false, c) = ground arith in
      subst (λ r. Ends parse_finished (ok r)) (sym e) (waits c)
]

decode_payload-Ends : (c : WebsocketCodec) → Ends parse_finished (ok (decode_payload c))
unfolding decode_payload
decode_payload-Ends c =
    finish_payload-Ends (take_payload (min (readable_bytes c.conn.recv_buffer) c.payload_remains) c)

resp_string-Ended : (date : List ℕ) (r : HttpResp) → Ended (resp_string date r)
unfolding resp_string
resp_string-Ended date r = elim (Option-cases (reason r.status_code)) [
  | inl unknown ↦ rw (resp_string, unknown) throws
  | inr (text, e) ↦ rw (resp_string, e) (returns _)
]

-- A value that is put together from a call that ends.
map-Ended : {A B : Type 0} (f : A → B) (r : Result A) → Ended r → Ended (r >>= λ x. ok (f x))
map-Ended f r (returns x) = returns (f x)
map-Ended f r throws = throws
map-Ended f r reads_outside = reads_outside
map-Ended f r asserts = asserts

refuse-Ended : (o : Outside) (c : WebsocketCodec) → Ended (refuse o c)
unfolding refuse
refuse-Ended o c =
    map-Ended (λ text. record c { conn = shutdown o.shutdown_ok (send text c.conn) })
      (resp_string o.gmt_date (set_status 400 empty_resp))
      (resp_string-Ended o.gmt_date (set_status 400 empty_resp))

accept-Ended : (o : Outside) (r : HttpReq) (c : WebsocketCodec) → Ended (accept o r c)
unfolding accept
accept-Ended o r c = map-Ended _ _ (resp_string-Ended o.gmt_date _)

-- What `HandShake` does with the outcome of the HTTP decoder.
abbrev answer : Outside → WebsocketCodec → Option HttpReq × HttpReqDecoder → Result WebsocketCodec
answer o c r =
    let c' = set_recv ((r.1).buffer) c in
    elim (r.0) [ none ↦ ok c' | some req ↦ if is_refused req then refuse o c' else accept o req c' ]

answer-Ended :
    (o : Outside) (c : WebsocketCodec) (r : Option HttpReq × HttpReqDecoder) → Ended (answer o c r)
answer-Ended o c (none, d) = returns (set_recv d.buffer c)
answer-Ended o c (some req, d) = elim (Bool-cases (is_refused req)) [
  | inl bad ↦ rw bad (refuse-Ended o (set_recv d.buffer c))
  | inr good ↦ rw good (accept-Ended o req (set_recv d.buffer c))
]

bind-Ended :
    {A B : Type 0} (f : A → Result B) (r : Result A)
    → Ended r
    → ((x : A) → Ended (f x))
    → Ended (r >>= f)
bind-Ended f r (returns x) h = h x
bind-Ended f r throws h = throws
bind-Ended f r reads_outside h = reads_outside
bind-Ended f r asserts h = asserts

hand_shake-Ended :
    (o : Outside) (c : WebsocketCodec) → IsValid c.conn.recv_buffer → Ended (hand_shake o c)
unfolding hand_shake
hand_shake-Ended o c v =
    bind-Ended (answer o c) (http_decode o.moved_http (new_decoder c.conn.recv_buffer))
      (decode-Ended o.moved_http (new_decoder c.conn.recv_buffer) v) (answer-Ended o c)

module _ (o : Outside) where
  abbrev next : ℕ → Bool × WebsocketCodec → Result (Option WsReq × WebsocketCodec)
  next fuel r = elim (r.0) [ true ↦ decode_loop o fuel r.1 | false ↦ ok (none, r.1) ]

  after :
      (fuel : ℕ) (s : State) (r : Result (Bool × WebsocketCodec))
      → Ends s r
      → ((c : WebsocketCodec) → c.state ≡ s → Ended (decode_loop o fuel c))
      → Ended (r >>= next fuel)
  after fuel s r outside go = reads_outside
  after fuel s r (waits c) go = returns (none, c)
  after fuel s r (reaches c e) go = go c e

  finished_ends :
      (fuel : ℕ) (c : WebsocketCodec)
      → c.state ≡ parse_finished
      → Ended (decode_loop o (suc fuel) c)
  unfolding decode_loop
  finished_ends fuel c s =
      rw s (returns (some c.req, record c { state = except_frame_head; req = o.moved c.req }))

  payload_ends :
      (fuel : ℕ) (c : WebsocketCodec)
      → c.state ≡ except_payload
      → Ended (decode_loop o (suc (suc fuel)) c)
  unfolding decode_loop
  payload_ends fuel c s =
      let e : decode_loop o (suc (suc fuel)) c ≡ (ok (decode_payload c) >>= next (suc fuel)) =
        ground arith in
      subst Ended (sym e) (
        after (suc fuel) parse_finished (ok (decode_payload c)) (decode_payload-Ends c)
          (finished_ends fuel))

  head_ends :
      (fuel : ℕ) (c : WebsocketCodec)
      → c.state ≡ except_frame_head
      → Ended (decode_loop o (suc (suc (suc fuel))) c)
  unfolding decode_loop
  head_ends fuel c s =
      let e : decode_loop o (suc (suc (suc fuel))) c
          ≡ (decode_frame_head o c >>= next (suc (suc fuel))) =
        ground arith in
      subst Ended (sym e) (
        after (suc (suc fuel)) except_payload (decode_frame_head o c) (decode_frame_head-Ends o c)
          (payload_ends fuel))

  handshake_ends :
      (fuel : ℕ) (c : WebsocketCodec)
      → c.state ≡ except_handshake
      → IsValid c.conn.recv_buffer
      → Ended (decode_loop o (suc fuel) c)
  unfolding decode_loop
  handshake_ends fuel c s v =
      let e : decode_loop o (suc fuel) c ≡ (hand_shake o c >>= λ c'. ok (none, c')) =
        ground arith in
      subst Ended (sym e) (map-Ended (λ c'. (none, c')) (hand_shake o c) (hand_shake-Ended o c v))

  any_state :
      (s : State) (c : WebsocketCodec)
      → c.state ≡ s
      → IsValid c.conn.recv_buffer
      → Ended (decode_loop o 3 c)
  any_state except_handshake c s v = handshake_ends 2 c s v
  any_state except_frame_head c s v = head_ends 0 c s
  any_state except_payload c s v = payload_ends 1 c s
  any_state parse_finished c s v = finished_ends 2 c s

-- From any state and with a valid receive buffer, `Decode` of the codec ends: it returns, or reads
-- outside the vector in a frame head, or the HTTP decoder in the handshake throws, reads outside or
-- fails its assertion; three rounds are enough.
pub codec_decode-Ended :
    (o : Outside) (c : WebsocketCodec) → IsValid c.conn.recv_buffer → Ended (decode o c)
unfolding decode
codec_decode-Ended o c v = any_state o c.state c refl v
