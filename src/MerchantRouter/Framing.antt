-- ===== src/MerchantRouter/Framing.antt =====
-- The stream router (examples/kdapp-merchant/src/tcp_router.rs) does what the datagram router
-- (udp_router.rs) does.
use mathlib.Core.List.{append_assoc}
use kdapp.Base.{
  ℕ, ◌+◌, ◌≤◌, ◌≡◌, refl, sym, ◌∙◌, Option, none, some, List, [], ◌∷◌, ◌++◌, length, slice, lookup,
  lookup-insert_self, length-append, take-append, drop-append, take_le, ltb, from_le_bytes, arith,
  Bool-cases, Option-cases, inl, inr,
}
use kdapp.Message.{EngineMsg}
use kdapp.Tlv.{MsgType, TlvMsg}
use kdapp.MerchantRouter.{
  UdpRouter, Surroundings, ack_for, is_handshake, read_msg, buffer_size, udp_message, udp_round,
  run_udp,
}
use kdapp.MerchantRouter.Tcp.{
  TcpState, tcp_message, tcp_round, read_exact, read_frame, handle_stream,
}
use kdapp.MerchantRouter.Alike.{tcp_deliver-deliver, tcp_round-read_msg, tcp_round-bad}

-- A frame: a header of 54 bytes and the tail whose length it announces, within the receive buffer.
pub record IsFrame (bytes : List ℕ) : Type 0 where
  pub header : List ℕ
  pub tail : List ℕ
  pub parts : bytes ≡ header ++ tail
  pub header_length : length header ≡ 54
  pub tail_length : length tail ≡ from_le_bytes (slice 52 54 header) + 32
  pub fits : length bytes ≤ buffer_size

read_exact-append :
    (n : ℕ) (xs ys : List ℕ) → length xs ≡ n → read_exact n (xs ++ ys) ≡ some (xs, ys)
unfolding read_exact
read_exact-append n xs ys h = elim (Bool-cases (ltb (length (xs ++ ys)) n)) [
  | inl short ↦ absurd (ground (arith, length-append xs ys))
  | inr enough ↦ rw enough (rw (take-append xs ys n h, drop-append xs ys n h) refl)
]

read_frame-append : (f rest : List ℕ) → IsFrame f → read_frame (f ++ rest) ≡ some (f, rest)
unfolding read_frame
read_frame-append f rest fr = rw fr.parts (
    rw (append_assoc fr.header fr.tail rest) (
      rw (read_exact-append 54 fr.header (fr.tail ++ rest) fr.header_length, read_frame)
        (rw
          (read_exact-append (from_le_bytes (slice 52 54 fr.header) + 32) fr.tail rest
            fr.tail_length)
          refl)))

read_frame-nil : read_frame [] ≡ none
unfolding read_frame read_exact
read_frame-nil = refl

-- What the two routers hold for a peer is the same.
pub record Agrees (src : ℕ) (r : UdpRouter) (s : TcpState) : Type 0 where
  pub numbers : s.last_seq ≡ r.last_seq
  pub peer_key : lookup src r.keys ≡ s.key

-- Two rounds that give the same messages and replies and leave the routers in agreement.
record SameRound (src : ℕ) (t : TcpState × List EngineMsg × List (List ℕ))
    (u : UdpRouter × List EngineMsg × List (List ℕ)) : Type 0 where
  agree : Agrees src u.0 t.0
  same_events : t.1 ≡ u.1
  same_replies : t.2 ≡ u.2

same_message :
    (env : Surroundings) (src : ℕ) (r : UdpRouter) (s : TcpState) (t : MsgType) (msg : TlvMsg)
    → Agrees src r s
    → SameRound src (tcp_message env s t msg) (udp_message env r src t msg)
unfolding tcp_message udp_message ack_for
same_message env src r s t msg ag = elim (Bool-cases (is_handshake t)) [
  | inl greets ↦
      rw (greets, tcp_message)
        (record {
          agree = record {
            numbers = ag.numbers;
            peer_key = lookup-insert_self src msg.payload r.keys;
          };
          same_events = refl;
          same_replies = refl;
        })
  | inr other ↦ elim (Option-cases s.key) [
    | inl unknown ↦
        let unknown' : lookup src r.keys ≡ none = ag.peer_key ∙ unknown in
        rw (other, unknown, unknown', tcp_message)
          (record { agree = ag; same_events = refl; same_replies = refl })
    | inr (key, known) ↦
        let known' : lookup src r.keys ≡ some key = ag.peer_key ∙ known in
        let same = tcp_deliver-deliver env key r.last_seq t msg in
        rw (other, known, known', ag.numbers, tcp_message)
          (rw same (record {
            agree = record { numbers = refl; peer_key = known' ∙ sym known };
            same_events = refl;
            same_replies = refl;
          }))
  ]
]

same_round :
    (env : Surroundings) (src : ℕ) (r : UdpRouter) (s : TcpState) (f : List ℕ)
    → Agrees src r s
    → length f ≤ buffer_size
    → SameRound src (tcp_round env s f) (udp_round env r src f)
unfolding udp_round
same_round env src r s f ag h =
    rw (take_le buffer_size f h, udp_round)
      elim (Option-cases (read_msg f)) [
        | inl bad ↦
            let idle = tcp_round-bad env s f bad in
            rw (bad, idle) (record { agree = ag; same_events = refl; same_replies = refl })
        | inr ((t, msg), good) ↦
            let handled = tcp_round-read_msg env s f t msg good in
            rw (good, handled) (same_message env src r s t msg ag)
      ]

-- Frames, each with the time that the clock has when it arrives.
pub data AllFrames : List (ℕ × List ℕ) → Type 0 where
  no_frames : AllFrames []
  frame :
      {now : ℕ} {f : List ℕ} {rest : List (ℕ × List ℕ)}
      → IsFrame f
      → AllFrames rest
      → AllFrames ((now, f) ∷ rest)

-- The stream of the frames, one after the other, and the readings of the clock.
abbrev pub joined : List (ℕ × List ℕ) → List ℕ
joined [] = []
joined ((now, f) ∷ rest) = f ++ joined rest

abbrev pub times_of : List (ℕ × List ℕ) → List ℕ
times_of [] = []
times_of ((now, f) ∷ rest) = now ∷ times_of rest

pub record SameRun (src : ℕ) (t : Option (TcpState × List EngineMsg × List (List ℕ)))
    (u : UdpRouter × List EngineMsg × List (List ℕ)) : Type 0 where
  pub final : TcpState
  pub returns : t ≡ some (final, u.1, u.2)
  pub agree : Agrees src u.0 final

-- A stream of whole frames of at most 65536 bytes each: the stream router returns, and it has sent
-- the engine the same messages and the peer the same replies, in the same order, as the datagram
-- router that gets each frame as one datagram from one peer at the same time; and where the numbers
-- and the peer's key agreed before, they agree after it.
pub handle_stream-run_udp :
    (blake2b512 : List ℕ → List ℕ) (src : ℕ) (r : UdpRouter) (s : TcpState)
    (frames : List (ℕ × List ℕ)) (last : ℕ) (more : List ℕ)
    → Agrees src r s
    → AllFrames frames
    → SameRun src
        (handle_stream blake2b512 (times_of frames ++ last ∷ more) s (joined frames))
        (run_udp blake2b512 r src frames)
unfolding handle_stream run_udp
handle_stream-run_udp blake2b512 src r s [] last more ag no_frames = record {
  final = s;
  returns = rw (read_frame-nil, handle_stream) refl;
  agree = ag;
}
handle_stream-run_udp blake2b512 src r s ((now, f) ∷ rest) last more ag (frame one others) =
    let env : Surroundings = record { blake2b512 = blake2b512; now_secs = now } in
    let here = same_round env src r s f ag one.fits in
    let later =
      handle_stream-run_udp blake2b512 src (udp_round env r src f).0 (tcp_round env s f).0 rest last
        more here.agree others in
    record {
      final = later.final;
      returns =
          rw (read_frame-append f (joined rest) one, handle_stream)
            (rw (later.returns, here.same_events, here.same_replies) refl);
      agree = later.agree;
    }
