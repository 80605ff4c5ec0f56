-- ===== src/Router/Sessions.antt =====
-- The sessions that examples/kas-draw/src/offchain.rs tracks, one episode at a time.
use kdapp.Base.{
  ℕ, ◌+◌, ◌%◌, ◌≡◌, refl, ap₂, ◌∙◌, Bool, not, ◌&&◌, Option, none, some, List, [], ◌∷◌, lookup,
  insert, lookup-insert, lookup-remove, ◌==◌, if◌then◌else◌, u64_mod, arith, Bool-cases,
  Option-cases, inl, inr,
}
use kdapp.Router.{
  MsgType, new, cmd, ack, close, ack_close, checkpoint, from_u8, TlvMsg, decode, tlv_version,
  OffchainRouter, Surroundings, Verdict, follows, opens, judge, forward, route, run_udp,
}

-- The number that an episode has reached, and what a message of it with a number makes of that:
-- a session is opened by number zero, moved on by the next number, and ended by a close.
abbrev pub next : Surroundings → Bool → Option ℕ → MsgType → ℕ → Option ℕ
next env close_enabled none new seq = if seq == 0 then some 0 else none
next env close_enabled (some n) new seq = some n
next env close_enabled none t seq = none
next env close_enabled (some n) cmd seq = if seq == (n + 1) % u64_mod then some seq else some n
next env close_enabled (some n) checkpoint seq =
    if seq == (n + 1) % u64_mod then some seq else some n
next env close_enabled (some n) close seq =
    if close_enabled && seq == (n + 1) % u64_mod
    then (if env.engine_receives then none else some seq)
    else some n
next env close_enabled (some n) ack seq = some n
next env close_enabled (some n) ack_close seq = some n

-- The message of a datagram, if it has one of this version and a known type.
abbrev pub parsed : List ℕ → Option (MsgType × TlvMsg)
parsed bytes = elim (decode bytes) [
  | none ↦ none
  | some msg ↦
      if not (msg.version == tlv_version)
      then none
      else elim (from_u8 msg.msg_type) [ none ↦ none | some t ↦ some (t, msg) ]
]

-- The number of one episode after some datagrams, from its own messages alone.
abbrev pub follow : Surroundings → Bool → ℕ → Option ℕ → Option (MsgType × TlvMsg) → Option ℕ
follow env close_enabled i last none = last
follow env close_enabled i last (some (t, msg)) =
    if msg.episode_id == i then next env close_enabled last t msg.seq else last

abbrev pub tracked : Bool → ℕ → Option ℕ → List (Surroundings × List ℕ) → Option ℕ
tracked close_enabled i last [] = last
tracked close_enabled i last ((env, bytes) ∷ rest) =
    tracked close_enabled i (follow env close_enabled i last (parsed bytes)) rest

-- What the router holds of an episode after a verdict.
forward-follow :
    (env : Surroundings) (r : OffchainRouter) (t : MsgType) (msg : TlvMsg) (i : ℕ)
    → lookup i (forward env r t msg (judge r t msg)).router.last_seq ≡ (
        if msg.episode_id == i
        then next env r.close_enabled (lookup i r.last_seq) t msg.seq
        else lookup i r.last_seq)
unfolding forward judge follows opens
forward-follow env r new msg i = ground (arith, lookup-insert msg.episode_id i msg.seq r.last_seq)
forward-follow env r cmd msg i = ground (arith, lookup-insert msg.episode_id i msg.seq r.last_seq)
forward-follow env r ack msg i = ground arith
forward-follow env r close msg i = ground (
  arith,
  lookup-insert msg.episode_id i msg.seq r.last_seq,
  lookup-remove msg.episode_id i (insert msg.episode_id msg.seq r.last_seq),
)
forward-follow env r ack_close msg i = ground arith
forward-follow env r checkpoint msg i =
    ground (arith, lookup-insert msg.episode_id i msg.seq r.last_seq)

forward-close_enabled :
    (env : Surroundings) (r : OffchainRouter) (t : MsgType) (msg : TlvMsg) (v : Verdict)
    → (forward env r t msg v).router.close_enabled ≡ r.close_enabled
unfolding forward
forward-close_enabled env r t msg v = ground arith

route-close_enabled :
    (env : Surroundings) (r : OffchainRouter) (bytes : List ℕ)
    → (route env r bytes).router.close_enabled ≡ r.close_enabled
unfolding route
route-close_enabled env r bytes = elim (Option-cases (decode bytes)) [
  | inl h ↦ rw (h, route) refl
  | inr (msg, h) ↦
      rw (h, route)
        (elim (Bool-cases (msg.version == tlv_version)) [
          | inr bad ↦ rw bad refl
          | inl good ↦ rw good (elim (Option-cases (from_u8 msg.msg_type)) [
            | inl u ↦ rw u refl
            | inr (t, u) ↦ rw u (forward-close_enabled env r t msg (judge r t msg))
          ])
        ])
]

route-follow :
    (env : Surroundings) (r : OffchainRouter) (bytes : List ℕ) (i : ℕ)
    → lookup i (route env r bytes).router.last_seq
      ≡ follow env r.close_enabled i (lookup i r.last_seq) (parsed bytes)
unfolding route
route-follow env r bytes i = elim (Option-cases (decode bytes)) [
  | inl h ↦ rw (h, route, parsed) refl
  | inr (msg, h) ↦
      rw (h, route, parsed)
        (elim (Bool-cases (msg.version == tlv_version)) [
          | inr bad ↦ rw bad refl
          | inl good ↦ rw good (elim (Option-cases (from_u8 msg.msg_type)) [
            | inl u ↦ rw u refl
            | inr (t, u) ↦ rw u (forward-follow env r t msg i)
          ])
        ])
]

-- After any datagrams, whatever the clock and the engine are at each, the number that the router
-- holds of an episode is the one that the messages of that episode alone lead to: other episodes,
-- broken datagrams and acknowledgements do not touch it.
pub run_udp-tracked :
    (r : OffchainRouter) (datagrams : List (Surroundings × List ℕ)) (i : ℕ)
    → lookup i (run_udp r datagrams).0.last_seq
      ≡ tracked r.close_enabled i (lookup i r.last_seq) datagrams
unfolding run_udp
run_udp-tracked r [] i = refl
run_udp-tracked r ((env, bytes) ∷ rest) i =
    run_udp-tracked (route env r bytes).router rest i
    ∙ ap₂ (λ (b : Bool) (l : Option ℕ). tracked b i l rest) (route-close_enabled env r bytes)
        (route-follow env r bytes i)
