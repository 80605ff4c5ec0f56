-- ===== src/MerchantRouter.antt =====
-- examples/kdapp-merchant/src/udp_router.rs: the router that passes signed datagrams on to the
-- engine, in the order of their numbers. The log is left out; a send that fails is only logged, so
-- that the acknowledgement is sent all the same.
pub mod Tcp
pub mod Alike
pub mod Framing
use kdapp.Base.{
  ℕ, zero, suc, ◌+◌, ◌%◌, Bool, true, false, not, Option, none, some, List, [], ◌∷◌, ◌++◌, length,
  take, drop, slice, replicate, Map, lookup, insert, ◌==◌, ltb, if◌then◌else◌, from_le_bytes,
  u64_mod,
}
use kdapp.Message.{EngineMsg, blk_accepted}
use kdapp.Tlv.{
  MsgType, new, cmd, ack, close, ack_close, checkpoint, handshake, refund, sub_charge,
  sub_charge_ack, sub_dispute, sub_dispute_resolve, TlvMsg, to_u8, from_u8, tlv_version,
  script_policy_version, encode, decode, sign, verify,
}

pub record AckState : Type 0 where
  pub seq : ℕ
  pub ack_bytes : List ℕ

-- The addresses of peers are numbers.
pub record UdpRouter : Type 0 where
  pub last_seq : Map AckState
  pub keys : Map (List ℕ)

-- The digest of frames (blake2) and the clock.
pub record Surroundings : Type 0 where
  pub blake2b512 : List ℕ → List ℕ
  pub now_secs : ℕ

pub data Verdict : Type 0 where
  accept : Verdict
  resend : (ack_bytes : List ℕ) → Verdict
  refuse : Verdict

-- `New` opens an episode with number 0.
abbrev pub judge_new : Option AckState → ℕ → Verdict
judge_new none seq = if seq == 0 then accept else refuse
judge_new (some info) seq = if seq == info.seq then resend info.ack_bytes else refuse

-- The other messages for the engine follow the last number.
abbrev pub judge_next : Option AckState → ℕ → Verdict
judge_next none seq = refuse
judge_next (some info) seq =
    if seq == (info.seq + 1) % u64_mod
    then accept
    else if seq == info.seq
    then resend info.ack_bytes
    else refuse

unfoldable pub judge : MsgType → Option AckState → ℕ → Verdict
judge new entry seq = judge_new entry seq
judge cmd entry seq = judge_next entry seq
judge close entry seq = judge_next entry seq
judge checkpoint entry seq = judge_next entry seq
judge sub_charge entry seq = judge_next entry seq
judge sub_dispute entry seq = judge_next entry seq
judge sub_dispute_resolve entry seq = judge_next entry seq
judge ack entry seq = refuse
judge ack_close entry seq = refuse
judge sub_charge_ack entry seq = refuse
judge refund entry seq = refuse
judge handshake entry seq = refuse

abbrev pub is_checkpoint : MsgType → Bool
is_checkpoint checkpoint = true
is_checkpoint _ = false

abbrev pub is_close : MsgType → Bool
is_close close = true
is_close _ = false

abbrev pub is_handshake : MsgType → Bool
is_handshake handshake = true
is_handshake _ = false

-- The synthetic block of one transaction.
abbrev pub event_of : Surroundings → TlvMsg → EngineMsg
event_of env msg = blk_accepted (record {
  accepting_hash = 0;
  accepting_daa = msg.seq;
  accepting_time = env.now_secs;
  associated_txs =
      record { tx_id = 0; payload = msg.payload; tx_outputs = none; tx_status = none } ∷ [];
})

-- A signed acknowledgement of a message.
unfoldable pub ack_for : Surroundings → List ℕ → MsgType → TlvMsg → List ℕ
ack_for env key t msg = encode (
    sign env.blake2b512
      (record {
        version = tlv_version;
        msg_type = to_u8 t;
        script_policy = script_policy_version;
        episode_id = msg.episode_id;
        seq = msg.seq;
        state_hash = msg.state_hash;
        payload = [];
        auth = replicate 32 0;
      })
      key)

-- What comes out of a message: the numbers, what the engine gets, and what the peer gets.
pub record Delivered : Type 0 where
  pub last_seq : Map AckState
  pub forwarded : List EngineMsg
  pub replies : List (List ℕ)

abbrev pub quiet : Map AckState → Delivered
quiet last_seq = record { last_seq = last_seq; forwarded = []; replies = [] }

abbrev pub apply_verdict :
    Surroundings → List ℕ → Map AckState → MsgType → TlvMsg → Verdict → Delivered
apply_verdict env key last_seq t msg refuse = quiet last_seq
apply_verdict env key last_seq t msg (resend bytes) = record {
  last_seq = last_seq;
  forwarded = [];
  replies = bytes ∷ [];
}
apply_verdict env key last_seq t msg accept =
    let bytes = ack_for env key (if is_close t then ack_close else ack) msg in
    record {
      last_seq = insert msg.episode_id (record { seq = msg.seq; ack_bytes = bytes }) last_seq;
      forwarded = if is_checkpoint t then [] else event_of env msg ∷ [];
      replies = bytes ∷ [];
    }

-- A message whose key is known.
unfoldable pub deliver : Surroundings → List ℕ → Map AckState → MsgType → TlvMsg → Delivered
deliver env key last_seq t msg =
    if not (verify env.blake2b512 msg key)
    then quiet last_seq
    else apply_verdict env key last_seq t msg (judge t (lookup msg.episode_id last_seq) msg.seq)

-- The message type of a datagram that can be read and has the right version.
unfoldable pub read_msg : List ℕ → Option (MsgType × TlvMsg)
read_msg bytes = elim (decode bytes) [
  | none ↦ none
  | some msg ↦
      if not (msg.version == tlv_version)
      then none
      else elim (from_u8 msg.msg_type) [ none ↦ none | some t ↦ some (t, msg) ]
]

-- The receive buffer of 64 KiB cuts a longer datagram.
abbrev pub buffer_size : ℕ
buffer_size = 65536

unfoldable pub udp_message :
    Surroundings → UdpRouter → ℕ → MsgType → TlvMsg → UdpRouter × List EngineMsg × List (List ℕ)
udp_message env r src t msg =
    if is_handshake t
    then (
      record r { keys = insert src msg.payload r.keys },
      [],
      ack_for env msg.payload ack msg ∷ [],
    )
    else elim (lookup src r.keys) [
      | none ↦ (r, [], [])
      | some key ↦
          let d = deliver env key r.last_seq t msg in
          (record r { last_seq = d.last_seq }, d.forwarded, d.replies)
    ]

-- One round of the loop of `UdpRouter::run`.
unfoldable pub udp_round :
    Surroundings → UdpRouter → ℕ → List ℕ → UdpRouter × List EngineMsg × List (List ℕ)
udp_round env r src datagram = elim (read_msg (take buffer_size datagram)) [
  | none ↦ (r, [], [])
  | some (t, msg) ↦ udp_message env r src t msg
]

-- The loop, on the datagrams of one peer, each with the time that the clock has then.
unfoldable pub run_udp :
    (List ℕ → List ℕ)
    → UdpRouter
    → ℕ
    → List (ℕ × List ℕ)
    → UdpRouter × List EngineMsg × List (List ℕ)
run_udp blake2b512 r src [] = (r, [], [])
run_udp blake2b512 r src ((now, datagram) ∷ rest) =
    let (r', events, replies) =
      udp_round (record { blake2b512 = blake2b512; now_secs = now }) r src datagram in
    let (final, later, answers) = run_udp blake2b512 r' src rest in
    (final, events ++ later, replies ++ answers)
