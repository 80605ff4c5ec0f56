-- ===== src/MerchantRouter/Tcp.antt =====
-- examples/kdapp-merchant/src/tcp_router.rs: the router that passes signed frames of a stream on to
-- the engine, with checks, sequencing and acknowledgements of its own. The states and verdicts are
-- declared as in udp_router.rs, and are the ones of MerchantRouter.
use kdapp.Base.{
  ℕ, ◌+◌, ◌%◌, Bool, true, false, not, Option, none, some, List, [], ◌∷◌, ◌++◌, length, take, drop,
  slice, replicate, Map, lookup, insert, ◌==◌, ltb, if◌then◌else◌, from_le_bytes, u64_mod,
}
use kdapp.Message.{EngineMsg, blk_accepted}
use kdapp.Tlv.{
  MsgType, new, cmd, ack, close, ack_close, checkpoint, handshake, refund, sub_charge,
  sub_charge_ack, sub_dispute, sub_dispute_resolve, TlvMsg, to_u8, from_u8, tlv_version,
  script_policy_version, encode, decode, sign, verify,
}
use kdapp.MerchantRouter.{AckState, Surroundings, Verdict, accept, resend, refuse, Delivered}

-- The numbers, and the key of the stream once there was a handshake.
pub record TcpState : Type 0 where
  pub last_seq : Map AckState
  pub key : Option (List ℕ)

-- The match on the message type.
abbrev pub tcp_judge_new : Option AckState → ℕ → Verdict
tcp_judge_new entry seq = elim entry [
  | none ↦ if seq == 0 then accept else refuse
  | some info ↦ if seq == info.seq then resend info.ack_bytes else refuse
]

abbrev pub tcp_judge_next : Option AckState → ℕ → Verdict
tcp_judge_next entry seq = elim entry [
  | some info ↦
      if seq == (info.seq + 1) % u64_mod
      then accept
      else if seq == info.seq
      then resend info.ack_bytes
      else refuse
  | none ↦ refuse
]

unfoldable pub tcp_judge : MsgType → Option AckState → ℕ → Verdict
tcp_judge t entry seq = elim t [
  | new ↦ tcp_judge_new entry seq
  | cmd ↦ tcp_judge_next entry seq
  | close ↦ tcp_judge_next entry seq
  | checkpoint ↦ tcp_judge_next entry seq
  | sub_charge ↦ tcp_judge_next entry seq
  | sub_dispute ↦ tcp_judge_next entry seq
  | sub_dispute_resolve ↦ tcp_judge_next entry seq
  | ack ↦ refuse
  | ack_close ↦ refuse
  | sub_charge_ack ↦ refuse
  | refund ↦ refuse
  | handshake ↦ refuse
]

-- The acknowledgement of a type, signed with the key of the stream.
abbrev pub tcp_ack : Surroundings → List ℕ → ℕ → TlvMsg → List ℕ
tcp_ack env key ack_type msg =
    let unsigned : TlvMsg = record {
      version = tlv_version;
      msg_type = ack_type;
      script_policy = script_policy_version;
      episode_id = msg.episode_id;
      seq = msg.seq;
      state_hash = msg.state_hash;
      payload = [];
      auth = replicate 32 0;
    } in
    encode (sign env.blake2b512 unsigned key)

-- What goes to the engine: nothing for a checkpoint.
abbrev pub tcp_events : Surroundings → MsgType → TlvMsg → List EngineMsg
tcp_events env checkpoint msg = []
tcp_events env t msg =
    blk_accepted (record {
      accepting_hash = 0;
      accepting_daa = msg.seq;
      accepting_time = env.now_secs;
      associated_txs =
          record { tx_id = 0; payload = msg.payload; tx_outputs = none; tx_status = none } ∷ [];
    })
    ∷ []

abbrev pub tcp_ack_type : MsgType → ℕ
tcp_ack_type close = to_u8 ack_close
tcp_ack_type _ = to_u8 ack

-- What is done once the number was judged.
abbrev pub tcp_settle :
    Surroundings → List ℕ → Map AckState → MsgType → TlvMsg → Verdict → Delivered
tcp_settle env key last_seq t msg accept =
    let ack_bytes = tcp_ack env key (tcp_ack_type t) msg in
    record {
      last_seq = insert msg.episode_id (record { seq = msg.seq; ack_bytes = ack_bytes }) last_seq;
      forwarded = tcp_events env t msg;
      replies = ack_bytes ∷ [];
    }
tcp_settle env key last_seq t msg (resend bytes) = record {
  last_seq = last_seq;
  forwarded = [];
  replies = bytes ∷ [];
}
tcp_settle env key last_seq t msg refuse = record {
  last_seq = last_seq;
  forwarded = [];
  replies = [];
}

-- A message after the handshake.
unfoldable pub tcp_deliver : Surroundings → List ℕ → Map AckState → MsgType → TlvMsg → Delivered
tcp_deliver env key last_seq t msg = elim (verify env.blake2b512 msg key) [
  | false ↦ record { last_seq = last_seq; forwarded = []; replies = [] }
  | true ↦ tcp_settle env key last_seq t msg (tcp_judge t (lookup msg.episode_id last_seq) msg.seq)
]

abbrev pub tcp_greets : MsgType → Bool
tcp_greets handshake = true
tcp_greets _ = false

unfoldable pub tcp_message :
    Surroundings → TcpState → MsgType → TlvMsg → TcpState × List EngineMsg × List (List ℕ)
tcp_message env s t msg = elim (tcp_greets t) [
  | true ↦ (record s { key = some msg.payload }, [], tcp_ack env msg.payload (to_u8 ack) msg ∷ [])
  | false ↦ elim s.key [
    | none ↦ (s, [], [])
    | some key ↦
        let d = tcp_deliver env key s.last_seq t msg in
        (record s { last_seq = d.last_seq }, d.forwarded, d.replies)
  ]
]

-- What follows `read_exact` of the header and of the tail.
unfoldable pub tcp_round :
    Surroundings → TcpState → List ℕ → TcpState × List EngineMsg × List (List ℕ)
tcp_round env s bytes = elim (decode bytes) [
  | none ↦ (s, [], [])
  | some msg ↦
      if not (msg.version == tlv_version)
      then (s, [], [])
      else elim (from_u8 msg.msg_type) [ none ↦ (s, [], []) | some t ↦ tcp_message env s t msg ]
]

-- `read_exact`: nothing where the stream ends before.
unfoldable pub read_exact : ℕ → List ℕ → Option (List ℕ × List ℕ)
read_exact n stream = if ltb (length stream) n then none else some (take n stream, drop n stream)

-- A header of 54 bytes, which has the length of the payload at its end, and a tail of the payload and
-- its signature.
unfoldable pub read_frame : List ℕ → Option (List ℕ × List ℕ)
read_frame stream = elim (read_exact 54 stream) [
  | none ↦ none
  | some (header, rest) ↦ elim (read_exact (from_le_bytes (slice 52 54 header) + 32) rest) [
    | none ↦ none
    | some (tail, later) ↦ some (header ++ tail, later)
  ]
]

-- The loop of `handle_stream`, on the readings of the clock, one for each round: `none` is that they
-- ran out.
unfoldable pub handle_stream :
    (List ℕ → List ℕ)
    → List ℕ
    → TcpState
    → List ℕ
    → Option (TcpState × List EngineMsg × List (List ℕ))
handle_stream blake2b512 [] s stream = none
handle_stream blake2b512 (now ∷ times) s stream = elim (read_frame stream) [
  | none ↦ some (s, [], [])
  | some (bytes, later) ↦
      let (s', events, replies) =
        tcp_round (record { blake2b512 = blake2b512; now_secs = now }) s bytes in
      elim (handle_stream blake2b512 times s' later) [
        | none ↦ none
        | some (final, more, answers) ↦ some (final, events ++ more, replies ++ answers)
      ]
]
