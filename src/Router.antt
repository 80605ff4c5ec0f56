-- ===== src/Router.antt =====
-- examples/kas-draw/src/offchain.rs and src/tlv.rs: the router that passes off-chain datagrams of
-- the lottery on to the engine, in the order of their numbers. The log is left out.
pub mod Sessions
use kdapp.Base.{
  ℕ, ◌+◌, ◌%◌, Bool, true, false, not, ◌&&◌, Option, none, some, List, [], ◌∷◌, ◌++◌, length, slice,
  byte, Map, lookup, insert, remove, ltb, ◌==◌, if◌then◌else◌, to_le_bytes, from_le_bytes, u16_mod,
  u32_mod, u64_mod,
}
use kdapp.Message.{EngineMsg, blk_accepted}

abbrev pub tlv_version : ℕ
tlv_version = 1

pub data MsgType : Type 0 where
  new cmd ack close ack_close checkpoint : MsgType

unfoldable pub from_u8 : ℕ → Option MsgType
from_u8 v =
    if v == 0
    then some new
    else if v == 1
    then some cmd
    else if v == 2
    then some ack
    else if v == 3
    then some close
    else if v == 4
    then some ack_close
    else if v == 5
    then some checkpoint
    else none

pub record TlvMsg : Type 0 where
  pub version : ℕ
  pub msg_type : ℕ
  pub episode_id : ℕ
  pub seq : ℕ
  pub state_hash : List ℕ
  pub payload : List ℕ

unfoldable pub encode : TlvMsg → List ℕ
encode m =
    m.version
    ∷ m.msg_type
    ∷ (to_le_bytes 8 m.episode_id
        ++ (to_le_bytes 8 m.seq
            ++ (m.state_hash ++ (to_le_bytes 2 (length m.payload % u16_mod) ++ m.payload))))

unfoldable pub decode : List ℕ → Option TlvMsg
decode bytes =
    if ltb (length bytes) 52
    then none
    else if not (byte bytes 0 == tlv_version)
    then none
    else elim (from_u8 (byte bytes 1)) [
      | none ↦ none
      | some _ ↦
          let payload_end = 52 + from_le_bytes (slice 50 52 bytes) in
          if ltb (length bytes) payload_end
          then none
          else some (record {
            version = byte bytes 0;
            msg_type = byte bytes 1;
            episode_id = from_le_bytes (slice 2 10 bytes);
            seq = from_le_bytes (slice 10 18 bytes);
            state_hash = slice 18 50 bytes;
            payload = slice 52 payload_end bytes;
          })
    ]

pub record OffchainRouter : Type 0 where
  pub last_seq : Map ℕ
  pub ack_enabled : Bool
  pub close_enabled : Bool

-- What is round the router: whether the engine still receives, the clock, and the borsh form of
-- the lottery's `UnsignedCommand` that closes an episode.
pub record Surroundings : Type 0 where
  pub engine_receives : Bool
  pub now_secs : ℕ
  pub close_command : ℕ → List ℕ

pub record Verdict : Type 0 where
  pub last_seq : Map ℕ
  pub accepted : Bool
  pub is_close : Bool

-- `Some(prev) if msg.seq == prev + 1`
unfoldable pub follows : Option ℕ → ℕ → Bool
follows none seq = false
follows (some prev) seq = seq == (prev + 1) % u64_mod

-- `last.is_none() && msg.seq == 0`
unfoldable pub opens : Option ℕ → ℕ → Bool
opens none seq = seq == 0
opens (some prev) seq = false

abbrev pub verdict : Map ℕ → TlvMsg → Bool → Bool → Verdict
verdict last_seq msg accepted is_close = record {
  last_seq = if accepted then insert msg.episode_id msg.seq last_seq else last_seq;
  accepted = accepted;
  is_close = is_close;
}

unfoldable pub judge : OffchainRouter → MsgType → TlvMsg → Verdict
judge r new msg = verdict r.last_seq msg (opens (lookup msg.episode_id r.last_seq) msg.seq) false
judge r cmd msg = verdict r.last_seq msg (follows (lookup msg.episode_id r.last_seq) msg.seq) false
judge r ack msg = verdict r.last_seq msg false false
judge r close msg =
    if not r.close_enabled
    then verdict r.last_seq msg false true
    else verdict r.last_seq msg (follows (lookup msg.episode_id r.last_seq) msg.seq) true
judge r ack_close msg = verdict r.last_seq msg false false
judge r checkpoint msg =
    verdict r.last_seq msg (follows (lookup msg.episode_id r.last_seq) msg.seq) false

abbrev pub is_checkpoint : MsgType → Bool
is_checkpoint checkpoint = true
is_checkpoint _ = false

abbrev pub payload_of : Surroundings → MsgType → TlvMsg → List ℕ
payload_of env close msg = env.close_command (msg.episode_id % u32_mod)
payload_of env checkpoint msg = []
payload_of env new msg = msg.payload
payload_of env cmd msg = msg.payload
payload_of env ack msg = msg.payload
payload_of env ack_close msg = msg.payload

-- The synthetic block of one transaction.
abbrev pub event_of : Surroundings → MsgType → TlvMsg → EngineMsg
event_of env t msg = blk_accepted (record {
  accepting_hash = 0;
  accepting_daa = msg.seq;
  accepting_time = env.now_secs;
  associated_txs =
      record { tx_id = 0; payload = payload_of env t msg; tx_outputs = none; tx_status = none }
      ∷ [];
})

pub record Routed : Type 0 where
  pub router : OffchainRouter
  pub forwarded : List EngineMsg
  pub replies : List (List ℕ)

abbrev pub ack_of : OffchainRouter → TlvMsg → Bool → List (List ℕ)
ack_of r msg is_close =
    if r.ack_enabled
    then encode (record {
      version = tlv_version;
      msg_type = if is_close then 4 else 2;
      episode_id = msg.episode_id;
      seq = msg.seq;
      state_hash = msg.state_hash;
      payload = [];
    })
      ∷ []
    else []

-- After the verdict: forwarding, the acknowledgement, and the end of a closed episode.
unfoldable pub forward : Surroundings → OffchainRouter → MsgType → TlvMsg → Verdict → Routed
forward env r t msg v =
    let noted = record r { last_seq = v.last_seq } in
    if not v.accepted
    then record { router = noted; forwarded = []; replies = [] }
    else if not (is_checkpoint t) && not env.engine_receives
    then record { router = noted; forwarded = []; replies = [] }
    else record {
      router =
          if v.is_close
          then record noted { last_seq = remove msg.episode_id v.last_seq }
          else noted;
      forwarded = if is_checkpoint t then [] else event_of env t msg ∷ [];
      replies = ack_of r msg v.is_close;
    }

-- One round of the loop of `run_udp`, on the bytes that were received.
unfoldable pub route : Surroundings → OffchainRouter → List ℕ → Routed
route env r bytes = elim (decode bytes) [
  | none ↦ record { router = r; forwarded = []; replies = [] }
  | some msg ↦
      if not (msg.version == tlv_version)
      then record { router = r; forwarded = []; replies = [] }
      else elim (from_u8 msg.msg_type) [
        | none ↦ record { router = r; forwarded = []; replies = [] }
        | some t ↦ forward env r t msg (judge r t msg)
      ]
]

-- The loop on the datagrams that arrive, each with the surroundings at that time.
unfoldable pub run_udp :
    OffchainRouter → List (Surroundings × List ℕ) → OffchainRouter × List EngineMsg
run_udp r [] = (r, [])
run_udp r ((env, bytes) ∷ rest) =
    let routed = route env r bytes in
    let (final, events) = run_udp routed.router rest in (final, routed.forwarded ++ events)
