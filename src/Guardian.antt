-- ===== src/Guardian.antt =====
-- examples/kdapp-guardian/src/lib.rs: the guardian's state and what a datagram does to it.
-- Writing the state to its file is left out; the log and the metrics of src/metrics.rs are a count
-- of valid and of invalid messages.
pub mod Sequence
pub mod Replay
pub mod Send
use kdapp.Base.{
  ℕ, ◌+◌, ◌%◌, Bool, true, false, not, ◌&&◌, Option, none, some, List, [], ◌∷◌, replicate,
  push_back, contains, Map, lookup, insert, ◌==◌, ltb, if◌then◌else◌, u64_mod, take,
}
use kdapp.Pki.{Secp, to_message, sign_message}
use kdapp.Tlv.{TlvMsg, tlv_version, script_policy_version, encode, sign, verify, decode_frame}

pub data MsgType : Type 0 where
  handshake escalate confirm ack : MsgType

abbrev pub to_u8 : MsgType → ℕ
to_u8 handshake = 0
to_u8 escalate = 1
to_u8 confirm = 2
to_u8 ack = 3

unfoldable pub from_u8 : ℕ → Option MsgType
from_u8 v =
    if v == 0
    then some handshake
    else if v == 1
    then some escalate
    else if v == 2
    then some confirm
    else if v == 3
    then some ack
    else none

abbrev pub is_confirm : MsgType → Bool
is_confirm confirm = true
is_confirm _ = false

abbrev pub decode : List ℕ → Option TlvMsg
decode = decode_frame from_u8

pub data GuardianMsg : Type 0 where
  handshake_msg : (merchant guardian : ℕ) → GuardianMsg
  escalate_msg : (episode_id : ℕ) (reason refund_tx : List ℕ) → GuardianMsg
  confirm_msg : (episode_id seq : ℕ) → GuardianMsg

pub record SubDispute : Type 0 where
  pub sub_id : ℕ
  pub invoice_id : ℕ
  pub reason : List ℕ
  pub evidence_hash : List ℕ
  pub proposed_refund_tx : Option (List ℕ)

pub record SubDisputeResolve : Type 0 where
  pub sub_id : ℕ
  pub invoice_id : ℕ
  pub guardian_sig : List ℕ
  pub refund_tx : Option (List ℕ)

pub record GuardianState : Type 0 where
  pub observed_payments : List ℕ
  pub checkpoints : List (ℕ × ℕ)
  pub disputes : List ℕ
  pub sub_disputes : List (ℕ × ℕ)
  pub refund_signatures : List (ℕ × List ℕ)
  pub last_seq : Map ℕ

unfoldable pub observe_payment : GuardianState → ℕ → GuardianState
observe_payment s invoice_id = record s {
  observed_payments = push_back s.observed_payments invoice_id;
}

unfoldable pub observe_msg : GuardianState → ℕ → ℕ → GuardianState × Bool
observe_msg s episode_id seq = elim (lookup episode_id s.last_seq) [
  | some last ↦
      if seq == (last + 1) % u64_mod
      then (record s { last_seq = insert episode_id seq s.last_seq }, true)
      else (s, false)
  | none ↦
      if seq == 0
      then (record s { last_seq = insert episode_id seq s.last_seq }, true)
      else (s, false)
]

-- An id is put on the list of disputes once.
unfoldable pub add_dispute : GuardianState → ℕ → GuardianState
add_dispute s episode_id =
    if contains s.disputes episode_id
    then s
    else record s { disputes = push_back s.disputes episode_id }

unfoldable pub record_checkpoint : GuardianState → ℕ → ℕ → GuardianState × Bool
record_checkpoint s episode_id seq =
    let (observed, fresh) = observe_msg s episode_id seq in
    if not fresh
    then (add_dispute observed episode_id, true)
    else (record observed { checkpoints = push_back observed.checkpoints (episode_id, seq) }, false)

unfoldable pub record_sub_dispute : GuardianState → ℕ → ℕ → GuardianState
record_sub_dispute s sub_id invoice_id = record s {
  sub_disputes = push_back s.sub_disputes (sub_id, invoice_id);
}

-- It never returns `GuardianError::InvalidDispute`.
unfoldable pub on_sub_dispute : GuardianState → SubDispute → GuardianState × SubDisputeResolve
on_sub_dispute s msg = (
  record_sub_dispute s msg.sub_id msg.invoice_id,
  record {
    sub_id = msg.sub_id;
    invoice_id = msg.invoice_id;
    guardian_sig = [];
    refund_tx = msg.proposed_refund_tx;
  },
)

-- The argument is the borsh form of the transaction's bytes.
unfoldable pub sign_refund : Secp → GuardianState → ℕ → List ℕ → List ℕ → GuardianState × List ℕ
sign_refund c s episode_id tx sk =
    let sig = sign_message c sk (to_message c tx) in
    (record s { refund_signatures = push_back s.refund_signatures (episode_id, sig) }, sig)

-- What a call of `receive` leaves: the state, the counts of src/metrics.rs, the handshakes that
-- are to be stored, the datagrams that are sent back, and the message that is returned.
pub record Received : Type 0 where
  pub state : GuardianState
  pub valid : ℕ
  pub invalid : ℕ
  pub handshakes : List (ℕ × ℕ)
  pub replies : List (List ℕ)
  pub msg : Option GuardianMsg

abbrev pub ignored : GuardianState → ℕ → Received
ignored s invalid = record {
  state = s;
  valid = 0;
  invalid = invalid;
  handshakes = [];
  replies = [];
  msg = none;
}

module _ (blake2b512 : List ℕ → List ℕ) (from_slice : List ℕ → Option GuardianMsg) where
  abbrev pub ack_of : TlvMsg → List ℕ → TlvMsg
  ack_of tlv key =
      sign blake2b512
        (record {
          version = tlv_version;
          msg_type = 3;
          script_policy = script_policy_version;
          episode_id = tlv.episode_id;
          seq = tlv.seq;
          state_hash = replicate 32 0;
          payload = [];
          auth = replicate 32 0;
        })
        key

  abbrev pub accepted : GuardianState → TlvMsg → List ℕ → GuardianMsg → List (ℕ × ℕ) → Received
  accepted s tlv key m handshakes = record {
    state = s;
    valid = 1;
    invalid = 0;
    handshakes = handshakes;
    replies = encode (ack_of tlv key) ∷ [];
    msg = some m;
  }

  -- The `match` on the message.
  unfoldable pub handle : GuardianState → TlvMsg → List ℕ → GuardianMsg → Received
  handle s tlv key (escalate_msg episode_id reason refund_tx) =
      accepted (add_dispute (observe_payment s episode_id) episode_id) tlv key
        (escalate_msg episode_id reason refund_tx) []
  handle s tlv key (confirm_msg episode_id seq) =
      let (recorded, discrepancy) = record_checkpoint s episode_id seq in
      if discrepancy
      then ignored recorded 1
      else accepted recorded tlv key (confirm_msg episode_id seq) []
  handle s tlv key (handshake_msg merchant guardian) =
      accepted s tlv key (handshake_msg merchant guardian) ((merchant, guardian) ∷ [])

  unfoldable pub handle_payload : GuardianState → TlvMsg → List ℕ → Received
  handle_payload s tlv key = elim (from_slice tlv.payload) [
    | none ↦ ignored s 0
    | some m ↦ handle s tlv key m
  ]

  -- The guard against replays, which a `Confirm` passes by.
  unfoldable pub admit : GuardianState → TlvMsg → List ℕ → MsgType → Received
  admit s tlv key t =
      let (observed, fresh) = observe_msg s tlv.episode_id tlv.seq in
      if is_confirm t
      then handle_payload s tlv key
      else if not fresh
      then ignored observed (if tlv.seq == 0 then 0 else 1)
      else handle_payload observed tlv key

  -- The datagram is the first 1024 bytes of what arrived.
  unfoldable pub receive : GuardianState → List ℕ → List ℕ → Received
  receive s datagram key = elim (decode (take 1024 datagram)) [
    | none ↦ ignored s 0
    | some tlv ↦ elim (from_u8 tlv.msg_type) [
      | none ↦ ignored s 0
      | some t ↦ if not (verify blake2b512 tlv key) then ignored s 1 else admit s tlv key t
    ]
  ]
