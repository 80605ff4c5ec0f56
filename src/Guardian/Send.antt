-- ===== src/Guardian/Send.antt =====
-- The sending side of examples/kdapp-guardian/src/lib.rs. What a socket receives within a timeout
-- is a value, and the log is left out.
pub mod Exchange
use kdapp.Base.{
  ℕ, zero, suc, ◌+◌, Bool, true, false, ◌&&◌, Option, none, some, List, [], ◌∷◌, replicate, take,
  ◌==◌, if◌then◌else◌,
}
use kdapp.Tlv.{TlvMsg, tlv_version, script_policy_version, encode, sign, verify}
use kdapp.Guardian.{
  MsgType, handshake, escalate, confirm, ack, to_u8, decode, GuardianMsg, handshake_msg,
  escalate_msg, confirm_msg,
}

-- The type, the episode and the number that a message is sent under.
abbrev pub labels : GuardianMsg → MsgType × ℕ × ℕ
labels (handshake_msg merchant guardian) = (handshake, 0, 0)
labels (escalate_msg episode_id reason refund_tx) = (escalate, episode_id, 0)
labels (confirm_msg episode_id seq) = (confirm, episode_id, seq)

abbrev pub frame_of : GuardianMsg → List ℕ → TlvMsg
frame_of m payload = record {
  version = tlv_version;
  msg_type = to_u8 (labels m).0;
  script_policy = script_policy_version;
  episode_id = (labels m).1;
  seq = (labels m).2;
  state_hash = replicate 32 0;
  payload = payload;
  auth = replicate 32 0;
}

module _ (blake2b512 : List ℕ → List ℕ) where
  -- The answer is the acknowledgement of a frame.
  unfoldable pub is_ack : TlvMsg → List ℕ → List ℕ → Bool
  is_ack tlv key answer = elim (decode (take 1024 answer)) [
    | none ↦ false
    | some a ↦
        a.msg_type == to_u8 ack
        && (a.episode_id == tlv.episode_id && (a.seq == tlv.seq && verify blake2b512 a key))
  ]

  -- The attempts that are left, and what each receives in time: how often the frame is sent, and
  -- whether it was acknowledged.
  unfoldable pub attempts : ℕ → TlvMsg → List ℕ → List (Option (List ℕ)) → ℕ × Bool
  attempts zero tlv key answers = (0, false)
  attempts (suc left) tlv key [] = (suc left, false)
  attempts (suc left) tlv key (none ∷ answers) =
      let (sent, acked) = attempts left tlv key answers in (sent + 1, acked)
  attempts (suc left) tlv key (some answer ∷ answers) =
      let (sent, acked) = attempts left tlv key answers in
      if is_ack tlv key answer then (1, true) else (sent + 1, acked)

  -- The datagram that is sent, how often, and whether it was acknowledged.
  unfoldable pub send_with_retry : TlvMsg → List ℕ → List (Option (List ℕ)) → List ℕ × ℕ × Bool
  send_with_retry tlv key answers =
      let signed = sign blake2b512 tlv key in
      let (sent, acked) = attempts 3 signed key answers in (encode signed, sent, acked)

  -- `to_vec` is the borsh form of a message.
  unfoldable pub send_msg :
      (GuardianMsg → List ℕ) → GuardianMsg → List ℕ → List (Option (List ℕ)) → List ℕ × ℕ × Bool
  send_msg to_vec m key answers = send_with_retry (frame_of m (to_vec m)) key answers
