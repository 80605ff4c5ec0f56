-- ===== src/Guardian/Send/Exchange.antt =====
-- A message that the guardian of examples/kdapp-guardian/src/lib.rs expects is received and
-- acknowledged.
use kdapp.Base.{
  ℕ, ◌+◌, ◌≤◌, ◌<◌, ◌≡◌, refl, sym, ap, ap₂, subst, ◌∙◌, Bool, true, Option, some, List, [], ◌∷◌,
  replicate, length, take, take_le, ◌==◌, u64_mod, u16_mod, arith,
}
use kdapp.Tlv.{TlvMsg, tlv_version, script_policy_version, encode, sign, verify}
use kdapp.Tlv.Codec.{IsSendable, sign-IsSendable, decode-sign, length-encode}
use kdapp.Guardian.{
  MsgType, ack, from_u8, to_u8, decode, GuardianMsg, handshake_msg, escalate_msg, confirm_msg,
  GuardianState, Received, ack_of, handle, handle_payload, admit, receive, record_checkpoint,
}
use kdapp.Guardian.Sequence.{expected, observe_fresh}
use kdapp.Guardian.Replay.{type_of, receive-eq, from_u8-to_u8}
use kdapp.Guardian.Send.{labels, frame_of, is_ack, attempts, send_with_retry, send_msg}

module _ (blake2b512 : List ℕ → List ℕ) (digest : (bytes : List ℕ) → length (blake2b512 bytes) ≡ 64)
    (key : List ℕ) where
  -- A short frame that is signed is read back from its datagram.
  short_frame :
      (m : TlvMsg) (t : MsgType)
      → IsSendable m
      → to_u8 t ≡ m.msg_type
      → length m.payload ≤ 938
      → decode (take 1024 (encode (sign blake2b512 m key))) ≡ some (sign blake2b512 m key)
  unfolding sign
  short_frame m t s known short =
      let signed = sign blake2b512 m key in
      let l : length (encode signed) ≡ 86 + length m.payload =
        length-encode signed (sign-IsSendable blake2b512 m key digest s) in
      ap decode (take_le 1024 (encode signed) (omega (arith, l, short)))
      ∙ (decode-sign from_u8 blake2b512 m key t digest s
          (ap from_u8 (sym known) ∙ from_u8-to_u8 t)).0

  abbrev plain_ack : TlvMsg → TlvMsg
  plain_ack tlv = record {
    version = tlv_version;
    msg_type = 3;
    script_policy = script_policy_version;
    episode_id = tlv.episode_id;
    seq = tlv.seq;
    state_hash = replicate 32 0;
    payload = [];
    auth = replicate 32 0;
  }

  plain_ack-IsSendable :
      (tlv : TlvMsg) → tlv.episode_id < u64_mod → tlv.seq < u64_mod → IsSendable (plain_ack tlv)
  plain_ack-IsSendable tlv e q = record {
    current = refl;
    policy_word = omega arith;
    episode_word = e;
    seq_word = q;
    hash_32 = refl;
    short = omega arith;
    auth_32 = refl;
  }

  -- The sender takes the guardian's acknowledgement.
  ack_taken :
      (tlv : TlvMsg)
      → tlv.episode_id < u64_mod
      → tlv.seq < u64_mod
      → is_ack blake2b512 tlv key (encode (sign blake2b512 (plain_ack tlv) key)) ≡ true
  unfolding is_ack sign
  ack_taken tlv e q =
      let s = plain_ack-IsSendable tlv e q in
      let read : decode (take 1024 (encode (sign blake2b512 (plain_ack tlv) key)))
          ≡ some (sign blake2b512 (plain_ack tlv) key) =
        short_frame (plain_ack tlv) ack s refl (omega arith) in
      let good : verify blake2b512 (sign blake2b512 (plain_ack tlv) key) key ≡ true =
        (decode-sign from_u8 blake2b512 (plain_ack tlv) key ack digest s (from_u8-to_u8 ack)).1 in
      rw (read, is_ack) (ground (arith, good))

  module _ (from_slice : List ℕ → Option GuardianMsg) where
    -- What the guardian returns and answers.
    abbrev IsTaken : Received → TlvMsg → GuardianMsg → Type 0
    IsTaken r tlv m =
        (r.msg ≡ some m) × (r.replies ≡ encode (ack_of blake2b512 from_slice tlv key) ∷ [])

    confirm-IsTaken :
        (s : GuardianState) (tlv : TlvMsg) (e q : ℕ)
        → (q == expected s e) ≡ true
        → IsTaken (handle blake2b512 from_slice s tlv key (confirm_msg e q)) tlv (confirm_msg e q)
    unfolding handle record_checkpoint
    confirm-IsTaken s tlv e q fresh = rw (observe_fresh s e q fresh) (refl, refl)

    admit-IsTaken :
        (s : GuardianState) (tlv : TlvMsg) (m : GuardianMsg)
        → from_slice tlv.payload ≡ some m
        → tlv.episode_id ≡ (labels m).1
        → tlv.seq ≡ (labels m).2
        → (tlv.seq == expected s tlv.episode_id) ≡ true
        → IsTaken (admit blake2b512 from_slice s tlv key (type_of m)) tlv m
    unfolding admit handle_payload handle
    admit-IsTaken s tlv (handshake_msg a b) parsed e q fresh =
        rw (observe_fresh s tlv.episode_id tlv.seq fresh, admit)
          (rw (parsed, handle_payload) (refl, refl))
    admit-IsTaken s tlv (escalate_msg i reason tx) parsed e q fresh =
        rw (observe_fresh s tlv.episode_id tlv.seq fresh, admit)
          (rw (parsed, handle_payload) (refl, refl))
    admit-IsTaken s tlv (confirm_msg i n) parsed e q fresh =
        let known : (n == expected s i) ≡ true =
          ap₂ (λ (a b : ℕ). a == expected s b) (sym q) (sym e) ∙ fresh in
        rw (parsed, handle_payload) (confirm-IsTaken s tlv i n known)

    receive-IsTaken :
        (s : GuardianState) (d : List ℕ) (tlv : TlvMsg) (m : GuardianMsg)
        → decode (take 1024 d) ≡ some tlv
        → from_slice tlv.payload ≡ some m
        → to_u8 (type_of m) ≡ tlv.msg_type
        → verify blake2b512 tlv key ≡ true
        → IsTaken (admit blake2b512 from_slice s tlv key (type_of m)) tlv m
        → IsTaken (receive blake2b512 from_slice s d key) tlv m
    receive-IsTaken s d tlv m read parsed typed good taken =
        let e : receive blake2b512 from_slice s d key
            ≡ admit blake2b512 from_slice s tlv key (type_of m) =
          receive-eq blake2b512 from_slice d key tlv m read parsed typed s ∙ rw good refl in
        subst (λ (r : Received). IsTaken r tlv m) (sym e) taken

type_of-labels : (m : GuardianMsg) → to_u8 (type_of m) ≡ to_u8 (labels m).0
type_of-labels (handshake_msg a b) = refl
type_of-labels (escalate_msg i reason tx) = refl
type_of-labels (confirm_msg i n) = refl

frame_of-IsSendable :
    (m : GuardianMsg) (payload : List ℕ)
    → (labels m).1 < u64_mod
    → (labels m).2 < u64_mod
    → length payload < u16_mod
    → IsSendable (frame_of m payload)
frame_of-IsSendable m payload e q short = record {
  current = refl;
  policy_word = omega arith;
  episode_word = e;
  seq_word = q;
  hash_32 = refl;
  short = short;
  auth_32 = refl;
}

-- An acknowledgement ends the attempts.
acked_once :
    (blake2b512 : List ℕ → List ℕ) (tlv : TlvMsg) (key answer : List ℕ)
    (later : List (Option (List ℕ)))
    → is_ack blake2b512 tlv key answer ≡ true
    → ((attempts blake2b512 3 tlv key (some answer ∷ later)).0 ≡ 1)
      × ((attempts blake2b512 3 tlv key (some answer ∷ later)).1 ≡ true)
unfolding attempts
acked_once blake2b512 tlv key answer later h =
    (ap (λ (r : ℕ × Bool). r.0) (one h), ap (λ (r : ℕ × Bool). r.1) (one h))
  where
    one :
        is_ack blake2b512 tlv key answer ≡ true
        → attempts blake2b512 3 tlv key (some answer ∷ later) ≡ (1, true)
    one h = rw h refl

-- A message is sent whose borsh form is at most 938 bytes, and whose episode expects its number.
-- The guardian, which has the same key and reads the borsh form back, returns the message and
-- answers; and with that answer in time the sender sends once and is acknowledged.
pub send_msg-receive :
    (blake2b512 : List ℕ → List ℕ) (key : List ℕ) (to_vec : GuardianMsg → List ℕ)
    (from_slice : List ℕ → Option GuardianMsg) (s : GuardianState) (m : GuardianMsg)
    → ((bytes : List ℕ) → length (blake2b512 bytes) ≡ 64)
    → from_slice (to_vec m) ≡ some m
    → length (to_vec m) ≤ 938
    → (labels m).1 < u64_mod
    → (labels m).2 < u64_mod
    → ((labels m).2 == expected s (labels m).1) ≡ true
    → (answer : List ℕ) × (let r =
          receive blake2b512 from_slice s (send_msg blake2b512 to_vec m key []).0 key in
        (r.msg ≡ some m) × (r.replies ≡ answer ∷ []))
      × ((later : List (Option (List ℕ)))
          → let sent = send_msg blake2b512 to_vec m key (some answer ∷ later) in
            (sent.1 ≡ 1) × (sent.2 ≡ true))
unfolding send_msg send_with_retry sign
send_msg-receive blake2b512 key to_vec from_slice s m digest parsed short e q fresh =
    let plain = frame_of m (to_vec m) in
    let tlv = sign blake2b512 plain key in
    let sendable = frame_of-IsSendable m (to_vec m) e q (omega (arith, short)) in
    let read =
      short_frame blake2b512 digest key plain (type_of m) sendable (type_of-labels m) short in
    let good =
      (decode-sign from_u8 blake2b512 plain key (type_of m) digest sendable
        (ap from_u8 (sym (type_of-labels m)) ∙ from_u8-to_u8 (type_of m))).1 in
    let taken =
      receive-IsTaken blake2b512 digest key from_slice s (encode tlv) tlv m read parsed
        (type_of-labels m) good
        (admit-IsTaken blake2b512 digest key from_slice s tlv m parsed refl refl fresh) in
    (
      encode (ack_of blake2b512 from_slice tlv key),
      taken,
      λ later.
          acked_once blake2b512 tlv key (encode (ack_of blake2b512 from_slice tlv key)) later
            (ack_taken blake2b512 digest key tlv e q),
    )
