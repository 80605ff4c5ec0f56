-- ===== src/Tests/Guardian.antt =====
-- Frames of examples/kdapp-merchant/src/tlv.rs, and a guardian of
-- examples/kdapp-guardian/src/lib.rs that reads them.
use kdapp.Base.{
  ℕ, ◌%◌, ◌≡◌, refl, true, Option, none, some, List, [], ◌∷◌, length, replicate, length-replicate,
  take, arith,
}
use kdapp.Tlv.{TlvMsg, bytes_for_sign, encode, sign, verify, decode, decode_frame}
use kdapp.Tlv.Codec.{IsSendable, decode-sign}
use kdapp.Tlv as Tlv
use kdapp.Guardian.{GuardianState, GuardianMsg, escalate_msg, from_u8, receive, observe_msg}
use kdapp.Guardian as Guardian
use kdapp.Guardian.Sequence.{expected, accepted_seqs, CountsFrom, accepted_seqs-CountsFrom}
use kdapp.Guardian.Send.{send_msg}
use kdapp.Guardian.Send.Exchange.{send_msg-receive}
use kdapp.Guardian.Replay.{IsQuiet, receive-receive}

-- A digest of 64 equal bytes.
abbrev blake : List ℕ → List ℕ
blake bytes = replicate 64 (length bytes % 256)

blake_64 : (bytes : List ℕ) → length (blake bytes) ≡ 64
blake_64 bytes = length-replicate 64 (length bytes % 256)

-- An escalation of episode 42.
abbrev frame : TlvMsg
frame = record {
  version = 2;
  msg_type = 1;
  script_policy = 1;
  episode_id = 42;
  seq = 0;
  state_hash = replicate 32 0;
  payload = 1 ∷ 42 ∷ [];
  auth = replicate 32 0;
}

frame-IsSendable : IsSendable frame
frame-IsSendable = record {
  current = refl;
  policy_word = omega arith;
  episode_word = omega arith;
  seq_word = omega arith;
  hash_32 = refl;
  short = omega arith;
  auth_32 = refl;
}

decode-sign_example :
    (decode (encode (sign blake frame (7 ∷ []))) ≡ some (sign blake frame (7 ∷ [])))
    × (verify blake (sign blake frame (7 ∷ [])) (7 ∷ []) ≡ true)
unfolding Tlv.from_u8
decode-sign_example =
    decode-sign Tlv.from_u8 blake frame (7 ∷ []) Tlv.cmd blake_64 frame-IsSendable refl

abbrev parse : List ℕ → Option GuardianMsg
parse (_ ∷ id ∷ []) = some (escalate_msg id [] [])
parse _ = none

abbrev fresh : GuardianState
fresh = record {
  observed_payments = [];
  checkpoints = [];
  disputes = [];
  sub_disputes = [];
  refund_signatures = [];
  last_seq = [];
}

abbrev datagram : List ℕ
unfolding encode sign bytes_for_sign
datagram = encode (sign blake frame (7 ∷ []))

datagram-decode : Guardian.decode (take 1024 datagram) ≡ some (sign blake frame (7 ∷ []))
unfolding encode sign bytes_for_sign decode_frame from_u8
datagram-decode = refl

receive-receive_example :
    let first = receive blake parse fresh datagram (7 ∷ []) in
    IsQuiet first.state (receive blake parse first.state datagram (7 ∷ []))
unfolding encode sign bytes_for_sign
receive-receive_example =
    receive-receive blake parse datagram (7 ∷ []) (sign blake frame (7 ∷ []))
      (escalate_msg 42 [] []) fresh datagram-decode refl refl

-- Two episodes, a repeated and an early number.
accepted_seqs-CountsFrom_example :
    CountsFrom
      (expected fresh 5)
      (accepted_seqs 5 fresh ((5, 0) ∷ (6, 0) ∷ (5, 0) ∷ (5, 1) ∷ (5, 3) ∷ (5, 2) ∷ []))
accepted_seqs-CountsFrom_example =
    accepted_seqs-CountsFrom 5 ((5, 0) ∷ (6, 0) ∷ (5, 0) ∷ (5, 1) ∷ (5, 3) ∷ (5, 2) ∷ []) fresh

three_accepted :
    accepted_seqs 5 fresh ((5, 0) ∷ (6, 0) ∷ (5, 0) ∷ (5, 1) ∷ (5, 3) ∷ (5, 2) ∷ [])
    ≡ 0 ∷ 1 ∷ 2 ∷ []
unfolding observe_msg
three_accepted = refl

abbrev write : GuardianMsg → List ℕ
write (escalate_msg id reason tx) = 1 ∷ id ∷ []
write _ = []

send_msg-receive_example :
    (answer : List ℕ) × (let r =
        receive blake parse fresh
          (send_msg blake write (escalate_msg 42 [] []) (7 ∷ []) []).0
          (7 ∷ []) in
      (r.msg ≡ some (escalate_msg 42 [] [])) × (r.replies ≡ answer ∷ []))
    × ((later : List (Option (List ℕ)))
        → let sent = send_msg blake write (escalate_msg 42 [] []) (7 ∷ []) (some answer ∷ later) in
          (sent.1 ≡ 1) × (sent.2 ≡ true))
send_msg-receive_example =
    send_msg-receive blake (7 ∷ []) write parse fresh (escalate_msg 42 [] []) blake_64 refl
      (omega arith) (omega arith) (omega arith) refl
