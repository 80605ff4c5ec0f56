-- ===== src/Guardian/Replay.antt =====
-- Datagrams that reach the guardian of examples/kdapp-guardian/src/lib.rs twice.
use kdapp.Base.{
  ℕ, ◌+◌, ◌%◌, ◌≡◌, refl, sym, ap, ◌∙◌, true, false, not, Option, none, some, List, [], Map,
  Bool-cases, inl, inr, ◌==◌, arith, take, push_back, if◌then◌else◌,
}
use kdapp.Tlv.{TlvMsg, verify}
use kdapp.Guardian.{
  MsgType, handshake, escalate, confirm, from_u8, to_u8, decode, is_confirm, GuardianMsg,
  handshake_msg, escalate_msg, confirm_msg, GuardianState, observe_msg, observe_payment,
  add_dispute, record_checkpoint, Received, ignored, handle, handle_payload, admit, receive,
}
use kdapp.Guardian.Sequence.{expected, noted, observe_fresh, observe_stale, expected-observed}

-- The type that `send_msg` puts on a message.
abbrev pub type_of : GuardianMsg → MsgType
type_of (handshake_msg merchant guardian) = handshake
type_of (escalate_msg episode_id reason refund_tx) = escalate
type_of (confirm_msg episode_id seq) = confirm

-- Nothing is returned, answered or counted as valid, and the numbering, the checkpoints and the
-- observed payments are as they were.
abbrev pub IsQuiet : GuardianState → Received → Type 0
IsQuiet s r =
    (r.msg ≡ none)
    × (r.replies ≡ [])
    × (r.valid ≡ 0)
    × (r.handshakes ≡ [])
    × (r.state.last_seq ≡ s.last_seq)
    × (r.state.checkpoints ≡ s.checkpoints)
    × (r.state.observed_payments ≡ s.observed_payments)

pub from_u8-to_u8 : (t : MsgType) → from_u8 (to_u8 t) ≡ some t
unfolding from_u8
from_u8-to_u8 t = ground arith

-- After a number was offered it is not the expected one.
spent : (s : GuardianState) (e q : ℕ) → (q == expected (observe_msg s e q).0 e) ≡ false
spent s e q = elim (Bool-cases (q == expected s e)) [
  | inl fresh ↦
      let next : expected (noted s e q) e
          ≡ (if e == e then (q + 1) % 18446744073709551616 else expected s e) =
        expected-observed s e q e in
      rw (observe_fresh s e q fresh) (ground (arith, next))
  | inr stale ↦ rw (observe_stale s e q stale) stale
]

add_dispute-seq : (s : GuardianState) (e : ℕ) → (add_dispute s e).last_seq ≡ s.last_seq
unfolding add_dispute
add_dispute-seq s e = ground arith

add_dispute-IsQuiet : (s : GuardianState) (e n : ℕ) → IsQuiet s (ignored (add_dispute s e) n)
unfolding add_dispute
add_dispute-IsQuiet s e n = ground arith

same_expected :
    (s t : GuardianState) (e : ℕ) → s.last_seq ≡ t.last_seq → expected s e ≡ expected t e
same_expected s t e h = ap (λ (l : Map ℕ). expected (record t { last_seq = l }) e) h

-- A number that was spent is spent for every state with the same numbering.
spent_after :
    (s t : GuardianState) (e q : ℕ)
    → t.last_seq ≡ (observe_msg s e q).0.last_seq
    → (q == expected t e) ≡ false
spent_after s t e q h =
    ap (λ (n : ℕ). q == n) (same_expected t (observe_msg s e q).0 e h) ∙ spent s e q

handle_seq :
    (blake2b512 : List ℕ → List ℕ) (from_slice : List ℕ → Option GuardianMsg) (s : GuardianState)
    (tlv : TlvMsg) (key : List ℕ) (m : GuardianMsg)
    → is_confirm (type_of m) ≡ false
    → (handle blake2b512 from_slice s tlv key m).state.last_seq ≡ s.last_seq
unfolding handle observe_payment
handle_seq blake2b512 from_slice s tlv key (handshake_msg merchant guardian) other = refl
handle_seq blake2b512 from_slice s tlv key (escalate_msg e reason refund_tx) other =
    add_dispute-seq (record s { observed_payments = push_back s.observed_payments e }) e
handle_seq blake2b512 from_slice s tlv key (confirm_msg e q) other = cc

module _ (blake2b512 : List ℕ → List ℕ) (from_slice : List ℕ → Option GuardianMsg) (d key : List ℕ)
    (tlv : TlvMsg) (m : GuardianMsg) (read : decode (take 1024 d) ≡ some tlv)
    (parsed : from_slice tlv.payload ≡ some m) (typed : to_u8 (type_of m) ≡ tlv.msg_type) where
  abbrev pub got : GuardianState → Received
  got s = receive blake2b512 from_slice s d key

  pub receive-eq :
      (s : GuardianState)
      → got s ≡ (
          if not (verify blake2b512 tlv key)
          then ignored s 1
          else admit blake2b512 from_slice s tlv key (type_of m))
  unfolding receive
  receive-eq s =
      let known : from_u8 tlv.msg_type ≡ some (type_of m) =
        ap from_u8 (sym typed) ∙ from_u8-to_u8 (type_of m) in
      rw (read, known, receive) refl

  pub payload-eq :
      (s : GuardianState)
      → handle_payload blake2b512 from_slice s tlv key ≡ handle blake2b512 from_slice s tlv key m
  unfolding handle_payload
  payload-eq s = rw (parsed, handle_payload) refl

  confirm_stale :
      (s : GuardianState) (e q : ℕ)
      → (q == expected s e) ≡ false
      → IsQuiet s (handle blake2b512 from_slice s tlv key (confirm_msg e q))
  unfolding handle record_checkpoint
  confirm_stale s e q stale = rw (observe_stale s e q stale) (add_dispute-IsQuiet s e 1)

  confirm_seq :
      (s : GuardianState) (e q : ℕ)
      → (handle blake2b512 from_slice s tlv key (confirm_msg e q)).state.last_seq
        ≡ (observe_msg s e q).0.last_seq
  unfolding handle record_checkpoint
  confirm_seq s e q = elim (Bool-cases (q == expected s e)) [
    | inl fresh ↦ rw (observe_fresh s e q fresh) refl
    | inr stale ↦ rw (observe_stale s e q stale) (add_dispute-seq s e)
  ]

  admit_stale :
      (s : GuardianState) (t : MsgType)
      → is_confirm t ≡ false
      → (tlv.seq == expected s tlv.episode_id) ≡ false
      → IsQuiet s (admit blake2b512 from_slice s tlv key t)
  unfolding admit
  admit_stale s t other stale =
      rw (other, observe_stale s tlv.episode_id tlv.seq stale, admit)
        (refl, refl, refl, refl, refl, refl, refl)

  admit_seq :
      (s : GuardianState)
      → is_confirm (type_of m) ≡ false
      → (admit blake2b512 from_slice s tlv key (type_of m)).state.last_seq
        ≡ (observe_msg s tlv.episode_id tlv.seq).0.last_seq
  unfolding admit
  admit_seq s other = elim (Bool-cases (tlv.seq == expected s tlv.episode_id)) [
    | inl fresh ↦
        rw (other, observe_fresh s tlv.episode_id tlv.seq fresh, admit)
          (rw payload-eq
            (handle_seq blake2b512 from_slice (noted s tlv.episode_id tlv.seq) tlv key m other))
    | inr stale ↦ rw (other, observe_stale s tlv.episode_id tlv.seq stale, admit) refl
  ]

  -- What `receive` does once the signature is right.
  abbrev trusted : GuardianState → Received
  trusted s = admit blake2b512 from_slice s tlv key (type_of m)

  good_eq : verify blake2b512 tlv key ≡ true → (s : GuardianState) → got s ≡ trusted s
  good_eq good s = receive-eq s ∙ rw good refl

  bad_eq : verify blake2b512 tlv key ≡ false → (s : GuardianState) → got s ≡ ignored s 1
  bad_eq bad s = receive-eq s ∙ rw bad refl

  IsQuiet-again :
      ((s : GuardianState) → IsQuiet (trusted s).state (trusted (trusted s).state))
      → (s : GuardianState) → IsQuiet (got s).state (got (got s).state)
  IsQuiet-again h s = elim (Bool-cases (verify blake2b512 tlv key)) [
    | inl good ↦ rw (good_eq good (got s).state, good_eq good s) (h s)
    | inr bad ↦ rw (bad_eq bad (got s).state) (refl, refl, refl, refl, refl, refl, refl)
  ]

  other_again :
      is_confirm (type_of m) ≡ false
      → (s : GuardianState) → IsQuiet (trusted s).state (trusted (trusted s).state)
  other_again other s =
      admit_stale (trusted s).state (type_of m) other
        (spent_after s (trusted s).state tlv.episode_id tlv.seq (admit_seq s other))

  confirm-eq :
      (e q : ℕ)
      → m ≡ confirm_msg e q
      → (s : GuardianState) → trusted s ≡ handle blake2b512 from_slice s tlv key (confirm_msg e q)
  unfolding admit
  confirm-eq e q is s =
      let k : is_confirm (type_of m) ≡ true = ap (λ (n : GuardianMsg). is_confirm (type_of n)) is in
      rw (k, admit) (payload-eq s ∙ ap (handle blake2b512 from_slice s tlv key) is)

  confirm_again :
      (e q : ℕ)
      → m ≡ confirm_msg e q
      → (s : GuardianState) → IsQuiet (trusted s).state (trusted (trusted s).state)
  confirm_again e q is s =
      let same = λ (u : GuardianState). confirm-eq e q is u in
      rw (same s, same (handle blake2b512 from_slice s tlv key (confirm_msg e q)).state)
        (confirm_stale (handle blake2b512 from_slice s tlv key (confirm_msg e q)).state e q (
          spent_after s (handle blake2b512 from_slice s tlv key (confirm_msg e q)).state e q
            (confirm_seq s e q)))

-- A datagram that reaches the guardian twice in a row, its message under the type that the sender
-- gives it, brings nothing the second time: no message is returned, answered, counted or noted.
pub receive-receive :
    (blake2b512 : List ℕ → List ℕ) (from_slice : List ℕ → Option GuardianMsg) (d key : List ℕ)
    (tlv : TlvMsg) (m : GuardianMsg) (s : GuardianState)
    → decode (take 1024 d) ≡ some tlv
    → from_slice tlv.payload ≡ some m
    → to_u8 (type_of m) ≡ tlv.msg_type
    → let first = receive blake2b512 from_slice s d key in
      IsQuiet first.state (receive blake2b512 from_slice first.state d key)
receive-receive blake2b512 from_slice d key tlv (handshake_msg a b) s read parsed typed =
    IsQuiet-again blake2b512 from_slice d key tlv (handshake_msg a b) read parsed typed
      (other_again blake2b512 from_slice d key tlv (handshake_msg a b) read parsed typed refl) s
receive-receive blake2b512 from_slice d key tlv (escalate_msg e r x) s read parsed typed =
    IsQuiet-again blake2b512 from_slice d key tlv (escalate_msg e r x) read parsed typed
      (other_again blake2b512 from_slice d key tlv (escalate_msg e r x) read parsed typed refl) s
receive-receive blake2b512 from_slice d key tlv (confirm_msg e q) s read parsed typed =
    IsQuiet-again blake2b512 from_slice d key tlv (confirm_msg e q) read parsed typed
      (λ s.
        confirm_again blake2b512 from_slice d key tlv (confirm_msg e q) read parsed typed e q refl
          s)
      s
