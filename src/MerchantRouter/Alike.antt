-- ===== src/MerchantRouter/Alike.antt =====
-- The stream router (examples/kdapp-merchant/src/tcp_router.rs) judges and answers a message as the
-- datagram router (udp_router.rs) does.
use kdapp.Base.{
  ℕ, ◌≡◌, refl, ap, ◌∙◌, Option, none, some, List, [], ◌∷◌, lookup, Map, arith, Bool-cases, inl,
  inr, if◌then◌else◌,
}
use kdapp.Tlv.{MsgType, ack, ack_close, TlvMsg, to_u8, verify}
use kdapp.MerchantRouter.{
  AckState, Surroundings, Verdict, accept, resend, refuse, judge, is_close, is_checkpoint, event_of,
  ack_for, apply_verdict, deliver, read_msg,
}
use kdapp.MerchantRouter.Tcp.{
  TcpState, tcp_judge, tcp_ack, tcp_ack_type, tcp_events, tcp_settle, tcp_deliver, tcp_message,
  tcp_round,
}

tcp_judge-judge :
    (t : MsgType) (entry : Option AckState) (seq : ℕ) → tcp_judge t entry seq ≡ judge t entry seq
unfolding tcp_judge judge
tcp_judge-judge t entry seq = ground arith

-- Neither forwards a checkpoint, and only a close is answered by AckClose.
tcp_events-event_of :
    (env : Surroundings) (t : MsgType) (msg : TlvMsg)
    → tcp_events env t msg ≡ (if is_checkpoint t then [] else event_of env msg ∷ [])
tcp_events-event_of env t msg = ground arith

tcp_ack_type-to_u8 : (t : MsgType) → tcp_ack_type t ≡ to_u8 (if is_close t then ack_close else ack)
tcp_ack_type-to_u8 t = ground arith

tcp_ack-ack_for :
    (env : Surroundings) (key : List ℕ) (t : MsgType) (msg : TlvMsg)
    → tcp_ack env key (to_u8 t) msg ≡ ack_for env key t msg
unfolding ack_for
tcp_ack-ack_for env key t msg = refl

tcp_settle-apply_verdict :
    (env : Surroundings) (key : List ℕ) (m : Map AckState) (t : MsgType) (msg : TlvMsg)
    (v : Verdict)
    → tcp_settle env key m t msg v ≡ apply_verdict env key m t msg v
tcp_settle-apply_verdict env key m t msg refuse = refl
tcp_settle-apply_verdict env key m t msg (resend bytes) = refl
tcp_settle-apply_verdict env key m t msg accept =
    let reply : tcp_ack env key (tcp_ack_type t) msg
        ≡ ack_for env key (if is_close t then ack_close else ack) msg =
      ap (λ (n : ℕ). tcp_ack env key n msg) (tcp_ack_type-to_u8 t)
      ∙ tcp_ack-ack_for env key (if is_close t then ack_close else ack) msg in
    rw (reply, tcp_events-event_of env t msg) refl

pub tcp_deliver-deliver :
    (env : Surroundings) (key : List ℕ) (m : Map AckState) (t : MsgType) (msg : TlvMsg)
    → tcp_deliver env key m t msg ≡ deliver env key m t msg
unfolding tcp_deliver deliver
tcp_deliver-deliver env key m t msg =
    let entry = lookup msg.episode_id m in
    elim (Bool-cases (verify env.blake2b512 msg key)) [
      | inr bad ↦ rw (bad, tcp_deliver) refl
      | inl good ↦
          rw (good, tcp_deliver)
            (ap (tcp_settle env key m t msg) (tcp_judge-judge t entry msg.seq)
              ∙ tcp_settle-apply_verdict env key m t msg (judge t entry msg.seq))
    ]

-- A round of the stream router reads and handles what `read_msg` reads.
pub tcp_round-read_msg :
    (env : Surroundings) (s : TcpState) (bytes : List ℕ) (t : MsgType) (msg : TlvMsg)
    → read_msg bytes ≡ some (t, msg)
    → tcp_round env s bytes ≡ tcp_message env s t msg
unfolding tcp_round read_msg
tcp_round-read_msg env s bytes t msg h = ground arith

pub tcp_round-bad :
    (env : Surroundings) (s : TcpState) (bytes : List ℕ)
    → read_msg bytes ≡ none
    → tcp_round env s bytes ≡ (s, [], [])
unfolding tcp_round read_msg
tcp_round-bad env s bytes h = ground arith
