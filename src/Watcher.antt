-- ===== src/Watcher.antt =====
-- examples/kdapp-merchant/src/watcher.rs: the loop that receives checkpoints over UDP and submits
-- them to the node, with its fee policies. A submission that fails is only logged, and its
-- checkpoint is gone from the queue. Floating-point numbers are numbers here, and what is computed
-- of them is the record `Floats`.
pub mod Queue
pub mod Served
use kdapp.Base.{
  ℕ, ◌+◌, ◌%◌, Bool, true, false, not, ◌||◌, Option, none, some, List, [], ◌∷◌, ◌++◌, push_back,
  replicate, take, ◌==◌, ltb, min, max, if◌then◌else◌,
}
use kdapp.Tlv.{
  TlvMsg, decode, encode, sign, verify, to_u8, ack, checkpoint, handshake, refund,
  script_policy_version,
}
use kdapp.Config.{WatcherRuntimeOverrides}

abbrev min_fee_default : ℕ
min_fee_default = 5000

pub record MempoolSnapshot : Type 0 where
  pub est_base_fee : ℕ
  pub congestion_ratio : ℕ
  pub min_fee : ℕ
  pub max_fee : ℕ

pub record Floats : Type 0 where
  pub zero_ratio : ℕ
  pub one_ratio : ℕ
  pub is_ge : ℕ → ℕ → Bool
  -- `(base as f64 * (1.0 + multiplier * ratio)).ceil() as u64`
  pub scaled : ℕ → ℕ → ℕ → ℕ

pub data FeePolicyKind : Type 0 where
  static_policy : (fee : ℕ) → FeePolicyKind
  congestion_policy : (min_fee max_fee defer_threshold multiplier : ℕ) → FeePolicyKind

-- `clamp` panics where the bounds cross.
abbrev pub clamp : ℕ → ℕ → ℕ → Option ℕ
clamp x low high = if ltb high low then none else some (max low (min x high))

unfoldable pub fee_and_deferral : Floats → FeePolicyKind → MempoolSnapshot → Option (ℕ × Bool)
fee_and_deferral fl (static_policy fee) snap = some (fee, false)
fee_and_deferral fl (congestion_policy low high defer_threshold multiplier) snap =
    if fl.is_ge snap.congestion_ratio defer_threshold
    then some (snap.min_fee, true)
    else elim (clamp (fl.scaled snap.est_base_fee multiplier snap.congestion_ratio) low high) [
      | none ↦ none
      | some fee ↦ some (fee, false)
    ]

abbrev pub unwrap_or : Option ℕ → ℕ → ℕ
unwrap_or none d = d
unwrap_or (some a) d = a

abbrev pub apply_overrides : ℕ → ℕ → ℕ → WatcherRuntimeOverrides → ℕ × ℕ × ℕ
apply_overrides base_min base_max base_threshold overrides = (
  base_min,
  unwrap_or overrides.max_fee base_max,
  unwrap_or overrides.congestion_threshold base_threshold,
)

-- The limits that a policy starts from, and a policy under new limits.
abbrev pub base_limits : Floats → FeePolicyKind → ℕ × ℕ × ℕ
base_limits fl (static_policy fee) = (fee, fee, fl.one_ratio)
base_limits fl (congestion_policy low high threshold multiplier) = (low, high, threshold)

abbrev pub with_limits : FeePolicyKind → ℕ × ℕ × ℕ → FeePolicyKind
with_limits (static_policy fee) limits = static_policy fee
with_limits (congestion_policy low high threshold multiplier) (low', high', threshold') =
    congestion_policy low' high' threshold' multiplier

pub record Checkpoint : Type 0 where
  pub episode_id : ℕ
  pub seq : ℕ
  pub root : List ℕ

-- What was handed to the node for anchoring, and whether the node took it.
pub record Submission : Type 0 where
  pub checkpoint : Checkpoint
  pub fee : ℕ
  pub taken : Bool

-- `POLICY_INFO` and `MEMPOOL_METRICS` are what the merchant's server reads.
pub record PolicyInfo : Type 0 where
  pub limits : ℕ × ℕ × ℕ
  pub selected_fee : ℕ
  pub deferred : Bool

pub record Watcher : Type 0 where
  pub policy : FeePolicyKind
  pub pending : List Checkpoint
  pub metrics : Option MempoolSnapshot
  pub info : PolicyInfo

-- `run` before its loop: what is shown of the policy at first.
abbrev pub start : Floats → FeePolicyKind → Watcher
start fl policy = record {
  policy = policy;
  pending = [];
  metrics = none;
  info = record {
    limits = base_limits fl policy;
    selected_fee = min_fee_default;
    deferred = false;
  };
}

-- A datagram, and what the node and the server say while it is handled: the base fee and the
-- congestion, if the node answers; the overrides; and whether `submit_checkpoint_tx` succeeds for a
-- checkpoint under a fee.
pub record Round : Type 0 where
  pub bytes : List ℕ
  pub mempool : Option (ℕ × ℕ)
  pub overrides : WatcherRuntimeOverrides
  pub submits : Checkpoint → ℕ → Bool

abbrev pub base_snapshot : Floats → Option (ℕ × ℕ) → ℕ × ℕ
base_snapshot fl none = (min_fee_default, fl.zero_ratio)
base_snapshot fl (some found) = found

-- The queue is emptied into submissions. One that fails is only logged: it is not queued again.
abbrev pub submit_all : Round → ℕ → List Checkpoint → List Submission
submit_all round fee [] = []
submit_all round fee (c ∷ cs) =
    record { checkpoint = c; fee = fee; taken = round.submits c fee } ∷ submit_all round fee cs

-- The limits of a round, the policy under them, and the snapshot that it judges.
abbrev pub limits_of : Floats → FeePolicyKind → Round → ℕ × ℕ × ℕ
limits_of fl policy round =
    let (base_min, base_max, base_threshold) = base_limits fl policy in
    apply_overrides base_min base_max base_threshold round.overrides

abbrev pub policy_of : Floats → FeePolicyKind → Round → FeePolicyKind
policy_of fl policy round = with_limits policy (limits_of fl policy round)

abbrev pub snapshot_of : Floats → FeePolicyKind → Round → MempoolSnapshot
snapshot_of fl policy round =
    let limits = limits_of fl policy round in
    let (est_base_fee, congestion) = base_snapshot fl round.mempool in
    record {
      est_base_fee = est_base_fee;
      congestion_ratio = congestion;
      min_fee = limits.0;
      max_fee = limits.1;
    }

-- A deferred round keeps the queue; any other round empties it.
abbrev pub conclude :
    Floats → Watcher → Round → List Checkpoint → ℕ → Bool → Watcher × List Submission
conclude fl w round pending fee defer =
    let info : PolicyInfo = record {
      limits = limits_of fl w.policy round;
      selected_fee = fee;
      deferred = defer;
    } in
    (
      record {
        policy = policy_of fl w.policy round;
        pending = if defer then pending else [];
        metrics = some (snapshot_of fl w.policy round);
        info = info;
      },
      if defer then [] else submit_all round fee pending,
    )

-- What happens once a checkpoint was received: it is queued, and unless the policy defers, all that
-- is queued is submitted. `none` is a panic.
unfoldable pub process : Floats → Watcher → Round → Checkpoint → Option (Watcher × List Submission)
process fl w round c =
    elim (fee_and_deferral fl (policy_of fl w.policy round) (snapshot_of fl w.policy round)) [
      | none ↦ none
      | some (fee, defer) ↦ some (conclude fl w round (push_back w.pending c) fee defer)
    ]

module _ (blake2b512 : List ℕ → List ℕ) (demo_hmac_key : List ℕ) where
  -- The acknowledgement, under the version that the message has.
  abbrev pub ack_for : TlvMsg → List ℕ
  ack_for msg = encode (
      sign blake2b512
        (record {
          version = msg.version;
          msg_type = to_u8 ack;
          script_policy = script_policy_version;
          episode_id = msg.episode_id;
          seq = msg.seq;
          state_hash = msg.state_hash;
          payload = [];
          auth = replicate 32 0;
        })
        demo_hmac_key)

  -- The checks on a datagram that is no handshake and no refund.
  abbrev pub checkpoint_of : TlvMsg → Option Checkpoint
  checkpoint_of msg =
      if not (msg.msg_type == to_u8 checkpoint) || not (verify blake2b512 msg demo_hmac_key)
      then none
      else some (record { episode_id = msg.episode_id; seq = msg.seq; root = msg.state_hash })

  -- One round of the loop, with the replies. What comes of a refund is only logged.
  unfoldable pub watch_round :
      Floats → Watcher → Round → Option (Watcher × List Submission × List (List ℕ))
  watch_round fl w round = elim (decode (take 1024 round.bytes)) [
    | none ↦ some (w, [], [])
    | some msg ↦
        if msg.msg_type == to_u8 handshake
        then some (w, [], ack_for msg ∷ [])
        else if msg.msg_type == to_u8 refund
        then some (w, [], [])
        else elim (checkpoint_of msg) [
          | none ↦ some (w, [], [])
          | some c ↦ elim (process fl w round c) [
            | none ↦ none
            | some (w', submissions) ↦ some (w', submissions, ack_for msg ∷ [])
          ]
        ]
  ]

  unfoldable pub watch : Floats → Watcher → List Round → Option (Watcher × List Submission)
  watch fl w [] = some (w, [])
  watch fl w (round ∷ rounds) = elim (watch_round fl w round) [
    | none ↦ none
    | some (w', submissions, _) ↦ elim (watch fl w' rounds) [
      | none ↦ none
      | some (final, more) ↦ some (final, submissions ++ more)
    ]
  ]
