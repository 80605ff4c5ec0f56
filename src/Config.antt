-- ===== src/Config.antt =====
-- examples/kdapp-merchant/src/server.rs: how the watcher is given new limits while it runs. A change
-- is in force at once, is watched by a task until the watcher has taken it up, and can be taken back
-- when that did not happen in time. The sections between a lock's taking and its release are the
-- steps. Thresholds are floating-point numbers in the code and numbers here, since they are only
-- stored, but for one comparison, `near`.
pub mod History
pub mod Tally
pub mod Progress
pub mod Steps
pub mod Consistent
use kdapp.Base.{
  ℕ, ◌+◌, ◌-◌, Bool, true, false, not, ◌&&◌, Option, none, some, List, [], push_back, length, drop,
  ◌/◌, min, if◌then◌else◌, ◌==◌, leb, ltb, u64_mod,
}

pub record WatcherRuntimeOverrides : Type 0 where
  pub max_fee : Option ℕ
  pub congestion_threshold : Option ℕ

pub data ConfigOpStatus : Type 0 where
  pending : ConfigOpStatus
  applied : ConfigOpStatus
  timed_out : ConfigOpStatus
  rolled_back : ConfigOpStatus

pub record ConfigOperation : Type 0 where
  pub op_id : ℕ
  pub requested_at : ℕ
  pub deadline_at : ℕ
  pub status : ConfigOpStatus
  pub target_max_fee : Option ℕ
  pub target_congestion_threshold : Option ℕ
  pub previous_max_fee : Option ℕ
  pub previous_congestion_threshold : Option ℕ

pub record ConfigOperationInternal : Type 0 where
  pub op : ConfigOperation
  pub deadline : ℕ

pub record ConfigOperations : Type 0 where
  pub next_id : ℕ
  pub active : Option ConfigOperationInternal
  pub history : List ConfigOperation

-- The last ten.
unfoldable pub push_history : ConfigOperations → ConfigOperation → ConfigOperations
push_history ops op =
    let history = push_back ops.history op in
    record ops {
      history = if ltb 10 (length history) then drop (length history - 10) history else history;
    }

pub data StatusCode : Type 0 where
  unauthorized : StatusCode
  bad_request : StatusCode
  conflict : StatusCode
  not_found : StatusCode

pub data Response : Type 0 where
  accepted : (op : ConfigOperation) → Response
  rejected : (code : StatusCode) → Response

-- The requests' clock in milliseconds, which is also the monotonic one.
abbrev watcher_config_timeout : ℕ
watcher_config_timeout = 2000

abbrev pub or_else : {A : Type 0} → Option A → Option A → Option A
or_else none b = b
or_else (some a) b = some a

-- What a request for new limits makes of the old ones.
abbrev pub override : WatcherRuntimeOverrides → Option ℕ → Option ℕ → WatcherRuntimeOverrides
override overrides max_fee threshold = record {
  max_fee = or_else max_fee overrides.max_fee;
  congestion_threshold = or_else threshold overrides.congestion_threshold;
}

-- `saturating_add(1)`
abbrev pub succ_id : ℕ → ℕ
succ_id id = min (id + 1) (u64_mod - 1)

abbrev pub requested : ℕ → WatcherRuntimeOverrides → Option ℕ → Option ℕ → ℕ → ConfigOperation
requested id overrides max_fee threshold now = record {
  op_id = id;
  requested_at = now / 1000;
  deadline_at = (now + watcher_config_timeout) / 1000;
  status = pending;
  target_max_fee = max_fee;
  target_congestion_threshold = threshold;
  previous_max_fee = overrides.max_fee;
  previous_congestion_threshold = overrides.congestion_threshold;
}

-- The whole request runs under the lock of the operations. `authorized` is what `authorize` says of
-- the headers.
unfoldable pub set_watcher_config :
    Bool
    → WatcherRuntimeOverrides
    → ConfigOperations
    → Option ℕ
    → Option ℕ
    → ℕ
    → WatcherRuntimeOverrides × ConfigOperations × Response
set_watcher_config authorized overrides ops max_fee threshold now =
    if not authorized
    then (overrides, ops, rejected unauthorized)
    else elim (or_else max_fee threshold) [
      | none ↦ (overrides, ops, rejected bad_request)
      | some _ ↦ elim ops.active [
        | some _ ↦ (overrides, ops, rejected conflict)
        | none ↦
            let op = requested ops.next_id overrides max_fee threshold now in
            (
              override overrides max_fee threshold,
              record ops {
                next_id = succ_id ops.next_id;
                active = some (record { op = op; deadline = now + watcher_config_timeout });
              },
              accepted op,
            )
      ]
    ]

abbrev pub is_timed_out : ConfigOpStatus → Bool
is_timed_out timed_out = true
is_timed_out _ = false

abbrev pub is_pending : ConfigOpStatus → Bool
is_pending pending = true
is_pending _ = false

-- The first section of `rollback_watcher_config`: the operation is taken out.
unfoldable pub take_active : Bool → ConfigOperations → ℕ → ConfigOperations × Response
take_active authorized ops id =
    if not authorized then (ops, rejected unauthorized) else elim ops.active [
      | none ↦ (ops, rejected not_found)
      | some active ↦
          if not (active.op.op_id == id)
          then (ops, rejected not_found)
          else if not (is_timed_out active.op.status)
          then (ops, rejected bad_request)
          else (record ops { active = none }, accepted active.op)
    ]

-- The second: the limits are put back.
abbrev pub restore : ConfigOperation → WatcherRuntimeOverrides
restore op = record {
  max_fee = op.previous_max_fee;
  congestion_threshold = op.previous_congestion_threshold;
}

-- The third: the operation is recorded.
abbrev pub record_rollback : ConfigOperations → ConfigOperation → ConfigOperations
record_rollback ops op = push_history ops (record op { status = rolled_back })

-- What the watcher last published: the fee's limit of its metrics, and the threshold of its policy.
pub record Published : Type 0 where
  pub metrics_max_fee : Option ℕ
  pub congestion_threshold : ℕ

unfoldable pub config_operation_applied : (ℕ → ℕ → Bool) → Published → Option ℕ → Option ℕ → Bool
config_operation_applied near seen target_max target_threshold =
    let metrics_ok : Bool = elim target_max [
      | none ↦ true
      | some target ↦ elim seen.metrics_max_fee [ none ↦ false | some fee ↦ fee == target ]
    ] in
    let threshold_ok : Bool = elim target_threshold [
      | none ↦ true
      | some t ↦ near seen.congestion_threshold t
    ] in
    metrics_ok && threshold_ok

-- The sections of `monitor_config_operation`: what it reads, and what it does under the next lock.
unfoldable pub look : ConfigOperations → ℕ → Option ConfigOperationInternal
look ops id = elim ops.active [
  | none ↦ none
  | some active ↦ if active.op.op_id == id then some active else none
]

unfoldable pub mark_applied : ConfigOperations → ℕ → ConfigOperations
mark_applied ops id = elim ops.active [
  | none ↦ ops
  | some active ↦
      if (active.op.op_id == id) && is_pending active.op.status
      then push_history (record ops { active = none }) (record active.op { status = applied })
      else ops
]

unfoldable pub mark_timed_out : ConfigOperations → ℕ → ConfigOperations
mark_timed_out ops id = elim ops.active [
  | none ↦ ops
  | some active ↦
      if (active.op.op_id == id) && is_pending active.op.status
      then record ops {
        active = some (record active { op = record active.op { status = timed_out } });
      }
      else ops
]

unfoldable pub archive : ConfigOperations → ℕ → ConfigOperations
archive ops id = elim ops.active [
  | none ↦ ops
  | some active ↦
      if active.op.op_id == id then push_history (record ops { active = none }) active.op else ops
]

-- The rest of a round, after the task has read the operation `seen`.
unfoldable pub monitor_round :
    (ℕ → ℕ → Bool) → ConfigOperations → ConfigOperationInternal → Published → ℕ → ConfigOperations
monitor_round near ops seen published now = elim seen.op.status [
  | pending ↦
      if config_operation_applied near published seen.op.target_max_fee
        seen.op.target_congestion_threshold
      then mark_applied ops seen.op.op_id
      else if leb seen.deadline now
      then mark_timed_out ops seen.op.op_id
      else ops
  | timed_out ↦ ops
  | applied ↦ archive ops seen.op.op_id
  | rolled_back ↦ archive ops seen.op.op_id
]
