-- ===== src/Config/Progress.antt =====
-- What a round of `monitor_config_operation` (examples/kdapp-merchant/src/server.rs) does.
use kdapp.Base.{
  ℕ, ◌≡◌, refl, Bool, true, ◌&&◌, none, some, ◌==◌, leb, arith, Bool-cases, Option-cases, inl, inr,
}
use kdapp.Config.{
  ConfigOpStatus, pending, applied, timed_out, rolled_back, ConfigOperationInternal,
  ConfigOperations, push_history, is_pending, Published, mark_applied, mark_timed_out,
  monitor_round, config_operation_applied,
}
use kdapp.Config.Tally.{is_open}

-- What a round of a task does that has read an open operation.
pub data Progress (ops ops' : ConfigOperations) : Type 0 where
  waits : ops' ≡ ops → Progress ops ops'
  succeeds :
      (a : ConfigOperationInternal)
      → ops.active ≡ some a
      → ops' ≡ push_history (record ops { active = none }) (record a.op { status = applied })
      → Progress ops ops'
  lapses :
      (a : ConfigOperationInternal)
      → ops.active ≡ some a
      → ops' ≡ record ops { active = some (record a { op = record a.op { status = timed_out } }) }
      → Progress ops ops'

mark_applied-Progress : (ops : ConfigOperations) (id : ℕ) → Progress ops (mark_applied ops id)
unfolding mark_applied
mark_applied-Progress ops id = elim (Option-cases ops.active) [
  | inl idle ↦ waits (ground arith)
  | inr (a, busy) ↦ elim (Bool-cases ((a.op.op_id == id) && is_pending a.op.status)) [
    | inl fits ↦ succeeds a busy (rw (busy, mark_applied, fits) refl)
    | inr other ↦ waits (ground arith)
  ]
]

mark_timed_out-Progress : (ops : ConfigOperations) (id : ℕ) → Progress ops (mark_timed_out ops id)
unfolding mark_timed_out
mark_timed_out-Progress ops id = elim (Option-cases ops.active) [
  | inl idle ↦ waits (ground arith)
  | inr (a, busy) ↦ elim (Bool-cases ((a.op.op_id == id) && is_pending a.op.status)) [
    | inl fits ↦ lapses a busy (rw (busy, mark_timed_out, fits) refl)
    | inr other ↦ waits (ground arith)
  ]
]

pub monitor_round-Progress :
    (near : ℕ → ℕ → Bool) (ops : ConfigOperations) (seen : ConfigOperationInternal)
    (published : Published) (now : ℕ)
    → is_open seen.op.status ≡ true
    → Progress ops (monitor_round near ops seen published now)
unfolding monitor_round
monitor_round-Progress near ops seen published now still_open = go seen.op.status refl
  where
    go :
        (st : ConfigOpStatus)
        → seen.op.status ≡ st
        → Progress ops (monitor_round near ops seen published now)
    go pending e =
        elim (Bool-cases (
          config_operation_applied near published seen.op.target_max_fee
            seen.op.target_congestion_threshold)) [
              | inl done ↦ rw (e, monitor_round, done) (mark_applied-Progress ops seen.op.op_id)
              | inr not_yet ↦ elim (Bool-cases (leb seen.deadline now)) [
                | inl late ↦
                    rw (e, monitor_round, not_yet, late) (mark_timed_out-Progress ops seen.op.op_id)
                | inr early ↦ waits (rw (e, monitor_round, not_yet, early) refl)
              ]
            ]
    go timed_out e = waits (rw (e, monitor_round) refl)
    go applied e = absurd (ground arith)
    go rolled_back e = absurd (ground arith)
