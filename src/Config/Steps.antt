-- ===== src/Config/Steps.antt =====
-- Each step on the watcher's limits (examples/kdapp-merchant/src/server.rs) keeps the operations in
-- order.
use kdapp.Base.{
  ℕ, ◌∙◌, ◌-◌, ◌<◌, ◌≡◌, refl, Bool, true, false, ◌&&◌, Option, none, some, List, [], ◌∷◌, ◌++◌,
  length-append, u64_mod, arith, Option-cases, inl, inr,
}
use kdapp.Config.{
  applied, rolled_back, ConfigOperation, ConfigOperationInternal, ConfigOperations, Response,
  accepted, override, set_watcher_config, take_active, record_rollback, requested,
}
use kdapp.Config.History.{Flight, System, no_flights}
use kdapp.Config.Tally.{
  IsConsistent, in_flight-append, in_history-push_history, length-push_history, push_history_closed,
  push_history_rest,
}
use kdapp.Config.Progress.{Progress, waits, succeeds, lapses}

no_flights_nil : (fs : List Flight) → no_flights fs ≡ true → fs ≡ []
no_flights_nil [] h = refl
no_flights_nil (f ∷ fs) h = absurd (ground arith)

set_watcher_config-idle :
    (s s' : System) (authorized : Bool) (max_fee threshold : Option ℕ) (now : ℕ) (r : Response)
    (a : ConfigOperationInternal)
    → s.ops.active ≡ none
    → s'.ops.active ≡ some a
    → set_watcher_config authorized s.overrides s.ops max_fee threshold now
      ≡ (s'.overrides, s'.ops, r)
    → (s'.overrides ≡ override s.overrides max_fee threshold)
      × (a.op ≡ requested s.ops.next_id s.overrides max_fee threshold now)
unfolding set_watcher_config
set_watcher_config-idle s s' authorized max_fee threshold now r a idle e h =
    (ground arith, ground arith)

-- A request, where the numbers do not run out.
pub set-IsConsistent :
    (serial : Bool) (s s' : System) (authorized : Bool) (max_fee threshold : Option ℕ) (now : ℕ)
    (r : Response)
    → set_watcher_config authorized s.overrides s.ops max_fee threshold now
      ≡ (s'.overrides, s'.ops, r)
    → s'.flights ≡ s.flights
    → s'.ops.next_id < u64_mod - 1
    → IsConsistent serial s
    → IsConsistent (serial && no_flights s.flights) s'
unfolding set_watcher_config
set-IsConsistent serial s s' authorized max_fee threshold now r h fl few c = record {
  numbered = λ id. ground (arith, c.numbered id);
  active_open = λ a e. ground (arith, c.active_open a);
  history_closed = ground (arith, c.history_closed);
  short = ground (arith, c.short);
  kept = ground (arith, c.kept);
  in_force = λ ser a e.
      let was_serial : serial ≡ true = ground arith in
      elim (Option-cases s.ops.active) [
        | inl idle ↦
            let (now_in_force, op_is) =
              set_watcher_config-idle s s' authorized max_fee threshold now r a idle e h in
            (fl ∙ no_flights_nil s.flights (ground arith), rw (now_in_force, op_is) refl)
        | inr (b, busy) ↦ let old = c.in_force was_serial b busy in ground arith
      ];
}

pub taken-IsConsistent :
    (serial : Bool) (s s' : System) (authorized : Bool) (id : ℕ) (op : ConfigOperation)
    → take_active authorized s.ops id ≡ (s'.ops, accepted op)
    → s'.flights ≡ record { op = op; restored = false } ∷ s.flights
    → IsConsistent serial s
    → IsConsistent serial s'
unfolding take_active
taken-IsConsistent serial s s' authorized id op h fl c = record {
  numbered = λ id. ground (arith, c.numbered id);
  active_open = λ a e. ground arith;
  history_closed = ground (arith, c.history_closed);
  short = ground (arith, c.short);
  kept = ground (arith, c.kept);
  in_force = λ ser a e. absurd (ground arith);
}

pub put_back-IsConsistent :
    (serial : Bool) (s s' : System) (before after : List Flight) (op : ConfigOperation)
    → s.flights ≡ before ++ record { op = op; restored = false } ∷ after
    → s'.flights ≡ before ++ record { op = op; restored = true } ∷ after
    → s'.ops ≡ s.ops
    → IsConsistent serial s
    → IsConsistent serial s'
put_back-IsConsistent serial s s' before after op f f' o c =
    let was : Flight = record { op = op; restored = false } in
    let is : Flight = record { op = op; restored = true } in
    record {
      numbered = λ id. ground (
        arith,
        c.numbered id,
        in_flight-append id before (was ∷ after),
        in_flight-append id before (is ∷ after),
      );
      active_open = λ a e. ground (arith, c.active_open a);
      history_closed = ground (arith, c.history_closed);
      short = ground (arith, c.short);
      kept =
          ground
            (arith, c.kept, length-append before (was ∷ after), length-append before (is ∷ after));
      in_force = λ ser a e.
          let old = c.in_force ser a (ground arith) in
          absurd (ground (arith, length-append before (was ∷ after)));
    }

pub recorded-IsConsistent :
    (serial : Bool) (s s' : System) (before after : List Flight) (op : ConfigOperation)
    → s.flights ≡ before ++ record { op = op; restored = true } ∷ after
    → s'.flights ≡ before ++ after
    → s'.ops ≡ record_rollback s.ops op
    → IsConsistent serial s
    → IsConsistent serial s'
recorded-IsConsistent serial s s' before after op f f' o c =
    let was : Flight = record { op = op; restored = true } in
    let final : ConfigOperation = record op { status = rolled_back } in
    let rest = push_history_rest s.ops final in
    let len = length-push_history s.ops final c.short in
    record {
      numbered = λ id. ground (
        arith,
        c.numbered id,
        in_flight-append id before (was ∷ after),
        in_flight-append id before after,
        in_history-push_history s.ops final id,
      );
      active_open = λ a e. ground (arith, c.active_open a);
      history_closed = ground (arith, push_history_closed s.ops final c.history_closed refl);
      short = ground arith;
      kept = ground (arith, c.kept, length-append before (was ∷ after), length-append before after);
      in_force = λ ser a e.
          let old = c.in_force ser a (ground arith) in
          absurd (ground (arith, length-append before (was ∷ after)));
    }

pub monitored-IsConsistent :
    (serial : Bool) (s s' : System)
    → Progress s.ops s'.ops
    → s'.overrides ≡ s.overrides
    → s'.flights ≡ s.flights
    → IsConsistent serial s
    → IsConsistent serial s'
monitored-IsConsistent serial s s' (waits same) o f c = record {
  numbered = λ id. ground (arith, c.numbered id);
  active_open = λ a e. ground (arith, c.active_open a);
  history_closed = ground (arith, c.history_closed);
  short = ground (arith, c.short);
  kept = ground (arith, c.kept);
  in_force = λ ser a e. let old = c.in_force ser a (ground arith) in ground arith;
}
monitored-IsConsistent serial s s' (succeeds b busy now) o f c =
    let idle : ConfigOperations = record s.ops { active = none } in
    let final : ConfigOperation = record b.op { status = applied } in
    let rest = push_history_rest idle final in
    let len = length-push_history idle final c.short in
    record {
      numbered = λ id. ground (arith, c.numbered id, in_history-push_history idle final id);
      active_open = λ a e. absurd (ground arith);
      history_closed = ground (arith, push_history_closed idle final c.history_closed refl);
      short = ground arith;
      kept = ground (arith, c.kept);
      in_force = λ ser a e. absurd (ground arith);
    }
monitored-IsConsistent serial s s' (lapses b busy now) o f c = record {
  numbered = λ id. ground (arith, c.numbered id);
  active_open = λ a e. ground arith;
  history_closed = ground (arith, c.history_closed);
  short = ground (arith, c.short);
  kept = ground (arith, c.kept);
  in_force = λ ser a e. let old = c.in_force ser b busy in ground arith;
}
