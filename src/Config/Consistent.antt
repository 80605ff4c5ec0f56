-- ===== src/Config/Consistent.antt =====
-- What every interleaving of examples/kdapp-merchant/src/server.rs keeps up.
use kdapp.Base.{ℕ, ◌-◌, ◌<◌, ◌≡◌, sym, subst, Bool, true, Option, none, some, u64_mod, arith, inl}
use kdapp.Config.{
  applied, rolled_back, ConfigOperation, ConfigOperationInternal, ConfigOperations, Response,
  accepted, set_watcher_config, take_active, look,
}
use kdapp.Config.History.{System, Reachable, started, set, taken, put_back, recorded, monitored}
use kdapp.Config.Tally.{is_open, IsConsistent, push_history_rest}
use kdapp.Config.Progress.{Progress, waits, succeeds, lapses, monitor_round-Progress}
use kdapp.Config.Steps.{
  set-IsConsistent, taken-IsConsistent, put_back-IsConsistent, recorded-IsConsistent,
  monitored-IsConsistent,
}

set_watcher_config-open :
    (s s' : System) (authorized : Bool) (max_fee threshold : Option ℕ) (now : ℕ) (r : Response)
    → set_watcher_config authorized s.overrides s.ops max_fee threshold now
      ≡ (s'.overrides, s'.ops, r)
    → ((a : ConfigOperationInternal) → s.ops.active ≡ some a → is_open a.op.status ≡ true)
    → (a : ConfigOperationInternal) → s'.ops.active ≡ some a
    → is_open a.op.status ≡ true
unfolding set_watcher_config
set_watcher_config-open s s' authorized max_fee threshold now r h old a e = ground (arith, old a)

take_active-idle :
    (authorized : Bool) (ops ops' : ConfigOperations) (id : ℕ) (op : ConfigOperation)
    → take_active authorized ops id ≡ (ops', accepted op)
    → ops'.active ≡ none
unfolding take_active
take_active-idle authorized ops ops' id op h = ground arith

look-active :
    (ops : ConfigOperations) (id : ℕ) (seen : ConfigOperationInternal)
    → look ops id ≡ some seen
    → ops.active ≡ some seen
unfolding look
look-active ops id seen h = ground arith

-- `next_id` never falls.
set_watcher_config-next_id :
    (s s' : System) (authorized : Bool) (max_fee threshold : Option ℕ) (now : ℕ) (r : Response)
    → set_watcher_config authorized s.overrides s.ops max_fee threshold now
      ≡ (s'.overrides, s'.ops, r)
    → s'.ops.next_id < u64_mod - 1
    → s.ops.next_id < u64_mod - 1
unfolding set_watcher_config
set_watcher_config-next_id s s' authorized max_fee threshold now r h few = ground arith

take_active-next_id :
    (authorized : Bool) (ops ops' : ConfigOperations) (id : ℕ) (op : ConfigOperation)
    → take_active authorized ops id ≡ (ops', accepted op)
    → ops'.next_id ≡ ops.next_id
unfolding take_active
take_active-next_id authorized ops ops' id op h = ground arith

Progress-open :
    (ops ops' : ConfigOperations)
    → Progress ops ops'
    → ((a : ConfigOperationInternal) → ops.active ≡ some a → is_open a.op.status ≡ true)
    → (a : ConfigOperationInternal) → ops'.active ≡ some a
    → is_open a.op.status ≡ true
Progress-open ops ops' (waits same) old a e = ground (arith, old a)
Progress-open ops ops' (succeeds b busy now) old a e =
    let rest =
      push_history_rest (record ops { active = none }) (record b.op { status = applied }) in
    absurd (ground arith)
Progress-open ops ops' (lapses b busy now) old a e = ground arith

Progress-next_id : (ops ops' : ConfigOperations) → Progress ops ops' → ops'.next_id ≡ ops.next_id
Progress-next_id ops ops' (waits same) = ground arith
Progress-next_id ops ops' (succeeds b busy now) =
    let rest =
      push_history_rest (record ops { active = none }) (record b.op { status = applied }) in
    ground arith
Progress-next_id ops ops' (lapses b busy now) = ground arith

module _ (near : ℕ → ℕ → Bool) where
  Reachable-open :
      (serial : Bool) (s : System)
      → Reachable near serial s
      → (a : ConfigOperationInternal) → s.ops.active ≡ some a
      → is_open a.op.status ≡ true
  Reachable-open _ _ (started s o f) a e = absurd (ground arith)
  Reachable-open _ _ (set serial s s' authorized max_fee threshold now r h f before) a e =
      set_watcher_config-open s s' authorized max_fee threshold now r h
        (Reachable-open serial s before) a e
  Reachable-open _ _ (taken serial s s' authorized id op h o f before) a e =
      let idle = take_active-idle authorized s.ops s'.ops id op h in absurd (ground arith)
  Reachable-open _ _ (put_back serial s s' xs ys op f f' o same before) a e =
      Reachable-open serial s before a (ground arith)
  Reachable-open _ _ (recorded serial s s' xs ys op f f' o p before) a e =
      let rest = push_history_rest s.ops (record op { status = rolled_back }) in
      Reachable-open serial s before a (ground arith)
  Reachable-open _ _
        (monitored serial earlier s s' seen_in id seen published now l p o f was before) a e =
      let read = Reachable-open earlier seen_in was seen (look-active seen_in.ops id seen l) in
      Progress-open s.ops s'.ops
        (subst (λ (ops : ConfigOperations). Progress s.ops ops) (sym p)
          (monitor_round-Progress near s.ops seen published now read))
        (Reachable-open serial s before) a e

  -- In every state that requests, rollbacks and tasks can reach, interleaved in any way, as long as
  -- fewer than 2 ^ 64 - 1 changes were made: no two of the running operation, the rollbacks under way
  -- and the recorded ones have the same number, and all numbers are below the next; the running
  -- operation is pending or timed out, and the recorded ones, ten at most, are applied or rolled
  -- back; no operation is missing before ten are recorded; and if nobody made a change while a
  -- rollback was under way, then while an operation runs no rollback is under way, and the limits are
  -- its targets over the ones from before it.
  pub Reachable-IsConsistent :
      (serial : Bool) (s : System)
      → Reachable near serial s
      → s.ops.next_id < u64_mod - 1
      → IsConsistent serial s
  Reachable-IsConsistent _ _ (started s o f) few = record {
    numbered = λ id. ground arith;
    active_open = λ a e. absurd (ground arith);
    history_closed = ground arith;
    short = ground arith;
    kept = inl (ground arith);
    in_force = λ ser a e. absurd (ground arith);
  }
  Reachable-IsConsistent _ _ (set serial s s' authorized max_fee threshold now r h f before) few =
      set-IsConsistent serial s s' authorized max_fee threshold now r h f few (
        Reachable-IsConsistent serial s before
          (set_watcher_config-next_id s s' authorized max_fee threshold now r h few))
  Reachable-IsConsistent _ _ (taken serial s s' authorized id op h o f before) few =
      let same = take_active-next_id authorized s.ops s'.ops id op h in
      taken-IsConsistent serial s s' authorized id op h f
        (Reachable-IsConsistent serial s before (omega arith))
  Reachable-IsConsistent _ _ (put_back serial s s' xs ys op f f' o same before) few =
      put_back-IsConsistent serial s s' xs ys op f f' same
        (Reachable-IsConsistent serial s before (ground arith))
  Reachable-IsConsistent _ _ (recorded serial s s' xs ys op f f' o p before) few =
      let rest = push_history_rest s.ops (record op { status = rolled_back }) in
      recorded-IsConsistent serial s s' xs ys op f f' p
        (Reachable-IsConsistent serial s before (ground arith))
  Reachable-IsConsistent _ _
        (monitored serial earlier s s' seen_in id seen published now l p o f was before) few =
      let read = Reachable-open earlier seen_in was seen (look-active seen_in.ops id seen l) in
      let step : Progress s.ops s'.ops =
        subst (λ (ops : ConfigOperations). Progress s.ops ops) (sym p)
          (monitor_round-Progress near s.ops seen published now read) in
      let same = Progress-next_id s.ops s'.ops step in
      monitored-IsConsistent serial s s' step o f
        (Reachable-IsConsistent serial s before (omega arith))
