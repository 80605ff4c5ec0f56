-- ===== src/Config/History.antt =====
-- Every interleaving of the requests and the tasks of examples/kdapp-merchant/src/server.rs that
-- change the watcher's limits.
use kdapp.Base.{ℕ, ◌≡◌, Bool, true, false, ◌&&◌, Option, none, some, List, [], ◌∷◌, ◌++◌}
use kdapp.Config.{
  WatcherRuntimeOverrides, ConfigOperation, ConfigOperationInternal, ConfigOperations, Response,
  accepted, set_watcher_config, take_active, restore, record_rollback, Published, look,
  monitor_round,
}

-- A rollback that has taken its operation, and perhaps put the limits back.
pub record Flight : Type 0 where
  pub op : ConfigOperation
  pub restored : Bool

pub record System : Type 0 where
  pub overrides : WatcherRuntimeOverrides
  pub ops : ConfigOperations
  pub flights : List Flight

abbrev pub no_flights : List Flight → Bool
no_flights [] = true
no_flights (f ∷ fs) = false

-- The first argument is whether no new limits were set while a rollback was under way. A task may
-- act on what it read in any state.
pub data Reachable (near : ℕ → ℕ → Bool) : Bool → System → Type 0 where
  started :
      (s : System)
      → s.ops ≡ record { next_id = 0; active = none; history = [] }
      → s.flights ≡ []
      → Reachable near true s
  set :
      (serial : Bool) (s s' : System) (authorized : Bool) (max_fee threshold : Option ℕ) (now : ℕ)
      (r : Response)
      → set_watcher_config authorized s.overrides s.ops max_fee threshold now
        ≡ (s'.overrides, s'.ops, r)
      → s'.flights ≡ s.flights
      → Reachable near serial s
      → Reachable near (serial && no_flights s.flights) s'
  taken :
      (serial : Bool) (s s' : System) (authorized : Bool) (id : ℕ) (op : ConfigOperation)
      → take_active authorized s.ops id ≡ (s'.ops, accepted op)
      → s'.overrides ≡ s.overrides
      → s'.flights ≡ record { op = op; restored = false } ∷ s.flights
      → Reachable near serial s
      → Reachable near serial s'
  put_back :
      (serial : Bool) (s s' : System) (before after : List Flight) (op : ConfigOperation)
      → s.flights ≡ before ++ record { op = op; restored = false } ∷ after
      → s'.flights ≡ before ++ record { op = op; restored = true } ∷ after
      → s'.overrides ≡ restore op
      → s'.ops ≡ s.ops
      → Reachable near serial s
      → Reachable near serial s'
  recorded :
      (serial : Bool) (s s' : System) (before after : List Flight) (op : ConfigOperation)
      → s.flights ≡ before ++ record { op = op; restored = true } ∷ after
      → s'.flights ≡ before ++ after
      → s'.overrides ≡ s.overrides
      → s'.ops ≡ record_rollback s.ops op
      → Reachable near serial s
      → Reachable near serial s'
  monitored :
      (serial then_serial : Bool) (s s' seen_in : System) (id : ℕ) (seen : ConfigOperationInternal)
      (published : Published) (now : ℕ)
      → look seen_in.ops id ≡ some seen
      → s'.ops ≡ monitor_round near s.ops seen published now
      → s'.overrides ≡ s.overrides
      → s'.flights ≡ s.flights
      → Reachable near then_serial seen_in
      → Reachable near serial s
      → Reachable near serial s'
