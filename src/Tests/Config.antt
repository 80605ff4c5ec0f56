-- ===== src/Tests/Config.antt =====
-- The watcher's limits of examples/kdapp-merchant/src/server.rs: a change that is not taken up in
-- time and is taken back.
use kdapp.Base.{ℕ, ◌≡◌, refl, Bool, true, false, none, some, [], ◌∷◌, ◌==◌, arith}
use kdapp.Config.{
  WatcherRuntimeOverrides, ConfigOpStatus, pending, timed_out, ConfigOperation, ConfigOperations,
  Published, set_watcher_config, take_active, restore, record_rollback, monitor_round, look,
  push_history, config_operation_applied, mark_timed_out,
}
use kdapp.Config.History.{System, Reachable, started, set, taken, put_back, recorded, monitored}
use kdapp.Config.Tally.{IsConsistent}
use kdapp.Config.Consistent.{Reachable-IsConsistent}

abbrev before : WatcherRuntimeOverrides
before = record { max_fee = some 9000; congestion_threshold = none }

abbrev fresh : ConfigOperations
fresh = record { next_id = 0; active = none; history = [] }

abbrev idle : System
idle = record { overrides = before; ops = fresh; flights = [] }

-- A limit of 7000 is asked for at second 10.
abbrev operation : ConfigOpStatus → ConfigOperation
operation status = record {
  op_id = 0;
  requested_at = 10;
  deadline_at = 12;
  status = status;
  target_max_fee = some 7000;
  target_congestion_threshold = none;
  previous_max_fee = some 9000;
  previous_congestion_threshold = none;
}

abbrev changed : WatcherRuntimeOverrides
changed = record { max_fee = some 7000; congestion_threshold = none }

abbrev running : ConfigOpStatus → System
running status = record {
  overrides = changed;
  ops = record {
    next_id = 1;
    active = some (record { op = operation status; deadline = 12000 });
    history = [];
  };
  flights = [];
}

abbrev taking : Bool → WatcherRuntimeOverrides → System
taking restored overrides = record {
  overrides = overrides;
  ops = record { next_id = 1; active = none; history = [] };
  flights = record { op = operation timed_out; restored = restored } ∷ [];
}

abbrev finished : System
finished = record {
  overrides = before;
  ops = record_rollback (record { next_id = 1; active = none; history = [] }) (operation timed_out);
  flights = [];
}

-- The watcher still publishes the old limit.
abbrev published : Published
published = record { metrics_max_fee = some 9000; congestion_threshold = 1 }

abbrev near : ℕ → ℕ → Bool
near a b = a == b

running_reached : Reachable near true (running pending)
unfolding set_watcher_config
running_reached =
    set true idle (running pending) true (some 7000) none 10000 _ refl refl (started idle refl refl)

late_reached : Reachable near true (running timed_out)
unfolding look monitor_round config_operation_applied mark_timed_out
late_reached =
    monitored true true (running pending) (running timed_out) (running pending) 0
      (record { op = operation pending; deadline = 12000 }) published 12001 refl refl refl refl
      running_reached running_reached

finished_reached : Reachable near true finished
unfolding take_active
finished_reached =
    recorded true (taking true before) finished [] [] (operation timed_out) refl refl refl refl (
      put_back true (taking false changed) (taking true before) [] [] (operation timed_out) refl
        refl refl refl
        (taken true (running timed_out) (taking false changed) true 0 (operation timed_out) refl
          refl refl late_reached))

Reachable-IsConsistent_example : IsConsistent true finished
unfolding push_history
Reachable-IsConsistent_example =
    Reachable-IsConsistent near true finished finished_reached (omega arith)

-- A change that is accepted between the first and the second section of a rollback is lost: the
-- limits are then those from before the first change.
second_accepted :
    (set_watcher_config true changed (taking false changed).ops (some 5000) none 13000).0
    ≡ record { max_fee = some 5000; congestion_threshold = none }
unfolding set_watcher_config
second_accepted = refl

second_lost : restore (operation timed_out) ≡ before
second_lost = refl
