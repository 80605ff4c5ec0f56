-- ===== src/Config/Tally.antt =====
-- The operations that change the watcher's limits (examples/kdapp-merchant/src/server.rs), counted
-- over the running one, the rollbacks under way and the recorded ones.
use kdapp.Base.{
  ℕ, zero, suc, ◌+◌, ◌-◌, ◌≤◌, ◌≡◌, ◌⊎◌, refl, Bool, true, false, not, Option, none, some, List, [],
  ◌∷◌, ◌++◌, push_back, length, length-append, length-drop, drop, all, ◌==◌, ltb, arith,
}
use kdapp.Config.{
  ConfigOpStatus, pending, timed_out, ConfigOperation, ConfigOperationInternal, ConfigOperations,
  push_history, override, restore,
}
use kdapp.Config.History.{Flight, System}

abbrev pub is_open : ConfigOpStatus → Bool
is_open pending = true
is_open timed_out = true
is_open _ = false

abbrev pub one_if : Bool → ℕ
one_if true = 1
one_if false = 0

-- How often an operation is among the recorded ones, and among the rollbacks under way.
abbrev pub in_history : ℕ → List ConfigOperation → ℕ
in_history id [] = 0
in_history id (op ∷ ops) = one_if (op.op_id == id) + in_history id ops

abbrev pub in_flight : ℕ → List Flight → ℕ
in_flight id [] = 0
in_flight id (f ∷ fs) = one_if (f.op.op_id == id) + in_flight id fs

abbrev pub is_active : ℕ → Option ConfigOperationInternal → ℕ
is_active id none = 0
is_active id (some a) = one_if (a.op.op_id == id)

abbrev pub occurrences : ℕ → System → ℕ
occurrences id s = is_active id s.ops.active + in_flight id s.flights + in_history id s.ops.history

abbrev pub active_count : Option ConfigOperationInternal → ℕ
active_count none = 0
active_count (some a) = 1

abbrev pub is_closed : ConfigOperation → Bool
is_closed op = not (is_open op.status)

-- What the tasks and requests keep up.
pub record IsConsistent (serial : Bool) (s : System) : Type 0 where
  pub numbered : (id : ℕ) → occurrences id s ≤ one_if (ltb id s.ops.next_id)
  pub active_open :
      (a : ConfigOperationInternal) → s.ops.active ≡ some a → is_open a.op.status ≡ true
  pub history_closed : all is_closed s.ops.history ≡ true
  pub short : length s.ops.history ≤ 10
  pub kept :
      (active_count s.ops.active + length s.flights + length s.ops.history ≡ s.ops.next_id)
      ⊎ (length s.ops.history ≡ 10)
  pub in_force :
      serial ≡ true
      → (a : ConfigOperationInternal) → s.ops.active ≡ some a
      → (s.flights ≡ [])
        × (s.overrides
            ≡ override (restore a.op) a.op.target_max_fee a.op.target_congestion_threshold)

pub in_history-append :
    (id : ℕ) (xs ys : List ConfigOperation)
    → in_history id (xs ++ ys) ≡ in_history id xs + in_history id ys
in_history-append id [] ys = omega arith
in_history-append id (x ∷ xs) ys = omega (arith, in_history-append id xs ys)

in_history-drop :
    (id n : ℕ) (xs : List ConfigOperation) → in_history id (drop n xs) ≤ in_history id xs
in_history-drop id zero xs = omega arith
in_history-drop id (suc n) [] = omega arith
in_history-drop id (suc n) (x ∷ xs) = omega (arith, in_history-drop id n xs)

pub in_flight-append :
    (id : ℕ) (xs ys : List Flight) → in_flight id (xs ++ ys) ≡ in_flight id xs + in_flight id ys
in_flight-append id [] ys = omega arith
in_flight-append id (x ∷ xs) ys = omega (arith, in_flight-append id xs ys)

all-drop :
    (n : ℕ) (xs : List ConfigOperation) → all is_closed xs ≡ true → all is_closed (drop n xs) ≡ true
all-drop zero xs h = h
all-drop (suc n) [] h = refl
all-drop (suc n) (x ∷ xs) h = all-drop n xs (ground arith)

all-push_back :
    (xs : List ConfigOperation) (x : ConfigOperation)
    → all is_closed xs ≡ true
    → is_closed x ≡ true
    → all is_closed (push_back xs x) ≡ true
all-push_back [] x h k = ground arith
all-push_back (y ∷ xs) x h k = ground (arith, all-push_back xs x)

module _ (ops : ConfigOperations) (op : ConfigOperation) where
  pub in_history-push_history :
      (id : ℕ)
      → in_history id (push_history ops op).history
        ≤ in_history id ops.history + one_if (op.op_id == id)
  unfolding push_history
  in_history-push_history id = ground (
    arith,
    in_history-append id ops.history (op ∷ []),
    in_history-drop id (length (push_back ops.history op) - 10) (push_back ops.history op),
  )

  pub length-push_history :
      length ops.history ≤ 10
      → (length (push_history ops op).history ≤ 10)
        × ((length (push_history ops op).history ≡ suc (length ops.history))
            ⊎ (length (push_history ops op).history ≡ 10))
  unfolding push_history
  length-push_history h = ground (
    arith,
    length-append ops.history (op ∷ []),
    length-drop (length (push_back ops.history op) - 10) (push_back ops.history op),
  )

  pub push_history_closed :
      all is_closed ops.history ≡ true
      → is_closed op ≡ true
      → all is_closed (push_history ops op).history ≡ true
  unfolding push_history
  push_history_closed h k =
      let longer = all-push_back ops.history op h k in
      ground (
        arith,
        longer,
        all-drop (length (push_back ops.history op) - 10) (push_back ops.history op) longer,
      )

  pub push_history_rest :
      ((push_history ops op).active ≡ ops.active) × ((push_history ops op).next_id ≡ ops.next_id)
  unfolding push_history
  push_history_rest = (refl, refl)
