-- ===== src/Watcher/Queue.antt =====
-- The queue of examples/kdapp-merchant/src/watcher.rs: no checkpoint is lost, and what is paid.
use mathlib.Core.List.{append-nil}
use kdapp.Base.{
  ℕ, ◌≤◌, ◌≡◌, refl, ap, ◌∙◌, Bool, true, false, none, some, List, [], ◌∷◌, ◌++◌, push_back, leb,
  max, min, arith, Bool-cases, inl, inr,
}
use kdapp.Watcher.{
  MempoolSnapshot, Floats, FeePolicyKind, static_policy, congestion_policy, fee_and_deferral,
  Checkpoint, Submission, Watcher, Round, submit_all, process, clamp, policy_of, snapshot_of,
  conclude,
}

-- A congestion policy whose limits do not cross, now or under a round's overrides.
abbrev pub has_room : FeePolicyKind → Bool
has_room (static_policy fee) = true
has_room (congestion_policy low high threshold multiplier) = leb low high

abbrev pub is_allowed : FeePolicyKind → Round → Bool
is_allowed (static_policy fee) round = true
is_allowed (congestion_policy low high threshold multiplier) round = elim round.overrides.max_fee [
  | none ↦ true
  | some fee ↦ leb low fee
]

abbrev pub AllAllowed : FeePolicyKind → List Round → Type 0
AllAllowed policy [] = Unit {0}
AllAllowed policy (round ∷ rounds) = (is_allowed policy round ≡ true) × AllAllowed policy rounds

-- The lowest fee, and the highest that a policy or an override allows.
abbrev pub lowest : FeePolicyKind → ℕ
lowest (static_policy fee) = fee
lowest (congestion_policy low high threshold multiplier) = low

abbrev pub highest_override : List Round → ℕ
highest_override [] = 0
highest_override (round ∷ rounds) =
    max (elim round.overrides.max_fee [ none ↦ 0 | some fee ↦ fee ]) (highest_override rounds)

abbrev pub highest : FeePolicyKind → List Round → ℕ
highest (static_policy fee) rounds = fee
highest (congestion_policy low high threshold multiplier) rounds =
    max high (highest_override rounds)

abbrev pub AllWithin : ℕ → ℕ → List Submission → Type 0
AllWithin low high [] = Unit {0}
AllWithin low high (a ∷ xs) = (low ≤ a.fee) × (a.fee ≤ high) × AllWithin low high xs

abbrev pub checkpoints : List Submission → List Checkpoint
checkpoints [] = []
checkpoints (a ∷ xs) = a.checkpoint ∷ checkpoints xs

AllWithin-submit_all :
    (round : Round) (low high fee : ℕ) (cs : List Checkpoint)
    → low ≤ fee
    → fee ≤ high
    → AllWithin low high (submit_all round fee cs)
AllWithin-submit_all round low high fee [] l h = tt
AllWithin-submit_all round low high fee (c ∷ cs) l h =
    (l, h, AllWithin-submit_all round low high fee cs l h)

pub AllWithin-append :
    (low high high' : ℕ) (xs ys : List Submission)
    → high ≤ high'
    → AllWithin low high xs
    → AllWithin low high' ys
    → AllWithin low high' (xs ++ ys)
AllWithin-append low high high' [] ys h x y = y
AllWithin-append low high high' (a ∷ xs) ys h (l, u, x) y =
    (l, omega arith, AllWithin-append low high high' xs ys h x y)

pub AllWithin-weaken :
    (low high high' : ℕ) (xs : List Submission)
    → high ≤ high'
    → AllWithin low high xs
    → AllWithin low high' xs
AllWithin-weaken low high high' [] h x = tt
AllWithin-weaken low high high' (a ∷ xs) h (l, u, x) =
    (l, omega arith, AllWithin-weaken low high high' xs h x)

checkpoints-submit_all :
    (round : Round) (fee : ℕ) (cs : List Checkpoint) → checkpoints (submit_all round fee cs) ≡ cs
checkpoints-submit_all round fee [] = refl
checkpoints-submit_all round fee (c ∷ cs) = ap (◌∷◌ c) (checkpoints-submit_all round fee cs)

pub checkpoints-append :
    (xs ys : List Submission) → checkpoints (xs ++ ys) ≡ checkpoints xs ++ checkpoints ys
checkpoints-append [] ys = refl
checkpoints-append (a ∷ xs) ys = ap (◌∷◌ a.checkpoint) (checkpoints-append xs ys)

-- Only what was deferred waits.
abbrev pub IsSettled : Watcher → Type 0
IsSettled w = w.info.deferred ≡ false → w.pending ≡ []

-- What a round does to the queue that receives `came`.
pub record Processed (w : Watcher) (round : Round) (came : List Checkpoint) (w' : Watcher)
    (submissions : List Submission) : Type 0 where
  pub conserved : checkpoints submissions ++ w'.pending ≡ w.pending ++ came
  pub room : has_room w'.policy ≡ true
  pub same_lowest : lowest w'.policy ≡ lowest w.policy
  pub same_allowed : (r : Round) → is_allowed w'.policy r ≡ is_allowed w.policy r
  pub below : (rounds : List Round) → highest w'.policy rounds ≤ highest w.policy (round ∷ rounds)
  pub within : AllWithin (lowest w.policy) (highest w.policy (round ∷ [])) submissions
  pub settled : IsSettled w → IsSettled w'

clamp-within :
    (x low high : ℕ)
    → leb low high ≡ true
    → (fee : ℕ) × (clamp x low high ≡ some fee) × (low ≤ fee) × (fee ≤ high)
clamp-within x low high h = (max low (min x high), ground arith, omega arith, ground arith)

module _ (fl : Floats) where
  fee_found :
      (policy : FeePolicyKind) (snap : MempoolSnapshot)
      → has_room policy ≡ true
      → (fee : ℕ) × (defer : Bool) × (fee_and_deferral fl policy snap ≡ some (fee, defer))
        × (defer ≡ false → (lowest policy ≤ fee) × (fee ≤ highest policy []))
  unfolding fee_and_deferral
  fee_found (static_policy fee) snap room = (fee, false, refl, λ e. (omega arith, omega arith))
  fee_found (congestion_policy low high threshold multiplier) snap room =
      let (fee, found, l, h) =
        clamp-within (fl.scaled snap.est_base_fee multiplier snap.congestion_ratio) low high room in
      elim (Bool-cases (fl.is_ge snap.congestion_ratio threshold)) [
        | inl full ↦
            (snap.min_fee, true, rw (full, fee_and_deferral) refl, λ e. absurd (ground arith))
        | inr calm ↦ (fee, false, ground arith, λ e. (l, omega arith))
      ]

  policy_of-has_room :
      (policy : FeePolicyKind) (round : Round)
      → has_room policy ≡ true
      → is_allowed policy round ≡ true
      → has_room (policy_of fl policy round) ≡ true
  policy_of-has_room (static_policy fee) round room ok = refl
  policy_of-has_room (congestion_policy low high threshold multiplier) round room ok = ground arith

  policy_of-is_allowed :
      (policy : FeePolicyKind) (round r : Round)
      → is_allowed (policy_of fl policy round) r ≡ is_allowed policy r
  policy_of-is_allowed (static_policy fee) round r = refl
  policy_of-is_allowed (congestion_policy low high threshold multiplier) round r = refl

  policy_of-lowest :
      (policy : FeePolicyKind) (round : Round) → lowest (policy_of fl policy round) ≡ lowest policy
  policy_of-lowest (static_policy fee) round = refl
  policy_of-lowest (congestion_policy low high threshold multiplier) round = refl

  policy_of-highest :
      (policy : FeePolicyKind) (round : Round) (rounds : List Round)
      → highest (policy_of fl policy round) rounds ≤ highest policy (round ∷ rounds)
  policy_of-highest (static_policy fee) round rounds = omega arith
  policy_of-highest (congestion_policy low high threshold multiplier) round rounds = ground arith

  conclude-Processed :
      (w : Watcher) (round : Round) (c : Checkpoint) (fee : ℕ) (defer : Bool)
      → has_room w.policy ≡ true
      → is_allowed w.policy round ≡ true
      → (defer ≡ false → (lowest w.policy ≤ fee) × (fee ≤ highest w.policy (round ∷ [])))
      → let (w', submissions) = conclude fl w round (push_back w.pending c) fee defer in
        Processed w round (c ∷ []) w' submissions
  conclude-Processed w round c fee true room ok bounds = record {
    conserved = refl;
    room = policy_of-has_room w.policy round room ok;
    same_lowest = policy_of-lowest w.policy round;
    same_allowed = policy_of-is_allowed w.policy round;
    below = policy_of-highest w.policy round;
    within = tt;
    settled = λ old fresh. absurd (ground arith);
  }
  conclude-Processed w round c fee false room ok bounds =
      let (l, h) = bounds refl in
      record {
        conserved =
            append-nil (checkpoints (submit_all round fee (push_back w.pending c)))
            ∙ checkpoints-submit_all round fee (push_back w.pending c);
        room = policy_of-has_room w.policy round room ok;
        same_lowest = policy_of-lowest w.policy round;
        same_allowed = policy_of-is_allowed w.policy round;
        below = policy_of-highest w.policy round;
        within =
            AllWithin-submit_all round (lowest w.policy) (highest w.policy (round ∷ [])) fee
              (push_back w.pending c) l h;
        settled = λ old fresh. refl;
      }

  pub process-Processed :
      (w : Watcher) (round : Round) (c : Checkpoint)
      → has_room w.policy ≡ true
      → is_allowed w.policy round ≡ true
      → (w' : Watcher) × (submissions : List Submission) × (process fl w round c
          ≡ some (w', submissions))
        × Processed w round (c ∷ []) w' submissions
  unfolding process
  process-Processed w round c room ok =
      let (fee, defer, found, bounds) =
        fee_found (policy_of fl w.policy round) (snapshot_of fl w.policy round)
          (policy_of-has_room w.policy round room ok) in
      let same = policy_of-lowest w.policy round in
      let high = policy_of-highest w.policy round [] in
      let (w', submissions) = conclude fl w round (push_back w.pending c) fee defer in
      (
        w',
        submissions,
        rw (found, process) refl,
        conclude-Processed w round c fee defer room ok
            (λ e. let (l, h) = bounds e in (omega arith, omega arith)),
      )
