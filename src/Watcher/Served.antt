-- ===== src/Watcher/Served.antt =====
-- Runs of the loop of examples/kdapp-merchant/src/watcher.rs.
use mathlib.Core.List.{append_assoc, append-nil}
use kdapp.Base.{
  ℕ, ◌≤◌, ◌≡◌, refl, sym, ap, subst, ◌∙◌, true, false, Option, none, some, List, [], ◌∷◌, ◌++◌,
  take, ◌==◌, arith, Bool-cases, Option-cases, inl, inr,
}
use kdapp.Tlv.{TlvMsg, decode, to_u8, handshake, refund}
use kdapp.Watcher.{
  Floats, FeePolicyKind, static_policy, congestion_policy, Checkpoint, Submission, Watcher, Round,
  checkpoint_of, ack_for, watch_round, watch, start,
}
use kdapp.Watcher.Queue.{
  has_room, is_allowed, AllAllowed, lowest, highest, AllWithin, checkpoints, IsSettled, Processed,
  process-Processed, AllWithin-append, AllWithin-weaken, checkpoints-append,
}

highest-more :
    (policy : FeePolicyKind) (round : Round) (rounds : List Round)
    → highest policy rounds ≤ highest policy (round ∷ rounds)
highest-more (static_policy fee) round rounds = omega arith
highest-more (congestion_policy low high threshold multiplier) round rounds = omega arith

highest-first :
    (policy : FeePolicyKind) (round : Round) (rounds : List Round)
    → highest policy (round ∷ []) ≤ highest policy (round ∷ rounds)
highest-first (static_policy fee) round rounds = omega arith
highest-first (congestion_policy low high threshold multiplier) round rounds = omega arith

-- A round that receives no checkpoint.
idle-Processed :
    (w : Watcher) (round : Round) → has_room w.policy ≡ true → Processed w round [] w []
idle-Processed w round room = record {
  conserved = sym (append-nil w.pending);
  room = room;
  same_lowest = refl;
  same_allowed = λ r. refl;
  below = highest-more w.policy round;
  within = tt;
  settled = λ old. old;
}

AllAllowed-same :
    (p q : FeePolicyKind) (rounds : List Round)
    → ((r : Round) → is_allowed q r ≡ is_allowed p r)
    → AllAllowed p rounds
    → AllAllowed q rounds
AllAllowed-same p q [] same ok = tt
AllAllowed-same p q (round ∷ rounds) same (ok, more) =
    (same round ∙ ok, AllAllowed-same p q rounds same more)

-- Two balances, one after the other.
chained :
    (xs ys left middle first came more : List Checkpoint)
    → xs ++ middle ≡ first ++ came
    → ys ++ left ≡ middle ++ more
    → (xs ++ ys) ++ left ≡ first ++ (came ++ more)
chained xs ys left middle first came more h k =
    append_assoc xs ys left
    ∙ ap (λ zs. xs ++ zs) k
    ∙ sym (append_assoc xs middle more)
    ∙ ap (λ zs. zs ++ more) h
    ∙ append_assoc first came more

module _ (blake2b512 : List ℕ → List ℕ) (demo_hmac_key : List ℕ) where
  -- The checkpoints that came in: datagrams that decode, are of type Checkpoint and verify.
  abbrev pub came : Round → List Checkpoint
  came round = elim (decode (take 1024 round.bytes)) [
    | none ↦ []
    | some msg ↦ elim (checkpoint_of blake2b512 demo_hmac_key msg) [ none ↦ [] | some c ↦ c ∷ [] ]
  ]

  abbrev pub all_came : List Round → List Checkpoint
  all_came [] = []
  all_came (round ∷ rounds) = came round ++ all_came rounds

  other_type :
      (msg : TlvMsg) (n : ℕ)
      → (msg.msg_type == n) ≡ true
      → (n == 5) ≡ false
      → checkpoint_of blake2b512 demo_hmac_key msg ≡ none
  other_type msg n e k = ground arith

  watch_round-Processed :
      (fl : Floats) (w : Watcher) (round : Round)
      → has_room w.policy ≡ true
      → is_allowed w.policy round ≡ true
      → (w' : Watcher) × (submissions : List Submission) × (replies : List (List ℕ)) × (watch_round
            blake2b512 demo_hmac_key fl w round
          ≡ some (w', submissions, replies))
        × Processed w round (came round) w' submissions
  unfolding watch_round
  watch_round-Processed fl w round room ok = elim (Option-cases (decode (take 1024 round.bytes))) [
    | inl bad ↦
        (w, [], [], rw (bad, watch_round) refl, rw (bad, came) (idle-Processed w round room))
    | inr (msg, good) ↦ elim (Bool-cases (msg.msg_type == to_u8 handshake)) [
      | inl greets ↦
          let nothing = other_type msg 6 greets refl in
          (
            w,
            [],
            ack_for blake2b512 demo_hmac_key msg ∷ [],
            rw (good, watch_round, greets) refl,
            rw (good, came, nothing) (idle-Processed w round room),
          )
      | inr not_greeting ↦ elim (Bool-cases (msg.msg_type == to_u8 refund)) [
        | inl refunds ↦
            let nothing = other_type msg 7 refunds refl in
            (
              w,
              [],
              [],
              rw (good, watch_round, not_greeting, refunds) refl,
              rw (good, came, nothing) (idle-Processed w round room),
            )
        | inr other ↦ elim (Option-cases (checkpoint_of blake2b512 demo_hmac_key msg)) [
          | inl nothing ↦ (
            w,
            [],
            [],
            rw (good, watch_round, not_greeting, other, nothing) refl,
            rw (good, came, nothing) (idle-Processed w round room),
          )
          | inr (c, received) ↦
              let (w', submissions, done, keeps) = process-Processed fl w round c room ok in
              (
                w',
                submissions,
                ack_for blake2b512 demo_hmac_key msg ∷ [],
                rw (good, watch_round, not_greeting, other, received, done) refl,
                rw (good, came, received) keeps,
              )
        ]
      ]
    ]
  ]

  pub record Served (w : Watcher) (rounds : List Round)
      (result : Option (Watcher × List Submission)) : Type 0 where
    pub final : Watcher
    pub submissions : List Submission
    pub returns : result ≡ some (final, submissions)
    pub conserved : checkpoints submissions ++ final.pending ≡ w.pending ++ all_came rounds
    pub within : AllWithin (lowest w.policy) (highest w.policy rounds) submissions
    pub settled : final.info.deferred ≡ false → final.pending ≡ []

  serve :
      (fl : Floats) (w : Watcher) (rounds : List Round)
      → has_room w.policy ≡ true
      → AllAllowed w.policy rounds
      → IsSettled w
      → Served w rounds (watch blake2b512 demo_hmac_key fl w rounds)
  unfolding watch
  serve fl w [] room ok fresh = record {
    final = w;
    submissions = [];
    returns = refl;
    conserved = sym (append-nil w.pending);
    within = tt;
    settled = fresh;
  }
  serve fl w (round ∷ rounds) room (ok, more) fresh =
      let (w', submissions, replies, done, now) = watch_round-Processed fl w round room ok in
      let later =
        serve fl w' rounds now.room
          (AllAllowed-same w.policy w'.policy rounds now.same_allowed more) (now.settled fresh) in
      record {
        final = later.final;
        submissions = submissions ++ later.submissions;
        returns = rw (done, watch) (rw later.returns refl);
        conserved =
            ap (λ cs. cs ++ later.final.pending) (checkpoints-append submissions later.submissions)
            ∙ chained (checkpoints submissions) (checkpoints later.submissions) later.final.pending
                w'.pending w.pending (came round) (all_came rounds) now.conserved later.conserved;
        within =
            AllWithin-append (lowest w.policy) (highest w.policy (round ∷ []))
              (highest w.policy (round ∷ rounds)) submissions later.submissions
              (highest-first w.policy round rounds) now.within
              (subst
                (λ (low : ℕ). AllWithin low (highest w.policy (round ∷ rounds)) later.submissions)
                now.same_lowest
                (AllWithin-weaken (lowest w'.policy) (highest w'.policy rounds)
                  (highest w.policy (round ∷ rounds)) later.submissions (now.below rounds)
                  later.within));
        settled = later.settled;
      }

  -- The loop from its start, under a policy whose limits do not cross and overrides that do not go
  -- below its minimum: it never panics, whatever datagrams arrive, whatever the node answers and
  -- whatever it takes. The checkpoints that it has handed to the node, with a fee each, followed by
  -- those that wait, are the ones that came in, in that order, each once, one that the node did not
  -- take among them. Each fee lies between the policy's minimum and the highest limit that the policy
  -- or an override allows. Unless the last decision was to defer, none waits.
  pub watch-Served :
      (fl : Floats) (policy : FeePolicyKind) (rounds : List Round)
      → has_room policy ≡ true
      → AllAllowed policy rounds
      → Served (start fl policy) rounds (watch blake2b512 demo_hmac_key fl (start fl policy) rounds)
  watch-Served fl policy rounds room ok = serve fl (start fl policy) rounds room ok (λ fresh. refl)
