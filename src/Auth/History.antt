-- ===== src/Auth/History.antt =====
-- The histories of examples/kaspa-auth/src/core/episode.rs, and what a rollback restores.
use kdapp.Base.{
  ℕ, suc, ◌≤◌, ◌≡◌, ◌⊎◌, refl, sym, ap, Bool, true, false, Option, none, some, List, [], ◌∷◌,
  push_back, length, lookup, lookup-insert, arith, Option-cases, inl, inr,
}
use kdapp.Episode.{EpisodeError, ok, err, PayloadMetadata}
use kdapp.Auth.{
  AuthCommand, request_challenge, submit_response, revoke_session, AuthRollback, challenge,
  authentication, session_revoked, AuthError, SimpleAuth, Surroundings, initialize, recent,
  or_default, is_rate_limited, request, respond, revoke, dispatch, execute, rollback,
}

abbrev pub is_some : {A : Type 0} → Option A → Bool
is_some none = false
is_some (some a) = true

-- What a rollback puts back agrees in the same way.
abbrev pub AllCoherent : List AuthRollback → Type 0
AllCoherent [] = Unit {0}
AllCoherent (challenge c t ∷ stack) = AllCoherent stack
AllCoherent (authentication status token ∷ stack) = (status ≡ is_some token) × AllCoherent stack
AllCoherent (session_revoked token was ∷ stack) = (was ≡ true) × AllCoherent stack

pub record IsSession (s : SimpleAuth) (stack : List AuthRollback) : Type 0 where
  pub coherent : s.is_authenticated ≡ is_some s.session_token
  pub bounded :
      (key : ℕ) (attempts : List ℕ) → lookup key s.rate_limits ≡ some attempts → length attempts ≤ 5
  pub stacked : AllCoherent stack

length-recent :
    (now : ℕ) (attempts : List ℕ)
    → length (recent now (push_back attempts now)) ≤ suc (length (recent now attempts))
length-recent now [] = ground arith
length-recent now (t ∷ attempts) = ground (arith, length-recent now attempts)

module _ (env : Surroundings) where
  -- The engine keeps the rollback of what it executed, and takes the newest one first.
  pub data Reachable : SimpleAuth → List AuthRollback → Type 0 where
    started :
        (s : SimpleAuth) (participants : List ℕ) (md : PayloadMetadata)
        → s ≡ initialize participants md
        → Reachable s []
    executed :
        (s s' : SimpleAuth) (stack : List AuthRollback) (cmd : AuthCommand)
        (authorization : Option ℕ) (md : PayloadMetadata) (r : AuthRollback)
        → execute env s cmd authorization md ≡ (s', ok r)
        → Reachable s stack
        → Reachable s' (r ∷ stack)
    refused :
        (s s' : SimpleAuth) (stack : List AuthRollback) (cmd : AuthCommand)
        (authorization : Option ℕ) (md : PayloadMetadata) (e : EpisodeError AuthError)
        → execute env s cmd authorization md ≡ (s', err e)
        → Reachable s stack
        → Reachable s' stack
    undone :
        (s s' : SimpleAuth) (stack : List AuthRollback) (r : AuthRollback) (done : Bool)
        → rollback s r ≡ (s', done)
        → Reachable s (r ∷ stack)
        → Reachable s' stack

  pub admitted :
      (s s' : SimpleAuth) (cmd : AuthCommand) (p : ℕ) (md : PayloadMetadata) (r : AuthRollback)
      → execute env s cmd (some p) md ≡ (s', ok r)
      → (is_rate_limited s p md.accepting_time ≡ false) × (dispatch env s cmd p md ≡ (s', ok r))
  unfolding execute
  admitted s s' cmd p md r h = (ground arith, ground arith)

  still_few :
      (s : SimpleAuth) (p now : ℕ)
      → is_rate_limited s p now ≡ false
      → length (recent now (push_back (or_default (lookup p s.rate_limits)) now)) ≤ 5
  unfolding is_rate_limited
  still_few s p now h = elim (Option-cases (lookup p s.rate_limits)) [
    | inl new ↦ rw new (ground arith)
    | inr (attempts, known) ↦
        let one_more = length-recent now attempts in rw known (ground (arith, one_more))
  ]

  request-IsSession :
      (s s' : SimpleAuth) (stack : List AuthRollback) (p : ℕ) (md : PayloadMetadata)
      (r : AuthRollback)
      → is_rate_limited s p md.accepting_time ≡ false
      → request env s p md ≡ (s', ok r)
      → IsSession s stack
      → IsSession s' (r ∷ stack)
  unfolding request
  request-IsSession s s' stack p md r free h l =
      let few = still_few s p md.accepting_time free in
      record {
        coherent = ground (arith, l.coherent);
        bounded = λ key attempts e. ground (
          arith,
          l.bounded key attempts,
          lookup-insert p key
              (recent md.accepting_time
                (push_back (or_default (lookup p s.rate_limits)) md.accepting_time))
              s.rate_limits,
        );
        stacked = ground (arith, l.stacked);
      }

  respond-IsSession :
      (s s' : SimpleAuth) (stack : List AuthRollback) (p : ℕ) (signature nonce : List ℕ)
      (r : AuthRollback)
      → respond env s p signature nonce ≡ (s', ok r)
      → IsSession s stack
      → IsSession s' (r ∷ stack)
  unfolding respond
  respond-IsSession s s' stack p signature nonce r h l = record {
    coherent = ground (arith, l.coherent);
    bounded = λ key attempts e. ground (arith, l.bounded key attempts);
    stacked = ground (arith, l.stacked);
  }

  revoke-IsSession :
      (s s' : SimpleAuth) (stack : List AuthRollback) (p : ℕ) (token signature : List ℕ)
      (r : AuthRollback)
      → revoke env s p token signature ≡ (s', ok r)
      → IsSession s stack
      → IsSession s' (r ∷ stack)
  unfolding revoke
  revoke-IsSession s s' stack p token signature r h l = record {
    coherent = ground (arith, l.coherent);
    bounded = λ key attempts e. ground (arith, l.bounded key attempts);
    stacked = ground (arith, l.stacked);
  }

  execute-IsSession :
      (s s' : SimpleAuth) (stack : List AuthRollback) (cmd : AuthCommand) (authorization : Option ℕ)
      (md : PayloadMetadata) (r : AuthRollback)
      → execute env s cmd authorization md ≡ (s', ok r)
      → IsSession s stack
      → IsSession s' (r ∷ stack)
  unfolding execute dispatch
  execute-IsSession s s' stack cmd none md r h l = cc
  execute-IsSession s s' stack request_challenge (some p) md r h l =
      let (free, done) = admitted s s' request_challenge p md r h in
      request-IsSession s s' stack p md r free done l
  execute-IsSession s s' stack (submit_response signature nonce) (some p) md r h l =
      respond-IsSession s s' stack p signature nonce r
        (admitted s s' (submit_response signature nonce) p md r h).1 l
  execute-IsSession s s' stack (revoke_session token signature) (some p) md r h l =
      revoke-IsSession s s' stack p token signature r
        (admitted s s' (revoke_session token signature) p md r h).1 l

  refused_same :
      (s s' : SimpleAuth) (cmd : AuthCommand) (authorization : Option ℕ) (md : PayloadMetadata)
      (e : EpisodeError AuthError)
      → execute env s cmd authorization md ≡ (s', err e)
      → s ≡ s'
  unfolding execute dispatch request respond revoke
  refused_same s s' cmd none md e h = ground arith
  refused_same s s' request_challenge (some p) md e h = ground arith
  refused_same s s' (submit_response signature nonce) (some p) md e h = ground arith
  refused_same s s' (revoke_session token signature) (some p) md e h = ground arith

  rollback-IsSession :
      (s : SimpleAuth) (stack : List AuthRollback) (r : AuthRollback)
      → IsSession s (r ∷ stack)
      → IsSession (rollback s r).0 stack
  unfolding rollback
  rollback-IsSession s stack (challenge c t) l = record {
    coherent = l.coherent;
    bounded = l.bounded;
    stacked = l.stacked;
  }
  rollback-IsSession s stack (authentication status token) l = record {
    coherent = l.stacked.0;
    bounded = l.bounded;
    stacked = l.stacked.1;
  }
  rollback-IsSession s stack (session_revoked token was) l = record {
    coherent = l.stacked.0;
    bounded = l.bounded;
    stacked = l.stacked.1;
  }

  -- In every history of commands and of rollbacks from the engine's stack, there is a session token
  -- exactly when somebody is authenticated, and nobody has more than 5 attempts on record.
  pub Reachable-IsSession :
      (s : SimpleAuth) (stack : List AuthRollback) → Reachable s stack → IsSession s stack
  unfolding initialize
  Reachable-IsSession _ _ (started s participants md e) =
      rw e (record { coherent = refl; bounded = λ key attempts h. ground arith; stacked = tt })
  Reachable-IsSession _ _ (executed s s' stack cmd authorization md r h reach) =
      execute-IsSession s s' stack cmd authorization md r h (Reachable-IsSession s stack reach)
  Reachable-IsSession _ _ (refused s s' stack cmd authorization md e h reach) =
      rw⁻¹ (refused_same s s' cmd authorization md e h) (Reachable-IsSession s stack reach)
  Reachable-IsSession _ _ (undone s s' stack r done h reach) =
      rw (ap (λ (x : SimpleAuth × Bool). x.0) (sym h))
        (rollback-IsSession s stack r (Reachable-IsSession s (r ∷ stack) reach))

  -- Rolling back an accepted command succeeds and restores the challenge with its time, the session
  -- and whether somebody is authenticated; the owner and the record of attempts stay as the command
  -- left them, which only a request for a challenge changes.
  pub rollback-execute_kept :
      (s s' : SimpleAuth) (cmd : AuthCommand) (authorization : Option ℕ) (md : PayloadMetadata)
      (r : AuthRollback)
      → execute env s cmd authorization md ≡ (s', ok r)
      → (rollback s' r ≡ (record s { owner = s'.owner; rate_limits = s'.rate_limits }, true))
        × ((cmd ≡ request_challenge) ⊎ ((s'.owner ≡ s.owner) × (s'.rate_limits ≡ s.rate_limits)))
  unfolding execute dispatch request respond revoke rollback
  rollback-execute_kept s s' cmd none md r h = cc
  rollback-execute_kept s s' request_challenge (some p) md r h = (ground arith, inl refl)
  rollback-execute_kept s s' (submit_response signature nonce) (some p) md r h =
      (ground arith, inr (ground arith, ground arith))
  rollback-execute_kept s s' (revoke_session token signature) (some p) md r h =
      (ground arith, inr (ground arith, ground arith))
