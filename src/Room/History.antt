-- ===== src/Room/History.antt =====
-- Every history of a room (examples/comment-it/src/core/episode.rs): commands that the engine
-- executes, and rollbacks that it takes from its stack.
use kdapp.Base.{
  ℕ, ◌+◌, ◌<◌, ◌≡◌, refl, sym, ap, Bool, true, Option, none, some, List, [], ◌∷◌, push_back,
  u64_mod, arith,
}
use kdapp.Episode.{EpisodeError, ok, err, PayloadMetadata}
use kdapp.Room.{
  UnifiedCommand, request_challenge, submit_response, revoke_session, submit_comment,
  UnifiedRollback, challenge, authentication, session_revoked, comment_added, AuthError,
  AuthWithCommentsEpisode, Surroundings, initialize, request, respond, revoke, comment, dispatch,
  execute, rollback,
}
use kdapp.Room.Log.{Undoes-pos, drop_newest, remove_comment-push_back}
use kdapp.Room.Accepted.{IsLog, AllProper, AllProper-older, execute-IsLog}

module _ (env : Surroundings) where
  -- The engine keeps the rollback of what it executed, and takes the newest one first.
  pub data Reachable : AuthWithCommentsEpisode → List UnifiedRollback → Type 0 where
    started :
        (s : AuthWithCommentsEpisode) (participants : List ℕ) (md : PayloadMetadata)
        → s ≡ initialize participants md
        → Reachable s []
    executed :
        (s s' : AuthWithCommentsEpisode) (stack : List UnifiedRollback) (cmd : UnifiedCommand)
        (authorization : Option ℕ) (md : PayloadMetadata) (r : UnifiedRollback)
        → execute env s cmd authorization md ≡ (s', ok r)
        → s.next_comment_id + 1 < u64_mod
        → Reachable s stack
        → Reachable s' (r ∷ stack)
    refused :
        (s s' : AuthWithCommentsEpisode) (stack : List UnifiedRollback) (cmd : UnifiedCommand)
        (authorization : Option ℕ) (md : PayloadMetadata) (e : EpisodeError AuthError)
        → execute env s cmd authorization md ≡ (s', err e)
        → Reachable s stack
        → Reachable s' stack
    undone :
        (s s' : AuthWithCommentsEpisode) (stack : List UnifiedRollback) (r : UnifiedRollback)
        (done : Bool)
        → rollback s r ≡ (s', done)
        → Reachable s (r ∷ stack)
        → Reachable s' stack

  refused_same :
      (s s' : AuthWithCommentsEpisode) (cmd : UnifiedCommand) (authorization : Option ℕ)
      (md : PayloadMetadata) (e : EpisodeError AuthError)
      → execute env s cmd authorization md ≡ (s', err e)
      → s ≡ s'
  unfolding execute dispatch request respond revoke comment
  refused_same s s' request_challenge none md e h = ground arith
  refused_same s s' request_challenge (some p) md e h = ground arith
  refused_same s s' (submit_response signature nonce) none md e h = ground arith
  refused_same s s' (submit_response signature nonce) (some p) md e h = ground arith
  refused_same s s' (revoke_session token signature) none md e h = ground arith
  refused_same s s' (revoke_session token signature) (some p) md e h = ground arith
  refused_same s s' (submit_comment text token) none md e h = ground arith
  refused_same s s' (submit_comment text token) (some p) md e h = ground arith

  comment_undone :
      (s : AuthWithCommentsEpisode) (stack : List UnifiedRollback) (id : ℕ)
      → IsLog env s (comment_added id ∷ stack)
      → IsLog env (rollback s (comment_added id)).0 stack
        × ((rollback s (comment_added id)).1 ≡ true)
  unfolding rollback
  comment_undone s stack id l =
      let (next, undoes) = l.undoes in
      let pos = Undoes-pos stack id undoes in
      let (older, c, same, newest, numbered) =
        drop_newest 1 s.comments id (rw next at l.numbered) pos in
      let removed = remove_comment-push_back 1 older id c numbered newest in
      let proper : AllProper env s.authorized_participants (push_back older c) =
        rw same at l.proper in
      rw (same, rollback)
        (rw (removed, rollback)
          (
            record {
              numbered = numbered;
              proper = AllProper-older env s.authorized_participants older c proper;
              undoes = undoes;
              limited = l.limited;
            },
            refl,
          ))

  rollback-IsLog :
      (s : AuthWithCommentsEpisode) (stack : List UnifiedRollback) (r : UnifiedRollback)
      → IsLog env s (r ∷ stack)
      → IsLog env (rollback s r).0 stack × ((rollback s r).1 ≡ true)
  unfolding rollback
  rollback-IsLog s stack (challenge key) l = (
    record { numbered = l.numbered; proper = l.proper; undoes = l.undoes; limited = l.limited },
    refl,
  )
  rollback-IsLog s stack (authentication key was) l = (
    record { numbered = l.numbered; proper = l.proper; undoes = l.undoes; limited = l.limited },
    refl,
  )
  rollback-IsLog s stack (session_revoked key was) l = (
    record { numbered = l.numbered; proper = l.proper; undoes = l.undoes; limited = l.limited },
    refl,
  )
  rollback-IsLog s stack (comment_added id) l = comment_undone s stack id l

  -- In every history of a room in which fewer than 2 ^ 64 - 2 comments stand at a time, the comments
  -- are numbered 1, 2, 3 and so on with no gap, and the next number follows; each is neither blank nor
  -- longer than 2000 bytes, and bears the key of an authorized participant; nobody has more than 5
  -- attempts, so that their count never wraps around; and the rollbacks that the engine keeps undo the
  -- comments from the newest to the first.
  pub Reachable-IsLog :
      (s : AuthWithCommentsEpisode) (stack : List UnifiedRollback)
      → Reachable s stack
      → IsLog env s stack
  unfolding initialize
  Reachable-IsLog _ _ (started s participants md e) =
      rw e (record { numbered = refl; proper = tt; undoes = refl; limited = λ key. omega arith })
  Reachable-IsLog _ _ (executed s s' older cmd authorization md r h room reach) =
      execute-IsLog env s s' older cmd authorization md r h room (Reachable-IsLog s older reach)
  Reachable-IsLog _ _ (refused s s' stack cmd authorization md e h reach) =
      rw⁻¹ (refused_same s s' cmd authorization md e h) (Reachable-IsLog s stack reach)
  Reachable-IsLog _ _ (undone s s' stack r done h reach) =
      rw (ap (λ (x : AuthWithCommentsEpisode × Bool). x.0) (sym h))
        (rollback-IsLog s stack r (Reachable-IsLog s (r ∷ stack) reach)).0
