-- ===== src/Room/Undo.antt =====
-- What a rollback of a room (examples/comment-it/src/core/episode.rs) restores.
use kdapp.Base.{
  ℕ, ◌+◌, ◌%◌, ◌<◌, ◌≡◌, refl, ◌∙◌, true, false, some, List, ◌∷◌, contains, insert, remove,
  lookup-insert, lookup-remove, u32_mod, arith, Bool-cases, inl, inr,
}
use kdapp.Episode.{ok, PayloadMetadata}
use kdapp.Room.{
  UnifiedCommand, request_challenge, submit_response, revoke_session, submit_comment,
  UnifiedRollback, challenge, authentication, session_revoked, Comment, AuthWithCommentsEpisode,
  Surroundings, remove_member, attempts, request, respond, revoke, comment, dispatch, execute,
  rollback,
}
use kdapp.Room.Log.{NumberedFrom, remove_comment-push_back}
use kdapp.Room.Accepted.{admitted, posted}
use kdapp.Room.Restored.{
  contains-add_member, contains-remove_member, readmitted, IsRestored, counted,
}

module _ (env : Surroundings) where
  undo_request :
      (s s' : AuthWithCommentsEpisode) (p : ℕ) (md : PayloadMetadata) (r : UnifiedRollback)
      → attempts s (env.print p) < 5
      → request env s p md ≡ (s', ok r)
      → ((rollback s' r).1 ≡ true) × IsRestored s (rollback s' r).0 (env.print p) 1
  unfolding request rollback
  undo_request s s' p md r few h =
      elim (Bool-cases (contains s.authenticated_participants (env.print p))) [
        | inl before ↦ absurd (ground arith)
        | inr fresh ↦
            let key = env.print p in
            let text = env.generate_with_provided_timestamp md.accepting_time in
            let t : AuthWithCommentsEpisode = record s {
              active_challenges = insert key text s.active_challenges;
              rate_limits = insert key ((attempts s key + 1) % u32_mod) s.rate_limits;
            } in
            let e : s' ≡ t = ground arith in
            let f : r ≡ challenge key = ground arith in
            rw (e, f)
              (
                refl,
                record {
                  creator = refl;
                  created_at = refl;
                  authorized = refl;
                  comments = refl;
                  next_comment_id = refl;
                  authenticated = λ j. refl;
                  rates = λ j.
                      ground
                        (arith, lookup-insert key j ((attempts s key + 1) % u32_mod) s.rate_limits);
                  challenges = λ j. ground (
                    arith,
                    lookup-remove key j (insert key text s.active_challenges),
                    lookup-insert key j text s.active_challenges,
                  );
                },
              )
      ]

  undo_respond :
      (s s' : AuthWithCommentsEpisode) (p : ℕ) (signature nonce : List ℕ) (r : UnifiedRollback)
      → respond env s p signature nonce ≡ (s', ok r)
      → ((rollback s' r).1 ≡ true) × IsRestored s (rollback s' r).0 (env.print p) 0
  unfolding respond rollback
  undo_respond s s' p signature nonce r h =
      elim (Bool-cases (contains s.authenticated_participants (env.print p))) [
        | inl before ↦ absurd (ground arith)
        | inr fresh ↦
            let key = env.print p in
            let t : AuthWithCommentsEpisode = record s {
              authenticated_participants = key ∷ s.authenticated_participants;
              active_challenges = remove key s.active_challenges;
            } in
            let e : s' ≡ t = ground arith in
            let f : r ≡ authentication key false = ground arith in
            rw (e, f)
              (
                refl,
                record {
                  creator = refl;
                  created_at = refl;
                  authorized = refl;
                  comments = refl;
                  next_comment_id = refl;
                  authenticated = λ j.
                      ground
                        (arith, contains-remove_member key j (key ∷ s.authenticated_participants));
                  rates = λ j. ground arith;
                  challenges = λ j. ground (arith, lookup-remove key j s.active_challenges);
                },
              )
      ]

  undo_revoke :
      (s s' : AuthWithCommentsEpisode) (p : ℕ) (token signature : List ℕ) (r : UnifiedRollback)
      → revoke env s p token signature ≡ (s', ok r)
      → ((rollback s' r).1 ≡ true) × IsRestored s (rollback s' r).0 (env.print p) 0
  unfolding revoke rollback
  undo_revoke s s' p token signature r h =
      elim (Bool-cases (contains s.authenticated_participants (env.print p))) [
        | inr never ↦ absurd (ground arith)
        | inl before ↦
            let key = env.print p in
            let rest = remove_member key s.authenticated_participants in
            let e : s' ≡ record s { authenticated_participants = rest } = ground arith in
            let f : r ≡ session_revoked key true = ground arith in
            rw (e, f)
              (
                refl,
                record {
                  creator = refl;
                  created_at = refl;
                  authorized = refl;
                  comments = refl;
                  next_comment_id = refl;
                  authenticated = λ j.
                      contains-add_member key j rest
                      ∙ readmitted key j s.authenticated_participants before;
                  rates = λ j. ground arith;
                  challenges = λ j. inl refl;
                },
              )
      ]

  undo_comment :
      (s s' : AuthWithCommentsEpisode) (p : ℕ) (text : List ℕ) (md : PayloadMetadata)
      (r : UnifiedRollback)
      → NumberedFrom 1 s.comments s.next_comment_id
      → comment env s p text md ≡ (s', ok r)
      → ((rollback s' r).1 ≡ true) × IsRestored s (rollback s' r).0 (env.print p) 0
  unfolding rollback
  undo_comment s s' p text md r numbered h =
      let (_, _, _, same, undo) = posted env s s' p text md r h in
      let c : Comment = record {
        id = s.next_comment_id;
        text = text;
        author = env.print p;
        timestamp = md.accepting_time;
      } in
      let removed = remove_comment-push_back 1 s.comments s.next_comment_id c numbered refl in
      rw (same, undo)
        (rw (removed, rollback)
          (
            refl,
            record {
              creator = refl;
              created_at = refl;
              authorized = refl;
              comments = refl;
              next_comment_id = refl;
              authenticated = λ j. refl;
              rates = λ j. ground arith;
              challenges = λ j. inl refl;
            },
          ))

  -- In a room whose comments are numbered from 1 without a gap, rolling back an accepted command
  -- succeeds and restores the creator, the participants, who is authenticated, the comments and their
  -- number. It leaves what a request counted as an attempt, and the challenge of the participant may
  -- be gone.
  pub rollback-execute_same :
      (s s' : AuthWithCommentsEpisode) (cmd : UnifiedCommand) (p : ℕ) (md : PayloadMetadata)
      (r : UnifiedRollback)
      → NumberedFrom 1 s.comments s.next_comment_id
      → execute env s cmd (some p) md ≡ (s', ok r)
      → ((rollback s' r).1 ≡ true) × IsRestored s (rollback s' r).0 (env.print p) (counted cmd)
  unfolding dispatch
  rollback-execute_same s s' request_challenge p md r numbered h =
      let (_, few, done) = admitted env s s' request_challenge p md r h in
      undo_request s s' p md r few done
  rollback-execute_same s s' (submit_response signature nonce) p md r numbered h =
      undo_respond s s' p signature nonce r
        (admitted env s s' (submit_response signature nonce) p md r h).2
  rollback-execute_same s s' (revoke_session token signature) p md r numbered h =
      undo_revoke s s' p token signature r
        (admitted env s s' (revoke_session token signature) p md r h).2
  rollback-execute_same s s' (submit_comment text token) p md r numbered h =
      undo_comment s s' p text md r numbered
        (admitted env s s' (submit_comment text token) p md r h).2
