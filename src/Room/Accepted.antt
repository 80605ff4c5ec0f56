-- ===== src/Room/Accepted.antt =====
-- What an accepted command adds to a room: examples/comment-it/src/core/episode.rs.
use kdapp.Base.{
  ℕ, suc, ◌+◌, ◌%◌, ◌≤◌, ◌<◌, ◌≡◌, refl, true, false, Option, none, some, List, [], ◌∷◌, push_back,
  contains, lookup-insert, u32_mod, u64_mod, arith, Bool-cases, inl, inr,
}
use kdapp.Episode.{ok, PayloadMetadata}
use kdapp.Text.{is_blank, byte_len}
use kdapp.Room.{
  UnifiedCommand, request_challenge, submit_response, revoke_session, submit_comment,
  UnifiedRollback, comment_added, Comment, AuthWithCommentsEpisode, Surroundings, attempts,
  is_rate_limited, request, respond, revoke, comment, dispatch, execute,
}
use kdapp.Room.Log.{NumberedFrom, NumberedFrom-push_back, Undoes}

module _ (env : Surroundings) where
  -- What a comment must be to be admitted.
  pub record IsProper (authorized : List ℕ) (c : Comment) : Type 0 where
    pub participant : ℕ
    pub member : contains authorized participant ≡ true
    pub signed : c.author ≡ env.print participant
    pub said : is_blank c.text ≡ false
    pub short : byte_len c.text ≤ 2000

  abbrev pub AllProper : List ℕ → List Comment → Type 0
  AllProper authorized [] = Unit {0}
  AllProper authorized (c ∷ comments) = IsProper authorized c × AllProper authorized comments

  pub record IsLog (s : AuthWithCommentsEpisode) (stack : List UnifiedRollback) : Type 0 where
    pub numbered : NumberedFrom 1 s.comments s.next_comment_id
    pub proper : AllProper s.authorized_participants s.comments
    pub undoes : Undoes stack s.next_comment_id
    pub limited : (key : ℕ) → attempts s key ≤ 5

  AllProper-push_back :
      (authorized : List ℕ) (comments : List Comment) (c : Comment)
      → AllProper authorized comments
      → IsProper authorized c
      → AllProper authorized (push_back comments c)
  AllProper-push_back authorized [] c h p = (p, tt)
  AllProper-push_back authorized (d ∷ comments) c (h, t) p =
      (h, AllProper-push_back authorized comments c t p)

  pub AllProper-older :
      (authorized : List ℕ) (comments : List Comment) (c : Comment)
      → AllProper authorized (push_back comments c)
      → AllProper authorized comments
  AllProper-older authorized [] c h = tt
  AllProper-older authorized (d ∷ comments) c (h, t) = (h, AllProper-older authorized comments c t)

  -- The gate that every accepted command has passed.
  pub admitted :
      (s s' : AuthWithCommentsEpisode) (cmd : UnifiedCommand) (p : ℕ) (md : PayloadMetadata)
      (r : UnifiedRollback)
      → execute env s cmd (some p) md ≡ (s', ok r)
      → (contains s.authorized_participants p ≡ true)
        × (attempts s (env.print p) < 5)
        × (dispatch env s cmd p md ≡ (s', ok r))
  unfolding execute is_rate_limited
  admitted s s' cmd p md r h = (ground arith, ground arith, ground arith)

  request-IsLog :
      (s s' : AuthWithCommentsEpisode) (stack : List UnifiedRollback) (p : ℕ) (md : PayloadMetadata)
      (r : UnifiedRollback)
      → attempts s (env.print p) < 5
      → request env s p md ≡ (s', ok r)
      → IsLog s stack
      → IsLog s' (r ∷ stack)
  unfolding request
  request-IsLog s s' stack p md r few h l =
      elim (Bool-cases (contains s.authenticated_participants (env.print p))) [
        | inl before ↦ absurd (ground arith)
        | inr fresh ↦ record {
          numbered = ground (arith, l.numbered);
          proper = ground (arith, l.proper);
          undoes = ground (arith, l.undoes);
          limited = λ key. ground (
            arith,
            l.limited key,
            lookup-insert (env.print p) key ((attempts s (env.print p) + 1) % u32_mod)
                s.rate_limits,
          );
        }
      ]

  respond-IsLog :
      (s s' : AuthWithCommentsEpisode) (stack : List UnifiedRollback) (p : ℕ)
      (signature nonce : List ℕ) (r : UnifiedRollback)
      → respond env s p signature nonce ≡ (s', ok r)
      → IsLog s stack
      → IsLog s' (r ∷ stack)
  unfolding respond
  respond-IsLog s s' stack p signature nonce r h l = record {
    numbered = ground (arith, l.numbered);
    proper = ground (arith, l.proper);
    undoes = ground (arith, l.undoes);
    limited = λ key. ground (arith, l.limited key);
  }

  revoke-IsLog :
      (s s' : AuthWithCommentsEpisode) (stack : List UnifiedRollback) (p : ℕ)
      (token signature : List ℕ) (r : UnifiedRollback)
      → revoke env s p token signature ≡ (s', ok r)
      → IsLog s stack
      → IsLog s' (r ∷ stack)
  unfolding revoke
  revoke-IsLog s s' stack p token signature r h l = record {
    numbered = ground (arith, l.numbered);
    proper = ground (arith, l.proper);
    undoes = ground (arith, l.undoes);
    limited = λ key. ground (arith, l.limited key);
  }

  -- What an accepted comment is, and what it does.
  pub posted :
      (s s' : AuthWithCommentsEpisode) (p : ℕ) (text : List ℕ) (md : PayloadMetadata)
      (r : UnifiedRollback)
      → comment env s p text md ≡ (s', ok r)
      → let c : Comment = record {
        id = s.next_comment_id;
        text = text;
        author = env.print p;
        timestamp = md.accepting_time;
      } in
        (is_blank text ≡ false)
        × (byte_len text ≤ 2000)
        × (contains s.authenticated_participants (env.print p) ≡ true)
        × (s' ≡ record s {
          comments = push_back s.comments c;
          next_comment_id = (s.next_comment_id + 1) % u64_mod;
        })
        × (r ≡ comment_added s.next_comment_id)
  unfolding comment
  posted s s' p text md r h = (ground arith, ground arith, ground arith, ground arith, ground arith)

  comment-IsLog :
      (s s' : AuthWithCommentsEpisode) (stack : List UnifiedRollback) (p : ℕ) (text : List ℕ)
      (md : PayloadMetadata) (r : UnifiedRollback)
      → contains s.authorized_participants p ≡ true
      → s.next_comment_id + 1 < u64_mod
      → comment env s p text md ≡ (s', ok r)
      → IsLog s stack
      → IsLog s' (r ∷ stack)
  comment-IsLog s s' stack p text md r member room h l =
      let (said, short, _, same, undo) = posted s s' p text md r h in
      let c : Comment = record {
        id = s.next_comment_id;
        text = text;
        author = env.print p;
        timestamp = md.accepting_time;
      } in
      let next : (s.next_comment_id + 1) % u64_mod ≡ suc s.next_comment_id = omega arith in
      rw (same, undo)
        (record {
          numbered =
              rw next (NumberedFrom-push_back 1 s.comments s.next_comment_id c l.numbered refl);
          proper = AllProper-push_back s.authorized_participants s.comments c l.proper (record {
            participant = p;
            member = member;
            signed = refl;
            said = said;
            short = short;
          });
          undoes = (next, l.undoes);
          limited = l.limited;
        })

  pub execute-IsLog :
      (s s' : AuthWithCommentsEpisode) (stack : List UnifiedRollback) (cmd : UnifiedCommand)
      (authorization : Option ℕ) (md : PayloadMetadata) (r : UnifiedRollback)
      → execute env s cmd authorization md ≡ (s', ok r)
      → s.next_comment_id + 1 < u64_mod
      → IsLog s stack
      → IsLog s' (r ∷ stack)
  unfolding dispatch execute
  execute-IsLog s s' stack cmd none md r h room l = cc
  execute-IsLog s s' stack request_challenge (some p) md r h room l =
      let (member, few, done) = admitted s s' request_challenge p md r h in
      request-IsLog s s' stack p md r few done l
  execute-IsLog s s' stack (submit_response signature nonce) (some p) md r h room l =
      let (member, few, done) = admitted s s' (submit_response signature nonce) p md r h in
      respond-IsLog s s' stack p signature nonce r done l
  execute-IsLog s s' stack (revoke_session token signature) (some p) md r h room l =
      let (member, few, done) = admitted s s' (revoke_session token signature) p md r h in
      revoke-IsLog s s' stack p token signature r done l
  execute-IsLog s s' stack (submit_comment text token) (some p) md r h room l =
      let (member, few, done) = admitted s s' (submit_comment text token) p md r h in
      comment-IsLog s s' stack p text md r member room done l
