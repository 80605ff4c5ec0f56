-- ===== src/Room.antt =====
-- examples/comment-it/src/core: a shared comment room as an episode (episode.rs, with commands.rs,
-- types.rs, errors.rs), and crypto/signatures.rs. A string is the list of its code points.
pub mod Log
pub mod Accepted
pub mod History
pub mod Restored
pub mod Undo
use kdapp.Base.{
  ℕ, ◌+◌, ◌%◌, Bool, true, false, not, Option, none, some, List, [], ◌∷◌, push_back, contains, Map,
  lookup, insert, remove, ◌==◌, ltb, leb, if◌then◌else◌, u32_mod, u64_mod,
}
use kdapp.Pki.{Secp, to_message, verify_signature}
use kdapp.Episode.{
  EpisodeError, unauthorized, invalid_command, Result, ok, err, PayloadMetadata, Episode,
}
use kdapp.Text.{is_blank, byte_len}

pub data UnifiedCommand : Type 0 where
  request_challenge : UnifiedCommand
  submit_response : (signature nonce : List ℕ) → UnifiedCommand
  revoke_session : (session_token signature : List ℕ) → UnifiedCommand
  submit_comment : (text session_token : List ℕ) → UnifiedCommand

pub data UnifiedRollback : Type 0 where
  challenge : (participant_key : ℕ) → UnifiedRollback
  authentication : (participant_key : ℕ) (was_previously_authenticated : Bool) → UnifiedRollback
  session_revoked : (participant_key : ℕ) (was_previously_authenticated : Bool) → UnifiedRollback
  comment_added : (comment_id : ℕ) → UnifiedRollback

-- The errors that `execute` returns.
pub data AuthError : Type 0 where
  signature_verification_failed already_authenticated not_authorized rate_limited : AuthError
  session_not_found invalid_session_token comment_too_long comment_empty : AuthError

pub record Comment : Type 0 where
  pub id : ℕ
  pub text : List ℕ
  pub author : ℕ
  pub timestamp : ℕ

-- A hash map or a hash set is keyed by the printed form of a public key.
pub record AuthWithCommentsEpisode : Type 0 where
  pub creator : Option ℕ
  pub created_at : ℕ
  pub authenticated_participants : List ℕ
  pub rate_limits : Map ℕ
  pub authorized_participants : List ℕ
  pub active_challenges : Map (List ℕ)
  pub comments : List Comment
  pub next_comment_id : ℕ

-- What other packages give: the curve, the printed form of a key (`format!("{participant}")`) as a
-- number, the random challenge for a time, hex with the DER form of a signature, and the borsh form
-- of a string.
pub record Surroundings : Type 0 where
  pub secp : Secp
  pub print : ℕ → ℕ
  pub generate_with_provided_timestamp : ℕ → List ℕ
  pub decode_signature : List ℕ → Option (List ℕ)
  pub to_vec : List ℕ → List ℕ

-- A hash set's `insert`.
abbrev pub add_member : ℕ → List ℕ → List ℕ
add_member k set = if contains set k then set else k ∷ set

-- A hash set's `remove`.
abbrev pub remove_member : ℕ → List ℕ → List ℕ
remove_member k [] = []
remove_member k (j ∷ set) = let rest = remove_member k set in if j == k then rest else j ∷ rest

abbrev first : List ℕ → Option ℕ
first [] = none
first (participant ∷ _) = some participant

unfoldable pub initialize : List ℕ → PayloadMetadata → AuthWithCommentsEpisode
initialize participants md = record {
  creator = first participants;
  created_at = md.accepting_time;
  authenticated_participants = [];
  rate_limits = [];
  authorized_participants = participants;
  active_challenges = [];
  comments = [];
  next_comment_id = 1;
}

abbrev or_zero : Option ℕ → ℕ
or_zero none = 0
or_zero (some n) = n

abbrev pub attempts : AuthWithCommentsEpisode → ℕ → ℕ
attempts s key = or_zero (lookup key s.rate_limits)

abbrev pub Executed : Type 0
Executed = AuthWithCommentsEpisode × Result (EpisodeError AuthError) UnifiedRollback

abbrev pub refuse : AuthWithCommentsEpisode → AuthError → Executed
refuse s e = (s, err (invalid_command e))

module _ (env : Surroundings) where
  unfoldable pub verify : ℕ → List ℕ → List ℕ → Bool
  verify pubkey message signature = elim (env.decode_signature signature) [
    | none ↦ false
    | some sig ↦ verify_signature env.secp pubkey (to_message env.secp (env.to_vec message)) sig
  ]

  unfoldable pub is_rate_limited : AuthWithCommentsEpisode → ℕ → Bool
  is_rate_limited s participant = leb 5 (attempts s (env.print participant))

  -- `*entry(…).or_insert(0) += 1` on a `u32`.
  unfoldable pub increment_rate_limit : AuthWithCommentsEpisode → ℕ → AuthWithCommentsEpisode
  increment_rate_limit s participant =
      let key = env.print participant in
      record s { rate_limits = insert key ((attempts s key + 1) % u32_mod) s.rate_limits }

  unfoldable pub request : AuthWithCommentsEpisode → ℕ → PayloadMetadata → Executed
  unfolding increment_rate_limit
  request s participant md =
      let key = env.print participant in
      if contains s.authenticated_participants key then refuse s already_authenticated else (
        increment_rate_limit
            (record s {
              active_challenges =
                  insert key (env.generate_with_provided_timestamp md.accepting_time)
                    s.active_challenges;
            })
            participant,
        ok (challenge key),
      )

  unfoldable pub respond : AuthWithCommentsEpisode → ℕ → List ℕ → List ℕ → Executed
  respond s participant signature nonce =
      let key = env.print participant in
      if contains s.authenticated_participants key
      then refuse s already_authenticated
      else if not (verify participant nonce signature)
      then refuse s signature_verification_failed
      else (
        record s {
          authenticated_participants = add_member key s.authenticated_participants;
          active_challenges = remove key s.active_challenges;
        },
        ok (authentication key (contains s.authenticated_participants key)),
      )

  unfoldable pub revoke : AuthWithCommentsEpisode → ℕ → List ℕ → List ℕ → Executed
  revoke s participant session_token signature =
      let key = env.print participant in
      if not (contains s.authenticated_participants key)
      then refuse s session_not_found
      else if not (verify participant session_token signature)
      then refuse s signature_verification_failed
      else (
        record s { authenticated_participants = remove_member key s.authenticated_participants },
        ok (session_revoked key (contains s.authenticated_participants key)),
      )

  unfoldable pub comment : AuthWithCommentsEpisode → ℕ → List ℕ → PayloadMetadata → Executed
  comment s participant text md =
      let key = env.print participant in
      if is_blank text
      then refuse s comment_empty
      else if ltb 2000 (byte_len text)
      then refuse s comment_too_long
      else if not (contains s.authenticated_participants key)
      then refuse s invalid_session_token
      else (
        record s {
          comments = push_back s.comments (record {
            id = s.next_comment_id;
            text = text;
            author = key;
            timestamp = md.accepting_time;
          });
          next_comment_id = (s.next_comment_id + 1) % u64_mod;
        },
        ok (comment_added s.next_comment_id),
      )

  unfoldable pub dispatch :
      AuthWithCommentsEpisode → UnifiedCommand → ℕ → PayloadMetadata → Executed
  dispatch s request_challenge participant md = request s participant md
  dispatch s (submit_response signature nonce) participant md =
      respond s participant signature nonce
  dispatch s (revoke_session token signature) participant md = revoke s participant token signature
  dispatch s (submit_comment text token) participant md = comment s participant text md

  unfoldable pub execute :
      AuthWithCommentsEpisode → UnifiedCommand → Option ℕ → PayloadMetadata → Executed
  execute s cmd none md = (s, err unauthorized)
  execute s cmd (some participant) md =
      if not (contains s.authorized_participants participant)
      then refuse s not_authorized
      else if is_rate_limited s participant
      then refuse s rate_limited
      else dispatch s cmd participant md

-- `comments.iter().position(|c| c.id == comment_id)` and `comments.remove(pos)`
abbrev pub remove_comment : ℕ → List Comment → Option (List Comment)
remove_comment id [] = none
remove_comment id (c ∷ comments) =
    let later = remove_comment id comments in
    if c.id == id then some comments else elim later [ none ↦ none | some rest ↦ some (c ∷ rest) ]

unfoldable pub rollback : AuthWithCommentsEpisode → UnifiedRollback → AuthWithCommentsEpisode × Bool
rollback s (challenge key) = (record s { active_challenges = remove key s.active_challenges }, true)
rollback s (authentication key was) = (
  record s {
    authenticated_participants =
        if was
        then add_member key s.authenticated_participants
        else remove_member key s.authenticated_participants;
  },
  true,
)
rollback s (session_revoked key was) = (
  record s {
    authenticated_participants =
        if was then add_member key s.authenticated_participants else s.authenticated_participants;
  },
  true,
)
rollback s (comment_added id) = elim (remove_comment id s.comments) [
  | none ↦ (s, false)
  | some rest ↦ (record s { comments = rest; next_comment_id = id }, true)
]

-- `to_vec` is the borsh form of a command.
abbrev pub auth_with_comments : Surroundings → (UnifiedCommand → List ℕ) → Episode
auth_with_comments env to_vec = record {
  State = AuthWithCommentsEpisode;
  Command = UnifiedCommand;
  CommandRollback = UnifiedRollback;
  CommandError = AuthError;
  to_vec = to_vec;
  initialize = initialize;
  execute = λ s cmd auth md. some (execute env s cmd auth md);
  rollback = λ s r. some (rollback s r);
}
