-- ===== src/Auth.antt =====
-- examples/kaspa-auth/src/core: the authentication of one owner as an episode (episode.rs, with
-- commands.rs, types.rs, errors.rs), crypto/challenges.rs and crypto/signatures.rs. A string is the
-- list of its code points.
pub mod Answer
pub mod History
use kdapp.Base.{
  ℕ, ◌-◌, Bool, true, false, not, Option, none, some, List, [], ◌∷◌, ◌++◌, push_back, contains,
  length, Map, lookup, insert, leb, if◌then◌else◌, bytes_eq,
}
use kdapp.Pki.{Secp, to_message, verify_signature}
use kdapp.Episode.{
  EpisodeError, unauthorized, invalid_command, Result, ok, err, PayloadMetadata, Episode,
}
use kdapp.Text.{print_u64, parse_u64, strip_prefix, until}

pub data AuthCommand : Type 0 where
  request_challenge : AuthCommand
  submit_response : (signature nonce : List ℕ) → AuthCommand
  revoke_session : (session_token signature : List ℕ) → AuthCommand

pub data AuthRollback : Type 0 where
  challenge : (previous_challenge : Option (List ℕ)) (previous_timestamp : ℕ) → AuthRollback
  authentication :
      (previous_auth_status : Bool) (previous_session_token : Option (List ℕ)) → AuthRollback
  session_revoked : (previous_token : List ℕ) (was_authenticated : Bool) → AuthRollback

-- The errors that `execute` returns.
pub data AuthError : Type 0 where
  challenge_not_found invalid_challenge signature_verification_failed : AuthError
  already_authenticated not_authorized rate_limited challenge_expired : AuthError
  session_not_found invalid_session_token session_already_revoked : AuthError

-- The limits are keyed by the compressed bytes of a public key, which is its number.
pub record SimpleAuth : Type 0 where
  pub owner : Option ℕ
  pub current_challenge : Option (List ℕ)
  pub is_authenticated : Bool
  pub session_token : Option (List ℕ)
  pub challenge_timestamp : ℕ
  pub rate_limits : Map (List ℕ)
  pub authorized_participants : List ℕ

-- What other packages and the machine give: the curve; the number that the generator yields when it
-- is seeded with a time, a key and the id of a transaction; the session token for a time, an owner
-- and a challenge; hex with the DER form of a signature; the borsh form of a string; the clock.
pub record Surroundings : Type 0 where
  pub secp : Secp
  pub random : ℕ → ℕ → ℕ → ℕ
  pub new_session_token : ℕ → Option ℕ → Option (List ℕ) → List ℕ
  pub decode_signature : List ℕ → Option (List ℕ)
  pub to_vec : List ℕ → List ℕ
  pub now : ℕ

abbrev first : List ℕ → Option ℕ
first [] = none
first (participant ∷ _) = some participant

unfoldable pub initialize : List ℕ → PayloadMetadata → SimpleAuth
initialize participants md = record {
  owner = first participants;
  current_challenge = none;
  is_authenticated = false;
  session_token = none;
  challenge_timestamp = md.accepting_time;
  rate_limits = [];
  authorized_participants = participants;
}

-- "auth_"
abbrev auth_prefix : List ℕ
auth_prefix = 97 ∷ 117 ∷ 116 ∷ 104 ∷ 95 ∷ []

-- `generate_with_entropy`: "auth_{timestamp}_{number}"
unfoldable pub generate_with_entropy : ℕ → ℕ → List ℕ
generate_with_entropy timestamp number =
    auth_prefix ++ (print_u64 timestamp ++ 95 ∷ print_u64 number)

-- A challenge whose time cannot be read is always valid.
unfoldable pub is_valid : ℕ → List ℕ → ℕ → Bool
is_valid now text max_age_seconds = elim (strip_prefix auth_prefix text) [
  | none ↦ true
  | some rest ↦ elim (parse_u64 (until 95 rest)) [
    | none ↦ true
    | some timestamp ↦ leb (now - timestamp) max_age_seconds
  ]
]

abbrev pub window_secs : ℕ
window_secs = 300

abbrev pub max_attempts : ℕ
max_attempts = 5

-- The attempts that are at most `window_secs` old.
abbrev pub recent : ℕ → List ℕ → List ℕ
recent now [] = []
recent now (t ∷ attempts) =
    let rest = recent now attempts in if leb (now - t) window_secs then t ∷ rest else rest

abbrev pub or_default : Option (List ℕ) → List ℕ
or_default none = []
or_default (some attempts) = attempts

unfoldable pub is_rate_limited : SimpleAuth → ℕ → ℕ → Bool
is_rate_limited s pubkey now = elim (lookup pubkey s.rate_limits) [
  | none ↦ false
  | some attempts ↦ leb max_attempts (length (recent now attempts))
]

unfoldable pub increment_rate_limit : SimpleAuth → ℕ → ℕ → SimpleAuth
increment_rate_limit s pubkey now = record s {
  rate_limits =
      insert pubkey (recent now (push_back (or_default (lookup pubkey s.rate_limits)) now))
        s.rate_limits;
}

abbrev pub Executed : Type 0
Executed = SimpleAuth × Result (EpisodeError AuthError) AuthRollback

abbrev pub refuse : SimpleAuth → AuthError → Executed
refuse s e = (s, err (invalid_command e))

module _ (env : Surroundings) where
  unfoldable pub verify : ℕ → List ℕ → List ℕ → Bool
  verify pubkey message signature = elim (env.decode_signature signature) [
    | none ↦ false
    | some sig ↦ verify_signature env.secp pubkey (to_message env.secp (env.to_vec message)) sig
  ]

  unfoldable pub request : SimpleAuth → ℕ → PayloadMetadata → Executed
  unfolding increment_rate_limit
  request s participant md = (
    increment_rate_limit
        (record s {
          current_challenge = some (
              generate_with_entropy md.accepting_time
                (env.random md.accepting_time participant md.tx_id));
          challenge_timestamp = md.accepting_time;
          owner = some participant;
        })
        participant md.accepting_time,
    ok (challenge s.current_challenge s.challenge_timestamp),
  )

  -- What follows where there is a challenge.
  unfoldable pub answer : SimpleAuth → ℕ → List ℕ → List ℕ → List ℕ → Executed
  answer s participant signature nonce current =
      if not (bytes_eq nonce current)
      then refuse s invalid_challenge
      else if not (is_valid env.now current 3600)
      then refuse s challenge_expired
      else if not (verify participant current signature)
      then refuse s signature_verification_failed
      else (
        record s {
          is_authenticated = true;
          session_token =
              some (env.new_session_token s.challenge_timestamp s.owner s.current_challenge);
        },
        ok (authentication s.is_authenticated s.session_token),
      )

  unfoldable pub respond : SimpleAuth → ℕ → List ℕ → List ℕ → Executed
  unfolding answer
  respond s participant signature nonce =
      if s.is_authenticated then refuse s already_authenticated else elim s.current_challenge [
        | none ↦ refuse s challenge_not_found
        | some current ↦ answer s participant signature nonce current
      ]

  unfoldable pub revoke : SimpleAuth → ℕ → List ℕ → List ℕ → Executed
  revoke s participant token signature = elim s.session_token [
    | none ↦ refuse s session_not_found
    | some current ↦
        if not (bytes_eq token current)
        then refuse s invalid_session_token
        else if not s.is_authenticated
        then refuse s session_already_revoked
        else if not (verify participant token signature)
        then refuse s signature_verification_failed
        else (
          record s { is_authenticated = false; session_token = none },
          ok (session_revoked current s.is_authenticated),
        )
  ]

  unfoldable pub dispatch : SimpleAuth → AuthCommand → ℕ → PayloadMetadata → Executed
  dispatch s request_challenge participant md = request s participant md
  dispatch s (submit_response signature nonce) participant md =
      respond s participant signature nonce
  dispatch s (revoke_session token signature) participant md = revoke s participant token signature

  unfoldable pub execute : SimpleAuth → AuthCommand → Option ℕ → PayloadMetadata → Executed
  execute s cmd none md = (s, err unauthorized)
  execute s cmd (some participant) md =
      if not (contains s.authorized_participants participant)
      then refuse s not_authorized
      else if is_rate_limited s participant md.accepting_time
      then refuse s rate_limited
      else dispatch s cmd participant md

unfoldable pub rollback : SimpleAuth → AuthRollback → SimpleAuth × Bool
rollback s (challenge previous_challenge previous_timestamp) = (
  record s { current_challenge = previous_challenge; challenge_timestamp = previous_timestamp },
  true,
)
rollback s (authentication previous_auth_status previous_session_token) = (
  record s { is_authenticated = previous_auth_status; session_token = previous_session_token },
  true,
)
rollback s (session_revoked previous_token was_authenticated) =
    (record s { is_authenticated = was_authenticated; session_token = some previous_token }, true)

-- `to_vec` is the borsh form of a command.
abbrev pub simple_auth : Surroundings → (AuthCommand → List ℕ) → Episode
simple_auth env to_vec = record {
  State = SimpleAuth;
  Command = AuthCommand;
  CommandRollback = AuthRollback;
  CommandError = AuthError;
  to_vec = to_vec;
  initialize = initialize;
  execute = λ s cmd auth md. some (execute env s cmd auth md);
  rollback = λ s r. some (rollback s r);
}
