-- ===== src/Tests/Auth.antt =====
-- A challenge, its response and the session of examples/kaspa-auth/src/core/episode.rs.
use kdapp.Base.{
  ℕ, ◌≡◌, ◌⊎◌, refl, true, false, ◌&&◌, none, some, List, [], ◌∷◌, ◌-◌, leb, bytes_eq, arith,
}
use kdapp.Pki.{Secp, to_message, verify_signature}
use kdapp.Episode.{ok, PayloadMetadata}
use kdapp.Text.{print_u64, parse_digits, parse_u64, strip_prefix, until}
use kdapp.Auth.{
  request_challenge, submit_response, challenge, authentication, SimpleAuth, Surroundings,
  initialize, generate_with_entropy, is_valid, is_rate_limited, verify, request, respond, dispatch,
  execute, rollback,
}
use kdapp.Auth.Answer.{is_ok, execute-answers}
use kdapp.Auth.History.{IsSession, started, executed, Reachable-IsSession, rollback-execute_kept}

-- A signature is the message itself.
abbrev secp : Secp
secp = record {
  sha256 = λ bytes. bytes;
  public_key = λ sk. 7;
  sign_ecdsa = λ msg sk. msg;
  verify_ecdsa = λ msg sig pk. bytes_eq msg sig;
}

abbrev env : Surroundings
env = record {
  secp = secp;
  random = λ time key tx_id. 5;
  new_session_token = λ time owner text. 1 ∷ [];
  decode_signature = λ text. some text;
  to_vec = λ text. text;
  now = 100;
}

abbrev md : PayloadMetadata
md = record {
  accepting_hash = 1;
  accepting_daa = 2;
  accepting_time = 50;
  tx_id = 3;
  tx_outputs = none;
  tx_status = none;
}

abbrev fresh : SimpleAuth
unfolding initialize
fresh = initialize (7 ∷ []) md

-- "auth_50_5"
abbrev text : List ℕ
text = 97 ∷ 117 ∷ 116 ∷ 104 ∷ 95 ∷ 53 ∷ 48 ∷ 95 ∷ 53 ∷ []

made : generate_with_entropy 50 5 ≡ text
unfolding generate_with_entropy print_u64
made = refl

abbrev challenged : SimpleAuth
challenged = record {
  owner = some 7;
  current_challenge = some text;
  is_authenticated = false;
  session_token = none;
  challenge_timestamp = 50;
  rate_limits = (7, 50 ∷ []) ∷ [];
  authorized_participants = 7 ∷ [];
}

abbrev opened : SimpleAuth
opened = record challenged { is_authenticated = true; session_token = some (1 ∷ []) }

requesting : execute env fresh request_challenge (some 7) md ≡ (challenged, ok (challenge none 50))
unfolding execute initialize is_rate_limited dispatch request generate_with_entropy print_u64
requesting = refl

responding :
    execute env challenged (submit_response text text) (some 7) md
    ≡ (opened, ok (authentication false none))
unfolding execute is_rate_limited dispatch respond is_valid strip_prefix until parse_u64
    parse_digits verify to_message verify_signature
responding = refl

execute-answers_example :
    is_ok (execute env challenged (submit_response text text) (some 7) md).1
    ≡ bytes_eq text (generate_with_entropy 50 5)
      && (leb (100 - 50) 3600 && verify env 7 (generate_with_entropy 50 5) text)
unfolding initialize is_rate_limited
execute-answers_example =
    execute-answers env fresh challenged 7 7 md md (challenge none 50) text text requesting
      (omega arith) refl refl refl

Reachable-IsSession_example : IsSession opened (authentication false none ∷ challenge none 50 ∷ [])
unfolding initialize
Reachable-IsSession_example =
    Reachable-IsSession env opened (authentication false none ∷ challenge none 50 ∷ []) (
      executed challenged opened (challenge none 50 ∷ []) (submit_response text text) (some 7) md
        (authentication false none) responding
        (executed fresh challenged [] request_challenge (some 7) md (challenge none 50) requesting
          (started fresh (7 ∷ []) md refl)))

rollback-execute_kept_example :
    (rollback opened (authentication false none) ≡ (challenged, true))
    × ((submit_response text text ≡ request_challenge)
        ⊎ ((opened.owner ≡ challenged.owner) × (opened.rate_limits ≡ challenged.rate_limits)))
rollback-execute_kept_example =
    rollback-execute_kept env challenged opened (submit_response text text) (some 7) md
      (authentication false none) responding
