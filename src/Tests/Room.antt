-- ===== src/Tests/Room.antt =====
-- A participant of a room (examples/comment-it/src/core/episode.rs) signs in and comments.
use kdapp.Base.{◌≡◌, refl, true, false, none, some, [], ◌∷◌, bytes_eq, arith}
use kdapp.Pki.{Secp, to_message, verify_signature}
use kdapp.Episode.{ok, PayloadMetadata}
use kdapp.Text.{is_whitespace, is_blank, len_utf8, byte_len}
use kdapp.Room.{
  submit_response, submit_comment, authentication, comment_added, AuthWithCommentsEpisode,
  Surroundings, initialize, verify, is_rate_limited, respond, comment, dispatch, execute, rollback,
}
use kdapp.Room.Accepted.{IsLog}
use kdapp.Room.History.{started, executed, Reachable-IsLog}
use kdapp.Room.Undo.{rollback-execute_same}
use kdapp.Room.Restored.{IsRestored}

-- A signature is the message itself.
abbrev secp : Secp
secp = record {
  sha256 = λ bytes. bytes;
  public_key = λ sk. 7;
  sign_ecdsa = λ msg sk. msg;
  verify_ecdsa = λ msg sig pk. bytes_eq msg sig;
}

abbrev env : Surroundings
env = record {
  secp = secp;
  print = λ key. key;
  generate_with_provided_timestamp = λ time. time ∷ [];
  decode_signature = λ text. some text;
  to_vec = λ text. text;
}

abbrev md : PayloadMetadata
md = record {
  accepting_hash = 1;
  accepting_daa = 2;
  accepting_time = 50;
  tx_id = 3;
  tx_outputs = none;
  tx_status = none;
}

abbrev room : AuthWithCommentsEpisode
unfolding initialize
room = initialize (7 ∷ 8 ∷ []) md

abbrev signed_in : AuthWithCommentsEpisode
unfolding initialize
signed_in = record room { authenticated_participants = 7 ∷ [] }

abbrev commented : AuthWithCommentsEpisode
unfolding initialize
commented = record signed_in {
  comments = record { id = 1; text = 72 ∷ 105 ∷ []; author = 7; timestamp = 50 } ∷ [];
  next_comment_id = 2;
}

signing_in :
    execute env room (submit_response (9 ∷ []) (9 ∷ [])) (some 7) md
    ≡ (signed_in, ok (authentication 7 false))
unfolding execute initialize is_rate_limited dispatch respond verify to_message verify_signature
signing_in = refl

commenting :
    execute env signed_in (submit_comment (72 ∷ 105 ∷ []) []) (some 7) md
    ≡ (commented, ok (comment_added 1))
unfolding execute initialize is_rate_limited dispatch comment is_blank is_whitespace len_utf8
    byte_len
commenting = refl

Reachable-IsLog_example : IsLog env commented (comment_added 1 ∷ authentication 7 false ∷ [])
unfolding initialize
Reachable-IsLog_example =
    Reachable-IsLog env commented (comment_added 1 ∷ authentication 7 false ∷ []) (
      executed signed_in commented (authentication 7 false ∷ []) (submit_comment (72 ∷ 105 ∷ []) [])
        (some 7) md (comment_added 1) commenting (omega arith)
        (executed room signed_in [] (submit_response (9 ∷ []) (9 ∷ [])) (some 7) md
          (authentication 7 false) signing_in (omega arith) (started room (7 ∷ 8 ∷ []) md refl)))

rollback-execute_same_example :
    ((rollback commented (comment_added 1)).1 ≡ true)
    × IsRestored signed_in (rollback commented (comment_added 1)).0 7 0
unfolding initialize
rollback-execute_same_example =
    rollback-execute_same env signed_in commented (submit_comment (72 ∷ 105 ∷ []) []) 7 md
      (comment_added 1) refl commenting
