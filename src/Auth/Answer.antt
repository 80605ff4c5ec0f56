-- ===== src/Auth/Answer.antt =====
-- A challenge of examples/kaspa-auth/src/core/episode.rs and the responses that it admits.
use kdapp.Base.{
  ℕ, ◌-◌, ◌<◌, ◌≡◌, refl, ◌∙◌, Bool, true, false, ◌&&◌, some, List, contains, leb, bytes_eq,
  u64_mod, arith,
}
use kdapp.Episode.{Result, ok, err, PayloadMetadata}
use kdapp.Text.{print_u64, strip_prefix}
use kdapp.Text.Decimal.{parse_u64-print_u64}
use kdapp.Auth.{
  request_challenge, submit_response, AuthRollback, SimpleAuth, Surroundings, generate_with_entropy,
  is_valid, is_rate_limited, verify, request, answer, respond, dispatch, execute,
}

-- The time in a challenge is the time for which it was made.
generate_with_entropy-is_valid :
    (now timestamp number age : ℕ)
    → timestamp < u64_mod
    → is_valid now (generate_with_entropy timestamp number) age ≡ leb (now - timestamp) age
unfolding is_valid generate_with_entropy strip_prefix
generate_with_entropy-is_valid now timestamp number age h =
    rw (parse_u64-print_u64 timestamp (print_u64 number) h, is_valid) refl

abbrev pub is_ok : {E A : Type 0} → Result E A → Bool
is_ok (ok a) = true
is_ok (err e) = false

module _ (env : Surroundings) where
  -- What a response meets where a challenge stands.
  answered :
      (s : SimpleAuth) (q : ℕ) (signature nonce current : List ℕ)
      → is_ok (answer env s q signature nonce current).1
        ≡ bytes_eq nonce current
          && (is_valid env.now current 3600 && verify env q current signature)
  unfolding answer
  answered s q signature nonce current = ground arith

  responded :
      (s : SimpleAuth) (q : ℕ) (signature nonce current : List ℕ) (md : PayloadMetadata)
      → s.current_challenge ≡ some current
      → s.is_authenticated ≡ false
      → contains s.authorized_participants q ≡ true
      → is_rate_limited s q md.accepting_time ≡ false
      → is_ok (execute env s (submit_response signature nonce) (some q) md).1
        ≡ bytes_eq nonce current
          && (is_valid env.now current 3600 && verify env q current signature)
  unfolding execute dispatch respond
  responded s q signature nonce current md given fresh member free =
      ground (arith, answered s q signature nonce current)

  requested :
      (s s' : SimpleAuth) (p : ℕ) (md : PayloadMetadata) (r : AuthRollback)
      → execute env s request_challenge (some p) md ≡ (s', ok r)
      → (s'.current_challenge
          ≡ some
              (generate_with_entropy md.accepting_time (env.random md.accepting_time p md.tx_id)))
        × (s'.is_authenticated ≡ s.is_authenticated)
        × (s'.authorized_participants ≡ s.authorized_participants)
  unfolding execute dispatch request
  requested s s' p md r h = (ground arith, ground arith, ground arith)

  -- After an accepted request, at a time that fits 64 bits, the response of an authorized participant
  -- that is not rate limited, where nobody is authenticated yet, is accepted exactly when it repeats
  -- the challenge that was made for the request, when at most 3600 seconds have passed by the clock of
  -- the machine, and when it carries a signature of the challenge by that participant.
  pub execute-answers :
      (s s' : SimpleAuth) (p q : ℕ) (md md' : PayloadMetadata) (r : AuthRollback)
      (signature nonce : List ℕ)
      → execute env s request_challenge (some p) md ≡ (s', ok r)
      → md.accepting_time < u64_mod
      → s.is_authenticated ≡ false
      → contains s.authorized_participants q ≡ true
      → is_rate_limited s' q md'.accepting_time ≡ false
      → let made =
          generate_with_entropy md.accepting_time (env.random md.accepting_time p md.tx_id) in
        is_ok (execute env s' (submit_response signature nonce) (some q) md').1
        ≡ bytes_eq nonce made
          && (leb (env.now - md.accepting_time) 3600 && verify env q made signature)
  execute-answers s s' p q md md' r signature nonce done time fresh member free =
      let made =
        generate_with_entropy md.accepting_time (env.random md.accepting_time p md.tx_id) in
      let (given, still, members) = requested s s' p md r done in
      responded s' q signature nonce made md' given (still ∙ fresh) (rw members member) free
      ∙ rw
          (generate_with_entropy-is_valid env.now md.accepting_time
            (env.random md.accepting_time p md.tx_id) 3600 time)
          refl
