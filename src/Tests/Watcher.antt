-- ===== src/Tests/Watcher.antt =====
-- The loop of examples/kdapp-merchant/src/watcher.rs: two checkpoints, the first of them under
-- congestion.
use kdapp.Base.{
  ℕ, ◌+◌, ◌*◌, ◌%◌, ◌≡◌, refl, Option, none, some, List, [], ◌∷◌, length, map, replicate, ◌==◌, leb,
}
use kdapp.Tlv.{bytes_for_sign, encode, sign, verify, decode_frame, from_u8}
use kdapp.Watcher.{
  Floats, FeePolicyKind, congestion_policy, Watcher, Submission, Round, start, watch, watch_round,
  process, fee_and_deferral,
}
use kdapp.Watcher.Served.{Served, watch-Served}

abbrev blake : List ℕ → List ℕ
blake bytes = replicate 64 (length bytes % 256)

abbrev key : List ℕ
key = 107 ∷ 100 ∷ []

abbrev floats : Floats
floats = record {
  zero_ratio = 0;
  one_ratio = 1;
  is_ge = λ a b. leb b a;
  scaled = λ base multiplier ratio. base * (1 + multiplier * ratio);
}

abbrev policy : FeePolicyKind
policy = congestion_policy 5000 9000 8 1

-- A checkpoint of episode 42 with a number.
abbrev datagram : ℕ → List ℕ
datagram seq = encode (
    sign blake
      (record {
        version = 2;
        msg_type = 5;
        script_policy = 1;
        episode_id = 42;
        seq = seq;
        state_hash = replicate 32 3;
        payload = [];
        auth = replicate 32 0;
      })
      key)

abbrev busy : Round
busy = record {
  bytes = datagram 1;
  mempool = some (6000, 9);
  overrides = record { max_fee = none; congestion_threshold = none };
  submits = λ c fee. c.seq == 2;
}

-- The limit is lowered, and the scaled fee is above it.
abbrev calm : Round
calm = record {
  bytes = datagram 2;
  mempool = some (6000, 1);
  overrides = record { max_fee = some 8000; congestion_threshold = none };
  submits = λ c fee. c.seq == 2;
}

watch-Served_example :
    Served blake key
      (start floats policy)
      (busy ∷ calm ∷ [])
      (watch blake key floats (start floats policy) (busy ∷ calm ∷ []))
watch-Served_example =
    watch-Served blake key floats policy (busy ∷ calm ∷ []) refl (refl, (refl, tt))

abbrev fees_of : Option (Watcher × List Submission) → List ℕ
fees_of none = []
fees_of (some (w, submissions)) = map (λ a. a.fee) submissions

-- Both are submitted in the second round.
both_submitted :
    fees_of (watch blake key floats (start floats policy) (busy ∷ calm ∷ [])) ≡ 8000 ∷ 8000 ∷ []
unfolding watch watch_round process fee_and_deferral encode sign bytes_for_sign verify decode_frame
    from_u8
both_submitted = refl

-- An override below the policy's minimum ends the loop.
override_panics :
    watch blake key floats
      (start floats policy)
      (record calm { overrides = record { max_fee = some 4000; congestion_threshold = none } } ∷ [])
    ≡ none
unfolding watch watch_round process fee_and_deferral encode sign bytes_for_sign verify decode_frame
    from_u8
override_panics = refl
