-- ===== src/Tests/Router.antt =====
-- A session of examples/kas-draw/src/offchain.rs, with a repeated command, and a close after the engine is gone.
use kdapp.Base.{ℕ, ◌≡◌, refl, Bool, true, false, none, some, List, [], ◌∷◌, replicate, lookup}
use kdapp.Router.{
  encode, decode, from_u8, OffchainRouter, Surroundings, judge, opens, follows, forward, route,
  run_udp,
}
use kdapp.Router.Sessions.{tracked, run_udp-tracked}

abbrev frame : ℕ → ℕ → ℕ → List ℕ
unfolding encode
frame t episode seq = encode (record {
  version = 1;
  msg_type = t;
  episode_id = episode;
  seq = seq;
  state_hash = replicate 32 0;
  payload = 9 ∷ [];
})

-- The clock at a datagram, and whether the engine still receives.
abbrev at : ℕ → Bool → Surroundings
at now receives = record {
  engine_receives = receives;
  now_secs = now;
  close_command = λ id. id ∷ [];
}

abbrev idle : OffchainRouter
idle = record { last_seq = []; ack_enabled = true; close_enabled = true }

abbrev datagrams : List (Surroundings × List ℕ)
unfolding encode
datagrams =
    (at 50 true, frame 0 5 0)
    ∷ (at 51 true, frame 0 6 0)
    ∷ (at 51 true, frame 1 5 1)
    ∷ (at 53 true, frame 1 5 1)
    ∷ (at 54 true, frame 3 6 1)
    ∷ (at 60 false, frame 3 5 2)
    ∷ []

run_udp-tracked_example :
    lookup 5 (run_udp idle datagrams).0.last_seq ≡ tracked true 5 none datagrams
unfolding encode
run_udp-tracked_example = run_udp-tracked idle datagrams 5

-- The engine was gone when this episode was closed, so its number is kept.
reached : lookup 5 (run_udp idle datagrams).0.last_seq ≡ some 2
unfolding encode run_udp route forward judge opens follows decode from_u8
reached = refl

closed : lookup 6 (run_udp idle datagrams).0.last_seq ≡ none
unfolding encode run_udp route forward judge opens follows decode from_u8
closed = refl
