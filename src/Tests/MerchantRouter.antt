-- ===== src/Tests/MerchantRouter.antt =====
-- The routers of examples/kdapp-merchant/src/udp_router.rs and tcp_router.rs: a peer that greets and
-- opens an episode.
use kdapp.Base.{ℕ, ◌%◌, ◌≡◌, refl, none, List, [], ◌∷◌, length, replicate, take, drop, arith}
use kdapp.Tlv.{TlvMsg, bytes_for_sign, encode, sign, from_u8, decode_frame, verify}
use kdapp.MerchantRouter.{UdpRouter, run_udp, udp_round, read_msg, deliver, judge, udp_message}
use kdapp.MerchantRouter.Tcp.{TcpState, handle_stream}
use kdapp.MerchantRouter.Framing.{no_frames, frame, IsFrame, SameRun, joined, handle_stream-run_udp}

abbrev blake : List ℕ → List ℕ
blake bytes = replicate 64 (length bytes % 256)

abbrev message : ℕ → List ℕ → TlvMsg
message msg_type payload = record {
  version = 2;
  msg_type = msg_type;
  script_policy = 1;
  episode_id = 42;
  seq = 0;
  state_hash = replicate 32 0;
  payload = payload;
  auth = replicate 32 0;
}

-- A handshake with the key 7, and an episode that is opened under it.
abbrev greeting : List ℕ
greeting = encode (sign blake (message 6 (7 ∷ [])) (7 ∷ []))

abbrev opening : List ℕ
opening = encode (sign blake (message 0 (1 ∷ 42 ∷ [])) (7 ∷ []))

-- One arrives at second 1000, the other at 1003.
abbrev arrivals : List (ℕ × List ℕ)
arrivals = (1000, greeting) ∷ (1003, opening) ∷ []

abbrev idle : UdpRouter
idle = record { last_seq = []; keys = [] }

abbrev waiting : TcpState
waiting = record { last_seq = []; key = none }

greeting-IsFrame : IsFrame greeting
unfolding encode bytes_for_sign sign
greeting-IsFrame = record {
  header = take 54 greeting;
  tail = drop 54 greeting;
  parts = refl;
  header_length = refl;
  tail_length = refl;
  fits = omega arith;
}

opening-IsFrame : IsFrame opening
unfolding encode bytes_for_sign sign
opening-IsFrame = record {
  header = take 54 opening;
  tail = drop 54 opening;
  parts = refl;
  header_length = refl;
  tail_length = refl;
  fits = omega arith;
}

handle_stream-run_udp_example :
    SameRun 5
      (handle_stream blake (1000 ∷ 1003 ∷ 1009 ∷ []) waiting (joined arrivals))
      (run_udp blake idle 5 arrivals)
handle_stream-run_udp_example =
    handle_stream-run_udp blake 5 idle waiting arrivals 1009 []
      (record { numbers = refl; peer_key = refl })
      (frame greeting-IsFrame (frame opening-IsFrame no_frames))

-- The greeting is answered, the opening is forwarded and answered.
opened : length (run_udp blake idle 5 arrivals).1 ≡ 1
unfolding run_udp udp_round read_msg decode_frame encode bytes_for_sign sign from_u8 udp_message
    deliver verify judge
opened = refl
