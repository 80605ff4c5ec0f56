-- ===== src/Board/Codec.antt =====
-- The byte form of a bond's script policy is read back: wallet/kaspa_scripts.rs of
-- examples/comment-board/src.
use kdapp.Base.{
  ℕ, zero, suc, ◌*◌, ◌<◌, ◌≤◌, ◌≡◌, refl, ap, some, List, [], ◌∷◌, ◌++◌, length, take, drop, ltb,
  length-append, drop-append, from_le_bytes-to_le_bytes, to_le_bytes, u64_mod, arith, Bool-cases,
  inl, inr,
}
use kdapp.Board.Descriptor.{
  BondScriptKind, p2pk, time_lock, moderator_multisig, time_or_moderator, keys_bytes,
  encode_bond_descriptor, read_u64, skip_bytes, read_moderators, decode_p2pk, decode_time_lock,
  decode_multisig, decode_time_or_moderator, decode_bond_descriptor,
}

skip_bytes-append : (n : ℕ) (xs ys : List ℕ) → length xs ≡ n → skip_bytes n (xs ++ ys) ≡ some ys
unfolding skip_bytes
skip_bytes-append n xs ys h = elim (Bool-cases (ltb (length (xs ++ ys)) n)) [
  | inl short ↦ absurd (ground (arith, length-append xs ys))
  | inr enough ↦ rw enough (ap some (drop-append xs ys n h))
]

skip_bytes_all :
    (n : ℕ) (xs : List ℕ) → length xs ≡ n → (rest : List ℕ) × (skip_bytes n xs ≡ some rest)
unfolding skip_bytes
skip_bytes_all n xs h = (drop n xs, ground arith)

read_u64-append :
    (x : ℕ) (rest : List ℕ) → x < u64_mod → read_u64 (to_le_bytes 8 x ++ rest) ≡ some (x, rest)
unfolding read_u64
read_u64-append x rest h = ground (arith, from_le_bytes-to_le_bytes 8 x)

abbrev pub AllKeys : List (List ℕ) → Type 0
AllKeys [] = Unit {0}
AllKeys (key ∷ keys) = (length key ≡ 33) × AllKeys keys

length-keys_bytes :
    (count : ℕ) (keys : List (List ℕ))
    → AllKeys keys
    → count ≤ length keys
    → length (keys_bytes (take count keys)) ≡ count * 33
length-keys_bytes zero keys h le = refl
length-keys_bytes (suc count) [] h le = absurd (omega arith)
length-keys_bytes (suc count) (key ∷ keys) (h, t) le =
    let rest = length-keys_bytes count keys t (omega arith) in
    omega (arith, length-append key (keys_bytes (take count keys)))

read_moderators-append :
    (required count : ℕ) (user : List ℕ) (keys : List (List ℕ))
    → length user ≡ 33
    → AllKeys keys
    → count ≤ length keys
    → read_moderators (required ∷ count ∷ (keys_bytes (take count keys) ++ user))
      ≡ some (required, count)
unfolding read_moderators
read_moderators-append required count user keys u k le =
    let (rest, e) = skip_bytes_all 33 user u in
    rw
      (
        skip_bytes-append (count * 33) (keys_bytes (take count keys)) user
            (length-keys_bytes count keys k le),
        read_moderators,
      )
      (rw (e, read_moderators) refl)

abbrev pub unlock_time_of : BondScriptKind → ℕ
unlock_time_of p2pk = 0
unlock_time_of (time_lock time) = time
unlock_time_of (moderator_multisig required count) = 0
unlock_time_of (time_or_moderator time required count) = time

abbrev pub moderator_count_of : BondScriptKind → ℕ
moderator_count_of p2pk = 0
moderator_count_of (time_lock time) = 0
moderator_count_of (moderator_multisig required count) = count
moderator_count_of (time_or_moderator time required count) = count

-- A policy whose time fits 64 bits is read back from its byte form, whatever the moderators are, as
-- long as all keys have 33 bytes and no fewer moderators are given than the policy counts.
pub decode_bond_descriptor-encode_bond_descriptor :
    (kind : BondScriptKind) (user : List ℕ) (keys : List (List ℕ))
    → length user ≡ 33
    → AllKeys keys
    → moderator_count_of kind ≤ length keys
    → unlock_time_of kind < u64_mod
    → decode_bond_descriptor (encode_bond_descriptor kind user (some keys)) ≡ some kind
unfolding decode_bond_descriptor encode_bond_descriptor
decode_bond_descriptor-encode_bond_descriptor p2pk user keys u k le t =
    let (rest, e) = skip_bytes_all 33 user u in rw (e, decode_p2pk) refl
decode_bond_descriptor-encode_bond_descriptor (time_lock time) user keys u k le t =
    let (rest, e) = skip_bytes_all 33 user u in
    rw (read_u64-append time user t, decode_time_lock) (rw (e, decode_time_lock) refl)
decode_bond_descriptor-encode_bond_descriptor (moderator_multisig required count) user keys u k le
      t =
    rw (read_moderators-append required count user keys u k le, decode_multisig) refl
decode_bond_descriptor-encode_bond_descriptor (time_or_moderator time required count) user keys u k
      le t =
    rw
      (
        read_u64-append time (required ∷ count ∷ (keys_bytes (take count keys) ++ user)) t,
        decode_time_or_moderator,
      )
      (rw (read_moderators-append required count user keys u k le, decode_time_or_moderator) refl)
