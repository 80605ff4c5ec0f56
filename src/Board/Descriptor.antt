-- ===== src/Board/Descriptor.antt =====
-- examples/comment-board/src/wallet/kaspa_scripts.rs: the byte form of a bond's script policy, with
-- `BondScriptKind` of src/episode/commands.rs. A public key is its 33 compressed bytes.
use kdapp.Base.{
  ℕ, ◌*◌, Bool, true, false, Option, none, some, List, [], ◌∷◌, ◌++◌, length, take, drop, ltb, ◌==◌,
  if◌then◌else◌, to_le_bytes, from_le_bytes,
}

pub data BondScriptKind : Type 0 where
  p2pk : BondScriptKind
  time_lock : (unlock_time : ℕ) → BondScriptKind
  moderator_multisig : (required_signatures moderator_count : ℕ) → BondScriptKind
  time_or_moderator : (unlock_time required_signatures moderator_count : ℕ) → BondScriptKind

-- The keys of the moderators one after the other.
abbrev pub keys_bytes : List (List ℕ) → List ℕ
keys_bytes [] = []
keys_bytes (key ∷ keys) = key ++ keys_bytes keys

abbrev pub moderators_bytes : ℕ → Option (List (List ℕ)) → List ℕ
moderators_bytes count none = []
moderators_bytes count (some keys) = keys_bytes (take count keys)

unfoldable pub encode_bond_descriptor : BondScriptKind → List ℕ → Option (List (List ℕ)) → List ℕ
encode_bond_descriptor p2pk user moderators = 1 ∷ user
encode_bond_descriptor (time_lock unlock_time) user moderators =
    2 ∷ (to_le_bytes 8 unlock_time ++ user)
encode_bond_descriptor (moderator_multisig required count) user moderators =
    3 ∷ required ∷ count ∷ (moderators_bytes count moderators ++ user)
encode_bond_descriptor (time_or_moderator unlock_time required count) user moderators =
    4
    ∷ (to_le_bytes 8 unlock_time ++ required ∷ count ∷ (moderators_bytes count moderators ++ user))

-- The readers return what is left of the bytes.
unfoldable pub read_u64 : List ℕ → Option (ℕ × List ℕ)
read_u64 bytes =
    if ltb (length bytes) 8 then none else some (from_le_bytes (take 8 bytes), drop 8 bytes)

unfoldable pub skip_bytes : ℕ → List ℕ → Option (List ℕ)
skip_bytes n bytes = if ltb (length bytes) n then none else some (drop n bytes)

-- The number of signatures and of moderators, the moderators' keys and the user's key.
unfoldable pub read_moderators : List ℕ → Option (ℕ × ℕ)
read_moderators [] = none
read_moderators (required ∷ []) = none
read_moderators (required ∷ count ∷ bytes) = elim (skip_bytes (count * 33) bytes) [
  | none ↦ none
  | some rest ↦ elim (skip_bytes 33 rest) [ none ↦ none | some _ ↦ some (required, count) ]
]

abbrev pub decode_p2pk : List ℕ → Option BondScriptKind
decode_p2pk bytes = elim (skip_bytes 33 bytes) [ none ↦ none | some _ ↦ some p2pk ]

abbrev pub decode_time_lock : List ℕ → Option BondScriptKind
decode_time_lock bytes = elim (read_u64 bytes) [
  | none ↦ none
  | some (time, rest) ↦ elim (skip_bytes 33 rest) [ none ↦ none | some _ ↦ some (time_lock time) ]
]

abbrev pub decode_multisig : List ℕ → Option BondScriptKind
decode_multisig bytes = elim (read_moderators bytes) [
  | none ↦ none
  | some (required, count) ↦ some (moderator_multisig required count)
]

abbrev pub decode_time_or_moderator : List ℕ → Option BondScriptKind
decode_time_or_moderator bytes = elim (read_u64 bytes) [
  | none ↦ none
  | some (time, rest) ↦ elim (read_moderators rest) [
    | none ↦ none
    | some (required, count) ↦ some (time_or_moderator time required count)
  ]
]

unfoldable pub decode_bond_descriptor : List ℕ → Option BondScriptKind
decode_bond_descriptor [] = none
decode_bond_descriptor (tag ∷ bytes) =
    if tag == 1
    then decode_p2pk bytes
    else if tag == 2
    then decode_time_lock bytes
    else if tag == 3
    then decode_multisig bytes
    else if tag == 4
    then decode_time_or_moderator bytes
    else none

-- The derived `==`.
unfoldable pub kind_eq : BondScriptKind → BondScriptKind → Bool
kind_eq p2pk p2pk = true
kind_eq (time_lock t) (time_lock u) = t == u
kind_eq (moderator_multisig r c) (moderator_multisig s d) = if r == s then c == d else false
kind_eq (time_or_moderator t r c) (time_or_moderator u s d) =
    if t == u then (if r == s then c == d else false) else false
kind_eq _ _ = false
