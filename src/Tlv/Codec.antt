-- ===== src/Tlv/Codec.antt =====
-- Frames of examples/kdapp-merchant/src/tlv.rs there and back.
use mathlib.Core.List.{append_assoc}
use kdapp.Base.{
  ℕ, ◌+◌, ◌-◌, ◌%◌, ◌<◌, ◌≡◌, refl, ap, ◌∙◌, true, false, Option, some, List, ◌∷◌, ◌++◌, length,
  take, drop, slice, byte, ltb, ◌==◌, take-append, drop-append, length-append, drop-drop, take_all,
  length-take, bytes_eq_self, ap₂, arith, to_le_bytes, from_le_bytes, from_le_bytes-to_le_bytes,
  u16_mod, u64_mod,
}
use kdapp.Tlv.{TlvMsg, tlv_version, bytes_for_sign, encode, sign, verify, decode_frame}

-- What the types of the source's fields say of a frame that is sent, and a payload whose length
-- the two bytes for it can hold.
pub record IsSendable (m : TlvMsg) : Type 0 where
  pub current : m.version ≡ tlv_version
  pub policy_word : m.script_policy < u16_mod
  pub episode_word : m.episode_id < u64_mod
  pub seq_word : m.seq < u64_mod
  pub hash_32 : length m.state_hash ≡ 32
  pub short : length m.payload < u16_mod
  pub auth_32 : length m.auth ≡ 32

-- The fields of fixed place, before a rest.
abbrev prefixed : TlvMsg → List ℕ → List ℕ
prefixed m rest =
    m.version
    ∷ m.msg_type
    ∷ (to_le_bytes 2 m.script_policy
        ++ (to_le_bytes 8 m.episode_id ++ (to_le_bytes 8 m.seq ++ rest)))

abbrev measured : TlvMsg → List ℕ → List ℕ
measured m rest = to_le_bytes 2 (length m.payload % u16_mod) ++ rest

encode-prefixed :
    (m : TlvMsg) → encode m ≡ prefixed m (m.state_hash ++ measured m (m.payload ++ m.auth))
unfolding encode bytes_for_sign
encode-prefixed m = ap (prefixed m) (append_assoc m.state_hash (measured m m.payload) m.auth)

-- A frame is read by its fields.
decode_frame-fields :
    {T : Type 0} (types : ℕ → Option T) (bytes : List ℕ) (m : TlvMsg) (t : T)
    → types m.msg_type ≡ some t
    → m.version ≡ tlv_version
    → byte bytes 0 ≡ m.version
    → byte bytes 1 ≡ m.msg_type
    → length bytes ≡ 86 + length m.payload
    → from_le_bytes (slice 52 54 bytes) ≡ length m.payload
    → from_le_bytes (slice 2 4 bytes) ≡ m.script_policy
    → from_le_bytes (slice 4 12 bytes) ≡ m.episode_id
    → from_le_bytes (slice 12 20 bytes) ≡ m.seq
    → slice 20 52 bytes ≡ m.state_hash
    → slice 54 (54 + length m.payload) bytes ≡ m.payload
    → slice (54 + length m.payload) (54 + length m.payload + 32) bytes ≡ m.auth
    → decode_frame types bytes ≡ some m
unfolding decode_frame
decode_frame-fields types bytes m t known v b0 b1 len pl sp ep sq sh pay au =
    let long : ltb (length bytes) 86 ≡ false = ground arith in
    let fits : ltb (length bytes) (54 + length m.payload + 32) ≡ false = ground arith in
    let ver : (byte bytes 0 == tlv_version) ≡ true = ground arith in
    rw (long, ver, b1, known, pl, fits, b0, sp, ep, sq, sh, pay, au, b1, decode_frame) refl

module _ (m : TlvMsg) (s : IsSendable m) where
  abbrev sent : List ℕ
  sent = prefixed m (m.state_hash ++ measured m (m.payload ++ m.auth))

  after_hash : drop 52 sent ≡ measured m (m.payload ++ m.auth)
  after_hash = drop-append m.state_hash (measured m (m.payload ++ m.auth)) 32 s.hash_32

  after_length : drop 54 sent ≡ m.payload ++ m.auth
  after_length = drop-drop 52 2 sent ∙ ap (drop 2) after_hash

  read_length : from_le_bytes (slice 52 54 sent) ≡ length m.payload
  read_length =
      ap (λ (l : List ℕ). from_le_bytes (take 2 l)) after_hash
      ∙ from_le_bytes-to_le_bytes 2 (length m.payload % u16_mod) (omega arith)
      ∙ omega (arith, s.short)

  length-sent : length sent ≡ 86 + length m.payload
  length-sent = omega (
    arith,
    length-append m.state_hash (measured m (m.payload ++ m.auth)),
    length-append m.payload m.auth,
    s.hash_32,
    s.auth_32,
  )

  read_payload : slice 54 (54 + length m.payload) sent ≡ m.payload
  read_payload =
      ap₂ take (omega arith) after_length ∙ take-append m.payload m.auth (length m.payload) refl

  read_auth : slice (54 + length m.payload) (54 + length m.payload + 32) sent ≡ m.auth
  read_auth =
      let e : 54 + length m.payload + 32 - (54 + length m.payload) ≡ 32 = omega arith in
      ap₂ take e (
        drop-drop 54 (length m.payload) sent
        ∙ ap (drop (length m.payload)) after_length
        ∙ drop-append m.payload m.auth (length m.payload) refl)
      ∙ take_all 32 m.auth s.auth_32

  decode-sent :
      {T : Type 0} (types : ℕ → Option T) (t : T)
      → types m.msg_type ≡ some t
      → decode_frame types sent ≡ some m
  decode-sent types t known =
      decode_frame-fields types sent m t known s.current refl refl length-sent read_length
        (from_le_bytes-to_le_bytes 2 m.script_policy s.policy_word)
        (from_le_bytes-to_le_bytes 8 m.episode_id s.episode_word)
        (from_le_bytes-to_le_bytes 8 m.seq s.seq_word)
        (take-append m.state_hash (measured m (m.payload ++ m.auth)) 32 s.hash_32) read_payload
        read_auth

-- A frame that is sent, of a type that the receiver knows, is read back as it was.
pub decode-encode :
    {T : Type 0} (types : ℕ → Option T) (m : TlvMsg) (t : T)
    → IsSendable m
    → types m.msg_type ≡ some t
    → decode_frame types (encode m) ≡ some m
decode-encode types m t s known =
    ap (decode_frame types) (encode-prefixed m) ∙ decode-sent m s types t known

pub sign-IsSendable :
    (blake2b512 : List ℕ → List ℕ) (m : TlvMsg) (key : List ℕ)
    → ((bytes : List ℕ) → length (blake2b512 bytes) ≡ 64)
    → IsSendable m
    → IsSendable (sign blake2b512 m key)
unfolding sign
sign-IsSendable blake2b512 m key digest s = record {
  current = s.current;
  policy_word = s.policy_word;
  episode_word = s.episode_word;
  seq_word = s.seq_word;
  hash_32 = s.hash_32;
  short = s.short;
  auth_32 =
      length-take 32 (blake2b512 (key ++ bytes_for_sign m))
      ∙ omega (arith, digest (key ++ bytes_for_sign m));
}

-- A frame that is signed and sent is read back with its signature, which verifies under the same
-- key.
pub decode-sign :
    {T : Type 0} (types : ℕ → Option T) (blake2b512 : List ℕ → List ℕ) (m : TlvMsg) (key : List ℕ)
    (t : T)
    → ((bytes : List ℕ) → length (blake2b512 bytes) ≡ 64)
    → IsSendable m
    → types m.msg_type ≡ some t
    → (decode_frame types (encode (sign blake2b512 m key)) ≡ some (sign blake2b512 m key))
      × (verify blake2b512 (sign blake2b512 m key) key ≡ true)
unfolding sign verify bytes_for_sign
decode-sign types blake2b512 m key t digest s known = (
  decode-encode types (sign blake2b512 m key) t (sign-IsSendable blake2b512 m key digest s) known,
  bytes_eq_self (take 32 (blake2b512 (key ++ bytes_for_sign m))),
)

pub length-encode : (m : TlvMsg) → IsSendable m → length (encode m) ≡ 86 + length m.payload
length-encode m s = ap length (encode-prefixed m) ∙ length-sent m s
