-- ===== src/Tlv.antt =====
-- examples/kdapp-merchant/src/tlv.rs: the signed frames that merchant, guardian and customer send
-- off chain. Bytes are numbers below 256, and a message type stands in its frame as a number.
pub mod Codec
use kdapp.Base.{
  ℕ, ◌+◌, ◌%◌, ◌≡◌, Bool, true, false, not, Option, none, some, List, [], ◌∷◌, ◌++◌, length, take,
  drop, slice, byte, ltb, ◌==◌, if◌then◌else◌, to_le_bytes, from_le_bytes, bytes_eq, u16_mod,
}

abbrev pub tlv_version : ℕ
tlv_version = 2

abbrev pub script_policy_version : ℕ
script_policy_version = 1

pub data MsgType : Type 0 where
  new : MsgType
  cmd : MsgType
  ack : MsgType
  close : MsgType
  ack_close : MsgType
  checkpoint : MsgType
  handshake : MsgType
  refund : MsgType
  sub_charge : MsgType
  sub_charge_ack : MsgType
  sub_dispute : MsgType
  sub_dispute_resolve : MsgType

abbrev pub to_u8 : MsgType → ℕ
to_u8 new = 0
to_u8 cmd = 1
to_u8 ack = 2
to_u8 close = 3
to_u8 ack_close = 4
to_u8 checkpoint = 5
to_u8 handshake = 6
to_u8 refund = 7
to_u8 sub_charge = 8
to_u8 sub_charge_ack = 9
to_u8 sub_dispute = 10
to_u8 sub_dispute_resolve = 11

unfoldable pub from_u8 : ℕ → Option MsgType
from_u8 v =
    if v == 0
    then some new
    else if v == 1
    then some cmd
    else if v == 2
    then some ack
    else if v == 3
    then some close
    else if v == 4
    then some ack_close
    else if v == 5
    then some checkpoint
    else if v == 6
    then some handshake
    else if v == 7
    then some refund
    else if v == 8
    then some sub_charge
    else if v == 9
    then some sub_charge_ack
    else if v == 10
    then some sub_dispute
    else if v == 11
    then some sub_dispute_resolve
    else none

pub record TlvMsg : Type 0 where
  pub version : ℕ
  pub msg_type : ℕ
  pub script_policy : ℕ
  pub episode_id : ℕ
  pub seq : ℕ
  pub state_hash : List ℕ
  pub payload : List ℕ
  pub auth : List ℕ

-- `payload.len() as u16` keeps the lowest 16 bits.
unfoldable pub bytes_for_sign : TlvMsg → List ℕ
bytes_for_sign m =
    m.version
    ∷ m.msg_type
    ∷ (to_le_bytes 2 m.script_policy
        ++ (to_le_bytes 8 m.episode_id
            ++ (to_le_bytes 8 m.seq
                ++ (m.state_hash ++ (to_le_bytes 2 (length m.payload % u16_mod) ++ m.payload)))))

unfoldable pub encode : TlvMsg → List ℕ
encode m = bytes_for_sign m ++ m.auth

-- The first 32 bytes of the digest of the key and the bytes.
module _ (blake2b512 : List ℕ → List ℕ) where
  unfoldable pub sign : TlvMsg → List ℕ → TlvMsg
  sign m key = record m { auth = take 32 (blake2b512 (key ++ bytes_for_sign m)) }

  unfoldable pub verify : TlvMsg → List ℕ → Bool
  verify m key = bytes_eq m.auth (take 32 (blake2b512 (key ++ bytes_for_sign m)))

  unfoldable pub hash_state : List ℕ → List ℕ
  hash_state bytes = take 32 (blake2b512 bytes)

-- `decode`, for a program's own table of message types.
module _ {T : Type 0} (types : ℕ → Option T) where
  unfoldable pub decode_frame : List ℕ → Option TlvMsg
  decode_frame bytes =
      if ltb (length bytes) 86
      then none
      else if not (byte bytes 0 == tlv_version)
      then none
      else elim (types (byte bytes 1)) [
        | none ↦ none
        | some _ ↦
            let payload_len = from_le_bytes (slice 52 54 bytes) in
            let payload_end = 54 + payload_len in
            if ltb (length bytes) (payload_end + 32)
            then none
            else some (record {
              version = byte bytes 0;
              msg_type = byte bytes 1;
              script_policy = from_le_bytes (slice 2 4 bytes);
              episode_id = from_le_bytes (slice 4 12 bytes);
              seq = from_le_bytes (slice 12 20 bytes);
              state_hash = slice 20 52 bytes;
              payload = slice 54 payload_end bytes;
              auth = slice payload_end (payload_end + 32) bytes;
            })
      ]

abbrev pub decode : List ℕ → Option TlvMsg
decode = decode_frame from_u8
