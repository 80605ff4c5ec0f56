-- ===== src/Board/Bond.antt =====
-- The check of a comment's bond in examples/comment-board/src/episode/board_with_contract.rs.
use kdapp.Base.{ℕ, not, Option, none, some, List, any, get_elem?, ◌==◌, ltb, leb, if◌then◌else◌}
use kdapp.Episode.{TxOutputInfo}
use kdapp.Board.Descriptor.{BondScriptKind, decode_bond_descriptor, kind_eq}
use kdapp.Board.{
  ContractError, bonds_disabled, insufficient_bond, descriptor_mismatch, CommentRoomContract,
}

-- Where the script of the output can be decoded, it is the one that the command describes.
unfoldable pub check_script : Option BondScriptKind → TxOutputInfo → Option ContractError
check_script none output = none
check_script (some descriptor) output = elim output.script_bytes [
  | none ↦ none
  | some bytes ↦ elim (decode_bond_descriptor bytes) [
    | none ↦ none
    | some onchain ↦ if kind_eq onchain descriptor then none else some descriptor_mismatch
  ]
]

unfoldable pub check_outputs :
    ℕ → Option ℕ → Option BondScriptKind → List TxOutputInfo → Option ContractError
check_outputs bond (some index) script outputs = elim (get_elem? outputs index) [
  | none ↦ some (insufficient_bond bond 0)
  | some output ↦
      if output.value == bond then check_script script output else some (insufficient_bond bond 0)
]
check_outputs bond none script outputs =
    if any (λ output. leb bond output.value) outputs then none else some (insufficient_bond bond 0)

abbrev pub check_known :
    ℕ → Option ℕ → Option BondScriptKind → Option (List TxOutputInfo) → Option ContractError
check_known bond index script none = none
check_known bond index script (some outputs) = check_outputs bond index script outputs

-- What is wrong with a bond; none is taken to be right.
unfoldable pub check_bond :
    CommentRoomContract
    → ℕ
    → Option ℕ
    → Option BondScriptKind
    → Option (List TxOutputInfo)
    → Option ContractError
check_bond contract bond index script outputs =
    if bond == 0
    then none
    else if not contract.bonds_enabled
    then some bonds_disabled
    else if ltb bond contract.min_bond
    then some (insufficient_bond contract.min_bond bond)
    else check_known bond index script outputs
