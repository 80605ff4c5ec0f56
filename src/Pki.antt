-- ===== src/Pki.antt =====
-- kdapp/src/pki.rs: messages, signing and verification. A public key is the number that its
-- 33-byte compressed form reads as, and a secret key, a digest and a signature are their bytes.
-- The curve (secp256k1) and the hash (sha2) are other packages: they are the record `Secp`.
use kdapp.Base.{ℕ, ◌≡◌, Bool, true, List}

pub record Secp : Type 0 where
  pub sha256 : List ℕ → List ℕ
  pub public_key : List ℕ → ℕ
  pub sign_ecdsa : List ℕ → List ℕ → List ℕ
  pub verify_ecdsa : List ℕ → List ℕ → ℕ → Bool

-- What the signer makes verifies under its own key: the documented contract of ECDSA.
pub record IsSound (c : Secp) : Type 0 where
  pub verify-sign :
      (msg sk : List ℕ) → c.verify_ecdsa msg (c.sign_ecdsa msg sk) (c.public_key sk) ≡ true

module _ (c : Secp) where
  -- The argument is the object's borsh form.
  unfoldable pub to_message : List ℕ → List ℕ
  to_message bytes = c.sha256 bytes

  unfoldable pub sign_message : List ℕ → List ℕ → List ℕ
  sign_message sk msg = c.sign_ecdsa msg sk

  unfoldable pub verify_signature : ℕ → List ℕ → List ℕ → Bool
  verify_signature pk msg sig = c.verify_ecdsa msg sig pk
