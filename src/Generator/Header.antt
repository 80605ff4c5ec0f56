-- ===== src/Generator/Header.antt =====
-- The payload's header of kdapp/src/generator.rs: what each operation of `Payload` undoes or keeps.
use kdapp.Base.{
  ℕ, ◌<◌, ◌≡◌, sym, ap, ◌∙◌, true, some, List, ◌++◌, arith, to_le_bytes, from_le_bytes,
  from_le_bytes-to_le_bytes, bytes_eq, bytes_eq_self, eq_of_bytes_eq, u32_mod,
}
use kdapp.Generator.{pack_header, check_header, set_nonce, strip_header}

-- A payload with a whole header: its prefix, a nonce and the data.
abbrev pub framed : ℕ → ℕ → List ℕ → List ℕ
framed prefix nonce inner = to_le_bytes 4 prefix ++ (to_le_bytes 4 nonce ++ inner)

pub set_nonce-framed :
    (p n k : ℕ) (inner : List ℕ) → set_nonce (framed p n inner) k ≡ some (framed p k inner)
unfolding set_nonce
set_nonce-framed p n k inner = ground arith

pub strip_header-framed : (p n : ℕ) (inner : List ℕ) → strip_header (framed p n inner) ≡ some inner
unfolding strip_header
strip_header-framed p n inner = ground arith

pub check_header-framed :
    (p n q : ℕ) (inner : List ℕ)
    → check_header (framed p n inner) q ≡ bytes_eq (to_le_bytes 4 p) (to_le_bytes 4 q)
unfolding check_header
check_header-framed p n q inner = ground arith

same_prefix :
    (p q : ℕ)
    → p < u32_mod
    → q < u32_mod
    → bytes_eq (to_le_bytes 4 p) (to_le_bytes 4 q) ≡ true
    → p ≡ q
same_prefix p q hp hq h =
    sym (from_le_bytes-to_le_bytes 4 p (omega arith))
    ∙ ap from_le_bytes (eq_of_bytes_eq (to_le_bytes 4 p) (to_le_bytes 4 q) h)
    ∙ from_le_bytes-to_le_bytes 4 q (omega arith)

-- A packed payload, under any nonce that is set later, has the header of its own prefix and that
-- of no other prefix, and gives back the data.
pub set_nonce-pack_header :
    (inner : List ℕ) (prefix nonce : ℕ)
    → prefix < u32_mod
    → (payload : List ℕ) × (set_nonce (pack_header inner prefix) nonce ≡ some payload)
      × (strip_header payload ≡ some inner)
      × (check_header payload prefix ≡ true)
      × ((q : ℕ) → q < u32_mod → check_header payload q ≡ true → prefix ≡ q)
unfolding pack_header
set_nonce-pack_header inner prefix nonce hp = (
  framed prefix nonce inner,
  set_nonce-framed prefix 0 nonce inner,
  strip_header-framed prefix nonce inner,
  check_header-framed prefix nonce prefix inner ∙ bytes_eq_self (to_le_bytes 4 prefix),
  λ q hq h. same_prefix prefix q hp hq (sym (check_header-framed prefix nonce q inner) ∙ h),
)
