-- ===== src/Guardian/Sequence.antt =====
-- The numbering of messages in examples/kdapp-guardian/src/lib.rs: what `observe_msg` and `receive`
-- accept, and that they accept it once.
use kdapp.Base.{
  ℕ, ◌+◌, ◌%◌, ◌≡◌, refl, ap, subst, ◌∙◌, true, false, ◌&&◌, none, some, List, [], ◌∷◌, lookup,
  insert, lookup-insert, ◌==◌, if◌then◌else◌, arith, u64_mod, inl, inr, Bool-cases, Option-cases,
}
use kdapp.Guardian.{GuardianState, observe_msg}

-- The sequence number that an episode expects.
abbrev pub expected : GuardianState → ℕ → ℕ
expected s episode_id = elim (lookup episode_id s.last_seq) [
  | none ↦ 0
  | some last ↦ (last + 1) % u64_mod
]

-- The numbers of an episode that are accepted from a sequence of messages of many episodes.
abbrev pub accepted_seqs : ℕ → GuardianState → List (ℕ × ℕ) → List ℕ
accepted_seqs episode_id s [] = []
accepted_seqs episode_id s ((e, seq) ∷ ms) =
    let (observed, fresh) = observe_msg s e seq in
    let rest = accepted_seqs episode_id observed ms in
    if e == episode_id && fresh then seq ∷ rest else rest

-- Each number is the one after its predecessor.
abbrev pub CountsFrom : ℕ → List ℕ → Type 0
CountsFrom n [] = Unit
CountsFrom n (m ∷ ms) = (m ≡ n) × CountsFrom ((n + 1) % u64_mod) ms

observe_msg-eq :
    (s : GuardianState) (e seq : ℕ)
    → observe_msg s e seq ≡ (
        if seq == expected s e
        then (record s { last_seq = insert e seq s.last_seq }, true)
        else (s, false))
unfolding observe_msg
observe_msg-eq s e seq = elim (Option-cases (lookup e s.last_seq)) [
  | inl h ↦ rw (h, observe_msg, expected) refl
  | inr (last, h) ↦ rw (h, observe_msg, expected) refl
]

pub expected-observed :
    (s : GuardianState) (e seq i : ℕ)
    → expected (record s { last_seq = insert e seq s.last_seq }) i
      ≡ (if e == i then (seq + 1) % u64_mod else expected s i)
expected-observed s e seq i = elim (Bool-cases (e == i)) [
  | inl h ↦ rw (lookup-insert e i seq s.last_seq, expected) (rw (h, expected) refl)
  | inr h ↦ rw (lookup-insert e i seq s.last_seq, expected) (rw (h, expected) refl)
]

abbrev pub noted : GuardianState → ℕ → ℕ → GuardianState
noted s e seq = record s { last_seq = insert e seq s.last_seq }

pub observe_fresh :
    (s : GuardianState) (e seq : ℕ)
    → (seq == expected s e) ≡ true
    → observe_msg s e seq ≡ (noted s e seq, true)
observe_fresh s e seq h = observe_msg-eq s e seq ∙ rw h refl

pub observe_stale :
    (s : GuardianState) (e seq : ℕ)
    → (seq == expected s e) ≡ false
    → observe_msg s e seq ≡ (s, false)
observe_stale s e seq h = observe_msg-eq s e seq ∙ rw h refl

-- Whatever arrives, in whatever order and interleaved with other episodes, the numbers accepted
-- for an episode count up by one from the number that it expects, which is zero for a new one.
pub accepted_seqs-CountsFrom :
    (episode_id : ℕ) (ms : List (ℕ × ℕ)) (s : GuardianState)
    → CountsFrom (expected s episode_id) (accepted_seqs episode_id s ms)
accepted_seqs-CountsFrom episode_id [] s = tt
accepted_seqs-CountsFrom episode_id ((e, seq) ∷ ms) s = elim (Bool-cases (seq == expected s e)) [
  | inl fresh ↦ elim (Bool-cases (e == episode_id)) [
    | inl same ↦
        let p : e ≡ episode_id = ground arith in
        let q : seq ≡ expected s episode_id = ground (arith, ap (expected s) p) in
        let r : expected (noted s e seq) episode_id ≡ (expected s episode_id + 1) % u64_mod =
          expected-observed s e seq episode_id ∙ rw same (ap (λ (n : ℕ). (n + 1) % u64_mod) q) in
        rw (observe_fresh s e seq fresh, same)
          (
            q,
            subst (λ (n : ℕ). CountsFrom n (accepted_seqs episode_id (noted s e seq) ms)) r
                (accepted_seqs-CountsFrom episode_id ms (noted s e seq)),
          )
    | inr other ↦
        let r : expected (noted s e seq) episode_id ≡ expected s episode_id =
          expected-observed s e seq episode_id ∙ rw other refl in
        rw (observe_fresh s e seq fresh, other)
          (subst (λ (n : ℕ). CountsFrom n (accepted_seqs episode_id (noted s e seq) ms)) r
            (accepted_seqs-CountsFrom episode_id ms (noted s e seq)))
  ]
  | inr stale ↦ elim (Bool-cases (e == episode_id)) [
    | inl same ↦ rw (observe_stale s e seq stale, same) (accepted_seqs-CountsFrom episode_id ms s)
    | inr other ↦ rw (observe_stale s e seq stale, other) (accepted_seqs-CountsFrom episode_id ms s)
  ]
]
