-- ===== src/Room/Restored.antt =====
-- What a rollback of examples/comment-it/src/core/episode.rs gives back.
use kdapp.Base.{
  ℕ, ◌+◌, ◌≡◌, ◌⊎◌, refl, sym, ◌∙◌, true, false, none, List, [], ◌∷◌, contains, lookup, ◌==◌,
  ==_iff, if◌then◌else◌, arith, Bool-cases, inl, inr,
}
use kdapp.Room.{
  UnifiedCommand, request_challenge, submit_response, revoke_session, submit_comment,
  AuthWithCommentsEpisode, add_member, remove_member, attempts,
}

pub contains-add_member :
    (k j : ℕ) (set : List ℕ)
    → contains (add_member k set) j ≡ (if k == j then true else contains set j)
contains-add_member k j set = elim (Bool-cases (contains set k)) [
  | inr fresh ↦ rw fresh (ground arith)
  | inl old ↦ elim (Bool-cases (k == j)) [
    | inl same ↦ let e = (==_iff k j).0 same in rw (old, same) (rw (← e) old)
    | inr apart ↦ rw (old, apart) refl
  ]
]

pub contains-remove_member :
    (k j : ℕ) (set : List ℕ)
    → contains (remove_member k set) j ≡ (if k == j then false else contains set j)
contains-remove_member k j [] = ground arith
contains-remove_member k j (i ∷ set) = ground (arith, contains-remove_member k j set)

pub readmitted :
    (k j : ℕ) (set : List ℕ)
    → contains set k ≡ true
    → (if k == j then true else contains (remove_member k set) j) ≡ contains set j
readmitted k j set h = elim (Bool-cases (k == j)) [
  | inl same ↦ let e = (==_iff k j).0 same in rw same (rw (← e) (sym h))
  | inr apart ↦ rw apart (contains-remove_member k j set ∙ rw apart refl)
]

-- How a state relates to the state before a command: the same but for what is kept of the attempt and
-- of the challenge of one participant.
pub record IsRestored (before after : AuthWithCommentsEpisode) (key attempted : ℕ) : Type 0 where
  pub creator : after.creator ≡ before.creator
  pub created_at : after.created_at ≡ before.created_at
  pub authorized : after.authorized_participants ≡ before.authorized_participants
  pub comments : after.comments ≡ before.comments
  pub next_comment_id : after.next_comment_id ≡ before.next_comment_id
  pub authenticated :
      (j : ℕ)
      → contains after.authenticated_participants j ≡ contains before.authenticated_participants j
  pub rates :
      (j : ℕ)
      → attempts after j ≡ (if key == j then attempts before j + attempted else attempts before j)
  pub challenges :
      (j : ℕ)
      → (lookup j after.active_challenges ≡ lookup j before.active_challenges)
        ⊎ ((key ≡ j) × (lookup j after.active_challenges ≡ none))

-- A request for a challenge counts as an attempt, also when it is rolled back.
abbrev pub counted : UnifiedCommand → ℕ
counted request_challenge = 1
counted (submit_response signature nonce) = 0
counted (revoke_session token signature) = 0
counted (submit_comment text token) = 0
