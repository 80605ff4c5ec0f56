-- ===== src/Room/Log.antt =====
-- The comments of a room (examples/comment-it/src/core/episode.rs) under commands and rollbacks.
use kdapp.Base.{ℕ, suc, ◌≤◌, ◌≡◌, refl, sym, ap, ◌∙◌, some, List, [], ◌∷◌, push_back, arith}
use kdapp.Room.{
  UnifiedRollback, challenge, authentication, session_revoked, comment_added, Comment,
  remove_comment,
}

-- The comments bear the numbers from the first, and the next number follows.
abbrev pub NumberedFrom : ℕ → List Comment → ℕ → Type 0
NumberedFrom n [] next = n ≡ next
NumberedFrom n (c ∷ comments) next = (c.id ≡ n) × NumberedFrom (suc n) comments next

pub NumberedFrom-push_back :
    (n : ℕ) (comments : List Comment) (next : ℕ) (c : Comment)
    → NumberedFrom n comments next
    → c.id ≡ next
    → NumberedFrom n (push_back comments c) (suc next)
NumberedFrom-push_back n [] next c h e = (e ∙ sym h, ap (λ (k : ℕ). suc k) h)
NumberedFrom-push_back n (d ∷ comments) next c (h, t) e =
    (h, NumberedFrom-push_back (suc n) comments next c t e)

NumberedFrom-le :
    (n : ℕ) (comments : List Comment) (next : ℕ) → NumberedFrom n comments next → n ≤ next
NumberedFrom-le n [] next h = omega arith
NumberedFrom-le n (c ∷ comments) next (h, t) =
    let later = NumberedFrom-le (suc n) comments next t in omega arith

-- The newest comment is the only one of its number.
pub remove_comment-push_back :
    (n : ℕ) (comments : List Comment) (next : ℕ) (c : Comment)
    → NumberedFrom n comments next
    → c.id ≡ next
    → remove_comment next (push_back comments c) ≡ some comments
remove_comment-push_back n [] next c h e = ground arith
remove_comment-push_back n (d ∷ comments) next c (h, t) e =
    let later = NumberedFrom-le (suc n) comments next t in
    ground (arith, remove_comment-push_back (suc n) comments next c t e)

pub drop_newest :
    (n : ℕ) (comments : List Comment) (id : ℕ)
    → NumberedFrom n comments (suc id)
    → n ≤ id
    → (older : List Comment) × (c : Comment) × (comments ≡ push_back older c)
      × (c.id ≡ id)
      × NumberedFrom n older id
drop_newest n [] id h le = absurd (omega arith)
drop_newest n (c ∷ []) id (h, t) le = ([], c, refl, omega arith, omega arith)
drop_newest n (c ∷ d ∷ comments) id (h, t) le =
    let (older, e, same, newest, numbered) =
      drop_newest (suc n) (d ∷ comments) id t
        (let later = NumberedFrom-le (suc (suc n)) comments (suc id) t.1 in omega arith) in
    (c ∷ older, e, ap (λ (l : List Comment). c ∷ l) same, newest, (h, numbered))

-- A stack of rollbacks, the newest first, undoes the comments one after the other.
abbrev pub Undoes : List UnifiedRollback → ℕ → Type 0
Undoes [] next = next ≡ 1
Undoes (comment_added id ∷ stack) next = (next ≡ suc id) × Undoes stack id
Undoes (challenge key ∷ stack) next = Undoes stack next
Undoes (authentication key was ∷ stack) next = Undoes stack next
Undoes (session_revoked key was ∷ stack) next = Undoes stack next

pub Undoes-pos : (stack : List UnifiedRollback) (next : ℕ) → Undoes stack next → 1 ≤ next
Undoes-pos [] next h = omega arith
Undoes-pos (comment_added id ∷ stack) next (h, t) = omega arith
Undoes-pos (challenge key ∷ stack) next h = Undoes-pos stack next h
Undoes-pos (authentication key was ∷ stack) next h = Undoes-pos stack next h
Undoes-pos (session_revoked key was ∷ stack) next h = Undoes-pos stack next h
