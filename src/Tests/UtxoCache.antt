-- ===== src/Tests/UtxoCache.antt =====
-- The cache of kdapp/src/utils/utxo_cache.rs.
use kdapp.Base.{ℕ, ◌+◌, ◌<◌, ◌≡◌, refl, false, none, some, List, [], ◌∷◌, arith}
use kdapp.UtxoCache.{Entry, new, hit, store, get, get_many, invalidate_outpoint}
use kdapp.UtxoCache.Fresh.{
  Answer, Answered, here, System, Reachable, started, ticked, answered, stored,
}
use kdapp.UtxoCache.Hits.{holds, hit-Answered}

abbrev coins : List Entry
coins = record { outpoint = record { transaction_id = 7; index = 0 }; amount = 50 } ∷ []

abbrev answer : Answer
answer = record { at = 1000; address = 1; entries = coins }

-- Asked for at 1000 ms, stored at 1300.
abbrev at_first : System
at_first = record { cache = new 500; clock = 1000; log = [] }

abbrev told : System
told = record { cache = new 500; clock = 1000; log = answer ∷ [] }

abbrev later : System
later = record { cache = new 500; clock = 1300; log = answer ∷ [] }

abbrev kept : System
kept = record { cache = store (new 500) 1000 1 coins; clock = 1300; log = answer ∷ [] }

kept_reached : Reachable kept
kept_reached =
    stored later kept 1000 1 coins (here answer [] refl refl (omega arith) (omega arith)) refl refl
      refl
      (ticked told later refl refl (omega arith)
        (answered at_first told 1 coins refl refl refl (started at_first 500 refl)))

hit-Answered_example :
    ((since : ℕ) × (1290 < since + 2000) × Answered 1 since 1300 coins (answer ∷ []))
    × (holds 7 0 (hit (invalidate_outpoint kept.cache 7 0) 1290 1) ≡ false)
unfolding hit
hit-Answered_example = hit-Answered kept 1290 1 coins 7 0 kept_reached (omega arith) refl

-- Two addresses, one of them in the cache; and an error of the node.
both :
    (get_many (λ a. some []) kept.cache 1300 (1 ∷ 2 ∷ []) []).1 ≡ some ((1, coins) ∷ (2, []) ∷ [])
unfolding get_many get hit
both = refl

failed : (get_many (λ a. none) kept.cache 1300 (1 ∷ 2 ∷ []) []).1 ≡ none
unfolding get_many get hit
failed = refl
