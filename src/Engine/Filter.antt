-- ===== src/Engine/Filter.antt =====
-- Which episodes `filter_old_episodes` drops.
use kdapp.Base.{
  ℕ, ◌≡◌, refl, ◌∙◌, ◌-◌, ◌+◌, ◌%◌, Bool, false, ◌&&◌, Option, none, some, List, [], ◌∷◌, inl, inr,
  arith, ltb, if◌then◌else◌, Bool-cases, contains, Map, lookup, lookup-remove, u64_mod,
}
use kdapp.Episode.{Episode}
use kdapp.Engine.{Store, remove_entry}
use kdapp.Engine.Start.{
  Engine, episode_lifetime, sample_removal_time, remove_ids, remove_all, filter_old_episodes,
}

-- No key has two entries, as in any hash map.
abbrev pub Distinct {ℓ} : {V : Type ℓ} → Map V → Type ℓ
Distinct [] = Unit
Distinct ((k, v) ∷ m) = (lookup k m ≡ none) × Distinct m

-- An episode that was created more than a lifetime ago.
abbrev pub is_old : ℕ → Option ℕ → Bool
is_old daa_score none = false
is_old daa_score (some time) = ltb time (daa_score - episode_lifetime)

contains-remove_ids :
    (daa_score i : ℕ) (times : Map ℕ)
    → Distinct times
    → contains (remove_ids daa_score times) i ≡ is_old daa_score (lookup i times)
unfolding remove_ids
contains-remove_ids daa_score i [] d = refl
contains-remove_ids daa_score i ((k, time) ∷ times) d =
    ground (arith, contains-remove_ids daa_score i times d.1)

module _ {G : Episode} where
  lookup-remove_all :
      (ids : List ℕ) (st : Store G) (i : ℕ)
      → lookup i (remove_all ids st).episodes
        ≡ (if contains ids i then none else lookup i st.episodes)
  unfolding remove_all
  lookup-remove_all [] st i = refl
  lookup-remove_all (k ∷ ids) st i =
      lookup-remove_all ids (remove_entry st k) i ∙ ground (arith, lookup-remove k i st.episodes)

  times-remove_all :
      (ids : List ℕ) (st : Store G) (i : ℕ)
      → lookup i (remove_all ids st).episode_creation_times
        ≡ (if contains ids i then none else lookup i st.episode_creation_times)
  unfolding remove_all
  times-remove_all [] st i = refl
  times-remove_all (k ∷ ids) st i =
      times-remove_all ids (remove_entry st k) i
      ∙ ground (arith, lookup-remove k i st.episode_creation_times)

  abbrev is_due : Engine G → ℕ → Bool
  is_due e daa_score = ltb ((e.next_filtering + sample_removal_time) % u64_mod) daa_score

  -- An episode is dropped, with its creation time, exactly when the filter is due and the episode
  -- is older than the lifetime; every other episode stays as it was.
  pub filter_old_episodes-lookup :
      (e : Engine G) (daa_score i : ℕ)
      → Distinct e.episode_creation_times
      → let f = filter_old_episodes e daa_score in
        let dropped = is_due e daa_score && is_old daa_score (lookup i e.episode_creation_times) in
        (lookup i f.episodes ≡ (if dropped then none else lookup i e.episodes))
        × (lookup i f.episode_creation_times
            ≡ (if dropped then none else lookup i e.episode_creation_times))
        × (f.next_filtering ≡ (if is_due e daa_score then daa_score else e.next_filtering))
  unfolding filter_old_episodes
  filter_old_episodes-lookup e daa_score i d = elim (Bool-cases (is_due e daa_score)) [
    | inl due ↦
        rw (due, filter_old_episodes)
          (
            lookup-remove_all (remove_ids daa_score e.episode_creation_times) e.store i
                ∙ rw (contains-remove_ids daa_score i e.episode_creation_times d),
            times-remove_all (remove_ids daa_score e.episode_creation_times) e.store i
                ∙ rw (contains-remove_ids daa_score i e.episode_creation_times d),
            refl,
          )
    | inr early ↦ rw (early, filter_old_episodes) (refl, refl, refl)
  ]
