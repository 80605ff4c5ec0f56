-- ===== src/Engine/Lawful.antt =====
-- The contract between an episode and the engine of kdapp/src/engine.rs: what `rollback` owes
-- `execute`, and the invariant of the engine's store that rests on it.
use kdapp.Base.{
  ℕ, ◌≡◌, ◌≢◌, none, sym, subst, inl, inr, true, Option, some, List, [], ◌∷◌, ◌==◌, ==_iff,
  Bool-cases, lookup, insert, contains_key, lookup-insert_inv, lookup-remove_inv,
  contains_key-insert, contains_key-remove, contains_key-eq_some,
}
use kdapp.Episode.{Episode, ok, err, PayloadMetadata}
use kdapp.Message.{EpisodeMessage}
use kdapp.Engine.{EpisodeWrapper, Store, set_wrapper, remove_entry}

-- On the states of an invariant no command panics, a command that succeeds is undone by its rollback object, and
-- one that fails changes nothing. `Admits` says for which participants an episode promises this.
pub record Lawful (G : Episode) : Type 1 where
  pub Admits : List ℕ → Type 0
  pub Inv : G.State → Type 0
  pub initialize-Inv : (ps : List ℕ) (md : PayloadMetadata) → Admits ps → Inv (G.initialize ps md)
  pub execute-Inv :
      (s s' : G.State) (c : G.Command) (a : Option ℕ) (md : PayloadMetadata) (r : G.CommandRollback)
      → Inv s
      → G.execute s c a md ≡ some (s', ok r)
      → Inv s'
  pub execute-rollback :
      (s s' : G.State) (c : G.Command) (a : Option ℕ) (md : PayloadMetadata) (r : G.CommandRollback)
      → Inv s
      → G.execute s c a md ≡ some (s', ok r)
      → G.rollback s' r ≡ some (s, true)
  pub execute_total :
      (s : G.State) (c : G.Command) (a : Option ℕ) (md : PayloadMetadata)
      → Inv s
      → G.execute s c a md ≢ none
  pub execute_failed :
      (s s' : G.State) (c : G.Command) (a : Option ℕ) (md : PayloadMetadata) {e : _}
      → Inv s
      → G.execute s c a md ≡ some (s', err e)
      → s' ≡ s

module _ {G : Episode} (L : Lawful G) where
  -- Every rollback object of the stack succeeds in its turn, down to the state of the creation.
  abbrev pub Undoable : G.State → List G.CommandRollback → Type 0
  Undoable s [] = Unit
  Undoable s (r ∷ rest) =
      (s0 : G.State) × (G.rollback s r ≡ some (s0, true)) × (L.Inv s0) × Undoable s0 rest

  abbrev pub WrapperIsValid : EpisodeWrapper G → Type 0
  WrapperIsValid w = L.Inv w.episode × Undoable w.episode w.rollback_stack

  pub record IsValid (st : Store G) : Type 0 where
    pub wrappers : (i : ℕ) (w : EpisodeWrapper G) → lookup i st.episodes ≡ some w → WrapperIsValid w
    pub timed : (i : ℕ) → contains_key i st.episodes ≡ contains_key i st.episode_creation_times

  abbrev pub AdmitsMessage : EpisodeMessage G → Type 0
  AdmitsMessage (EpisodeMessage.new_episode i ps) = L.Admits ps
  AdmitsMessage _ = Unit

  pub set_wrapper-IsValid :
      (st : Store G) (i : ℕ) (w w' : EpisodeWrapper G)
      → IsValid st
      → lookup i st.episodes ≡ some w
      → WrapperIsValid w'
      → IsValid (set_wrapper st i w')
  set_wrapper-IsValid st i w w' v found valid = record {
    wrappers = λ j u e. elim (lookup-insert_inv i j w' u st.episodes e) [
      | inl same ↦ subst WrapperIsValid same valid
      | inr other ↦ v.wrappers j u other
    ];
    timed = λ j. elim (Bool-cases (i == j)) [
      | inl same ↦
          rw (contains_key-insert i j w' st.episodes, same)
            (let at_i : i ≡ j = (==_iff i j).0 same in
              rw (← v.timed j, ← at_i) (sym (contains_key-eq_some i w st.episodes found)))
      | inr other ↦ rw (contains_key-insert i j w' st.episodes, other) (v.timed j)
    ];
  }

  pub insert-IsValid :
      (st : Store G) (i time : ℕ) (w' : EpisodeWrapper G)
      → IsValid st
      → WrapperIsValid w'
      → IsValid (record {
        episodes = insert i w' st.episodes;
        episode_creation_times = insert i time st.episode_creation_times;
      })
  insert-IsValid st i time w' v valid = record {
    wrappers = λ j u e. elim (lookup-insert_inv i j w' u st.episodes e) [
      | inl same ↦ subst WrapperIsValid same valid
      | inr other ↦ v.wrappers j u other
    ];
    timed = λ j.
        rw (contains_key-insert i j w' st.episodes)
          (rw (contains_key-insert i j time st.episode_creation_times) (rw (v.timed j)));
  }

  pub remove_entry-IsValid : (st : Store G) (i : ℕ) → IsValid st → IsValid (remove_entry st i)
  remove_entry-IsValid st i v = record {
    wrappers = λ j u e. v.wrappers j u (lookup-remove_inv i j u st.episodes e);
    timed = λ j.
        rw (contains_key-remove i j st.episodes)
          (rw (contains_key-remove i j st.episode_creation_times) (rw (v.timed j)));
  }
