-- ===== src/Service/Consolidate/Merge.antt =====
-- Which edges the merge phase draws.
use context.Prelude.{
  ℕ, ◌≤◌, ◌≡◌, ◌≢◌, refl, sym, ◌∙◌, List, [], ◌∷◌, true, ok, Bool-cases, inl, inr, arith, Member,
  here, there, ltb, ◌==◌, All, All-append, All-get,
}
use context.Text.Words.{text_eq_iff}
use context.Model.Memory.{semantic}
use context.Service.Consolidate.{Floats, Memory, Edge, Repo, loop}
use context.Service.Consolidate.Phases.{
  Groups, MemKey, mem_key, key_eq, State, add_to_group, groups_of, newer, supersede,
  supersede_older, merge_group, phase_merge,
}
use context.Service.Consolidate.Ledger.{loop_inv, Write, supersedes, noted}

key_eq→eq : (j k : MemKey) → key_eq j k ≡ true → j ≡ k
key_eq→eq (p, c) (q, d) h = ground (arith, text_eq_iff p q, text_eq_iff c d)

module _ {F : Floats} where
  -- The members of a group are memories that were read, with the key of the group.
  abbrev IsGroup : List (Memory F) → MemKey × List (Memory F) → Type 0
  IsGroup ms (k, g) = All (λ m. (mem_key m ≡ k) × Member m ms) g

  add_to_group-IsGroup :
      (ms : List (Memory F)) (gs : Groups F) (m : Memory F)
      → Member m ms
      → All (IsGroup ms) gs
      → All (IsGroup ms) (add_to_group gs m)
  unfolding add_to_group
  add_to_group-IsGroup ms [] m x h = (((refl, x), tt), tt)
  add_to_group-IsGroup ms ((k, g) ∷ gs) m x h = elim (Bool-cases (key_eq k (mem_key m))) [
    | inl e ↦ rw e (All-append _ g (m ∷ []) h.0 ((sym (key_eq→eq k _ e), x), tt), h.1)
    | inr e ↦ rw e (h.0, add_to_group-IsGroup ms gs m x h.1)
  ]

  groups_of-IsGroup : (ms : List (Memory F)) → All (IsGroup ms) (groups_of ms)
  unfolding groups_of
  groups_of-IsGroup ms =
      loop_inv (All (IsGroup ms)) add_to_group ms (λ gs m x h. add_to_group-IsGroup ms gs m x h) []
        tt

  -- `newer` over a list gives a memory of it that none of it is more recent than.
  newest-Member : (best : Memory F) (ms : List (Memory F)) → Member (loop newer best ms) (best ∷ ms)
  unfolding newer
  newest-Member best ms = loop_inv (λ s. Member s (best ∷ ms)) newer ms kept best (here refl)
    where
      kept : (s m : Memory F) → Member m ms → Member s (best ∷ ms) → Member (newer s m) (best ∷ ms)
      kept s m x h = elim (Bool-cases (ltb s.created_at m.created_at)) [
        | inl e ↦ rw e (there x)
        | inr e ↦ rw e h
      ]

  newer-le :
      (s m : Memory F)
      → (s.created_at ≤ (newer s m).created_at) × (m.created_at ≤ (newer s m).created_at)
  unfolding newer
  newer-le s m = ground arith

  newest-le :
      (best : Memory F) (ms : List (Memory F)) (b : ℕ)
      → b ≤ best.created_at
      → b ≤ (loop newer best ms).created_at
  newest-le best ms b h =
      loop_inv (λ s. b ≤ s.created_at) newer ms (λ s m x i. omega (arith, i, newer-le s m)) best h

  newest-All :
      (best : Memory F) (ms : List (Memory F))
      → All (λ m. m.created_at ≤ (loop newer best ms).created_at) ms
  newest-All best [] = tt
  newest-All best (m ∷ ms) =
      (newest-le (newer best m) ms m.created_at (newer-le best m).1, newest-All (newer best m) ms)

  -- An edge from a memory to one that says the same in the same project and is not
  -- more recent.
  pub record Drawn (ms : List (Memory F)) (edge : Edge) : Type 0 where
    pub from : Memory F
    pub to : Memory F
    pub members : Member from ms × Member to ms
    pub ids : (edge.from_id ≡ from.id) × (edge.to_id ≡ to.id)
    pub apart : edge.from_id ≢ edge.to_id
    pub same : mem_key from ≡ mem_key to
    pub order : to.created_at ≤ from.created_at

  abbrev pub Draws : List (Memory F) → Write F → Type 0
  Draws ms x = (edge : Edge) × (x ≡ supersedes edge) × Drawn ms edge

module _ {F : Floats} {W E : Type 0} (repo : Repo F W E) where
  abbrev pub AllDrawn : List (Memory F) → State (noted repo) → Type 0
  AllDrawn ms s = All (λ e. Draws ms e.0) s.0.1

  supersede_older-AllDrawn :
      (ms : List (Memory F)) (k : MemKey) (newest m : Memory F) (s : State (noted repo))
      → (mem_key newest ≡ k) × Member newest ms
      → (mem_key m ≡ k) × Member m ms
      → m.created_at ≤ newest.created_at
      → AllDrawn ms s
      → AllDrawn ms (supersede_older (noted repo) newest s m)
  unfolding supersede_older supersede
  supersede_older-AllDrawn ms k newest m s (e, x) (f, y) le h =
      elim (Bool-cases (m.id == newest.id)) [
        | inl same ↦ rw same h
        | inr differs ↦ rw differs (
          (
            _,
            refl,
            record {
              from = newest;
              to = m;
              members = (x, y);
              ids = (refl, refl);
              apart = λ same. ground (arith, differs, same);
              same = e ∙ sym f;
              order = le;
            },
          ),
          h,
        )
      ]

  merge_group-AllDrawn :
      (ms : List (Memory F)) (s : State (noted repo)) (g : MemKey × List (Memory F))
      → IsGroup ms g
      → AllDrawn ms s
      → AllDrawn ms (merge_group (noted repo) s g)
  unfolding merge_group
  merge_group-AllDrawn ms s (k, []) i h = h
  merge_group-AllDrawn ms s (k, m ∷ []) i h = h
  merge_group-AllDrawn ms s (k, m ∷ n ∷ rest) i h =
      let newest = loop newer m (n ∷ rest) in
      let best = All-get _ newest (m ∷ n ∷ rest) i (newest-Member m (n ∷ rest)) in
      let oldest : All (λ z. z.created_at ≤ newest.created_at) (m ∷ n ∷ rest) =
        (newest-le m (n ∷ rest) m.created_at (omega arith), newest-All m (n ∷ rest)) in
      loop_inv (AllDrawn ms) _ (m ∷ n ∷ rest)
        (λ t x y.
          supersede_older-AllDrawn ms k newest x t best (All-get _ x (m ∷ n ∷ rest) i y)
            (All-get (λ z. z.created_at ≤ newest.created_at) x (m ∷ n ∷ rest) oldest y))
        s h

  -- Every write of the merge phase is an edge between two different memories that were read, of one
  -- project and one content, from one to another that is not more recent, if Go's iteration over a
  -- map yields groups of the map.
  pub phase_merge-Drawn :
      (iterate : Groups F → Groups F)
      → ((gs : Groups F) (g : MemKey × List (Memory F)) → Member g (iterate gs) → Member g gs)
      → (w : W) (ms : List (Memory F))
      → (repo.query_memories w (record { types = semantic ∷ []; top_k = 100 })).1 ≡ ok ms
      → All (λ e. Draws ms e.0) (phase_merge (noted repo) iterate (w, [])).0.1
  unfolding phase_merge
  phase_merge-Drawn iterate yields w ms e =
      rw (e, phase_merge)
        (loop_inv (AllDrawn ms) _ (iterate (groups_of ms))
          (λ s g x.
            merge_group-AllDrawn ms s g
              (All-get (IsGroup ms) g (groups_of ms) (groups_of-IsGroup ms) (yields _ g x)))
          _ tt)
