-- ===== src/Ingest/Fold.antt =====
-- A memory that is folded into a stored one loses no word.
use mathlib.Core.Path.{subst}
use context.Prelude.{
  ℕ, ◌≡◌, ◌≢◌, ◌⊎◌, refl, sym, List, [], ◌∷◌, Bool, true, false, ◌||◌, not, Option, none, some,
  Result, ok, failed, Member, here, there, Bool-cases, inl, inr, Subseq, arith, ==_iff, ◌==◌,
}
use context.Text.{Text, Unicode}
use context.Model.Content.{content_tokens}
use context.Model.Memory.{Memory, type_eq, type_eq_iff}
use context.Extraction.Dedup.{
  Subsumption, distinct, equivalent, new_subsumes_old, old_subsumes_new, has_polarity_marker,
  subsumes,
}
use context.Extraction.Dedup.Sequence.{Subseq-refl}
use context.Extraction.Dedup.Verdict.{Describes, subsumes-Describes}
use context.Ranking.{Floats}
use context.Ingest.{
  Engine, settles, first_of, consolidate_against, after_update, upgrade, count_access, fold_into,
}

module _ (u : Unicode) where
  abbrev tokens : Memory → List Text
  tokens m = content_tokens u m.content

  -- What the neighbour and the verdict are that a memory is consolidated with.
  pub record Restates (mem existing : Memory) (v : Subsumption) : Type 0 where
    pub type : existing.type ≡ mem.type
    pub other : existing.id ≢ mem.id
    pub alike : v ≢ distinct
    pub verdict : Describes v (tokens mem) (tokens existing)

  settles-some :
      (n : Memory) (s : Subsumption) (r : Option (Memory × Subsumption)) (m : Memory)
      (v : Subsumption)
      → first_of (settles n s) r ≡ some (m, v)
      → ((m ≡ n) × (v ≡ s) × (s ≢ distinct)) ⊎ (r ≡ some (m, v))
  unfolding first_of settles
  settles-some n distinct r m v h = inr h
  settles-some n equivalent r m v h = inl (cc, cc, λ e. cc)
  settles-some n old_subsumes_new r m v h = inl (cc, cc, λ e. cc)
  settles-some n new_subsumes_old r m v h = inl (cc, cc, λ e. cc)

  restates :
      (mem n : Memory)
      → ((n.id == mem.id) || not (type_eq n.type mem.type)) ≡ false
      → subsumes u mem.content n.content ≢ distinct
      → Restates mem n (subsumes u mem.content n.content)
  restates mem n e d = record {
    type = (type_eq_iff n.type mem.type).0 (ground (arith, e));
    other = λ same. ground (arith, e, ==_iff n.id mem.id, same);
    alike = d;
    verdict = subsumes-Describes u mem.content n.content;
  }

  consolidate_against-Restates :
      (mem : Memory) (neighbours : List Memory) (existing : Memory) (v : Subsumption)
      → consolidate_against u mem neighbours ≡ some (existing, v)
      → Member existing neighbours × Restates mem existing v
  unfolding consolidate_against
  consolidate_against-Restates mem [] existing v h = cc
  consolidate_against-Restates mem (n ∷ neighbours) existing v h =
      let later : consolidate_against u mem neighbours ≡ some (existing, v)
          → Member existing (n ∷ neighbours) × Restates mem existing v =
        λ e.
          let (m, r) = consolidate_against-Restates mem neighbours existing v e in (there m, r) in
      elim (Bool-cases ((n.id == mem.id) || not (type_eq n.type mem.type))) [
        | inl e ↦ later (rw (e, consolidate_against) at h)
        | inr e ↦
            (elim (settles-some n (subsumes u mem.content n.content)
              (consolidate_against u mem neighbours) existing v
              (rw (e, consolidate_against) at h)) [
                | inl (m, w, d) ↦ (here m, rw (m, w) (restates mem n e d))
                | inr f ↦ later f
              ])
      ]

module _ {F : Floats} {W E Vector : Type 0} (eng : Engine F W E Vector) (u : Unicode)
    (digest : Text → List ℕ) where
  -- The memory that stands for the folded one: the stored one, of its type, with all its words in
  -- order and its polarity.
  pub record Keeps (mem existing kept : Memory) : Type 0 where
    pub id : kept.id ≡ existing.id
    pub type : kept.type ≡ mem.type
    pub words : Subseq (tokens u mem) (tokens u kept)
    pub polarity : has_polarity_marker (tokens u kept) ≡ has_polarity_marker (tokens u mem)

  same_Keeps :
      (mem existing m kept : Memory)
      → some m ≡ some kept
      → Keeps mem existing m
      → Keeps mem existing kept
  same_Keeps mem existing m kept h k = let e : m ≡ kept = cc in subst (Keeps mem existing) e k

  after_update-Keeps :
      (mem existing kept : Memory) (p : W × Result E Bool)
      → Restates u mem existing new_subsumes_old
      → (after_update eng mem existing p).1 ≡ some kept
      → Keeps mem existing kept
  unfolding after_update
  after_update-Keeps mem existing kept (w, failed e) r h = cc
  after_update-Keeps mem existing kept (w, ok false) r h = cc
  after_update-Keeps mem existing kept (w, ok true) r h =
      same_Keeps mem existing (record existing { content = mem.content }) kept h
        (record { id = refl; type = r.type; words = Subseq-refl (tokens u mem); polarity = refl })

  upgrade-Keeps :
      (w : W) (mem existing kept : Memory) (v : Subsumption)
      → Restates u mem existing v
      → (upgrade eng u digest w mem existing v).1 ≡ some kept
      → Keeps mem existing kept
  unfolding upgrade
  upgrade-Keeps w mem existing kept distinct r h = elim (r.alike refl) [ ]
  upgrade-Keeps w mem existing kept equivalent r h =
      let d = r.verdict in
      same_Keeps mem existing existing kept h (record {
        id = refl;
        type = r.type;
        words = rw d.1 (Subseq-refl (tokens u existing));
        polarity = sym d.0.polarity;
      })
  upgrade-Keeps w mem existing kept old_subsumes_new r h =
      let d = r.verdict in
      same_Keeps mem existing existing kept h
        (record { id = refl; type = r.type; words = d.1; polarity = sym d.0.polarity })
  upgrade-Keeps w mem existing kept new_subsumes_old r h =
      after_update-Keeps mem existing kept _ r h

  count_access-some :
      (p : W × Option Memory) (kept : Memory) → (count_access eng p).1 ≡ some kept → p.1 ≡ some kept
  unfolding count_access
  count_access-some (w, none) kept h = cc
  count_access-some (w, some m) kept h = h

  -- A memory that is consolidated with a neighbour and folded into it is represented by the memory
  -- that is reported: that neighbour, another one than it and of its type, whose text then has all
  -- its words in order and its polarity.
  pub fold_into-Keeps :
      (w : W) (mem : Memory) (neighbours : List Memory) (existing kept : Memory) (v : Subsumption)
      → consolidate_against u mem neighbours ≡ some (existing, v)
      → (fold_into eng u digest w mem existing v).1 ≡ some kept
      → Member existing neighbours × (existing.id ≢ mem.id) × Keeps mem existing kept
  unfolding fold_into
  fold_into-Keeps w mem neighbours existing kept v c h =
      let (x, r) = consolidate_against-Restates u mem neighbours existing v c in
      (x, r.other, upgrade-Keeps w mem existing kept v r (count_access-some _ kept h))
