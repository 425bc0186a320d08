-- ===== src/Impact/Conserved.antt =====
-- Every operation is counted once: in its shape's group or as overflow.
use percona_load_generator_m.Prelude.{
  ℕ, ◌+◌, ◌≤◌, ◌≡◌, refl, inl, inr, suc, Option, none, some, List, [], ◌∷◌, leb, length, arith,
  Bool-cases, Option-cases, if_split,
}
use percona_load_generator_m.Prelude.Keys.{lookup, insert}
use percona_load_generator_m.Recording.Format.{u64}
use percona_load_generator_m.Impact.{
  ImpactKey, impact_key_eq, key_eq, ImpactAgg, ImpactState, Completed, count_in, new_agg,
  record_completed,
}

-- The operations of all groups.
unfoldable pub grouped : List (ImpactKey × ImpactAgg) → ℕ
grouped [] = 0
grouped ((k, g) ∷ m) = g.count + grouped m

grouped-insert-some :
    (k : ImpactKey) (g g' : ImpactAgg) (m : List (ImpactKey × ImpactAgg))
    → lookup k m ≡ some g
    → (grouped (insert k g' m) + g.count ≡ grouped m + g'.count)
      × (length (insert k g' m) ≡ length m)
unfolding grouped lookup insert
grouped-insert-some k g g' [] h = cc
grouped-insert-some k g g' ((j, w) ∷ m) h = elim (Bool-cases (key_eq j k)) [
  | inl e ↦
      let h' : some w ≡ some g = rw e at h in let q : w ≡ g = cc in rw (e, q) (omega arith, refl)
  | inr e ↦
      let h' : lookup k m ≡ some g = rw e at h in
      let r = grouped-insert-some k g g' m h' in rw e (omega (arith, r.0), omega (arith, r.1))
]

grouped-insert-none :
    (k : ImpactKey) (g' : ImpactAgg) (m : List (ImpactKey × ImpactAgg))
    → lookup k m ≡ none
    → (grouped (insert k g' m) ≡ grouped m + g'.count) × (length (insert k g' m) ≡ suc (length m))
unfolding grouped lookup insert
grouped-insert-none k g' [] h = (omega arith, refl)
grouped-insert-none k g' ((j, w) ∷ m) h = elim (Bool-cases (key_eq j k)) [
  | inl e ↦ let h' : some w ≡ none = rw e at h in cc
  | inr e ↦
      let h' : lookup k m ≡ none = rw e at h in
      let r = grouped-insert-none k g' m h' in rw e (omega (arith, r.0), omega (arith, r.1))
]

-- The total is the operations of the groups and the overflow, up to the wrap of a counter, and the
-- groups stay within their limit.
pub record Conserved (max_groups : ℕ) (st : ImpactState) : Type 0 where
  pub total : st.total_ops ≡ u64 (grouped st.groups + st.overflow_ops)
  pub limit : length st.groups ≤ max_groups

unfoldable pub record_all : List Completed → ℕ → ImpactState → ImpactState
unfolding record_completed
record_all [] max_groups st = st
record_all (o ∷ os) max_groups st = record_all os max_groups (record_completed o max_groups st).0

record_completed-Conserved :
    (o : Completed) (max_groups : ℕ) (st : ImpactState)
    → Conserved max_groups st
    → Conserved max_groups (record_completed o max_groups st).0
unfolding record_completed count_in
record_completed-Conserved o max_groups st c = elim (Option-cases (lookup o.key st.groups)) [
  | inr (g, e) ↦
      let r = grouped-insert-some o.key g (count_in o g) st.groups e in
      rw (e, record_completed)
        (record { total = omega (arith, r.0, c.total); limit = omega (arith, r.1, c.limit) })
  | inl e ↦
      let r = grouped-insert-none o.key (count_in o (new_agg o)) st.groups e in
      rw (e, record_completed)
        (if_split (λ (x : ImpactState × Option ImpactAgg). Conserved max_groups x.0)
          (leb max_groups (length st.groups))
          (λ h. record { total = omega (arith, c.total); limit = c.limit })
          (λ h. record { total = omega (arith, r.0, c.total); limit = ground arith }))
]

-- Any sequence of completed operations keeps this: the total count is the sum of the tracked groups'
-- counts and the overflow count, modulo 2^64, and there are at most `max_groups` groups.
pub record_all-Conserved :
    (os : List Completed) (max_groups : ℕ) (st : ImpactState)
    → Conserved max_groups st
    → Conserved max_groups (record_all os max_groups st)
unfolding record_all
record_all-Conserved [] max_groups st c = c
record_all-Conserved (o ∷ os) max_groups st c =
    record_all-Conserved os max_groups (record_completed o max_groups st).0
      (record_completed-Conserved o max_groups st c)
