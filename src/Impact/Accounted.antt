-- ===== src/Impact/Accounted.antt =====
-- What the view of the workload impact shows and what it leaves out make up the whole run, and what
-- it shows ranks before what it leaves out.
use mathlib.Core.List.{Perm}
use percona_load_generator_m.Prelude.{
  ℕ, ◌+◌, ◌≤◌, ◌≡◌, refl, sym, ap, ◌∙◌, String, Bool, true, false, List, [], ◌∷◌, ◌++◌, map, take,
  drop, length, length-take, take-append-drop, length-append, arith, ltb, ◌==◌, subst,
  if◌then◌else◌,
}
use percona_load_generator_m.Prelude.Keys.{int_eq}
use percona_load_generator_m.Recording.Format.{u64}
use percona_load_generator_m.Impact.{ImpactState, Completed, empty}
use percona_load_generator_m.Impact.Conserved.{grouped, Conserved, record_all, record_all-Conserved}
use percona_load_generator_m.Impact.View.{
  Floats, Ranked, WorkloadImpact, ImpactCoverage, ImpactView, impact_view_limit, rank_all,
  ranked_of, row_of, rows_from, not_shown, start_coverage, build_impact_view,
}
use percona_load_generator_m.Impact.Ranked.{
  Descends, operations_of, rank_all-Descends, rank_all-Perm, operations_of-rank_all,
  operations_of-append,
}

module _ (f : Floats) (hash : String → String) where
  unfoldable pub shown_operations : List (WorkloadImpact f hash) → ℕ
  shown_operations [] = 0
  shown_operations (w ∷ ws) = w.operation_count + shown_operations ws

  rows_lem :
      (st : ImpactState) (i : ℕ) (rs : List Ranked)
      → (shown_operations (rows_from f hash st i rs) ≡ operations_of rs)
        × (length (rows_from f hash st i rs) ≡ length rs)
  unfolding rows_from row_of operations_of shown_operations
  rows_lem st i [] = (refl, refl)
  rows_lem st i (r ∷ rs) =
      let h = rows_lem st (i + 1) rs in (omega (arith, h.0), omega (arith, h.1))

  -- What counting the groups that are not shown leaves.
  record Cut (rs : List Ranked) (cov cov' : ImpactCoverage f hash) : Type 0 where
    observed : cov'.observed_operations ≡ cov.observed_operations
    tracked : cov'.tracked_groups ≡ cov.tracked_groups
    overflow : cov'.overflow_operations ≡ cov.overflow_operations
    groups : cov'.not_shown_groups ≡ cov.not_shown_groups + length rs

  not_shown-Cut :
      (rs : List Ranked) (cov : ImpactCoverage f hash) → Cut rs cov (not_shown f hash rs cov)
  unfolding not_shown
  not_shown-Cut [] cov = record {
    observed = refl;
    tracked = refl;
    overflow = refl;
    groups = omega arith;
  }
  not_shown-Cut (r ∷ rs) cov =
      let h = not_shown-Cut rs (record cov {
        not_shown_groups = cov.not_shown_groups + 1;
        not_shown_operations = u64 (cov.not_shown_operations + r.agg.count);
        not_shown_operation_ms = f.plus cov.not_shown_operation_ms (f.ns_to_ms r.agg.sum_ns);
      }) in
      record {
        observed = h.observed;
        tracked = h.tracked;
        overflow = h.overflow;
        groups = let g = h.groups in omega (arith, g);
      }

  not_shown_lem :
      (rs : List Ranked) (cov : ImpactCoverage f hash) (n : ℕ)
      → cov.not_shown_operations ≡ u64 n
      → (not_shown f hash rs cov).not_shown_operations ≡ u64 (n + operations_of rs)
  unfolding not_shown operations_of
  not_shown_lem [] cov n h = h ∙ omega arith
  not_shown_lem (r ∷ rs) cov n h =
      not_shown_lem rs _ (n + r.agg.count) (omega (arith, h)) ∙ omega arith

  -- Rounding the time that is not shown.
  abbrev rounded : Bool → ImpactCoverage f hash → ImpactCoverage f hash
  rounded b cut =
      if b then record cut { not_shown_operation_ms = f.round2 cut.not_shown_operation_ms } else cut

  rounded-Cut :
      (b : Bool) (rs : List Ranked) (cov cut : ImpactCoverage f hash)
      → Cut rs cov cut
      → Cut rs cov (rounded b cut)
  rounded-Cut true rs cov cut h = record {
    observed = h.observed;
    tracked = h.tracked;
    overflow = h.overflow;
    groups = h.groups;
  }
  rounded-Cut false rs cov cut h = h

  rounded_lem :
      (b : Bool) (cut : ImpactCoverage f hash)
      → (rounded b cut).not_shown_operations ≡ cut.not_shown_operations
  rounded_lem true cut = refl
  rounded_lem false cut = refl

  -- `shown` are the ranked groups that the rows are made of, and `hidden` the others.
  pub record Accounted (st : ImpactState) (v : ImpactView f hash) : Type 0 where
    pub shown : List Ranked
    pub hidden : List Ranked
    pub rows : v.groups ≡ rows_from f hash st 0 shown
    pub all : Perm (shown ++ hidden) (map (ranked_of hash) st.groups)
    pub ranked : Descends (shown ++ hidden)
    pub operations :
        v.coverage.observed_operations
        ≡ u64 (
            shown_operations v.groups
            + v.coverage.not_shown_operations
            + v.coverage.overflow_operations)
    pub counted :
        (v.coverage.groups_shown ≡ length v.groups)
        × (v.coverage.groups_shown + v.coverage.not_shown_groups ≡ v.coverage.tracked_groups)
    pub limit : length v.groups ≤ impact_view_limit

  start_lem :
      (st : ImpactState) (events max_groups sampled_in : ℕ)
      → ((start_coverage f hash st events max_groups sampled_in).not_shown_operations ≡ 0)
        × ((start_coverage f hash st events max_groups sampled_in).not_shown_groups ≡ 0)
        × ((start_coverage f hash st events max_groups sampled_in).observed_operations
            ≡ st.total_ops)
        × ((start_coverage f hash st events max_groups sampled_in).overflow_operations
            ≡ st.overflow_ops)
        × ((start_coverage f hash st events max_groups sampled_in).tracked_groups
            ≡ length st.groups)
  unfolding start_coverage
  start_lem st events max_groups sampled_in = (refl, refl, refl, refl, refl)

  view-Accounted :
      (st : ImpactState) (events max_groups sampled_in : ℕ)
      → Conserved max_groups st
      → (st.total_ops == 0) ≡ false
      → Accounted st (build_impact_view f hash st events max_groups sampled_in)
  unfolding build_impact_view
  view-Accounted st events max_groups sampled_in c h =
      let all = rank_all (map (ranked_of hash) st.groups) in
      let shown = take impact_view_limit all in
      let hidden = drop impact_view_limit all in
      let whole : shown ++ hidden ≡ all = take-append-drop impact_view_limit all in
      let cov = start_coverage f hash st events max_groups sampled_in in
      let start = start_lem st events max_groups sampled_in in
      let cut = not_shown f hash hidden cov in
      let b = ltb impact_view_limit (length all) in
      let kept = rounded-Cut b hidden cov cut (not_shown-Cut hidden cov) in
      let left = rounded_lem b cut ∙ not_shown_lem hidden cov 0 (start.0 ∙ omega arith) in
      let rows = rows_lem st 0 shown in
      let sums = operations_of-rank_all hash st.groups in
      let parts = operations_of-append shown hidden in
      let size = length-append shown hidden in
      let few = length-take impact_view_limit all in
      let total = c.total in
      rw h (record {
        shown = shown;
        hidden = hidden;
        rows = refl;
        all =
            subst (λ l. Perm l (map (ranked_of hash) st.groups)) (sym whole)
              (rank_all-Perm (map (ranked_of hash) st.groups));
        ranked = subst Descends (sym whole) (rank_all-Descends (map (ranked_of hash) st.groups));
        operations =
            (let o = kept.observed in
              let x = kept.overflow in
              let z = ap operations_of whole in
              omega (arith, o, x, start.2, start.3, left, rows.0, sums.0, parts, z, total));
        counted = (
          sym rows.1,
          (let g = kept.groups in
              let t = kept.tracked in
              let z = ap length whole in omega (arith, g, t, start.1, start.4, size, z, sums.1)),
        );
        limit = omega (arith, rows.1, few);
      })

  -- The view of a run of any completed operations, from an empty state, that observed some: the
  -- operations of the rows, those not shown and those of untracked shapes are together the operations
  -- observed, modulo 2^64; the rows and the groups not shown are the tracked groups; there are at most
  -- 20 rows; the groups are shown by descending summed time, and by descending count where that is
  -- equal, and all of those not shown come after them.
  pub build_impact_view-Accounted :
      (os : List Completed) (events max_groups sampled_in : ℕ)
      → ((record_all os max_groups empty).total_ops == 0) ≡ false
      → Accounted
          (record_all os max_groups empty)
          (build_impact_view f hash (record_all os max_groups empty) events max_groups sampled_in)
  unfolding grouped
  build_impact_view-Accounted os events max_groups sampled_in h =
      view-Accounted (record_all os max_groups empty) events max_groups sampled_in
        (record_all-Conserved os max_groups empty (record { total = refl; limit = omega arith })) h
