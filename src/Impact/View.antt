-- ===== src/Impact/View.antt =====
-- impact.go, insights.go: `buildImpactView`, the ranking of the tracked shapes by summed operation
-- time. Floating-point arithmetic and the FNV hash, in hexadecimal, are arguments; the percentiles of
-- the retained samples, the notes and the texts of limitations and explanations are left out.
use Prim.Native.String.{◌++◌ as text_append, compare as str_compare}
use Prim.Native.Nat.{Ordering}
use percona_load_generator_m.Prelude.{
  ℕ, ◌+◌, String, Bool, true, false, not, List, [], ◌∷◌, map, take, drop, length, ltb, ◌==◌,
  if◌then◌else◌,
}
use percona_load_generator_m.Prelude.Int.{ℤ, pos, ltb_ℤ}
use percona_load_generator_m.Prelude.Keys.{◌=?◌, int_eq}
use percona_load_generator_m.Prelude.Text.{is_blank}
use percona_load_generator_m.Recording.Format.{u64}
use percona_load_generator_m.Impact.{ImpactKey, ImpactAgg, ImpactState}

abbrev pub impact_view_limit : ℕ
impact_view_limit = 20

-- `float64`, with `nsToMs`, `round2`, addition, and the divisions that the view takes.
pub record Floats : Type 1 where
  pub Float : Type 0
  pub zero : Float
  pub ns_to_ms : ℤ → Float
  pub round2 : Float → Float
  pub plus : Float → Float → Float
  pub per_count : Float → ℕ → Float
  pub ratio : ℤ → ℤ → Float

unfoldable pub empty_fallback : String → String → String
unfolding is_blank
empty_fallback v fb = if is_blank v then fb else v

unfoldable pub stable_shape_id : (String → String) → String → String → String → String
stable_shape_id hash op collection shape =
    text_append "shape_"
      (hash (text_append op (text_append "|" (text_append collection (text_append "|" shape)))))

unfoldable pub impact_namespace : String → String → String
unfolding empty_fallback is_blank
impact_namespace database collection =
    let coll = empty_fallback collection "(unknown)" in
    if is_blank database then coll else text_append database (text_append "." coll)

pub record Ranked : Type 0 where
  pub key : ImpactKey
  pub agg : ImpactAgg
  pub id : String

abbrev pub str_less : String → String → Bool
str_less a b = elim (str_compare a b) [ Ordering.lt ↦ true | _ ↦ false ]

-- The order of the ranking: more time, then more operations, then the id.
unfoldable pub ranks_before : Ranked → Ranked → Bool
ranks_before a b =
    if not (a.agg.sum_ns =? b.agg.sum_ns)
    then ltb_ℤ b.agg.sum_ns a.agg.sum_ns
    else if not (a.agg.count == b.agg.count)
    then ltb b.agg.count a.agg.count
    else str_less a.id b.id

-- `sort.Slice`
unfoldable pub rank_in : Ranked → List Ranked → List Ranked
unfolding ranks_before
rank_in r [] = r ∷ []
rank_in r (e ∷ es) = let rest = rank_in r es in if ranks_before r e then r ∷ e ∷ es else e ∷ rest

unfoldable pub rank_all : List Ranked → List Ranked
unfolding rank_in
rank_all [] = []
rank_all (r ∷ rs) = rank_in r (rank_all rs)

-- The key's id, as `StableShapeID` gives it for the namespace.
unfoldable pub ranked_of : (String → String) → ImpactKey × ImpactAgg → Ranked
unfolding stable_shape_id impact_namespace
ranked_of hash (k, g) = record {
  key = k;
  agg = g;
  id = stable_shape_id hash k.op (impact_namespace k.database k.collection) k.shape;
}

module _ (f : Floats) (hash : String → String) where
  open f use {Float}

  pub record WorkloadImpact : Type 0 where
    pub rank : ℕ
    pub impact_id : String
    pub shape_id : String
    pub namespace : String
    pub database : String
    pub collection : String
    pub operation : String
    pub shape_key : String
    pub shape_summary : String
    pub query_label : String
    pub operation_count : ℕ
    pub error_count : ℕ
    pub total_operation_ms : Float
    pub avg_ms : Float
    pub max_ms : Float
    pub share_of_observed_time : Float

  pub record ImpactCoverage : Type 0 where
    pub observed_operations : ℕ
    pub observed_operation_ms : Float
    pub tracked_groups : ℕ
    pub group_limit : ℕ
    pub overflow_operations : ℕ
    pub overflow_operation_ms : Float
    pub groups_shown : ℕ
    pub not_shown_groups : ℕ
    pub not_shown_operations : ℕ
    pub not_shown_operation_ms : Float
    pub group_coverage_complete : Bool
    pub sampled_in_events : ℕ
    pub retained_sample_events : ℕ
    pub sample_buffer_wrapped : Bool

  pub record ImpactView : Type 0 where
    pub status : String
    pub coverage : ImpactCoverage
    pub groups : List WorkloadImpact

  unfoldable pub row_of : ImpactState → ℕ → Ranked → WorkloadImpact
  unfolding empty_fallback stable_shape_id impact_namespace
  row_of st rank r =
      let op = empty_fallback r.key.op "(unknown)" in
      let coll = empty_fallback r.key.collection "(unknown)" in
      let shape = empty_fallback r.key.shape "(shape unavailable)" in
      let total = f.ns_to_ms r.agg.sum_ns in
      record {
        rank = rank;
        impact_id = r.id;
        shape_id = stable_shape_id hash op coll shape;
        namespace = impact_namespace r.key.database r.key.collection;
        database = r.key.database;
        collection = coll;
        operation = op;
        shape_key = shape;
        shape_summary = empty_fallback r.agg.shape_summary "(shape unavailable)";
        query_label = r.agg.query_label;
        operation_count = r.agg.count;
        error_count = r.agg.error_count;
        total_operation_ms = f.round2 total;
        avg_ms = f.round2 (f.per_count total r.agg.count);
        max_ms = f.round2 (f.ns_to_ms r.agg.max_ns);
        share_of_observed_time =
            if ltb_ℤ (pos 0) st.total_ns then f.ratio r.agg.sum_ns st.total_ns else f.zero;
      }

  unfoldable pub rows_from : ImpactState → ℕ → List Ranked → List WorkloadImpact
  unfolding row_of
  rows_from st i [] = []
  rows_from st i (r ∷ rs) = row_of st (i + 1) r ∷ rows_from st (i + 1) rs

  -- The groups beyond the limit.
  unfoldable pub not_shown : List Ranked → ImpactCoverage → ImpactCoverage
  not_shown [] cov = cov
  not_shown (r ∷ rs) cov = not_shown rs (record cov {
    not_shown_groups = cov.not_shown_groups + 1;
    not_shown_operations = u64 (cov.not_shown_operations + r.agg.count);
    not_shown_operation_ms = f.plus cov.not_shown_operation_ms (f.ns_to_ms r.agg.sum_ns);
  })

  -- What the view says of the whole run.
  unfoldable pub start_coverage : ImpactState → ℕ → ℕ → ℕ → ImpactCoverage
  start_coverage st events max_groups sampled_in = record {
    observed_operations = st.total_ops;
    observed_operation_ms = f.round2 (f.ns_to_ms st.total_ns);
    tracked_groups = length st.groups;
    group_limit = max_groups;
    overflow_operations = st.overflow_ops;
    overflow_operation_ms = f.round2 (f.ns_to_ms st.overflow_ns);
    groups_shown = 0;
    not_shown_groups = 0;
    not_shown_operations = 0;
    not_shown_operation_ms = f.zero;
    group_coverage_complete = st.overflow_ops == 0;
    sampled_in_events = sampled_in;
    retained_sample_events = events;
    sample_buffer_wrapped = ltb events sampled_in;
  }

  -- `buildImpactView`, of the state, the number of retained events, the group limit and the number of
  -- sampled events.
  unfoldable pub build_impact_view : ImpactState → ℕ → ℕ → ℕ → ImpactView
  unfolding rank_all ranked_of rows_from not_shown start_coverage
  build_impact_view st events max_groups sampled_in =
      let cov = start_coverage st events max_groups sampled_in in
      if st.total_ops == 0
      then record { status = "empty"; coverage = cov; groups = [] }
      else (let all = rank_all (map (ranked_of hash) st.groups) in
          let shown = take impact_view_limit all in
          let cut = not_shown (drop impact_view_limit all) cov in
          let rounded =
            if ltb impact_view_limit (length all)
            then record cut { not_shown_operation_ms = f.round2 cut.not_shown_operation_ms }
            else cut in
          record {
            status = "ready";
            coverage = record rounded { groups_shown = length shown };
            groups = rows_from st 0 shown;
          })
