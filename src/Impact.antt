-- ===== src/Impact.antt =====
-- internal/stats/impact.go: the totals of every completed operation and of each tracked shape. The
-- shape's capture, which explain.go keeps in a group, is left out.
use percona_load_generator_m.Prelude.{
  ℕ, ◌+◌, String, Bool, true, not, ◌&&◌, Option, none, some, List, [], ◌∷◌, leb, length, arith, ◌≡◌,
  ◌↔◌, if◌then◌else◌,
}
use percona_load_generator_m.Prelude.Int.{ℤ, pos, ◌+ℤ◌, int64, ltb_ℤ}
use percona_load_generator_m.Prelude.Keys.{Eq, ◌=?◌, lookup, insert, string_eq}
use percona_load_generator_m.Recording.Format.{u64}
pub mod Conserved
pub mod View
pub mod Ranked
pub mod Accounted
mod Examples

pub record ImpactKey : Type 0 where
  pub op : String
  pub database : String
  pub collection : String
  pub shape : String

unfoldable pub key_eq : ImpactKey → ImpactKey → Bool
key_eq a b =
    a.op =? b.op && a.database =? b.database && a.collection =? b.collection && a.shape =? b.shape

pub key_eq_iff : (a b : ImpactKey) → (key_eq a b ≡ true) ↔ (a ≡ b)
unfolding key_eq
key_eq_iff a b =
    let s : Eq String = string_eq in
    ground (
      arith,
      s.beq_iff a.op b.op,
      s.beq_iff a.database b.database,
      s.beq_iff a.collection b.collection,
      s.beq_iff a.shape b.shape,
    )

instance abbrev pub impact_key_eq : Eq ImpactKey
impact_key_eq = record { beq = key_eq; beq_iff = key_eq_iff }

pub record ImpactAgg : Type 0 where
  pub shape_summary : String
  pub query_label : String
  pub count : ℕ
  pub error_count : ℕ
  pub sum_ns : ℤ
  pub max_ns : ℤ

pub record ImpactState : Type 0 where
  pub groups : List (ImpactKey × ImpactAgg)
  pub total_ops : ℕ
  pub total_ns : ℤ
  pub overflow_ops : ℕ
  pub overflow_ns : ℤ

abbrev pub empty : ImpactState
empty = record {
  groups = [];
  total_ops = 0;
  total_ns = pos 0;
  overflow_ops = 0;
  overflow_ns = pos 0;
}

-- A completed operation, with the shape that it is counted under.
pub record Completed : Type 0 where
  pub key : ImpactKey
  pub shape_summary : String
  pub query_label : String
  pub duration : ℤ
  pub success : Bool

unfoldable pub count_in : Completed → ImpactAgg → ImpactAgg
count_in o g = record g {
  count = u64 (g.count + 1);
  error_count = if o.success then g.error_count else u64 (g.error_count + 1);
  sum_ns = int64 (g.sum_ns +ℤ o.duration);
  max_ns = if ltb_ℤ g.max_ns o.duration then o.duration else g.max_ns;
}

abbrev pub new_agg : Completed → ImpactAgg
new_agg o = record {
  shape_summary = o.shape_summary;
  query_label = o.query_label;
  count = 0;
  error_count = 0;
  sum_ns = pos 0;
  max_ns = pos 0;
}

-- `record`: the state, and the group if the shape is tracked.
unfoldable pub record_completed : Completed → ℕ → ImpactState → ImpactState × Option ImpactAgg
unfolding count_in
record_completed o max_groups st =
    let s = record st {
      total_ops = u64 (st.total_ops + 1);
      total_ns = int64 (st.total_ns +ℤ o.duration);
    } in
    elim (lookup o.key st.groups) [
      | some g ↦ let g' = count_in o g in (record s { groups = insert o.key g' s.groups }, some g')
      | none ↦
          if leb max_groups (length st.groups)
          then (
            record s {
              overflow_ops = u64 (st.overflow_ops + 1);
              overflow_ns = int64 (st.overflow_ns +ℤ o.duration);
            },
            none,
          )
          else (let g' = count_in o (new_agg o) in
              (record s { groups = insert o.key g' s.groups }, some g'))
    ]
