-- ===== src/Compare/Operations/Types.antt =====
-- compare.go: the data of the comparer.
use percona_load_generator_m.Prelude.{
  ℕ, String, Bool, true, not, ◌&&◌, Option, List, [], ltb, ◌==◌, arith, ◌≡◌, ◌↔◌, if◌then◌else◌,
}
use percona_load_generator_m.Prelude.Int.{ℤ, ltb_ℤ}
use percona_load_generator_m.Prelude.Keys.{Eq, ◌=?◌, nat_eq, int_eq, string_eq}
use percona_load_generator_m.Recording.Format.{Outcome}
use percona_load_generator_m.Compare.Outcomes.{ShapeName}

-- `opKey`, and its order.
pub record OpKey : Type 0 where
  pub seq : ℕ
  pub iteration : ℤ
  pub worker : ℤ
  pub worker_seq : ℕ

unfoldable pub key_less : OpKey → OpKey → Bool
key_less k o =
    if not (k.seq == o.seq)
    then ltb k.seq o.seq
    else if not (k.iteration =? o.iteration)
    then ltb_ℤ k.iteration o.iteration
    else if not (k.worker =? o.worker)
    then ltb_ℤ k.worker o.worker
    else ltb k.worker_seq o.worker_seq

unfoldable pub key_eq : OpKey → OpKey → Bool
key_eq a b =
    a.seq =? b.seq
    && a.iteration =? b.iteration
    && a.worker =? b.worker
    && a.worker_seq =? b.worker_seq

pub key_eq_iff : (a b : OpKey) → (key_eq a b ≡ true) ↔ (a ≡ b)
unfolding key_eq
key_eq_iff a b = ground arith

instance abbrev pub op_key_eq : Eq OpKey
op_key_eq = record { beq = key_eq; beq_iff = key_eq_iff }

unfoldable pub name_eq : ShapeName → ShapeName → Bool
name_eq a b = a.ns =? b.ns && a.op =? b.op && a.key =? b.key

pub name_eq_iff : (a b : ShapeName) → (name_eq a b ≡ true) ↔ (a ≡ b)
unfolding name_eq
name_eq_iff a b =
    let s : Eq String = string_eq in
    ground (arith, s.beq_iff a.ns b.ns, s.beq_iff a.op b.op, s.beq_iff a.key b.key)

instance abbrev pub shape_name_eq : Eq ShapeName
shape_name_eq = record { beq = name_eq; beq_iff = name_eq_iff }

pub record Totals : Type 0 where
  pub ops_a : ℕ
  pub ops_b : ℕ
  pub matched : ℕ
  pub differing_ops : ℕ
  pub count_mismatches : ℕ
  pub checksum_mismatches : ℕ
  pub checksums_compared : ℕ
  pub errors_only_a : List (String × ℕ)
  pub errors_only_b : List (String × ℕ)
  pub error_code_differences : ℕ
  pub missing_in_a : ℕ
  pub missing_in_b : ℕ

pub record ShapeAcc : Type 0 where
  pub t : Totals
  pub lat_a : List ℤ
  pub lat_b : List ℤ

abbrev pub new_shape_acc : ShapeAcc
new_shape_acc = record {
  t = record {
    ops_a = 0;
    ops_b = 0;
    matched = 0;
    differing_ops = 0;
    count_mismatches = 0;
    checksum_mismatches = 0;
    checksums_compared = 0;
    errors_only_a = [];
    errors_only_b = [];
    error_code_differences = 0;
    missing_in_a = 0;
    missing_in_b = 0;
  };
  lat_a = [];
  lat_b = [];
}

pub data DiffKind : Type 0 where
  result_count checksum error_only_a error_only_b error_code missing_a missing_b : DiffKind

pub record OpDiff : Type 0 where
  pub seq : ℕ
  pub iteration : ℤ
  pub worker : ℤ
  pub worker_seq : ℕ
  pub shape : ShapeName
  pub kinds : List DiffKind
  pub a : Option Outcome
  pub b : Option Outcome

-- One operation of either file kind.
pub record Line : Type 0 where
  pub seq : ℕ
  pub iteration : ℤ
  pub worker : ℤ
  pub worker_seq : ℕ
  pub shape : ShapeName
  pub summary : String
  pub outcome : Option Outcome
