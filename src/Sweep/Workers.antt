-- ===== src/Sweep/Workers.antt =====
-- The worker counts that a sweep accepts.
use percona_load_generator_m.Prelude.{
  ◌+◌, ◌≤◌, ◌≡◌, refl, sym, ◌∙◌, inl, inr, String, false, ◌||◌, List, [], ◌∷◌, ◌++◌, ok, err, ◌>>◌,
  refuse, refuse_ok, ltb, arith, length, length-append, All, All-append, Option-cases, subst,
}
use percona_load_generator_m.Prelude.Int.{ℤ, pos, ltb_ℤ, ◌≤ℤ◌}
use percona_load_generator_m.Prelude.Keys.{◌=?◌, contains, int_eq}
use percona_load_generator_m.Prelude.Text.{Text, codes}
use percona_load_generator_m.Prelude.Fields.{fields_func}
use percona_load_generator_m.Sweep.{
  sweep_max_workers, not_a_worker_count, listed_twice, atoi, read_counts, is_separator,
  parse_sweep_workers, too_few, too_many, sweep_min_levels, sweep_max_levels,
}

-- No element twice.
abbrev pub Distinct : List ℤ → Type 0
Distinct [] = Unit
Distinct (x ∷ xs) = (contains x xs ≡ false) × Distinct xs

abbrev pub IsWorkerCount : ℤ → Type 0
IsWorkerCount n = (pos 1 ≤ℤ n) × (n ≤ℤ pos 10000)

contains-snoc :
    (x n : ℤ) (xs : List ℤ)
    → contains x xs ≡ false
    → (n =? x) ≡ false
    → contains x (xs ++ n ∷ []) ≡ false
unfolding contains
contains-snoc x n [] h k = ground arith
contains-snoc x n (y ∷ ys) h k = let r = contains-snoc x n ys in ground (arith, r)

Distinct-snoc :
    (n : ℤ) (xs : List ℤ) → contains n xs ≡ false → Distinct xs → Distinct (xs ++ n ∷ [])
unfolding contains
Distinct-snoc n [] h d = (refl, tt)
Distinct-snoc n (x ∷ xs) h d =
    let p : ((x =? n) ≡ false) × (contains n xs ≡ false) = ground arith in
    let q : (n =? x) ≡ false = ground arith in
    (contains-snoc x n xs d.0 q, Distinct-snoc n xs p.1 d.1)

read_counts_ok :
    (f : Text) (fs : List Text) (out ws : List ℤ)
    → read_counts (f ∷ fs) out ≡ ok ws
    → (n : ℤ) × ((ltb_ℤ n (pos 1) || ltb_ℤ sweep_max_workers n) ≡ false)
      × (contains n out ≡ false)
      × (read_counts fs (out ++ n ∷ []) ≡ ok ws)
unfolding read_counts
read_counts_ok f fs out ws h = elim (Option-cases (atoi f)) [
  | inl e ↦ let h' : err (not_a_worker_count f) ≡ ok ws = rw (e, read_counts) at h in cc
  | inr (n, e) ↦
      let step = read_counts fs (out ++ n ∷ []) in
      let bad = ltb_ℤ n (pos 1) || ltb_ℤ sweep_max_workers n in
      let h₀ : (refuse bad (not_a_worker_count f)
            >> (refuse (contains n out) (listed_twice n) >> step))
          ≡ ok ws =
        rw (e, read_counts) at h in
      let (range, h₁) =
        refuse_ok bad (not_a_worker_count f) (refuse (contains n out) (listed_twice n) >> step)
          h₀ in
      let (fresh, h₂) = refuse_ok (contains n out) (listed_twice n) step h₁ in (n, range, fresh, h₂)
]

read_counts_nil : (out : List ℤ) → read_counts [] out ≡ ok out
unfolding read_counts
read_counts_nil out = refl

read_counts_lem :
    (fs : List Text) (out ws : List ℤ)
    → read_counts fs out ≡ ok ws
    → Distinct out
    → All IsWorkerCount out
    → Distinct ws × All IsWorkerCount ws × (length ws ≡ length out + length fs)
read_counts_lem [] out ws h d a =
    let stop : ok out ≡ ok ws = sym (read_counts_nil out) ∙ h in
    let e : out ≡ ws = cc in (subst Distinct e d, subst (All IsWorkerCount) e a, rw e (omega arith))
read_counts_lem (f ∷ fs) out ws h d a =
    let (n, range, fresh, rest) = read_counts_ok f fs out ws h in
    let count : IsWorkerCount n = ground arith in
    let r =
      read_counts_lem fs (out ++ n ∷ []) ws rest (Distinct-snoc n out fresh d)
        (All-append IsWorkerCount out (n ∷ []) a (count, tt)) in
    (r.0, r.1, omega (arith, r.2, length-append out (n ∷ [])))

-- A list that `parseSweepWorkers` accepts has 2 to 8 worker counts, all different, each from 1 to
-- 10000.
pub parse_sweep_workers_lem :
    (raw : String) (ws : List ℤ)
    → parse_sweep_workers raw ≡ ok ws
    → Distinct ws × All IsWorkerCount ws × (2 ≤ length ws) × (length ws ≤ 8)
unfolding parse_sweep_workers
parse_sweep_workers_lem raw ws h =
    let fields = fields_func is_separator (codes raw) in
    let (few, h₁) =
      refuse_ok (ltb (length fields) sweep_min_levels) too_few
        (refuse (ltb sweep_max_levels (length fields)) too_many >> read_counts fields []) h in
    let (many, h₂) =
      refuse_ok (ltb sweep_max_levels (length fields)) too_many (read_counts fields []) h₁ in
    let (d, a, n) = read_counts_lem fields [] ws h₂ tt tt in (d, a, ground arith, ground arith)
