-- ===== src/Impact/Ranked.antt =====
-- The ranking of the tracked shapes is a descending rearrangement of them.
use mathlib.Core.List.{Perm}
use mathlib.Core.List.Perm
use percona_load_generator_m.Prelude.{
  ℕ, ◌+◌, ◌≤◌, ◌≡◌, refl, ◌⊎◌, String, true, false, List, [], ◌∷◌, ◌++◌, map, length, All, arith,
  if_split,
}
use percona_load_generator_m.Prelude.Int.{◌<ℤ◌}
use percona_load_generator_m.Prelude.Keys.{int_eq}
use percona_load_generator_m.Impact.{ImpactKey, ImpactAgg}
use percona_load_generator_m.Impact.Conserved.{grouped}
use percona_load_generator_m.Impact.View.{Ranked, ranks_before, rank_in, rank_all, ranked_of}

-- `a` has more summed time, or as much and as many operations.
abbrev pub RanksOver : Ranked → Ranked → Type 0
RanksOver a b =
    (b.agg.sum_ns <ℤ a.agg.sum_ns) ⊎ ((a.agg.sum_ns ≡ b.agg.sum_ns) × (b.agg.count ≤ a.agg.count))

RanksOver-trans : (a b d : Ranked) → RanksOver a b → RanksOver b d → RanksOver a d
RanksOver-trans a b d x y = ground (arith, x, y)

unfoldable pub Descends : List Ranked → Type 0
Descends [] = Unit
Descends (r ∷ rs) = All (RanksOver r) rs × Descends rs

unfoldable pub operations_of : List Ranked → ℕ
operations_of [] = 0
operations_of (r ∷ rs) = r.agg.count + operations_of rs

before-RanksOver : (a b : Ranked) → ranks_before a b ≡ true → RanksOver a b
unfolding ranks_before
before-RanksOver a b h = ground (arith, h)

after-RanksOver : (a b : Ranked) → ranks_before a b ≡ false → RanksOver b a
unfolding ranks_before
after-RanksOver a b h = ground (arith, h)

rank_in-All :
    (P : Ranked → Type 0) (r : Ranked) (es : List Ranked) → P r → All P es → All P (rank_in r es)
unfolding rank_in
rank_in-All P r [] p h = (p, tt)
rank_in-All P r (e ∷ es) p h =
    if_split {A = List Ranked} (All P) (ranks_before r e) (λ x. (p, h))
      (λ x. (h.0, rank_in-All P r es p h.1))

All-over :
    (r e : Ranked) (es : List Ranked) → RanksOver r e → All (RanksOver e) es → All (RanksOver r) es
All-over r e [] x h = tt
All-over r e (d ∷ es) x h = (RanksOver-trans r e d x h.0, All-over r e es x h.1)

rank_in-Descends : (r : Ranked) (es : List Ranked) → Descends es → Descends (rank_in r es)
unfolding rank_in Descends
rank_in-Descends r [] h = (tt, tt)
rank_in-Descends r (e ∷ es) h =
    if_split {A = List Ranked} Descends (ranks_before r e)
      (λ x. let o = before-RanksOver r e x in ((o, All-over r e es o h.0), h))
      (λ x. (rank_in-All (RanksOver e) r es (after-RanksOver r e x) h.0, rank_in-Descends r es h.1))

pub rank_all-Descends : (rs : List Ranked) → Descends (rank_all rs)
unfolding rank_all Descends
rank_all-Descends [] = tt
rank_all-Descends (r ∷ rs) = rank_in-Descends r (rank_all rs) (rank_all-Descends rs)

rank_in-Perm : (r : Ranked) (es : List Ranked) → Perm (rank_in r es) (r ∷ es)
unfolding rank_in
rank_in-Perm r [] = Perm.rfl
rank_in-Perm r (e ∷ es) =
    if_split {A = List Ranked} (λ l. Perm l (r ∷ e ∷ es)) (ranks_before r e) (λ x. Perm.rfl)
      (λ x. Perm.trans (Perm.cons e (rank_in-Perm r es)) (Perm.swap r e es))

pub rank_all-Perm : (rs : List Ranked) → Perm (rank_all rs) rs
unfolding rank_all
rank_all-Perm [] = Perm.rfl
rank_all-Perm (r ∷ rs) = Perm.trans (rank_in-Perm r (rank_all rs)) (Perm.cons r (rank_all-Perm rs))

operations_of-rank_in :
    (r : Ranked) (es : List Ranked)
    → (operations_of (rank_in r es) ≡ r.agg.count + operations_of es)
      × (length (rank_in r es) ≡ length es + 1)
unfolding rank_in operations_of
operations_of-rank_in r [] = (refl, refl)
operations_of-rank_in r (e ∷ es) =
    let i = operations_of-rank_in r es in
    if_split {A = List Ranked}
      (λ l.
        (operations_of l ≡ r.agg.count + (e.agg.count + operations_of es))
        × (length l ≡ length (e ∷ es) + 1))
      (ranks_before r e) (λ x. (refl, omega arith)) (λ x. (omega (arith, i.0), omega (arith, i.1)))

pub operations_of-rank_all :
    (hash : String → String) (gs : List (ImpactKey × ImpactAgg))
    → (operations_of (rank_all (map (ranked_of hash) gs)) ≡ grouped gs)
      × (length (rank_all (map (ranked_of hash) gs)) ≡ length gs)
unfolding rank_all operations_of grouped ranked_of
operations_of-rank_all hash [] = (refl, refl)
operations_of-rank_all hash ((k, g) ∷ gs) =
    let i = operations_of-rank_all hash gs in
    let j = operations_of-rank_in (ranked_of hash (k, g)) (rank_all (map (ranked_of hash) gs)) in
    (omega (arith, i.0, j.0), omega (arith, i.1, j.1))

pub operations_of-append :
    (xs ys : List Ranked) → operations_of (xs ++ ys) ≡ operations_of xs + operations_of ys
unfolding operations_of
operations_of-append [] ys = omega arith
operations_of-append (x ∷ xs) ys = let i = operations_of-append xs ys in omega (arith, i)
