-- ===== src/Replay/Totals.antt =====
-- Sums over the workers 1, …, n.
use percona_load_generator_m.Prelude.{
  ℕ, zero, suc, ◌+◌, ◌<◌, ◌≤◌, ◌≡◌, refl, ap, ◌⊎◌, inl, inr, false, arith, ◌==◌, ==_iff, Bool-cases,
}
use percona_load_generator_m.Prelude.Int.{ℤ, pos}
use percona_load_generator_m.Prelude.Keys.{int_eq}

abbrev pub total : ℕ → (ℤ → ℕ) → ℕ
total zero f = 0
total (suc n) f = total n f + f (pos (suc n))

pub total-same :
    (n : ℕ) (f g : ℤ → ℕ)
    → ((k : ℕ) → k < n → f (pos (suc k)) ≡ g (pos (suc k)))
    → total n f ≡ total n g
total-same zero f g h = refl
total-same (suc n) f g h =
    let rest = total-same n f g (λ k l. h k (omega (arith, l))) in
    let last = h n (omega arith) in omega (arith, rest, last)

-- Two families that differ at one worker.
pub total-at :
    (n i : ℕ) (f g : ℤ → ℕ)
    → i < n
    → ((k : ℕ) → (i == k) ≡ false → f (pos (suc k)) ≡ g (pos (suc k)))
    → total n f + g (pos (suc i)) ≡ total n g + f (pos (suc i))
total-at zero i f g l h = absurd (omega (arith, l))
total-at (suc n) i f g l h = elim (Bool-cases (i == n)) [
  | inl e ↦
      let same : i ≡ n = (==_iff i n).0 e in
      let rest = total-same n f g (λ k b. h k (elim (Bool-cases (i == k)) [
        | inr x ↦ x
        | inl x ↦ let y : i ≡ k = (==_iff i k).0 x in absurd (omega (arith, y, same, b))
      ])) in
      let last : f (pos (suc i)) ≡ f (pos (suc n)) = ap (λ k. f (pos (suc k))) same in
      let last' : g (pos (suc i)) ≡ g (pos (suc n)) = ap (λ k. g (pos (suc k))) same in
      omega (arith, rest, last, last')
  | inr e ↦
      let differ : i ≡ n → ⊥ = λ p. let t = (==_iff i n).1 p in cc in
      let rest = total-at n i f g (omega (arith, l, differ)) h in
      let last = h n e in omega (arith, rest, last)
]

pub total-zero : (n i : ℕ) (f : ℤ → ℕ) → i < n → total n f ≡ 0 → f (pos (suc i)) ≡ 0
total-zero zero i f l h = absurd (omega (arith, l))
total-zero (suc n) i f l h = elim (Bool-cases (i == n)) [
  | inl e ↦
      let same : i ≡ n = (==_iff i n).0 e in
      let last : f (pos (suc i)) ≡ f (pos (suc n)) = ap (λ k. f (pos (suc k))) same in
      omega (arith, h, last)
  | inr e ↦
      let differ : i ≡ n → ⊥ = λ p. let t = (==_iff i n).1 p in cc in
      total-zero n i f (omega (arith, l, differ)) (omega (arith, h))
]

pub le-total : (n i : ℕ) (f : ℤ → ℕ) → i < n → f (pos (suc i)) ≤ total n f
le-total zero i f l = absurd (omega (arith, l))
le-total (suc n) i f l = elim (Bool-cases (i == n)) [
  | inl e ↦
      let same : i ≡ n = (==_iff i n).0 e in
      let last : f (pos (suc i)) ≡ f (pos (suc n)) = ap (λ k. f (pos (suc k))) same in
      omega (arith, last)
  | inr e ↦
      let differ : i ≡ n → ⊥ = λ p. let t = (==_iff i n).1 p in cc in
      let rest = le-total n i f (omega (arith, l, differ)) in omega (arith, rest)
]

-- Some worker counts, or none does.
pub total-cases : (n : ℕ) (f : ℤ → ℕ) → (total n f ≡ 0) ⊎ ((w : ℤ) × (m : ℕ) × (f w ≡ suc m))
total-cases zero f = inl refl
total-cases (suc n) f = counted (f (pos (suc n))) refl (total-cases n f)
  where
    counted :
        (m : ℕ)
        → f (pos (suc n)) ≡ m
        → (total n f ≡ 0) ⊎ ((w : ℤ) × (k : ℕ) × (f w ≡ suc k))
        → (total (suc n) f ≡ 0) ⊎ ((w : ℤ) × (k : ℕ) × (f w ≡ suc k))
    counted zero e (inl h) = inl (omega (arith, e, h))
    counted zero e (inr h) = inr h
    counted (suc m) e h = inr (pos (suc n), m, e)
