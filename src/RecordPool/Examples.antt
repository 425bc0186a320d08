-- ===== src/RecordPool/Examples.antt =====
-- Pools with concrete values.
use percona_load_generator_m.Prelude.{
  ℕ, ◌-◌, ◌<◌, ◌≡◌, refl, ◌⊎◌, none, some, [], ◌∷◌, get_elem?, arith,
}
use percona_load_generator_m.Prelude.Int.{ℤ, pos}
use percona_load_generator_m.Prelude.Keys.{◌=?◌, int_eq, nat_eq}
use percona_load_generator_m.RecordPool.{
  Values, int, Doc, RecordPool, new_record_pool, records_of, random,
}
use percona_load_generator_m.RecordPool.Newest.{newest, add_all, newest-add_all, random_lem}

abbrev values : Values
values = record {
  Float = ℤ;
  ObjectId = ℕ;
  Other = ℕ;
  to_float = λ n. n;
  float_eq = λ a b. a =? b;
  id_eq = λ a b. a =? b;
  hex = λ i. "0";
}

abbrev doc : ℕ → Doc values
doc n = ("_id", int (pos n)) ∷ []

newest-add_all_example :
    records_of values "shop.orders"
      (add_all values "shop.orders" (doc 1 ∷ doc 2 ∷ doc 3 ∷ []) (new_record_pool values (pos 2)))
    ≡ newest values (new_record_pool values (pos 2)).max_size (doc 1 ∷ doc 2 ∷ doc 3 ∷ [])
newest-add_all_example =
    newest-add_all values "shop.orders" (doc 1 ∷ doc 2 ∷ doc 3 ∷ []) (pos 2) refl

newest_runs :
    newest values (new_record_pool values (pos 2)).max_size (doc 1 ∷ doc 2 ∷ doc 3 ∷ [])
    ≡ doc 2 ∷ doc 3 ∷ []
unfolding newest new_record_pool
newest_runs = refl

abbrev orders : RecordPool values
orders = record { max_size = 2; pools = ("shop.orders", doc 1 ∷ doc 2 ∷ []) ∷ [] }

-- The last number below a bound.
abbrev last_below : ℕ → ℕ
last_below n = n - 1

last_below_lem : (n : ℕ) → 0 < n → last_below n < n
last_below_lem n h = omega (arith, h)

random_lem_example :
    ((records_of values "shop.orders" orders ≡ [])
      × (random values "shop.orders" (some (λ n. pos 7)) last_below orders ≡ none))
    ⊎ ((i : ℕ) × (d : Doc values) × (get_elem? (records_of values "shop.orders" orders) i ≡ some d)
        × (random values "shop.orders" (some (λ n. pos 7)) last_below orders ≡ some d))
random_lem_example =
    random_lem values "shop.orders" (some (λ n. pos 7)) last_below orders refl last_below_lem
