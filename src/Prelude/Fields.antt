-- ===== src/Prelude/Fields.antt =====
-- `strings.FieldsFunc`, and text that `strings.TrimSpace` leaves alone.
use Prim.Native.Nat.{ℕ}
use mathlib.Core.Path.{◌≡◌, ◌∙◌, refl, ap, sym, subst}
use mathlib.Core.Bool.{Bool, true, false}
use mathlib.Core.List.{List, [], ◌∷◌, ◌++◌, reverse, reverse-append, reverse-reverse}
use percona_load_generator_m.Prelude.Tests.{if◌then◌else◌}
use percona_load_generator_m.Prelude.Lists.{All, All-append}
use percona_load_generator_m.Prelude.Text.{Text, is_space, trim_left, trim_space}

abbrev pub flush : Text → List Text
flush [] = []
flush (c ∷ cs) = (c ∷ cs) ∷ []

-- The field that the text begins with, and the fields after it.
unfoldable pub split_fields : (ℕ → Bool) → Text → Text × List Text
split_fields sep [] = ([], [])
split_fields sep (c ∷ cs) =
    let rest = split_fields sep cs in
    if sep c then ([], flush rest.0 ++ rest.1) else (c ∷ rest.0, rest.1)

unfoldable pub fields_func : (ℕ → Bool) → Text → List Text
unfolding split_fields
fields_func sep cs = let r = split_fields sep cs in flush r.0 ++ r.1

split_fields_first :
    (sep : ℕ → Bool) (s t : Text) (c : ℕ)
    → All (λ d. sep d ≡ false) s
    → sep c ≡ true
    → split_fields sep (s ++ c ∷ t) ≡ (s, fields_func sep t)
unfolding split_fields fields_func
split_fields_first sep [] t c h k = rw k refl
split_fields_first sep (d ∷ s) t c h k = rw (h.0, split_fields_first sep s t c h.1 k) refl

-- A field with a separator after it.
pub fields_func_first :
    (sep : ℕ → Bool) (d : ℕ) (s t : Text) (c : ℕ)
    → All (λ d. sep d ≡ false) (d ∷ s)
    → sep c ≡ true
    → fields_func sep ((d ∷ s) ++ c ∷ t) ≡ (d ∷ s) ∷ fields_func sep t
unfolding fields_func split_fields
fields_func_first sep d s t c h k =
    ap (λ r. flush r.0 ++ r.1) (split_fields_first sep (d ∷ s) t c h k)

trim_left_id : (s : Text) → All (λ c. is_space c ≡ false) s → trim_left s ≡ s
unfolding trim_left
trim_left_id [] h = refl
trim_left_id (c ∷ s) h = rw h.0 refl

reverse-All :
    (s : Text) → All (λ c. is_space c ≡ false) s → All (λ c. is_space c ≡ false) (reverse s)
reverse-All [] h = tt
reverse-All (c ∷ s) h =
    subst (All (λ c. is_space c ≡ false)) (sym (reverse-append (c ∷ []) s))
      (All-append _ (reverse s) (c ∷ []) (reverse-All s h.1) (h.0, tt))

pub trim_space_id : (s : Text) → All (λ c. is_space c ≡ false) s → trim_space s ≡ s
unfolding trim_space
trim_space_id s h =
    let r = reverse-All s h in
    ap (λ x. trim_left (reverse x)) (trim_left_id (reverse s) r)
    ∙ ap trim_left (reverse-reverse s)
    ∙ trim_left_id s h
