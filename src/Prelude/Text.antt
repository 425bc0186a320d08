-- ===== src/Prelude/Text.antt =====
-- What the source uses of Go's `strings`: text by code points.
use Prim.Native.Nat.{ℕ, ◌+◌}
use Prim.Native.Char.{code}
use Prim.Native.String.{String}
use mathlib.Core.Path.{◌≡◌, refl}
use mathlib.Core.Logic.{◌↔◌}
use mathlib.Core.Bool.{Bool, true, false, ◌&&◌, ◌||◌}
use mathlib.Core.List.{List, [], ◌∷◌, map, reverse}
use native.Mathlib.Omega.{arith}
use percona_load_generator_m.Prelude.Tests.{leb, ◌==◌, if◌then◌else◌}
use percona_load_generator_m.Prelude.Keys.{Eq}

abbrev pub Text : Type 0
Text = List ℕ

abbrev pub codes : String → Text
codes String.[] = []
codes (String.◌∷◌ c s) = code c ∷ codes s

-- `unicode.IsSpace`
unfoldable pub is_space : ℕ → Bool
is_space c =
    (leb 9 c && leb c 13)
    || (c == 32)
    || (c == 0x85)
    || (c == 0xA0)
    || (c == 0x1680)
    || (leb 0x2000 c && leb c 0x200A)
    || (c == 0x2028)
    || (c == 0x2029)
    || (c == 0x202F)
    || (c == 0x205F)
    || (c == 0x3000)

unfoldable pub trim_left : Text → Text
unfolding is_space
trim_left [] = []
trim_left (c ∷ cs) = if is_space c then trim_left cs else c ∷ cs

-- `strings.TrimSpace`
unfoldable pub trim_space : Text → Text
unfolding trim_left
trim_space s = trim_left (reverse (trim_left (reverse s)))

-- `unicode.ToLower` where its result is ASCII (the Kelvin sign and the dotted capital I are the only
-- other letters with an ASCII lower case); other letters are left, and no literal of the source has
-- one.
unfoldable pub to_lower_code : ℕ → ℕ
to_lower_code c =
    if leb b'A' c && leb c b'Z'
    then c + 32
    else if c == 0x212A
    then b'k'
    else if c == 0x130
    then b'i'
    else c

-- `strings.ToLower`
unfoldable pub to_lower : Text → Text
unfolding to_lower_code
to_lower s = map to_lower_code s

-- Simple case folding onto ASCII: the Kelvin sign folds to k and the long s to s.
unfoldable pub fold_code : ℕ → ℕ
fold_code c =
    if leb b'A' c && leb c b'Z'
    then c + 32
    else if c == 0x212A
    then b'k'
    else if c == 0x17F
    then b's'
    else c

unfoldable pub text_eq : Text → Text → Bool
text_eq [] [] = true
text_eq [] (d ∷ t) = false
text_eq (c ∷ s) [] = false
text_eq (c ∷ s) (d ∷ t) = (c == d) && text_eq s t

pub text_eq_iff : (s t : Text) → (text_eq s t ≡ true) ↔ (s ≡ t)
unfolding text_eq
text_eq_iff [] [] = ground arith
text_eq_iff [] (d ∷ t) = ground arith
text_eq_iff (c ∷ s) [] = ground arith
text_eq_iff (c ∷ s) (d ∷ t) = ground (arith, text_eq_iff s t)

instance abbrev pub text_eq_instance : Eq Text
text_eq_instance = record { beq = text_eq; beq_iff = text_eq_iff }

-- `strings.ToLower(strings.TrimSpace(s))`
unfoldable pub normalize : String → Text
unfolding trim_space to_lower
normalize s = to_lower (trim_space (codes s))

-- `strings.TrimSpace(s) == ""`
unfoldable pub is_blank : String → Bool
unfolding trim_space text_eq
is_blank s = text_eq (trim_space (codes s)) []

-- `strings.EqualFold(strings.TrimSpace(s), word)` for an ASCII word in lower case.
unfoldable pub equal_fold : String → String → Bool
unfolding trim_space fold_code text_eq
equal_fold s word = text_eq (map fold_code (trim_space (codes s))) (codes word)

normalize_runs : normalize "  RaMP\t" ≡ codes "ramp"
unfolding normalize
normalize_runs = refl
