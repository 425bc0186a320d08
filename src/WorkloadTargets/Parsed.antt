-- ===== src/WorkloadTargets/Parsed.antt =====
-- internal/config/workload_targets.go: ParseReplayTargets, on texts.
use percona_load_generator_m.Prelude.{
  ℕ, ◌≡◌, refl, sym, ap, ◌∙◌, Bool, false, ◌||◌, Option, none, some, List, [], ◌∷◌, ◌++◌, All,
  All-append, All-imp, arith, ◌==◌, append_assoc, if◌then◌else◌,
}
use percona_load_generator_m.Prelude.Text.{Text, is_space, trim_space}
use percona_load_generator_m.Prelude.Fields.{fields_func, fields_func_first, trim_space_id}

-- `strings.Cut` at a code point.
unfoldable pub cut : ℕ → Text → Option (Text × Text)
cut d [] = none
cut d (c ∷ cs) =
    let rest = cut d cs in
    if c == d
    then some ([], cs)
    else elim rest [ none ↦ none | some (before, after) ↦ some (c ∷ before, after) ]

unfoldable pub between_targets : ℕ → Bool
between_targets c = (c == b';') || (c == 10) || (c == 13)

unfoldable pub target_of : Text → Text × Text
target_of part = elim (cut b'=' part) [
  | none ↦ ([], trim_space part)
  | some (label, uri) ↦ (trim_space label, trim_space uri)
]

unfoldable pub read_parts : List Text → List (Text × Text)
read_parts [] = []
read_parts (p ∷ ps) = elim (trim_space p) [
  | [] ↦ read_parts ps
  | c ∷ cs ↦ target_of (c ∷ cs) ∷ read_parts ps
]

unfoldable pub parse_replay_targets : Text → List (Text × Text)
parse_replay_targets s = read_parts (fields_func between_targets s)

-- Each target as "label=uri;".
unfoldable pub print_targets : List (Text × Text) → Text
print_targets [] = []
print_targets ((label, uri) ∷ ts) = label ++ b'=' ∷ (uri ++ b';' ∷ print_targets ts)

-- A label and a URI with no space and no semicolon, and a label with no equals sign.
abbrev pub IsPlain : ℕ → Type 0
IsPlain c = (is_space c ≡ false) × ((c == b';') ≡ false)

pub record IsPrintable (t : Text × Text) : Type 0 where
  pub label_plain : All IsPlain t.0
  pub label_cut : All (λ c. (c == b'=') ≡ false) t.0
  pub uri_plain : All IsPlain t.1

cut_first : (s t : Text) → All (λ c. (c == b'=') ≡ false) s → cut b'=' (s ++ b'=' ∷ t) ≡ some (s, t)
unfolding cut
cut_first [] t h = refl
cut_first (c ∷ s) t h = rw (h.0, cut_first s t h.1) refl

entry-IsPlain :
    (label uri : Text) → All IsPlain label → All IsPlain uri → All IsPlain (label ++ b'=' ∷ uri)
unfolding is_space
entry-IsPlain label uri h k = All-append IsPlain label (b'=' ∷ uri) h ((refl, refl), k)

IsPlain-between_targets : (c : ℕ) → IsPlain c → between_targets c ≡ false
unfolding between_targets is_space
IsPlain-between_targets c h = ground arith

plain_spaceless : (s : Text) → All IsPlain s → All (λ c. is_space c ≡ false) s
plain_spaceless s h = All-imp (λ c p. p.0) s h

target_of_entry : (t : Text × Text) → IsPrintable t → target_of (t.0 ++ b'=' ∷ t.1) ≡ t
unfolding target_of
target_of_entry t p =
    rw (cut_first t.0 t.1 p.label_cut, target_of)
      (rw
        (
          trim_space_id t.0 (plain_spaceless t.0 p.label_plain),
          trim_space_id t.1 (plain_spaceless t.1 p.uri_plain),
        )
        refl)

read_entry :
    (c : ℕ) (cs : Text) (ps : List Text)
    → All IsPlain (c ∷ cs)
    → read_parts ((c ∷ cs) ∷ ps) ≡ target_of (c ∷ cs) ∷ read_parts ps
unfolding read_parts
read_entry c cs ps h = rw (trim_space_id (c ∷ cs) (plain_spaceless (c ∷ cs) h), read_parts) refl

parse_entry :
    (c : ℕ) (cs s : Text)
    → All IsPlain (c ∷ cs)
    → parse_replay_targets ((c ∷ cs) ++ b';' ∷ s) ≡ target_of (c ∷ cs) ∷ parse_replay_targets s
unfolding parse_replay_targets between_targets
parse_entry c cs s h =
    ap read_parts (
      fields_func_first between_targets c cs s b';' (All-imp IsPlain-between_targets (c ∷ cs) h)
        refl)
    ∙ read_entry c cs (fields_func between_targets s) h

parse_target :
    (t : Text × Text) (s : Text)
    → IsPrintable t
    → parse_replay_targets ((t.0 ++ b'=' ∷ t.1) ++ b';' ∷ s) ≡ t ∷ parse_replay_targets s
parse_target ([], uri) s p =
    parse_entry b'=' uri s (entry-IsPlain [] uri p.label_plain p.uri_plain)
    ∙ ap (λ t. t ∷ parse_replay_targets s) (target_of_entry ([], uri) p)
parse_target (c ∷ l, uri) s p =
    parse_entry c (l ++ b'=' ∷ uri) s (entry-IsPlain (c ∷ l) uri p.label_plain p.uri_plain)
    ∙ ap (λ t. t ∷ parse_replay_targets s) (target_of_entry (c ∷ l, uri) p)

-- Targets printed as "label=uri" with a semicolon after each are read back, where no label or URI has
-- a space or a semicolon and no label has an equals sign; the URIs may have equals signs.
pub parse_replay_targets-print_targets :
    (ts : List (Text × Text)) → All IsPrintable ts → parse_replay_targets (print_targets ts) ≡ ts
unfolding parse_replay_targets print_targets fields_func read_parts
parse_replay_targets-print_targets [] h = refl
parse_replay_targets-print_targets ((label, uri) ∷ ts) h =
    ap parse_replay_targets (sym (append_assoc label (b'=' ∷ uri) (b';' ∷ print_targets ts)))
    ∙ parse_target (label, uri) (print_targets ts) h.0
    ∙ ap (λ r. (label, uri) ∷ r) (parse_replay_targets-print_targets ts h.1)
