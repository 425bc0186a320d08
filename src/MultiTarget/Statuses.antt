-- ===== src/MultiTarget/Statuses.antt =====
-- The status of a run without an error.
use percona_load_generator_m.Prelude.{
  ◌≡◌, ◌≢◌, inl, inr, refl, String, Bool, true, false, ◌&&◌, Option, none, some, if_split, if_cases,
}
use percona_load_generator_m.Prelude.Keys.{◌=?◌, string_eq}
use percona_load_generator_m.MultiTarget.{
  RunEnd, run_error, run_panic, run_returns, complete, cancelled, incomplete, is_end, replay_status,
  traffic_status, end_status,
}

-- A replay reports one of the states that a run ends in.
abbrev pub ReportsEnd : RunEnd → Type 0
ReportsEnd (run_error e) = Unit
ReportsEnd (run_panic text) = Unit
ReportsEnd (run_returns none traffic is_done) = Unit
ReportsEnd (run_returns (some s) traffic is_done) = is_end s ≡ true

replay_status-end :
    (r : Option String) (g : Option String) (d : Bool)
    → ReportsEnd (run_returns r g d)
    → is_end (replay_status r) ≡ true
unfolding is_end
replay_status-end none g d h = refl
replay_status-end (some s) g d h =
    if_split (λ x. is_end x ≡ true) (s =? complete) (λ _. refl) (λ _. h)

traffic_status-end :
    (g : Option String) (s : String) → is_end s ≡ true → is_end (traffic_status g s) ≡ true
unfolding is_end
traffic_status-end none s h = h
traffic_status-end (some x) s h =
    if_split (λ y. is_end y ≡ true) (x =? complete) (λ _. h) (λ _. refl)

pub end_status-end :
    (r g : Option String) (d : Bool)
    → ReportsEnd (run_returns r g d)
    → is_end (end_status r g d) ≡ true
unfolding end_status is_end
end_status-end r g d h =
    let s = traffic_status g (replay_status r) in
    if_split (λ x. is_end x ≡ true) (d && s =? complete) (λ _. refl)
      (λ _. traffic_status-end g (replay_status r) (replay_status-end r g d h))

-- What reports itself complete, if it reports at all.
abbrev pub IsWell : Option String → Type 0
IsWell none = Unit
IsWell (some s) = s ≡ complete

abbrev pub RanWell : RunEnd → Type 0
RanWell (run_error e) = ⊥
RanWell (run_panic text) = ⊥
RanWell (run_returns r g d) = IsWell r × IsWell g × (d ≡ false)

and_false : (a b : Bool) → (a && b) ≡ false → b ≡ true → a ≡ false
and_false true b h k = cc
and_false false b h k = refl

pub complete_apart : (s : String) → (s =? complete) ≡ false → s ≢ complete
complete_apart s h e = cc ((string_eq.beq_iff s complete).1 e)

replay_status-IsWell : (r : Option String) → replay_status r ≡ complete → IsWell r
replay_status-IsWell none h = tt
replay_status-IsWell (some s) h = elim (if_cases (s =? complete) complete s complete h) [
  | inl (e, _) ↦ (string_eq.beq_iff s complete).0 e
  | inr (_, e) ↦ e
]

traffic_status-IsWell :
    (g : Option String) (s : String) → traffic_status g s ≡ complete → IsWell g × (s ≡ complete)
traffic_status-IsWell none s h = (tt, h)
traffic_status-IsWell (some x) s h = elim (if_cases (x =? complete) s incomplete complete h) [
  | inl (e, q) ↦ ((string_eq.beq_iff x complete).0 e, q)
  | inr (_, q) ↦ absurd (complete_apart incomplete refl q)
]

pub end_status-RanWell :
    (r g : Option String) (d : Bool) → end_status r g d ≡ complete → RanWell (run_returns r g d)
unfolding end_status
end_status-RanWell r g d h =
    let s = traffic_status g (replay_status r) in
    elim (if_cases (d && s =? complete) cancelled s complete h) [
      | inl (_, q) ↦ absurd (complete_apart cancelled refl q)
      | inr (e, q) ↦
          let (w, p) = traffic_status-IsWell g (replay_status r) q in
          (
            replay_status-IsWell r p,
            w,
            and_false d (s =? complete) e ((string_eq.beq_iff s complete).1 q),
          )
    ]

pub end_status-complete :
    (r g : Option String) → IsWell r → IsWell g → end_status r g false ≡ complete
unfolding end_status
end_status-complete none none h k = refl
end_status-complete none (some x) h k = rw k refl
end_status-complete (some s) none h k = rw h refl
end_status-complete (some s) (some x) h k = rw (h, k) refl
