-- ===== src/Compare/Outcomes/Roundtrip.antt =====
-- An outcome survives `toResult` and back.
use Prim.Native.Char.{Char}
use percona_load_generator_m.Prelude.{
  ℕ, zero, suc, ◌+◌, ◌*◌, ◌/◌, ◌%◌, ◌<◌, ◌≡◌, refl, sym, ap, ◌∙◌, String, Bool-cases, false, Option,
  none, some, List, [], ◌∷◌, All, length, arith, ◌⊎◌, inl, inr,
}
use percona_load_generator_m.Prelude.Int.{ℤ, int32_id, IsInt32}
use percona_load_generator_m.Prelude.Keys.{◌=?◌, string_eq}
use percona_load_generator_m.Recording.Format.{Outcome}
use percona_load_generator_m.Compare.Outcomes.{
  string_length, nibble, byte_of, decode_hex, digit, encode_hex, sum_ok, ShapeName, count_of,
  pointer_of, sum_of, to_result, checksum_of, outcome,
}

pointer_of-count_of : (o : Option ℤ) → pointer_of (count_of o) ≡ o
pointer_of-count_of none = refl
pointer_of-count_of (some n) = refl

digit_lem :
    (n : ℕ)
    → n < 16
    → (c : Char) × ((s : String) → digit n s ≡ String.◌∷◌ c s) × (nibble c ≡ some n)
unfolding nibble
digit_lem zero h = ("0", (λ s. refl), refl)
digit_lem (suc zero) h = ("1", (λ s. refl), refl)
digit_lem (suc (suc zero)) h = ("2", (λ s. refl), refl)
digit_lem (suc (suc (suc zero))) h = ("3", (λ s. refl), refl)
digit_lem (suc (suc (suc (suc zero)))) h = ("4", (λ s. refl), refl)
digit_lem (suc (suc (suc (suc (suc zero))))) h = ("5", (λ s. refl), refl)
digit_lem (suc (suc (suc (suc (suc (suc zero)))))) h = ("6", (λ s. refl), refl)
digit_lem (suc (suc (suc (suc (suc (suc (suc zero))))))) h = ("7", (λ s. refl), refl)
digit_lem (suc (suc (suc (suc (suc (suc (suc (suc zero)))))))) h = ("8", (λ s. refl), refl)
digit_lem (suc (suc (suc (suc (suc (suc (suc (suc (suc zero))))))))) h = ("9", (λ s. refl), refl)
digit_lem (suc (suc (suc (suc (suc (suc (suc (suc (suc (suc zero)))))))))) h =
    ("a", (λ s. refl), refl)
digit_lem (suc (suc (suc (suc (suc (suc (suc (suc (suc (suc (suc zero))))))))))) h =
    ("b", (λ s. refl), refl)
digit_lem (suc (suc (suc (suc (suc (suc (suc (suc (suc (suc (suc (suc zero)))))))))))) h =
    ("c", (λ s. refl), refl)
digit_lem (suc (suc (suc (suc (suc (suc (suc (suc (suc (suc (suc (suc (suc zero))))))))))))) h =
    ("d", (λ s. refl), refl)
digit_lem (suc (suc (suc (suc (suc (suc (suc (suc (suc (suc (suc (suc (suc (suc zero))))))))))))))
      h =
    ("e", (λ s. refl), refl)
digit_lem
      (suc (suc (suc (suc (suc (suc (suc (suc (suc (suc (suc (suc (suc (suc (suc zero)))))))))))))))
      h =
    ("f", (λ s. refl), refl)
digit_lem
      (suc
        (suc (suc (suc (suc (suc (suc (suc (suc (suc (suc (suc (suc (suc (suc (suc n))))))))))))))))
      h =
    absurd (omega (arith, h))

-- Two digits in front of a text.
decode_hex-digit :
    (h l : ℕ) (s : String)
    → h < 16
    → l < 16
    → decode_hex (digit h (digit l s)) ≡ byte_of (some h) (some l) (decode_hex s)
unfolding decode_hex
decode_hex-digit h l s hh hl =
    let (c, p, q) = digit_lem h hh in
    let (d, p', q') = digit_lem l hl in rw (p' s, p (String.◌∷◌ d s)) (rw (q, q', decode_hex) refl)

string_length-digit :
    (n : ℕ) (s : String) → n < 16 → string_length (digit n s) ≡ suc (string_length s)
string_length-digit n s h = let (c, p, q) = digit_lem n h in rw (p s) refl

pub decode_hex-encode_hex :
    (bs : List ℕ) → All (λ b. b < 256) bs → decode_hex (encode_hex bs) ≡ some bs
unfolding encode_hex
decode_hex-encode_hex [] h = unfold decode_hex in refl
decode_hex-encode_hex (b ∷ bs) h =
    let high : b / 16 < 16 = omega (arith, h.0) in
    let low : b % 16 < 16 = omega arith in
    let back : (b / 16) * 16 + b % 16 ≡ b = omega arith in
    rw (decode_hex-digit (b / 16) (b % 16) (encode_hex bs) high low, decode_hex-encode_hex bs h.1)
      (ap (λ x. some (x ∷ bs)) back)

string_length-encode_hex :
    (bs : List ℕ) → All (λ b. b < 256) bs → string_length (encode_hex bs) ≡ 2 * length bs
unfolding encode_hex
string_length-encode_hex [] h = refl
string_length-encode_hex (b ∷ bs) h =
    let high : b / 16 < 16 = omega (arith, h.0) in
    let low : b % 16 < 16 = omega arith in
    rw
      (
        string_length-digit (b / 16) (digit (b % 16) (encode_hex bs)) high,
        string_length-digit (b % 16) (encode_hex bs) low,
        string_length-encode_hex bs h.1,
      )
      (omega arith)

-- Checksums that the recorder writes: none, "unavailable", or 32 bytes in hex.
abbrev pub IsChecksum : String → Type 0
IsChecksum s =
    (s ≡ "")
    ⊎ (s ≡ "unavailable")
    ⊎ ((bs : List ℕ) × (length bs ≡ 32) × All (λ b. b < 256) bs × (s ≡ encode_hex bs))

sum_of_hex :
    (s : String) (bs : List ℕ)
    → (s =? "") ≡ false
    → string_length s ≡ 64
    → decode_hex s ≡ some bs
    → sum_of s ≡ (sum_ok, bs)
unfolding sum_of
sum_of_hex s bs a b d = ground arith

full_not_empty : (s : String) → string_length s ≡ 64 → (s =? "") ≡ false
full_not_empty s h = elim (Bool-cases (s =? "")) [
  | inl e ↦
      let q : s ≡ "" = (string_eq.beq_iff s "").0 e in
      let h' : 0 ≡ 64 = sym (ap string_length q) ∙ h in absurd (omega (arith, h'))
  | inr e ↦ e
]

-- A checksum of 32 bytes is read and written back.
checksum_of_hex :
    (bs : List ℕ) → length bs ≡ 32 → All (λ b. b < 256) bs → sum_of (encode_hex bs) ≡ (sum_ok, bs)
checksum_of_hex bs n small =
    let full : string_length (encode_hex bs) ≡ 64 =
      string_length-encode_hex bs small ∙ ap (λ k. 2 * k) n in
    sum_of_hex (encode_hex bs) bs (full_not_empty (encode_hex bs) full) full
      (decode_hex-encode_hex bs small)

checksum_of-sum_of : (s : String) → IsChecksum s → checksum_of (sum_of s).0 (sum_of s).1 ≡ s
checksum_of-sum_of s (inl e) = unfold sum_of in rw e refl
checksum_of-sum_of s (inr (inl e)) = unfold sum_of in rw e refl
checksum_of-sum_of s (inr (inr (bs, n, small, e))) = rw (e, checksum_of_hex bs n small) refl

-- An outcome whose checksum is none, "unavailable" or the hex digits of 32 bytes, and whose error code
-- is an `int32`, comes back from `outcome` as it went into `toResult`.
pub outcome-to_result :
    (o : Outcome) (shape : ShapeName) (worker iteration : ℤ) (worker_seq seq : ℕ)
    → IsChecksum o.checksum
    → IsInt32 o.error_code
    → outcome (to_result o shape worker iteration worker_seq seq) ≡ o
unfolding outcome to_result
outcome-to_result o shape worker iteration worker_seq seq c e =
    rw
      (
        int32_id o.error_code e,
        checksum_of-sum_of o.checksum c,
        pointer_of-count_of o.returned,
        pointer_of-count_of o.inserted,
        pointer_of-count_of o.matched,
        pointer_of-count_of o.modified,
        pointer_of-count_of o.upserted,
        pointer_of-count_of o.deleted,
      )
      refl
