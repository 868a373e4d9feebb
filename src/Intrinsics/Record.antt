-- ===== src/Intrinsics/Record.antt =====
-- `record_captures` and the language of RT_RECORD_OUTPUT_INTRINSIC_REGEX.
use mathlib.Core.Path.{subst}
use qcs_sdk_qir.Base.{
  ℕ, ◌≡◌, ◌≢◌, ◌↔◌, refl, false, Option, none, some, [], ◌∷◌, ◌++◌, Text, text_eq, text_eq_iff,
  strip_prefix, strip_prefix-eq_some, Bool-cases, Option-cases, inl, inr, ap, ◌∙◌, sym, All, length,
  length-append, arith,
}
use qcs_sdk_qir.Intrinsics.{
  rt_prefix, record_suffix, record_line, strip_suffix, has_newline, some_line, record_captures,
}

-- What the expression says: the name is the prefix, a non-empty record type on one line, and the
-- suffix.
pub record RecordMatches (name : Text) (record_type : Text) : Type 0 where
  pub not_empty : record_type ≢ []
  pub one_line : All (λ x. x ≢ 10) record_type
  pub spelling : name ≡ rt_prefix ++ (record_type ++ record_suffix)

-- A text is never its own end behind a first character.
not-text_eq-longer : (c : ℕ) (t p : Text) → text_eq (c ∷ (t ++ p)) p ≡ false
not-text_eq-longer c t p = elim (Bool-cases (text_eq (c ∷ (t ++ p)) p)) [
  | inr e ↦ e
  | inl e ↦
      absurd (omega (arith, ap length ((text_eq_iff (c ∷ (t ++ p)) p).0 e), length-append t p))
]

strip_suffix_self : (p : Text) → strip_suffix p p ≡ some []
unfolding strip_suffix
strip_suffix_self [] = refl
strip_suffix_self (c ∷ p) = rw ((text_eq_iff (c ∷ p) (c ∷ p)).1 refl)

strip_suffix-append : (t p : Text) → strip_suffix p (t ++ p) ≡ some t
unfolding strip_suffix
strip_suffix-append [] p = strip_suffix_self p
strip_suffix-append (c ∷ t) p = rw (not-text_eq-longer c t p, strip_suffix-append t p)

strip_suffix-eq_some : (p s : Text) {t : Text} → strip_suffix p s ≡ some t → s ≡ t ++ p
unfolding strip_suffix
strip_suffix-eq_some p [] {t} h = ground (arith, text_eq_iff [] p)
strip_suffix-eq_some p (c ∷ s) {t} h = elim (Bool-cases (text_eq (c ∷ s) p)) [
  | inl e ↦ ground (arith, text_eq_iff (c ∷ s) p)
  | inr e ↦ elim (Option-cases (strip_suffix p s)) [
    | inl n ↦ ground arith
    | inr (r, k) ↦ ground (arith, strip_suffix-eq_some p s {t = r} k)
  ]
]

has_newline-eq_false : (t : Text) → has_newline t ≡ false → All (λ x. x ≢ 10) t
unfolding has_newline
has_newline-eq_false [] h = tt
has_newline-eq_false (c ∷ t) h = (ground arith, has_newline-eq_false t (ground arith))

has_newline-one_line : (t : Text) → All (λ x. x ≢ 10) t → has_newline t ≡ false
unfolding has_newline
has_newline-one_line [] h = refl
has_newline-one_line (c ∷ t) h = ground (arith, has_newline-one_line t h.1)

some_line-one_line : (t : Text) → t ≢ [] → All (λ x. x ≢ 10) t → some_line t ≡ some t
unfolding some_line
some_line-one_line [] e h = absurd (e refl)
some_line-one_line (c ∷ t) e h = rw (has_newline-one_line (c ∷ t) h)

some_line-eq_some :
    (t : Text) {r : Text} → some_line t ≡ some r → (t ≡ r) × (r ≢ []) × All (λ x. x ≢ 10) r
unfolding some_line
some_line-eq_some [] h = absurd (ground arith)
some_line-eq_some (c ∷ t) {r} h = elim (Bool-cases (has_newline (c ∷ t))) [
  | inl e ↦ absurd (ground arith)
  | inr e ↦
      let same : (c ∷ t) ≡ r = ground arith in
      (same, λ n. ground arith, subst (All (λ x. x ≢ 10)) same (has_newline-eq_false (c ∷ t) e))
]

record_captures-prefix :
    (s : Text) → record_captures (rt_prefix ++ s) ≡ record_line (strip_suffix record_suffix s)
unfolding record_captures
record_captures-prefix s = refl

-- Every name of the language is matched, with its record type.
pub record_captures_complete :
    {name t : Text} → RecordMatches name t → record_captures name ≡ some t
record_captures_complete {t} h =
    ap record_captures h.spelling
    ∙ rw (record_captures-prefix, strip_suffix-append t record_suffix)
        (some_line-one_line t h.not_empty h.one_line)

record_captures-no_prefix :
    (name : Text) → strip_prefix rt_prefix name ≡ none → record_captures name ≡ none
unfolding record_captures
record_captures-no_prefix name e = rw (e, record_captures)

record_line-RecordMatches :
    (s : Text) {t : Text}
    → record_line (strip_suffix record_suffix s) ≡ some t
    → RecordMatches (rt_prefix ++ s) t
record_line-RecordMatches s {t} h = found (strip_suffix record_suffix s) refl
  where
    found : (o : Option Text) → strip_suffix record_suffix s ≡ o → RecordMatches (rt_prefix ++ s) t
    found none e = absurd (cc (h, ap record_line e))
    found (some r) e =
        let line = some_line-eq_some r (sym (ap record_line e) ∙ h) in
        record {
          not_empty = line.1;
          one_line = line.2;
          spelling =
              ap (λ (x : Text). rt_prefix ++ x)
                (strip_suffix-eq_some record_suffix s e
                  ∙ ap (λ (x : Text). x ++ record_suffix) line.0);
        }

-- A match has the shape that the expression asks for.
pub record_captures_sound :
    (name : Text) {t : Text} → record_captures name ≡ some t → RecordMatches name t
record_captures_sound name {t} h = found (strip_prefix rt_prefix name) refl
  where
    found : (o : Option Text) → strip_prefix rt_prefix name ≡ o → RecordMatches name t
    found none e = absurd (cc (h, record_captures-no_prefix name e))
    found (some s) e =
        let split = strip_prefix-eq_some rt_prefix name e in
        rw split (record_line-RecordMatches s (rw (split, record_captures-prefix) at h))

-- A name is matched with a record type exactly if it is the prefix of the runtime, the record
-- type, which is not empty and has no line feed, and the suffix of recording calls.
pub record_captures_iff : (name t : Text) → (record_captures name ≡ some t) ↔ RecordMatches name t
record_captures_iff name t = (record_captures_sound name, record_captures_complete)
