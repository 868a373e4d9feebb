-- ===== src/Intrinsics.antt =====
-- The names of QIR intrinsics: the two regular expressions of transform/*/pattern.rs, read as
-- matchers over text. The `regex` crate is not part of the repository; what its syntax says of the
-- two expressions is stated by relations in the modules below, where the matchers are proved to
-- decide them.
pub mod Qis
pub mod Record
mod Tests
use qcs_sdk_qir.Base.{
  ℕ, ◌==◌, Bool, true, false, ◌||◌, Option, none, some, List, [], ◌∷◌, Text, text, text_eq,
  strip_prefix, is_empty, if◌then◌else◌,
}

abbrev pub qis_prefix : Text
qis_prefix = text "__quantum__qis__"

abbrev pub rt_prefix : Text
rt_prefix = text "__quantum__rt__"

abbrev pub record_suffix : Text
record_suffix = text "_record_output"

-- the named groups of QIS_INTRINSIC_REGEX
pub record QisCaptures : Type 0 where
  pub operation : Text
  pub controlled : Bool
  pub adjoint : Bool

-- `[^_]+`, without the demand that it is not empty: the longest run and what follows it.
unfoldable pub span_operation : Text → Text × Text
span_operation [] = ([], [])
span_operation (c ∷ s) =
    let (run, rest) = span_operation s in if c == b'_' then ([], c ∷ s) else (c ∷ run, rest)

-- An optional group `(p)?`.
unfoldable pub optional : Text → Text → Bool × Text
unfolding strip_prefix
optional p s = elim (strip_prefix p s) [ none ↦ (false, s) | some rest ↦ (true, rest) ]

-- The end of the expression: the operation is not empty, and nothing is left.
qis_end : Text → Bool → Bool → Text → Option QisCaptures
qis_end op controlled adjoint rest =
    if is_empty op
    then none
    else if is_empty rest
    then some (record { operation = op; controlled = controlled; adjoint = adjoint })
    else none

-- `(?P<controlled>__ctl)?(?P<adjoint>__adj)?(__body)?$` behind the operation
unfoldable pub qis_suffix : Text → Text → Option QisCaptures
unfolding qis_end
qis_suffix op s =
    let (controlled, s₁) = optional (text "__ctl") s in
    let (adjoint, s₂) = optional (text "__adj") s₁ in
    let (_, s₃) = optional (text "__body") s₂ in qis_end op controlled adjoint s₃

-- QIS_INTRINSIC_REGEX.captures(name)
unfoldable pub qis_captures : Text → Option QisCaptures
unfolding strip_prefix span_operation qis_suffix optional
qis_captures name = elim (strip_prefix qis_prefix name) [
  | none ↦ none
  | some s ↦ qis_suffix (span_operation s).0 (span_operation s).1
]

abbrev cons_option : ℕ → Option Text → Option Text
cons_option c none = none
cons_option c (some t) = some (c ∷ t)

-- `strip_suffix p s` is what stands in `s` before its end `p`.
unfoldable pub strip_suffix : Text → Text → Option Text
unfolding text_eq
strip_suffix p [] = if text_eq [] p then some [] else none
strip_suffix p (c ∷ s) = if text_eq (c ∷ s) p then some [] else cons_option c (strip_suffix p s)

unfoldable pub has_newline : Text → Bool
has_newline [] = false
has_newline (c ∷ s) = c == 10 || has_newline s

-- `.+`: not empty, and no line feed
unfoldable pub some_line : Text → Option Text
unfolding has_newline
some_line t = if is_empty t || has_newline t then none else some t

abbrev pub record_line : Option Text → Option Text
record_line none = none
record_line (some t) = some_line t

-- The group `record_type` of RT_RECORD_OUTPUT_INTRINSIC_REGEX.captures(name).
unfoldable pub record_captures : Text → Option Text
unfolding strip_prefix strip_suffix some_line
record_captures name = elim (strip_prefix rt_prefix name) [
  | none ↦ none
  | some s ↦ record_line (strip_suffix record_suffix s)
]
