-- ===== src/Intrinsics/Qis.antt =====
-- `qis_captures` and the language of QIS_INTRINSIC_REGEX.
use mathlib.Core.List.{append-nil}
use qcs_sdk_qir.Base.{
  ℕ, ◌==◌, ◌≡◌, ◌≢◌, ◌↔◌, refl, Bool, true, false, Option, none, some, [], ◌∷◌, ◌++◌, Text, text,
  strip_prefix, strip_prefix-eq_some, Bool-cases, Option-cases, inl, inr, ap, ap₂, ◌∙◌, sym, All,
  arith,
}
use qcs_sdk_qir.Intrinsics.{
  qis_prefix, QisCaptures, span_operation, qis_end, optional, qis_suffix, qis_captures,
}

abbrev pub group : Bool → Text → Text
group true t = t
group false t = []

-- What the expression says: the name is the prefix, a non-empty operation without underscores, and
-- the three optional groups.
pub record QisMatches (name : Text) (c : QisCaptures) : Type 0 where
  pub has_body : Bool
  pub not_empty : c.operation ≢ []
  pub plain : All (λ x. x ≢ b'_') c.operation
  pub spelling :
      name
      ≡ qis_prefix
        ++ (c.operation
            ++ (group c.controlled (text "__ctl")
                ++ (group c.adjoint (text "__adj") ++ group has_body (text "__body"))))

abbrev tail_of : Bool → Bool → Bool → Text
tail_of ctl adj body =
    group ctl (text "__ctl") ++ (group adj (text "__adj") ++ group body (text "__body"))

span_operation-tail :
    (ctl adj body : Bool) → span_operation (tail_of ctl adj body) ≡ ([], tail_of ctl adj body)
unfolding span_operation
span_operation-tail true true true = refl
span_operation-tail true true false = refl
span_operation-tail true false true = refl
span_operation-tail true false false = refl
span_operation-tail false true true = refl
span_operation-tail false true false = refl
span_operation-tail false false true = refl
span_operation-tail false false false = refl

span_operation-append :
    (op tail : Text)
    → All (λ x. x ≢ b'_') op
    → span_operation tail ≡ ([], tail)
    → span_operation (op ++ tail) ≡ (op, tail)
unfolding span_operation
span_operation-append [] tail h e = e
span_operation-append (c ∷ op) tail h e = ground (arith, span_operation-append op tail h.1 e)

qis_suffix-tail :
    (c : ℕ) (op : Text) (ctl adj body : Bool)
    → qis_suffix (c ∷ op) (tail_of ctl adj body)
      ≡ some (record { operation = c ∷ op; controlled = ctl; adjoint = adj })
unfolding qis_suffix optional strip_prefix
qis_suffix-tail c op true true true = refl
qis_suffix-tail c op true true false = refl
qis_suffix-tail c op true false true = refl
qis_suffix-tail c op true false false = refl
qis_suffix-tail c op false true true = refl
qis_suffix-tail c op false true false = refl
qis_suffix-tail c op false false true = refl
qis_suffix-tail c op false false false = refl

-- Behind the prefix the matcher splits off the operation and reads the optional groups.
qis_captures-prefix :
    (s : Text)
    → qis_captures (qis_prefix ++ s) ≡ qis_suffix (span_operation s).0 (span_operation s).1
unfolding qis_captures
qis_captures-prefix s = refl

qis_captures-spelled :
    (op : Text) (ctl adj body : Bool)
    → op ≢ []
    → All (λ x. x ≢ b'_') op
    → qis_captures (qis_prefix ++ (op ++ tail_of ctl adj body))
      ≡ some (record { operation = op; controlled = ctl; adjoint = adj })
qis_captures-spelled [] ctl adj body e h = absurd (e refl)
qis_captures-spelled (x ∷ op) ctl adj body e h =
    rw
      (
        qis_captures-prefix,
        span_operation-append (x ∷ op) (tail_of ctl adj body) h (span_operation-tail ctl adj body),
      )
      (qis_suffix-tail x op ctl adj body)

-- Every name of the language is matched, with its groups.
pub qis_captures_complete :
    {name : Text} {c : QisCaptures} → QisMatches name c → qis_captures name ≡ some c
qis_captures_complete {c} h =
    ap qis_captures h.spelling
    ∙ qis_captures-spelled c.operation c.controlled c.adjoint h.has_body h.not_empty h.plain

span_operation-split : (s : Text) → s ≡ (span_operation s).0 ++ (span_operation s).1
unfolding span_operation
span_operation-split [] = refl
span_operation-split (c ∷ s) = ground (arith, span_operation-split s)

span_operation-plain : (s : Text) → All (λ x. x ≢ b'_') (span_operation s).0
unfolding span_operation
span_operation-plain [] = tt
span_operation-plain (c ∷ s) = elim (Bool-cases (c == b'_')) [
  | inl e ↦ rw e tt
  | inr e ↦ rw e (ground arith, span_operation-plain s)
]

optional-split : (p s : Text) → s ≡ group (optional p s).0 p ++ (optional p s).1
unfolding optional
optional-split p s = found (strip_prefix p s) refl
  where
    found :
        (o : Option Text) → strip_prefix p s ≡ o → s ≡ group (optional p s).0 p ++ (optional p s).1
    found none e = rw (e, optional)
    found (some r) e = rw (e, optional) (strip_prefix-eq_some p s e)

qis_end-eq_some :
    (op : Text) (ctl adj : Bool) (rest : Text) {c : QisCaptures}
    → qis_end op ctl adj rest ≡ some c
    → (op ≢ []) × (rest ≡ []) × (c ≡ record { operation = op; controlled = ctl; adjoint = adj })
unfolding qis_end
qis_end-eq_some [] ctl adj rest h = absurd (ground arith)
qis_end-eq_some (x ∷ op) ctl adj [] h = (λ e. ground arith, refl, ground arith)
qis_end-eq_some (x ∷ op) ctl adj (y ∷ rest) h = absurd (ground arith)

three_parts :
    (a b c : Text) {s s₁ s₂ s₃ : Text}
    → s ≡ a ++ s₁
    → s₁ ≡ b ++ s₂
    → s₂ ≡ c ++ s₃
    → s₃ ≡ []
    → s ≡ a ++ (b ++ c)
three_parts a b c e₁ e₂ e₃ e₄ = rw (e₁, e₂, e₃, e₄, append-nil)

-- What the suffix matcher accepts is spelled by its groups.
qis_suffix-split :
    (op s : Text) {c : QisCaptures}
    → qis_suffix op s ≡ some c
    → (op ≢ []) × (c.operation ≡ op) × (body : Bool) × (s ≡ tail_of c.controlled c.adjoint body)
unfolding qis_suffix
qis_suffix-split op s {c} h =
    let (ctl, s₁) = optional (text "__ctl") s in
    let (adj, s₂) = optional (text "__adj") s₁ in
    let (body, s₃) = optional (text "__body") s₂ in
    let parts = qis_end-eq_some op ctl adj s₃ h in
    (
      parts.0,
      ap (λ (d : QisCaptures). d.operation) parts.2,
      body,
      rw parts.2 (
          three_parts _ _ _ (optional-split (text "__ctl") s) (optional-split (text "__adj") s₁)
            (optional-split (text "__body") s₂) parts.1),
    )

-- Behind the prefix, an accepted text is the run of the operation and the groups.
qis_suffix-QisMatches :
    (s : Text) {c : QisCaptures}
    → qis_suffix (span_operation s).0 (span_operation s).1 ≡ some c
    → QisMatches (qis_prefix ++ s) c
qis_suffix-QisMatches s h =
    let parts = qis_suffix-split (span_operation s).0 (span_operation s).1 h in
    record {
      has_body = parts.2;
      not_empty = rw parts.1 parts.0;
      plain = rw parts.1 (span_operation-plain s);
      spelling =
          ap (λ (t : Text). qis_prefix ++ t)
            (span_operation-split s ∙ ap₂ (λ (a b : Text). a ++ b) (sym parts.1) parts.3);
    }

qis_captures-no_prefix :
    (name : Text) → strip_prefix qis_prefix name ≡ none → qis_captures name ≡ none
unfolding qis_captures
qis_captures-no_prefix name e = rw (e, qis_captures)

-- A match has the shape that the expression asks for.
pub qis_captures_sound :
    (name : Text) {c : QisCaptures} → qis_captures name ≡ some c → QisMatches name c
qis_captures_sound name {c} h = prefixed (strip_prefix qis_prefix name) refl
  where
    prefixed : (o : Option Text) → strip_prefix qis_prefix name ≡ o → QisMatches name c
    prefixed none e = absurd (cc (h, qis_captures-no_prefix name e))
    prefixed (some s) e =
        let split = strip_prefix-eq_some qis_prefix name e in
        rw split (qis_suffix-QisMatches s (rw (split, qis_captures-prefix) at h))

-- A name is matched with some groups exactly if it is the prefix of quantum intrinsics, a
-- non-empty operation without underscores, and then, each optional and in this order, the
-- control, adjoint and body suffixes, with those groups.
pub qis_captures_iff :
    (name : Text) (c : QisCaptures) → (qis_captures name ≡ some c) ↔ QisMatches name c
qis_captures_iff name c = (qis_captures_sound name, qis_captures_complete)

-- At most one reading: two matches of one name have the same groups.
pub QisMatches-unique :
    {name : Text} {c d : QisCaptures} → QisMatches name c → QisMatches name d → c ≡ d
QisMatches-unique h k = cc (qis_captures_complete h, qis_captures_complete k)

-- An engine that follows the documented meaning of the expression: what it returns is a match, and
-- it returns something if there is a match.
pub record QisEngine (captures : Text → Option QisCaptures) : Type 0 where
  pub sound : {name : Text} {c : QisCaptures} → captures name ≡ some c → QisMatches name c
  pub total : {name : Text} {c : QisCaptures} → QisMatches name c → captures name ≢ none

-- For any matcher that returns only readings of the expression for quantum intrinsics and
-- returns one if there is one, the matcher of the model returns the same on every name.
pub qis_captures-eq_engine :
    (captures : Text → Option QisCaptures)
    → QisEngine captures
    → (name : Text) → qis_captures name ≡ captures name
qis_captures-eq_engine captures h name = elim (Option-cases (captures name)) [
  | inr (c, e) ↦ qis_captures_complete (h.sound e) ∙ sym e
  | inl e ↦ elim (Option-cases (qis_captures name)) [
    | inl e' ↦ e' ∙ sym e
    | inr (c, e') ↦ absurd (h.total (qis_captures_sound name e') e)
  ]
]
