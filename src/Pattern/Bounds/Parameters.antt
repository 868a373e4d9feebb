-- ===== src/Pattern/Bounds/Parameters.antt =====
-- The parameters of a gate and the context's list (get_quil_parameter_index of pattern.rs).
use qcs_sdk_qir.Base.{
  ℕ, zero, suc, ◌+◌, ◌≤◌, ◌<◌, ◌≡◌, refl, ap, ◌∙◌, none, List, [], ◌∷◌, length, length-append,
  get_elem?, position, position-lt, Option-cases, inl, inr, All, All-snoc, arith,
}
use qcs_sdk_qir.Base.Outcome.{Post, returns, Post-then, Post-bind}
use qcs_sdk_qir.Llvm.{Module, FloatValue}
use qcs_sdk_qir.Quil.{Expression}
use qcs_sdk_qir.Interop.Arguments.{OperationArgument}
use qcs_sdk_qir.Pattern.Context.{
  PatternContext, get_quil_parameter_index, get_quil_parameter_expression,
}
use qcs_sdk_qir.Pattern.Gates.{match_parameter, collect_parameters}
use qcs_sdk_qir.Pattern.Bounds.{ExpressionInRange, ExpressionInRange-mono}

abbrev pub IsDynamic : Module → List FloatValue → Type 0
IsDynamic m vs = All (λ v. m.get_constant v ≡ none) vs

module _ {P : Type 0} where
  -- From `c` to `c'` only the list of parameters has changed, and it has not become shorter.
  pub record Grows (m : Module) (c c' : PatternContext P) : Type 0 where
    pub rest : c' ≡ record c { parameters = c'.parameters }
    pub longer : length c.parameters ≤ length c'.parameters
    pub dynamic : IsDynamic m c'.parameters

  Grows-refl : (m : Module) (c : PatternContext P) → IsDynamic m c.parameters → Grows m c c
  Grows-refl m c h = record { rest = refl; longer = omega arith; dynamic = h }

  Grows-trans :
      {m : Module} {c c' c'' : PatternContext P} → Grows m c c' → Grows m c' c'' → Grows m c c''
  Grows-trans {c''} g h = record {
    rest = h.rest ∙ ap (λ (x : PatternContext P). record x { parameters = c''.parameters }) g.rest;
    longer = omega arith;
    dynamic = h.dynamic;
  }

  -- The index of a value is in range afterwards, and it is the value's.
  pub get_quil_parameter_index-Grows :
      (m : Module) (c : PatternContext P) (v : FloatValue)
      → IsDynamic m c.parameters
      → m.get_constant v ≡ none
      → Grows m c (get_quil_parameter_index c v).1
        × ((get_quil_parameter_index c v).0 < length (get_quil_parameter_index c v).1.parameters)
  unfolding get_quil_parameter_index
  get_quil_parameter_index-Grows m c v h n = elim (Option-cases (position v c.parameters)) [
    | inr (k, e) ↦ rw e (Grows-refl m c h, position-lt v c.parameters e)
    | inl e ↦ rw e (
      record {
        rest = refl;
        longer = omega (arith, length-append {0} c.parameters (v ∷ []));
        dynamic = All-snoc _ c.parameters v h n;
      },
      omega (arith, length-append {0} c.parameters (v ∷ [])),
    )
  ]

  -- A constant stays as it is, and any other value becomes a reference that is in range.
  pub get_quil_parameter_expression-Grows :
      (m : Module) (c : PatternContext P) (v : FloatValue)
      → IsDynamic m c.parameters
      → Grows m c (get_quil_parameter_expression m c v).1
        × ExpressionInRange
            (length (get_quil_parameter_expression m c v).1.parameters)
            (get_quil_parameter_expression m c v).0
  unfolding get_quil_parameter_expression
  get_quil_parameter_expression-Grows m c v h = elim (Option-cases (m.get_constant v)) [
    | inr (d, e) ↦ rw (e, get_quil_parameter_expression) (Grows-refl m c h, tt)
    | inl e ↦
        let known = get_quil_parameter_index-Grows m c v h e in
        rw (e, get_quil_parameter_expression) (known.0, record { region = refl; below = known.1 })
  ]

  abbrev pub Collected : Module → PatternContext P → List Expression × PatternContext P → Type 0
  Collected m c r = Grows m c r.1 × All (ExpressionInRange (length r.1.parameters)) r.0

  -- The expressions collected so far stay in range while the list grows.
  pub collect_parameters-Collected :
      (m : Module) (arguments : List OperationArgument) (k n : ℕ) (c : PatternContext P)
      → IsDynamic m c.parameters
      → Post (Collected m c) (collect_parameters m arguments k n c)
  unfolding collect_parameters
  collect_parameters-Collected m arguments k zero c h = returns (Grows-refl m c h, tt)
  collect_parameters-Collected m arguments k (suc n) c h =
      Post-then (match_parameter k (get_elem? arguments k)) λ value.
        let first = get_quil_parameter_expression-Grows m c value h in
        let c₁ = (get_quil_parameter_expression m c value).1 in
        Post-bind (collect_parameters-Collected m arguments (k + 1) n c₁ first.0.dynamic) λ r rest.
          returns
            (Grows-trans first.0 rest.0, (ExpressionInRange-mono _ rest.0.longer first.1, rest.1))
