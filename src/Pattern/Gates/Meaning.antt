-- ===== src/Pattern/Gates/Meaning.antt =====
-- The gate that `add_gate_instruction` adds: its counts, and what its operands stand for.
use qcs_sdk_qir.Base.{
  ℕ, zero, suc, ◌+◌, ◌-◌, ◌≡◌, refl, ap, ◌∙◌, Bool, true, false, Option, none, some, List, [], ◌∷◌,
  ◌++◌, length, length-append, get_elem?, position, ==_iff, Option-cases, inl, inr, arith,
}
use qcs_sdk_qir.Base.Outcome.{ok, Post, returns, raises, Post-bind, Post-eq_ok}
use qcs_sdk_qir.Llvm.{Module, FloatValue}
use qcs_sdk_qir.Quil.{
  Expression, number, address, parameter_region, Qubit, fixed, Gate, gate, GateModifier, dagger,
  controlled,
}
use qcs_sdk_qir.Quil.Program.{QuilProgram, body}
use qcs_sdk_qir.Interop.Arguments.{OperationArgument, qubit, parameter}
use qcs_sdk_qir.Pattern.Context.{
  PatternContext, get_quil_parameter_index, get_quil_parameter_expression,
}
use qcs_sdk_qir.Pattern.Gates.{
  GateSpec, match_parameter, match_qubit, collect_parameters, collect_qubits, gate_modifiers,
  add_gate_instruction,
}

-- An expression stands for a value: its constant, or its place in the list of parameters.
abbrev pub Denotes : Module → List FloatValue → FloatValue → Expression → Type 0
Denotes m vs v (number d) = m.get_constant v ≡ some d
Denotes m vs v (address ref) =
    (m.get_constant v ≡ none) × (ref.name ≡ parameter_region) × (get_elem? vs ref.index ≡ some v)

-- The expressions stand for the arguments from `k` on, which are parameters.
abbrev pub ParametersDenote :
    Module → List FloatValue → List OperationArgument → ℕ → List Expression → Type 0
ParametersDenote m vs arguments k [] = Unit {0}
ParametersDenote m vs arguments k (e ∷ es) =
    ((v : FloatValue) × (get_elem? arguments k ≡ some (parameter v)) × Denotes m vs v e)
    × ParametersDenote m vs arguments (k + 1) es

-- The qubits are those of the arguments from `k` on.
abbrev pub QubitsOf : List OperationArgument → ℕ → List Qubit → Type 0
QubitsOf arguments k [] = Unit {0}
QubitsOf arguments k (fixed n ∷ qubits) =
    (get_elem? arguments k ≡ some (qubit n)) × QubitsOf arguments (k + 1) qubits

pub match_parameter-eq :
    (k : ℕ) (o : Option OperationArgument)
    → Post (λ v. o ≡ some (parameter v)) (match_parameter k o)
match_parameter-eq k (some (parameter v)) = returns refl
match_parameter-eq k _ = raises

pub match_qubit-eq :
    (k : ℕ) (o : Option OperationArgument) → Post (λ n. o ≡ some (qubit n)) (match_qubit k o)
match_qubit-eq k (some (qubit n)) = returns refl
match_qubit-eq k _ = raises

-- Each value of the one list is in the same place of the other.
abbrev pub Extends : List FloatValue → List FloatValue → Type 0
Extends vs vs' = (i : ℕ) (v : FloatValue) → get_elem? vs i ≡ some v → get_elem? vs' i ≡ some v

get_elem?-position :
    (v : ℕ) (vs : List ℕ) {k : ℕ} → position v vs ≡ some k → get_elem? vs k ≡ some v
get_elem?-position v [] h = ground arith
get_elem?-position v (w ∷ vs) {k} h = elim (Option-cases (position v vs)) [
  | inl e ↦ ground (arith, ==_iff w v)
  | inr (j, e) ↦ ground (arith, get_elem?-position v vs {k = j} e, ==_iff w v)
]

get_elem?-snoc : (v : ℕ) (vs : List ℕ) → get_elem? (vs ++ v ∷ []) (length vs) ≡ some v
get_elem?-snoc v [] = refl
get_elem?-snoc v (w ∷ vs) = get_elem?-snoc v vs

Extends-snoc : (v : ℕ) (vs : List ℕ) → Extends vs (vs ++ v ∷ [])
Extends-snoc v [] i u h = ground arith
Extends-snoc v (w ∷ vs) zero u h = h
Extends-snoc v (w ∷ vs) (suc i) u h = Extends-snoc v vs i u h

Denotes-mono :
    (m : Module) (vs vs' : List FloatValue) (v : FloatValue) (e : Expression)
    → Extends vs vs'
    → Denotes m vs v e
    → Denotes m vs' v e
Denotes-mono m vs vs' v (number d) x h = h
Denotes-mono m vs vs' v (address ref) x h = (h.0, h.1, x ref.index v h.2)

module _ {P : Type 0} where
  -- Only the list of parameters has changed, and no index has changed its value.
  pub record Adds (c c' : PatternContext P) : Type 0 where
    pub rest : c' ≡ record c { parameters = c'.parameters }
    pub extends : Extends c.parameters c'.parameters

  Adds-trans : {c c' c'' : PatternContext P} → Adds c c' → Adds c' c'' → Adds c c''
  Adds-trans {c''} g h = record {
    rest = h.rest ∙ ap (λ (x : PatternContext P). record x { parameters = c''.parameters }) g.rest;
    extends = λ i v e. h.extends i v (g.extends i v e);
  }

  index_of :
      (c : PatternContext P) (v : FloatValue)
      → Adds c (get_quil_parameter_index c v).1
        × (get_elem? (get_quil_parameter_index c v).1.parameters (get_quil_parameter_index c v).0
            ≡ some v)
  unfolding get_quil_parameter_index
  index_of c v = elim (Option-cases (position v c.parameters)) [
    | inr (k, e) ↦
        rw e (record { rest = refl; extends = λ i v h. h }, get_elem?-position v c.parameters e)
    | inl e ↦
        let at_end : length (c.parameters ++ v ∷ []) - 1 ≡ length c.parameters =
          omega (arith, length-append {0} c.parameters (v ∷ [])) in
        rw e (
          record { rest = refl; extends = Extends-snoc v c.parameters },
          rw at_end (get_elem?-snoc v c.parameters),
        )
  ]

  -- The expression of a value stands for it.
  expression_of :
      (m : Module) (c : PatternContext P) (v : FloatValue)
      → Adds c (get_quil_parameter_expression m c v).1
        × Denotes m
            (get_quil_parameter_expression m c v).1.parameters
            v
            (get_quil_parameter_expression m c v).0
  unfolding get_quil_parameter_expression
  expression_of m c v = elim (Option-cases (m.get_constant v)) [
    | inr (d, e) ↦
        rw (e, get_quil_parameter_expression) (record { rest = refl; extends = λ i v h. h }, e)
    | inl e ↦
        let known = index_of c v in
        rw (e, get_quil_parameter_expression) (known.0, (e, refl, known.1))
  ]

  abbrev ParametersCollected :
      Module
      → List OperationArgument
      → ℕ
      → ℕ
      → PatternContext P
      → List Expression × PatternContext P
      → Type 0
  ParametersCollected m arguments k n c r =
      Adds c r.1 × (length r.0 ≡ n) × ParametersDenote m r.1.parameters arguments k r.0

  collect_parameters-Denote :
      (m : Module) (arguments : List OperationArgument) (k n : ℕ) (c : PatternContext P)
      → Post (ParametersCollected m arguments k n c) (collect_parameters m arguments k n c)
  unfolding collect_parameters
  collect_parameters-Denote m arguments k zero c =
      returns (record { rest = refl; extends = λ i v h. h }, refl, tt)
  collect_parameters-Denote m arguments k (suc n) c =
      Post-bind (match_parameter-eq k (get_elem? arguments k)) λ v at_k.
        let first = expression_of m c v in
        let c₁ = (get_quil_parameter_expression m c v).1 in
        Post-bind (collect_parameters-Denote m arguments (k + 1) n c₁) λ r rest. returns (
          Adds-trans first.0 rest.0,
          ap suc rest.1,
          (
            (v, at_k, Denotes-mono m c₁.parameters r.1.parameters v _ rest.0.extends first.1),
            rest.2,
          ),
        )

collect_qubits-QubitsOf :
    (arguments : List OperationArgument) (k n : ℕ)
    → Post
        (λ qubits. (length qubits ≡ n) × QubitsOf arguments k qubits)
        (collect_qubits arguments k n)
unfolding collect_qubits
collect_qubits-QubitsOf arguments k zero = returns (refl, tt)
collect_qubits-QubitsOf arguments k (suc n) =
    Post-bind (match_qubit-eq k (get_elem? arguments k)) λ index at_k.
      Post-bind (collect_qubits-QubitsOf arguments (k + 1) n)
        λ qubits rest. returns (ap suc rest.0, (at_k, rest.1))

-- What the two flags of an intrinsic ask for; the modifier written first is applied last.
abbrev pub modifiers_for : Bool → Bool → List GateModifier
modifiers_for false false = []
modifiers_for true false = dagger ∷ []
modifiers_for false true = controlled ∷ []
modifiers_for true true = dagger ∷ controlled ∷ []

gate_modifiers-for : (adjoint ctl : Bool) → gate_modifiers adjoint ctl ≡ modifiers_for adjoint ctl
gate_modifiers-for false false = refl
gate_modifiers-for true false = refl
gate_modifiers-for false true = refl
gate_modifiers-for true true = refl

module _ {P : Type 0} ⦃q : QuilProgram P⦄ where
  -- The gate added from `c` to `c'` is the one that the intrinsic asks for.
  pub record GateAdded (m : Module) (arguments : List OperationArgument) (s : GateSpec)
      (adjoint ctl : Bool) (c c' : PatternContext P) : Type 0 where
    pub added : Gate
    pub appended : body c'.quil_program ≡ body c.quil_program ++ gate added ∷ []
    pub named : added.name ≡ s.gate_name
    pub parameter_count : length added.parameters ≡ s.parameter_count
    pub parameters : ParametersDenote m c'.parameters arguments 0 added.parameters
    pub qubit_count : length added.qubits ≡ s.qubit_count
    pub qubits : QubitsOf arguments s.parameter_count added.qubits
    pub modifiers : added.modifiers ≡ modifiers_for adjoint ctl
    -- the parameters that were there keep their places
    pub kept : Extends c.parameters c'.parameters
    pub same_outputs : c'.recorded_output ≡ c.recorded_output
    pub same_readouts : c'.read_result_mapping ≡ c.read_result_mapping
    pub same_reset : c'.use_active_reset ≡ c.use_active_reset

  -- If a gate intrinsic is added, one gate is appended to the program's body: it has the given
  -- name, as many parameters and qubits as the gate asks for, each parameter stands for the
  -- argument in its place (its constant, or an index of the parameter list where the value is
  -- found), the qubits are those of the arguments behind the parameters, the modifiers are a
  -- dagger for an adjoint intrinsic and then a control for a controlled one, and the parameters
  -- that were there keep their indices.
  pub add_gate_instruction-GateAdded :
      (m : Module) (c c' : PatternContext P) (arguments : List OperationArgument) (s : GateSpec)
      (adjoint ctl : Bool)
      → add_gate_instruction m c arguments s adjoint ctl ≡ ok c'
      → GateAdded m arguments s adjoint ctl c c'
  unfolding add_gate_instruction
  add_gate_instruction-GateAdded m c c' arguments s adjoint ctl e =
      Post-eq_ok {P = GateAdded m arguments s adjoint ctl c}
        (Post-bind (collect_parameters-Denote m arguments 0 s.parameter_count c) λ r ps.
          Post-bind (collect_qubits-QubitsOf arguments s.parameter_count s.qubit_count) λ qs h.
            let g : Gate = record {
              name = s.gate_name;
              parameters = r.0;
              qubits = qs;
              modifiers = gate_modifiers adjoint ctl;
            } in
            returns {a = record r.1 { quil_program = q.add_instruction r.1.quil_program (gate g) }}
              (record {
                added = g;
                appended =
                    q.body-add r.1.quil_program (gate g) tt
                    ∙ ap (λ (x : PatternContext P). body x.quil_program ++ gate g ∷ []) ps.0.rest;
                named = refl;
                parameter_count = ps.1;
                parameters = ps.2;
                qubit_count = h.0;
                qubits = h.1;
                modifiers = gate_modifiers-for adjoint ctl;
                kept = ps.0.extends;
                same_outputs = ap (λ (x : PatternContext P). x.recorded_output) ps.0.rest;
                same_readouts = ap (λ (x : PatternContext P). x.read_result_mapping) ps.0.rest;
                same_reset = ap (λ (x : PatternContext P). x.use_active_reset) ps.0.rest;
              }))
        e
