-- ===== src/Pattern/Gates/Success.antt =====
-- When `add_gate_instruction` succeeds: the arguments are of the kinds that the gate asks for.
use qcs_sdk_qir.Base.{ℕ, zero, suc, ◌+◌, ◌≡◌, ◌↔◌, refl, Bool, some, List, get_elem?}
use qcs_sdk_qir.Base.Outcome.{Error, Result, ok, Post, returns, Post-bind, Post-eq_ok}
use qcs_sdk_qir.Llvm.{Module, FloatValue}
use qcs_sdk_qir.Quil.Program.{QuilProgram}
use qcs_sdk_qir.Interop.Arguments.{OperationArgument, qubit, parameter}
use qcs_sdk_qir.Pattern.Context.{PatternContext, get_quil_parameter_expression}
use qcs_sdk_qir.Pattern.Gates.{GateSpec, collect_parameters, collect_qubits, add_gate_instruction}
use qcs_sdk_qir.Pattern.Gates.Meaning.{match_parameter-eq, match_qubit-eq}

-- The `n` arguments from `k` on are parameters.
abbrev pub AreParameters : List OperationArgument → ℕ → ℕ → Type 0
AreParameters arguments k zero = Unit {0}
AreParameters arguments k (suc n) =
    ((v : FloatValue) × (get_elem? arguments k ≡ some (parameter v)))
    × AreParameters arguments (k + 1) n

-- The `n` arguments from `k` on are qubits.
abbrev pub AreQubits : List OperationArgument → ℕ → ℕ → Type 0
AreQubits arguments k zero = Unit {0}
AreQubits arguments k (suc n) =
    ((index : ℕ) × (get_elem? arguments k ≡ some (qubit index))) × AreQubits arguments (k + 1) n

-- There is a value.
abbrev pub Succeeds : {A : Type 0} → Result Error A → Type 0
Succeeds {A} m = (a : A) × (m ≡ ok a)

module _ {P : Type 0} where
  collect_parameters-Succeeds :
      (m : Module) (arguments : List OperationArgument) (k n : ℕ) (c : PatternContext P)
      → AreParameters arguments k n
      → Succeeds (collect_parameters m arguments k n c)
  unfolding collect_parameters
  collect_parameters-Succeeds m arguments k zero c h = (_, refl)
  collect_parameters-Succeeds m arguments k (suc n) c h =
      let rest =
        collect_parameters-Succeeds m arguments (k + 1) n
          (get_quil_parameter_expression m c h.0.0).1 h.1 in
      rw h.0.1 (rw rest.1 (_, refl))

  collect_parameters-AreParameters :
      (m : Module) (arguments : List OperationArgument) (k n : ℕ) (c : PatternContext P)
      → Post (λ _. AreParameters arguments k n) (collect_parameters m arguments k n c)
  unfolding collect_parameters
  collect_parameters-AreParameters m arguments k zero c = returns tt
  collect_parameters-AreParameters m arguments k (suc n) c =
      Post-bind (match_parameter-eq k (get_elem? arguments k)) λ v e.
        Post-bind (collect_parameters-AreParameters m arguments (k + 1) n _)
          λ r h. returns ((v, e), h)

collect_qubits-Succeeds :
    (arguments : List OperationArgument) (k n : ℕ)
    → AreQubits arguments k n
    → Succeeds (collect_qubits arguments k n)
unfolding collect_qubits
collect_qubits-Succeeds arguments k zero h = (_, refl)
collect_qubits-Succeeds arguments k (suc n) h =
    rw h.0.1 (rw (collect_qubits-Succeeds arguments (k + 1) n h.1).1 (_, refl))

collect_qubits-AreQubits :
    (arguments : List OperationArgument) (k n : ℕ)
    → Post (λ _. AreQubits arguments k n) (collect_qubits arguments k n)
unfolding collect_qubits
collect_qubits-AreQubits arguments k zero = returns tt
collect_qubits-AreQubits arguments k (suc n) =
    Post-bind (match_qubit-eq k (get_elem? arguments k)) λ index e.
      Post-bind (collect_qubits-AreQubits arguments (k + 1) n) λ qubits h. returns ((index, e), h)

-- The arguments are those that the gate asks for.
abbrev pub Fits : List OperationArgument → GateSpec → Type 0
Fits arguments s =
    AreParameters arguments 0 s.parameter_count
    × AreQubits arguments s.parameter_count s.qubit_count

module _ {P : Type 0} ⦃q : QuilProgram P⦄ where
  add_gate_instruction-Fits :
      (m : Module) (c : PatternContext P) (arguments : List OperationArgument) (s : GateSpec)
      (adjoint ctl : Bool)
      → Post (λ _. Fits arguments s) (add_gate_instruction m c arguments s adjoint ctl)
  unfolding add_gate_instruction
  add_gate_instruction-Fits m c arguments s adjoint ctl =
      Post-bind (collect_parameters-AreParameters m arguments 0 s.parameter_count c) λ r p.
        Post-bind (collect_qubits-AreQubits arguments s.parameter_count s.qubit_count)
          λ qubits h. returns (p, h)

  -- A gate intrinsic is added exactly if its arguments start with as many parameters as the
  -- gate asks for and then as many qubits; otherwise an error is returned.
  pub add_gate_instruction-Succeeds :
      (m : Module) (c : PatternContext P) (arguments : List OperationArgument) (s : GateSpec)
      (adjoint ctl : Bool)
      → Succeeds (add_gate_instruction m c arguments s adjoint ctl) ↔ Fits arguments s
  unfolding add_gate_instruction
  add_gate_instruction-Succeeds m c arguments s adjoint ctl = (
    λ h. Post-eq_ok (add_gate_instruction-Fits m c arguments s adjoint ctl) h.1,
    λ h.
        rw (collect_parameters-Succeeds m arguments 0 s.parameter_count c h.0).1
          (rw (collect_qubits-Succeeds arguments s.parameter_count s.qubit_count h.1).1 (_, refl)),
  )
