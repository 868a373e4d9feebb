-- ===== src/Pattern/Gates.antt =====
-- `add_gate_instruction` and the gates of the match in `quantum_instruction`.
pub mod Meaning
pub mod Success
use qcs_sdk_qir.Base.{
  ℕ, zero, suc, ◌+◌, Bool, Option, none, some, List, [], ◌∷◌, ◌++◌, Text, text, text_eq, get_elem?,
  if◌then◌else◌,
}
use qcs_sdk_qir.Base.Outcome.{Error, Result, ok, err, ◌>>=◌, bad_argument}
use qcs_sdk_qir.Llvm.{Module, FloatValue}
use qcs_sdk_qir.Quil.{Expression, Qubit, fixed, GateModifier, dagger, controlled, gate}
use qcs_sdk_qir.Quil.Program.{QuilProgram}
use qcs_sdk_qir.Interop.Arguments.{OperationArgument, qubit, result, parameter}
use qcs_sdk_qir.Pattern.Context.{PatternContext, get_quil_parameter_expression}

-- `match_qis_argument!(Parameter, arguments, index, function_name)`
abbrev pub match_parameter : ℕ → Option OperationArgument → Result Error FloatValue
match_parameter k (some (parameter v)) = ok v
match_parameter k _ = err (bad_argument k)

-- `match_qis_argument!(Qubit, arguments, index, function_name)`
abbrev pub match_qubit : ℕ → Option OperationArgument → Result Error ℕ
match_qubit k (some (qubit n)) = ok n
match_qubit k _ = err (bad_argument k)

-- `match_qis_argument!(Result, arguments, index, function_name)`
abbrev pub match_result : ℕ → Option OperationArgument → Result Error ℕ
match_result k (some (result n)) = ok n
match_result k _ = err (bad_argument k)

-- One arm of the match on the operation: the gate's name and its counts.
pub record GateSpec : Type 0 where
  pub gate_name : Text
  pub parameter_count : ℕ
  pub qubit_count : ℕ

abbrev spec : Text → ℕ → ℕ → GateSpec
spec name parameters qubits = record {
  gate_name = name;
  parameter_count = parameters;
  qubit_count = qubits;
}

-- The arms that call `add_gate_instruction`.
abbrev pub gate_table : List (Text × GateSpec)
gate_table =
    (text "swap", spec (text "SWAP") 0 2)
    ∷ (text "toffoli", spec (text "CCNOT") 0 3)
    ∷ (text "cnot", spec (text "CNOT") 0 2)
    ∷ (text "cz", spec (text "CZ") 0 2)
    ∷ (text "h", spec (text "H") 0 1)
    ∷ (text "rx", spec (text "RX") 1 1)
    ∷ (text "ry", spec (text "RY") 1 1)
    ∷ (text "rz", spec (text "RZ") 1 1)
    ∷ (text "s", spec (text "S") 0 1)
    ∷ (text "t", spec (text "T") 0 1)
    ∷ (text "x", spec (text "X") 0 1)
    ∷ (text "y", spec (text "Y") 0 1)
    ∷ (text "z", spec (text "Z") 0 1)
    ∷ []

unfoldable pub find_gate : Text → List (Text × GateSpec) → Option GateSpec
unfolding text_eq
find_gate op [] = none
find_gate op ((name, s) ∷ rest) = if text_eq op name then some s else find_gate op rest

module _ {P : Type 0} where
  -- `(0..parameter_count).map(…).collect()`: the first error ends it.
  unfoldable pub collect_parameters :
      Module
      → List OperationArgument
      → ℕ
      → ℕ
      → PatternContext P
      → Result Error (List Expression × PatternContext P)
  unfolding get_quil_parameter_expression
  collect_parameters m arguments k zero c = ok ([], c)
  collect_parameters m arguments k (suc n) c = do
    value ← match_parameter k (get_elem? arguments k)
    let (e, c₁) = get_quil_parameter_expression m c value
    (es, c₂) ← collect_parameters m arguments (k + 1) n c₁
    ok (e ∷ es, c₂)

-- `(parameter_count..parameter_count + qubit_count).map(…).collect()`
unfoldable pub collect_qubits : List OperationArgument → ℕ → ℕ → Result Error (List Qubit)
collect_qubits arguments k zero = ok []
collect_qubits arguments k (suc n) = do
  index ← match_qubit k (get_elem? arguments k)
  qubits ← collect_qubits arguments (k + 1) n
  ok (fixed index ∷ qubits)

-- The adjoint first, then the control.
abbrev pub gate_modifiers : Bool → Bool → List GateModifier
gate_modifiers adjoint ctl =
    (if adjoint then dagger ∷ [] else []) ++ (if ctl then controlled ∷ [] else [])

module _ {P : Type 0} ⦃q : QuilProgram P⦄ where
  unfoldable pub add_gate_instruction :
      Module
      → PatternContext P
      → List OperationArgument
      → GateSpec
      → Bool
      → Bool
      → Result Error (PatternContext P)
  unfolding collect_parameters collect_qubits
  add_gate_instruction m c arguments s adjoint ctl = do
    (parameters, c₁) ← collect_parameters m arguments 0 s.parameter_count c
    qubits ← collect_qubits arguments s.parameter_count s.qubit_count
    let added = gate (record {
      name = s.gate_name;
      parameters = parameters;
      qubits = qubits;
      modifiers = gate_modifiers adjoint ctl;
    })
    ok (record c₁ { quil_program = q.add_instruction c₁.quil_program added })
