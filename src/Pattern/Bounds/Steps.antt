-- ===== src/Pattern/Bounds/Steps.antt =====
-- The invariant and the instructions that a scan matches (quantum_instruction of pattern.rs).
use qcs_sdk_qir.Base.{
  ℕ, refl, Bool, Option, none, some, List, ◌∷◌, get_elem?, All, All-imp, All-snoc, Text, text_eq,
  arith,
}
use qcs_sdk_qir.Base.Outcome.{Post, returns, raises, Post-then, Post-bind, Post-ok_or, Post-if}
use qcs_sdk_qir.Llvm.{Module, Instruction, Opcode, call}
use qcs_sdk_qir.Quil
use qcs_sdk_qir.Quil.Program.{QuilProgram, body, IsBody}
use qcs_sdk_qir.Interop.Arguments.{
  OperationArgument, get_called_function_name, get_qis_function_arguments,
}
use qcs_sdk_qir.Intrinsics.{QisCaptures, qis_captures}
use qcs_sdk_qir.Pattern.Context.{PatternContext, lookup, entry_or_next, Matched}
use qcs_sdk_qir.Pattern.Gates.{
  GateSpec, match_qubit, match_result, collect_qubits, add_gate_instruction,
}
use qcs_sdk_qir.Pattern.Quantum.{
  QisOperation, gate_operation, reset_operation, measure_operation, unknown_operation, measure,
  apply_operation, matched_or_not, read_result, quantum_captured, quantum_named, quantum_by_opcode,
  quantum_instruction, qis_operation, read_result_name,
}
use qcs_sdk_qir.Pattern.Readout.{
  lookup-lt, entry_or_next-IsDense, length-entry_or_next, entry_or_next-lt,
}
use qcs_sdk_qir.Pattern.Bounds.{IsWellFormed, InRange, InRange-mono, OutputInRange-mono}
use qcs_sdk_qir.Pattern.Bounds.Parameters.{Grows, collect_parameters-Collected}

module _ {P : Type 0} ⦃q : QuilProgram P⦄ where
  -- More parameters do no harm.
  Grows-IsWellFormed :
      {m : Module} {c c' : PatternContext P} → Grows m c c' → IsWellFormed m c → IsWellFormed m c'
  Grows-IsWellFormed {m} {c} {c'} g w = rw g.rest (record {
    dense = w.dense;
    program = All-imp (body c.quil_program) (λ i. InRange-mono i (omega arith) g.longer) w.program;
    outputs = w.outputs;
    readouts = w.readouts;
    dynamic = g.dynamic;
  })

  -- A larger readout map does no harm.
  pub entry-IsWellFormed :
      {m : Module} {c : PatternContext P} (k : ℕ)
      → IsWellFormed m c
      → IsWellFormed m
          (record c { read_result_mapping = (entry_or_next k c.read_result_mapping).1 })
  entry-IsWellFormed {c} k w =
      let longer = length-entry_or_next k c.read_result_mapping in
      record {
        dense = entry_or_next-IsDense k c.read_result_mapping w.dense;
        program =
            All-imp (body c.quil_program) (λ i. InRange-mono i longer (omega arith)) w.program;
        outputs = All-imp c.recorded_output (λ o. OutputInRange-mono o longer) w.outputs;
        readouts = All-imp c.readout_instruction_mapping (λ r h. omega arith) w.readouts;
        dynamic = w.dynamic;
      }

  add-InRange :
      (r p : ℕ) (program : P) (i : Quil.Instruction)
      → IsBody i
      → All (InRange r p) (body program)
      → InRange r p i
      → All (InRange r p) (body (q.add_instruction program i))
  add-InRange r p program i b h hi = rw (q.body-add program i b) (All-snoc _ (body program) i h hi)

  add_gate_instruction-IsWellFormed :
      (m : Module) (c : PatternContext P) (arguments : List OperationArgument) (s : GateSpec)
      (adjoint controlled : Bool)
      → IsWellFormed m c
      → Post (IsWellFormed m) (add_gate_instruction m c arguments s adjoint controlled)
  unfolding add_gate_instruction
  add_gate_instruction-IsWellFormed m c arguments s adjoint controlled w =
      Post-bind (collect_parameters-Collected m arguments 0 s.parameter_count c w.dynamic)
        λ r collected.
          Post-then (collect_qubits arguments s.parameter_count s.qubit_count) λ qubits.
            let grown = Grows-IsWellFormed collected.0 w in
            returns (record {
              dense = grown.dense;
              program = add-InRange _ _ _ _ tt grown.program collected.1;
              outputs = grown.outputs;
              readouts = grown.readouts;
              dynamic = grown.dynamic;
            })

  measure-IsWellFormed :
      (m : Module) (c : PatternContext P) (arguments : List OperationArgument)
      → IsWellFormed m c
      → Post (IsWellFormed m) (measure c arguments)
  unfolding measure
  measure-IsWellFormed m c arguments w = Post-then (match_qubit 0 (get_elem? arguments 0)) λ qubit.
      Post-then (match_result 1 (get_elem? arguments 1)) λ target.
        let entered = entry-IsWellFormed target w in
        returns (record {
          dense = entered.dense;
          program = add-InRange _ _ _ _ tt entered.program (record {
            region = refl;
            below = entry_or_next-lt target c.read_result_mapping w.dense;
          });
          outputs = entered.outputs;
          readouts = entered.readouts;
          dynamic = w.dynamic;
        })

  -- What `apply_operation` leaves is well formed, where it leaves anything.
  abbrev AllOption : (PatternContext P → Type 0) → Option (PatternContext P) → Type 0
  AllOption Q none = Unit {0}
  AllOption Q (some c) = Q c

  apply_operation-IsWellFormed :
      (m : Module) (c : PatternContext P) (arguments : List OperationArgument)
      (captures : QisCaptures) (op : QisOperation)
      → IsWellFormed m c
      → Post (AllOption (IsWellFormed m)) (apply_operation m c arguments captures op)
  unfolding apply_operation
  apply_operation-IsWellFormed m c arguments captures (gate_operation s) w =
      Post-bind
        (add_gate_instruction-IsWellFormed m c arguments s captures.adjoint captures.controlled w)
        λ c' h. returns h
  apply_operation-IsWellFormed m c arguments captures measure_operation w =
      Post-bind (measure-IsWellFormed m c arguments w) λ c' h. returns h
  apply_operation-IsWellFormed m c arguments captures reset_operation w = returns (record {
    dense = w.dense;
    program = w.program;
    outputs = w.outputs;
    readouts = w.readouts;
    dynamic = w.dynamic;
  })
  apply_operation-IsWellFormed m c arguments captures unknown_operation w = returns tt

  read_result-IsWellFormed :
      (m : Module) (c : PatternContext P) (i : Instruction) (arguments : List OperationArgument)
      → IsWellFormed m c
      → Post (IsWellFormed m) (read_result c i arguments)
  unfolding read_result
  read_result-IsWellFormed m c i (OperationArgument.result k ∷ rest) w =
      Post-bind (Post-ok_or (lookup k c.read_result_mapping) _ (λ v e. e)) λ v e. returns (record {
        dense = w.dense;
        program = w.program;
        outputs = w.outputs;
        readouts =
            All-snoc _ c.readout_instruction_mapping (v, i) w.readouts
              (lookup-lt k c.read_result_mapping w.dense e);
        dynamic = w.dynamic;
      })
  read_result-IsWellFormed m c i _ w = raises

  abbrev pub MatchedWellFormed : Module → Matched (PatternContext P) → Type 0
  MatchedWellFormed m none = Unit {0}
  MatchedWellFormed m (some (next, c)) = IsWellFormed m c

  matched_or_not-IsWellFormed :
      (m : Module) (i : Instruction) (o : Option (PatternContext P))
      → AllOption (IsWellFormed m) o
      → MatchedWellFormed m (matched_or_not m i o)
  matched_or_not-IsWellFormed m i none w = tt
  matched_or_not-IsWellFormed m i (some c) w = record {
    dense = w.dense;
    program = w.program;
    outputs = w.outputs;
    readouts = w.readouts;
    dynamic = w.dynamic;
  }

  quantum_captured-IsWellFormed :
      (m : Module) (c : PatternContext P) (i : Instruction) (name : Text)
      (captures : Option QisCaptures)
      → IsWellFormed m c
      → Post (MatchedWellFormed m) (quantum_captured m c i name captures)
  unfolding quantum_captured
  quantum_captured-IsWellFormed m c i name (some captures) w =
      Post-then (get_qis_function_arguments m i) λ arguments.
        Post-bind
          (apply_operation-IsWellFormed m c arguments captures (qis_operation captures.operation) w)
          λ o h. returns (matched_or_not-IsWellFormed m i o h)
  quantum_captured-IsWellFormed m c i name none w =
      Post-if (text_eq name read_result_name)
        (Post-then (get_qis_function_arguments m i) λ arguments.
          Post-bind (read_result-IsWellFormed m c i arguments w)
            λ c' h. returns (matched_or_not-IsWellFormed m i (some c') h))
        (returns tt)

  quantum_named-IsWellFormed :
      (m : Module) (c : PatternContext P) (i : Instruction) (name : Option Text)
      → IsWellFormed m c
      → Post (MatchedWellFormed m) (quantum_named m c i name)
  unfolding quantum_named
  quantum_named-IsWellFormed m c i none w = returns tt
  quantum_named-IsWellFormed m c i (some name) w =
      quantum_captured-IsWellFormed m c i name (qis_captures name) w

  quantum_by_opcode-IsWellFormed :
      (m : Module) (c : PatternContext P) (i : Instruction) (op : Opcode)
      → IsWellFormed m c
      → Post (MatchedWellFormed m) (quantum_by_opcode m c i op)
  unfolding quantum_by_opcode
  quantum_by_opcode-IsWellFormed m c i call w =
      Post-then (get_called_function_name m i) λ name. quantum_named-IsWellFormed m c i name w
  quantum_by_opcode-IsWellFormed m c i _ w = returns tt

  -- From a well-formed context, a matched quantum intrinsic leaves a well-formed context:
  -- readout offsets stay dense, each reference of the program is to a parameter or a readout
  -- offset in use, and only values without a constant are parameters.
  pub quantum_instruction-IsWellFormed :
      (m : Module) (c : PatternContext P) (i : Instruction)
      → IsWellFormed m c
      → Post (MatchedWellFormed m) (quantum_instruction m c i)
  unfolding quantum_instruction
  quantum_instruction-IsWellFormed m c i w = quantum_by_opcode-IsWellFormed m c i (m.get_opcode i) w
