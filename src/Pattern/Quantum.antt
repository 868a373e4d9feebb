-- ===== src/Pattern/Quantum.antt =====
-- `quantum_instruction`: the calls of quantum intrinsics.
use qcs_sdk_qir.Base.{
  true, Option, none, some, List, [], ◌∷◌, ◌++◌, Text, text, text_eq, get_elem?, if◌then◌else◌,
}
use qcs_sdk_qir.Base.Outcome.{
  Error, Result, ok, err, ok_or, ◌>>=◌, malformed_read_result, never_measured,
}
use qcs_sdk_qir.Llvm.{Module, Instruction, Opcode, call}
use qcs_sdk_qir.Quil.{fixed, measurement, ro}
use qcs_sdk_qir.Quil.Program.{QuilProgram}
use qcs_sdk_qir.Interop.Arguments.{
  OperationArgument, result, get_called_function_name, get_qis_function_arguments,
}
use qcs_sdk_qir.Intrinsics.{QisCaptures, qis_captures}
use qcs_sdk_qir.Pattern.Context.{PatternContext, lookup, entry_or_next, Matched}
use qcs_sdk_qir.Pattern.Gates.{
  GateSpec, gate_table, find_gate, match_qubit, match_result, add_gate_instruction,
}

-- The arms of the match on the operation.
pub data QisOperation : Type 0 where
  gate_operation : GateSpec → QisOperation
  reset_operation measure_operation unknown_operation : QisOperation

abbrev or_other : Text → Option GateSpec → QisOperation
or_other op (some s) = gate_operation s
or_other op none =
    if text_eq op (text "reset")
    then reset_operation
    else if text_eq op (text "mz")
    then measure_operation
    else unknown_operation

unfoldable pub qis_operation : Text → QisOperation
unfolding find_gate text_eq
qis_operation op = or_other op (find_gate op gate_table)

abbrev pub read_result_name : Text
read_result_name = text "__quantum__qis__read_result__body"

module _ {P : Type 0} ⦃q : QuilProgram P⦄ where
  -- The arm "mz": results get dense offsets of the readout region, in the order of their first use.
  unfoldable pub measure :
      PatternContext P → List OperationArgument → Result Error (PatternContext P)
  unfolding entry_or_next
  measure c arguments = do
    qubit ← match_qubit 0 (get_elem? arguments 0)
    target ← match_result 1 (get_elem? arguments 1)
    let (index, mapping) = entry_or_next target c.read_result_mapping
    let added =
        measurement
          (record { target = some (record { name = ro; index = index }); qubit = fixed qubit })
    ok (record c {
      quil_program = q.add_instruction c.quil_program added;
      read_result_mapping = mapping;
    })

  -- `none` if the operation is unknown.
  unfoldable pub apply_operation :
      Module
      → PatternContext P
      → List OperationArgument
      → QisCaptures
      → QisOperation
      → Result Error (Option (PatternContext P))
  unfolding add_gate_instruction measure
  apply_operation m c arguments captures (gate_operation s) = do
    c' ← add_gate_instruction m c arguments s captures.adjoint captures.controlled
    ok (some c')
  apply_operation m c arguments captures reset_operation =
      ok (some (record c { use_active_reset = true }))
  apply_operation m c arguments captures measure_operation = do
    c' ← measure c arguments
    ok (some c')
  apply_operation m c arguments captures unknown_operation = ok none

  -- `instructions_to_remove.push(instruction)` for a match
  abbrev pub matched_or_not :
      Module → Instruction → Option (PatternContext P) → Matched (PatternContext P)
  matched_or_not m i none = none
  matched_or_not m i (some c) = some (
    m.get_next_instruction i,
    record c { instructions_to_remove = c.instructions_to_remove ++ i ∷ [] },
  )

  -- "__quantum__qis__read_result__body"
  unfoldable pub read_result :
      PatternContext P → Instruction → List OperationArgument → Result Error (PatternContext P)
  unfolding lookup
  read_result c i (result k ∷ _) = do
    index ← ok_or (lookup k c.read_result_mapping) (never_measured k)
    ok (record c { readout_instruction_mapping = c.readout_instruction_mapping ++ (index, i) ∷ [] })
  read_result c i _ = err malformed_read_result

  unfoldable pub quantum_captured :
      Module
      → PatternContext P
      → Instruction
      → Text
      → Option QisCaptures
      → Result Error (Matched (PatternContext P))
  unfolding apply_operation qis_operation read_result text_eq get_qis_function_arguments
  quantum_captured m c i name (some captures) = do
    arguments ← get_qis_function_arguments m i
    c' ← apply_operation m c arguments captures (qis_operation captures.operation)
    ok (matched_or_not m i c')
  quantum_captured m c i name none =
      if text_eq name read_result_name
      then (do
        arguments ← get_qis_function_arguments m i
        c' ← read_result c i arguments
        ok (matched_or_not m i (some c')))
      else ok none

  unfoldable pub quantum_named :
      Module
      → PatternContext P
      → Instruction
      → Option Text
      → Result Error (Matched (PatternContext P))
  unfolding quantum_captured qis_captures
  quantum_named m c i none = ok none
  quantum_named m c i (some name) = quantum_captured m c i name (qis_captures name)

  unfoldable pub quantum_by_opcode :
      Module → PatternContext P → Instruction → Opcode → Result Error (Matched (PatternContext P))
  unfolding quantum_named get_called_function_name
  quantum_by_opcode m c i call = do name ← get_called_function_name m i; quantum_named m c i name
  quantum_by_opcode m c i _ = ok none

  unfoldable pub quantum_instruction :
      Module → PatternContext P → Instruction → Result Error (Matched (PatternContext P))
  unfolding quantum_by_opcode
  quantum_instruction m c i = quantum_by_opcode m c i (m.get_opcode i)
