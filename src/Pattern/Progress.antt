-- ===== src/Pattern/Progress.antt =====
-- The instruction that a match hands on (pattern.rs).
use qcs_sdk_qir.Base.{◌≡◌, refl, Option, none, some, Text, text_eq}
use qcs_sdk_qir.Base.Outcome.{Post, returns, raises, Post-then, Post-if}
use qcs_sdk_qir.Llvm.{Module, Instruction, Opcode, call}
use qcs_sdk_qir.Quil.Program.{QuilProgram}
use qcs_sdk_qir.Interop.Arguments.{get_called_function_name, get_qis_function_arguments}
use qcs_sdk_qir.Intrinsics.{QisCaptures, qis_captures, record_captures}
use qcs_sdk_qir.Pattern.Context.{PatternContext, Matched}
use qcs_sdk_qir.Pattern.Record.{
  RecordKind, result_kind, unimplemented_kind, unknown_kind, marker, record_kind, record_result,
  record_by_kind, record_captured, record_named, record_by_opcode, rt_record_instruction,
}
use qcs_sdk_qir.Pattern.Quantum.{
  qis_operation, apply_operation, read_result, read_result_name, matched_or_not, quantum_captured,
  quantum_named, quantum_by_opcode, quantum_instruction,
}

abbrev pub GoesToNext : {C : Type 0} → Module → Instruction → Matched C → Type 0
GoesToNext m i none = Unit {0}
GoesToNext m i (some (next, c)) = next ≡ m.get_next_instruction i

module _ {P : Type 0} (m : Module) (c : PatternContext P) (i : Instruction) where
  record_by_kind-GoesToNext :
      (t : Text) (k : RecordKind) → Post (GoesToNext m i) (record_by_kind m c i t k)
  unfolding record_by_kind
  record_by_kind-GoesToNext t result_kind =
      Post-then (get_qis_function_arguments m i)
        λ arguments. Post-then (record_result c arguments) λ c'. returns refl
  record_by_kind-GoesToNext t unimplemented_kind = raises
  record_by_kind-GoesToNext t (marker r) = returns refl
  record_by_kind-GoesToNext t unknown_kind = returns tt

  record_captured-GoesToNext : (o : Option Text) → Post (GoesToNext m i) (record_captured m c i o)
  unfolding record_captured
  record_captured-GoesToNext none = returns tt
  record_captured-GoesToNext (some t) = record_by_kind-GoesToNext t (record_kind t)

  record_named-GoesToNext : (o : Option Text) → Post (GoesToNext m i) (record_named m c i o)
  unfolding record_named
  record_named-GoesToNext none = returns tt
  record_named-GoesToNext (some name) = record_captured-GoesToNext (record_captures name)

  record_by_opcode-GoesToNext : (op : Opcode) → Post (GoesToNext m i) (record_by_opcode m c i op)
  unfolding record_by_opcode
  record_by_opcode-GoesToNext call =
      Post-then (get_called_function_name m i) record_named-GoesToNext
  record_by_opcode-GoesToNext _ = returns tt

  pub rt_record_instruction-GoesToNext : Post (GoesToNext m i) (rt_record_instruction m c i)
  unfolding rt_record_instruction
  rt_record_instruction-GoesToNext = record_by_opcode-GoesToNext (m.get_opcode i)

module _ {P : Type 0} ⦃q : QuilProgram P⦄ (m : Module) (c : PatternContext P)
    (i : Instruction) where
  matched_or_not-GoesToNext :
      (o : Option (PatternContext P)) → GoesToNext m i (matched_or_not m i o)
  matched_or_not-GoesToNext none = tt
  matched_or_not-GoesToNext (some c) = refl

  quantum_captured-GoesToNext :
      (name : Text) (o : Option QisCaptures) → Post (GoesToNext m i) (quantum_captured m c i name o)
  unfolding quantum_captured
  quantum_captured-GoesToNext name (some captures) =
      Post-then (get_qis_function_arguments m i) λ arguments.
        Post-then (apply_operation m c arguments captures (qis_operation captures.operation))
          λ o. returns (matched_or_not-GoesToNext o)
  quantum_captured-GoesToNext name none =
      Post-if (text_eq name read_result_name)
        (Post-then (get_qis_function_arguments m i)
          λ arguments. Post-then (read_result c i arguments) λ c'. returns refl)
        (returns tt)

  quantum_named-GoesToNext : (o : Option Text) → Post (GoesToNext m i) (quantum_named m c i o)
  unfolding quantum_named
  quantum_named-GoesToNext none = returns tt
  quantum_named-GoesToNext (some name) = quantum_captured-GoesToNext name (qis_captures name)

  quantum_by_opcode-GoesToNext : (op : Opcode) → Post (GoesToNext m i) (quantum_by_opcode m c i op)
  unfolding quantum_by_opcode
  quantum_by_opcode-GoesToNext call =
      Post-then (get_called_function_name m i) quantum_named-GoesToNext
  quantum_by_opcode-GoesToNext _ = returns tt

  pub quantum_instruction-GoesToNext : Post (GoesToNext m i) (quantum_instruction m c i)
  unfolding quantum_instruction
  quantum_instruction-GoesToNext = quantum_by_opcode-GoesToNext (m.get_opcode i)
