-- ===== src/Pattern/Growth/Steps.antt =====
-- How a matched call changes the context (pattern.rs).
use mathlib.Core.List.{append-nil}
use qcs_sdk_qir.Base.{refl, sym, Option, none, some, List, [], ◌∷◌, Text, text_eq}
use qcs_sdk_qir.Base.Outcome.{Post, returns, raises, Post-then, Post-bind, Post-if}
use qcs_sdk_qir.Llvm.{Module, Instruction, Opcode, call}
use qcs_sdk_qir.Quil.Program.{QuilProgram}
use qcs_sdk_qir.Interop.Arguments.{
  OperationArgument, result, get_called_function_name, get_qis_function_arguments,
}
use qcs_sdk_qir.Intrinsics.{QisCaptures, qis_captures, record_captures}
use qcs_sdk_qir.Pattern.Context.{RecordedOutput, PatternContext}
use qcs_sdk_qir.Pattern.Readout.{lookup-entry_or_next_old}
use qcs_sdk_qir.Pattern.Growth.{
  IsLater, IsLater-trans, OptionLater, MatchedLater, same_core, apply_operation-Later,
  read_result-IsLater,
}
use qcs_sdk_qir.Pattern.Record.{
  RecordKind, result_kind, unimplemented_kind, unknown_kind, marker, record_kind, push_output,
  record_result, record_by_kind, record_captured, record_named, record_by_opcode,
  rt_record_instruction,
}
use qcs_sdk_qir.Pattern.Quantum.{
  qis_operation, read_result_name, matched_or_not, quantum_captured, quantum_named,
  quantum_by_opcode, quantum_instruction,
}

module _ {P : Type 0} ⦃q : QuilProgram P⦄ where
  pub push_output-IsLater :
      (r : RecordedOutput) (c : PatternContext P) → IsLater c (push_output r c)
  push_output-IsLater r c = record {
    added = [];
    program = sym (append-nil _);
    recorded = r ∷ [];
    outputs = refl;
    parameters = λ i v h. h;
    readouts = λ k v h. h;
  }

  record_result-IsLater :
      (c : PatternContext P) (arguments : List OperationArgument)
      → Post (IsLater c) (record_result c arguments)
  unfolding record_result
  record_result-IsLater c (result k ∷ _) = returns (record {
    added = [];
    program = sym (append-nil _);
    recorded = _;
    outputs = refl;
    parameters = λ i v h. h;
    readouts = λ j v h. lookup-entry_or_next_old k c.read_result_mapping j {v = v} h;
  })
  record_result-IsLater c _ = raises

module _ {P : Type 0} ⦃q : QuilProgram P⦄ (m : Module) (c : PatternContext P)
    (i : Instruction) where
  matched_or_not-Later :
      (o : Option (PatternContext P)) → OptionLater c o → MatchedLater c (matched_or_not m i o)
  matched_or_not-Later none h = tt
  matched_or_not-Later (some c') h = IsLater-trans h (same_core c' _ refl refl refl refl)

  quantum_captured-Later :
      (name : Text) (o : Option QisCaptures) → Post (MatchedLater c) (quantum_captured m c i name o)
  unfolding quantum_captured
  quantum_captured-Later name (some captures) =
      Post-then (get_qis_function_arguments m i) λ arguments.
        Post-bind (apply_operation-Later m c arguments captures (qis_operation captures.operation))
          λ c' h. returns (matched_or_not-Later c' h)
  quantum_captured-Later name none =
      Post-if (text_eq name read_result_name)
        (Post-then (get_qis_function_arguments m i) λ arguments.
          Post-bind (read_result-IsLater c i arguments)
            λ c' h. returns (matched_or_not-Later (some c') h))
        (returns tt)

  quantum_named-Later : (o : Option Text) → Post (MatchedLater c) (quantum_named m c i o)
  unfolding quantum_named
  quantum_named-Later none = returns tt
  quantum_named-Later (some name) = quantum_captured-Later name (qis_captures name)

  quantum_by_opcode-Later : (op : Opcode) → Post (MatchedLater c) (quantum_by_opcode m c i op)
  unfolding quantum_by_opcode
  quantum_by_opcode-Later call = Post-then (get_called_function_name m i) quantum_named-Later
  quantum_by_opcode-Later _ = returns tt

  pub quantum_instruction-Later : Post (MatchedLater c) (quantum_instruction m c i)
  unfolding quantum_instruction
  quantum_instruction-Later = quantum_by_opcode-Later (m.get_opcode i)

  record_by_kind-Later :
      (t : Text) (k : RecordKind) → Post (MatchedLater c) (record_by_kind m c i t k)
  unfolding record_by_kind
  record_by_kind-Later t result_kind =
      Post-then (get_qis_function_arguments m i)
        λ arguments. Post-bind (record_result-IsLater c arguments) λ c' h. returns h
  record_by_kind-Later t unimplemented_kind = raises
  record_by_kind-Later t (marker r) = returns (push_output-IsLater r c)
  record_by_kind-Later t unknown_kind = returns tt

  record_captured-Later : (o : Option Text) → Post (MatchedLater c) (record_captured m c i o)
  unfolding record_captured
  record_captured-Later none = returns tt
  record_captured-Later (some t) = record_by_kind-Later t (record_kind t)

  record_named-Later : (o : Option Text) → Post (MatchedLater c) (record_named m c i o)
  unfolding record_named
  record_named-Later none = returns tt
  record_named-Later (some name) = record_captured-Later (record_captures name)

  record_by_opcode-Later : (op : Opcode) → Post (MatchedLater c) (record_by_opcode m c i op)
  unfolding record_by_opcode
  record_by_opcode-Later call = Post-then (get_called_function_name m i) record_named-Later
  record_by_opcode-Later _ = returns tt

  pub rt_record_instruction-Later : Post (MatchedLater c) (rt_record_instruction m c i)
  unfolding rt_record_instruction
  rt_record_instruction-Later = record_by_opcode-Later (m.get_opcode i)
