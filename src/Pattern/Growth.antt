-- ===== src/Pattern/Growth.antt =====
-- How the operations on gates, measurements and results change the context (pattern.rs).
pub mod Steps
use mathlib.Core.List.{append_assoc, append-nil}
use qcs_sdk_qir.Base.{
  ℕ, ◌≡◌, refl, sym, ap, ◌∙◌, Bool, Option, none, some, List, [], ◌∷◌, ◌++◌, Text, text_eq,
  get_elem?,
}
use qcs_sdk_qir.Base.Outcome.{
  ok, ok_or, Post, returns, raises, Post-then, Post-bind, Post-if, Post-imp, Post-self,
}
use qcs_sdk_qir.Llvm.{Module, Instruction as LlvmInstruction, Opcode, call}
use qcs_sdk_qir.Quil.{Instruction, measurement}
use qcs_sdk_qir.Quil.Program.{QuilProgram, body}
use qcs_sdk_qir.Interop.Arguments.{
  OperationArgument, result, get_called_function_name, get_qis_function_arguments,
}
use qcs_sdk_qir.Intrinsics.{QisCaptures, qis_captures, record_captures}
use qcs_sdk_qir.Pattern.Context.{
  RecordedOutput, result_readout_offset, PatternContext, lookup, entry_or_next, Matched,
}
use qcs_sdk_qir.Pattern.Readout.{lookup-entry_or_next_old}
use qcs_sdk_qir.Pattern.Gates.{GateSpec, match_qubit, match_result, add_gate_instruction}
use qcs_sdk_qir.Pattern.Gates.Meaning.{Extends, add_gate_instruction-GateAdded}
use qcs_sdk_qir.Pattern.Record.{
  RecordKind, result_kind, unimplemented_kind, unknown_kind, marker, record_kind, push_output,
  record_result, record_by_kind, record_captured, record_named, record_by_opcode,
  rt_record_instruction,
}
use qcs_sdk_qir.Pattern.Quantum.{
  QisOperation, gate_operation, reset_operation, measure_operation, unknown_operation,
  qis_operation, measure, apply_operation, read_result, read_result_name, matched_or_not,
  quantum_captured, quantum_named, quantum_by_opcode, quantum_instruction,
}

module _ {P : Type 0} ⦃q : QuilProgram P⦄ where
  -- From `c` to `c'` instructions and outputs are added at the end, and the indices of parameters and
  -- results that were in use mean the same.
  pub record IsLater (c c' : PatternContext P) : Type 0 where
    pub added : List Instruction
    pub program : body c'.quil_program ≡ body c.quil_program ++ added
    pub recorded : List RecordedOutput
    pub outputs : c'.recorded_output ≡ c.recorded_output ++ recorded
    pub parameters : Extends c.parameters c'.parameters
    pub readouts :
        (k v : ℕ)
        → lookup k c.read_result_mapping ≡ some v
        → lookup k c'.read_result_mapping ≡ some v

  pub IsLater-refl : (c : PatternContext P) → IsLater c c
  IsLater-refl c = record {
    added = [];
    program = sym (append-nil _);
    recorded = [];
    outputs = sym (append-nil _);
    parameters = λ i v h. h;
    readouts = λ k v h. h;
  }

  pub IsLater-trans : {c c' c'' : PatternContext P} → IsLater c c' → IsLater c' c'' → IsLater c c''
  IsLater-trans {c} g h = record {
    added = g.added ++ h.added;
    program =
        h.program
        ∙ ap (λ (x : List Instruction). x ++ h.added) g.program
        ∙ append_assoc (body c.quil_program) g.added h.added;
    recorded = g.recorded ++ h.recorded;
    outputs =
        h.outputs
        ∙ ap (λ (x : List RecordedOutput). x ++ h.recorded) g.outputs
        ∙ append_assoc c.recorded_output g.recorded h.recorded;
    parameters = λ i v e. h.parameters i v (g.parameters i v e);
    readouts = λ k v e. h.readouts k v (g.readouts k v e);
  }

  abbrev pub MatchedLater : PatternContext P → Matched (PatternContext P) → Type 0
  MatchedLater c none = Unit {0}
  MatchedLater c (some (next, c')) = IsLater c c'

  abbrev pub OptionLater : PatternContext P → Option (PatternContext P) → Type 0
  OptionLater c none = Unit {0}
  OptionLater c (some c') = IsLater c c'

  -- A change of the other fields only.
  pub same_core :
      (c c' : PatternContext P)
      → c'.quil_program ≡ c.quil_program
      → c'.recorded_output ≡ c.recorded_output
      → c'.parameters ≡ c.parameters
      → c'.read_result_mapping ≡ c.read_result_mapping
      → IsLater c c'
  same_core c c' p o v r = record {
    added = [];
    program = rw p (sym (append-nil _));
    recorded = [];
    outputs = rw o (sym (append-nil _));
    parameters = λ i w h. rw v h;
    readouts = λ k w h. rw r h;
  }

  add_gate_instruction-IsLater :
      (m : Module) (c : PatternContext P) (arguments : List OperationArgument) (s : GateSpec)
      (adjoint ctl : Bool)
      → Post (IsLater c) (add_gate_instruction m c arguments s adjoint ctl)
  add_gate_instruction-IsLater m c arguments s adjoint ctl =
      Post-imp (Post-self (add_gate_instruction m c arguments s adjoint ctl)) λ c' e.
        let g = add_gate_instruction-GateAdded m c c' arguments s adjoint ctl e in
        record {
          added = _;
          program = g.appended;
          recorded = [];
          outputs = g.same_outputs ∙ sym (append-nil _);
          parameters = g.kept;
          readouts = λ k v h. rw g.same_readouts h;
        }

  measure-IsLater :
      (c : PatternContext P) (arguments : List OperationArgument)
      → Post (IsLater c) (measure c arguments)
  unfolding measure
  measure-IsLater c arguments = Post-then (match_qubit 0 (get_elem? arguments 0)) λ qubit.
      Post-then (match_result 1 (get_elem? arguments 1)) λ target. returns (record {
        added = _;
        program = q.body-add c.quil_program (measurement _) tt;
        recorded = [];
        outputs = sym (append-nil _);
        parameters = λ i v h. h;
        readouts = λ k v h. lookup-entry_or_next_old target c.read_result_mapping k {v = v} h;
      })

  pub apply_operation-Later :
      (m : Module) (c : PatternContext P) (arguments : List OperationArgument)
      (captures : QisCaptures) (op : QisOperation)
      → Post (OptionLater c) (apply_operation m c arguments captures op)
  unfolding apply_operation
  apply_operation-Later m c arguments captures (gate_operation s) =
      Post-bind (add_gate_instruction-IsLater m c arguments s captures.adjoint captures.controlled)
        λ c' h. returns h
  apply_operation-Later m c arguments captures reset_operation =
      returns (same_core c _ refl refl refl refl)
  apply_operation-Later m c arguments captures measure_operation =
      Post-bind (measure-IsLater c arguments) λ c' h. returns h
  apply_operation-Later m c arguments captures unknown_operation = returns tt

  pub read_result-IsLater :
      (c : PatternContext P) (i : LlvmInstruction) (arguments : List OperationArgument)
      → Post (IsLater c) (read_result c i arguments)
  unfolding read_result
  read_result-IsLater c i (result k ∷ _) =
      Post-then (ok_or (lookup k c.read_result_mapping) _)
        λ index. returns (same_core c _ refl refl refl refl)
  read_result-IsLater c i _ = raises
