-- ===== src/Pattern/Bounds/Output.antt =====
-- The invariant and the calls that record output (rt_record_instruction of pattern.rs).
use qcs_sdk_qir.Base.{
  Option, none, some, List, ◌∷◌, length, All-snoc, Text, if◌then◌else◌, arith, Bool, true, false,
}
use qcs_sdk_qir.Base.Outcome.{Post, returns, raises, Post-then, Post-bind}
use qcs_sdk_qir.Llvm.{Module, Instruction, Opcode, call}
use qcs_sdk_qir.Quil.Program.{QuilProgram}
use qcs_sdk_qir.Interop.Arguments.{
  OperationArgument, get_called_function_name, get_qis_function_arguments,
}
use qcs_sdk_qir.Intrinsics.{record_captures}
use qcs_sdk_qir.Pattern.Context.{
  RecordedOutput, tuple_start, tuple_end, array_start, array_end, PatternContext,
}
use qcs_sdk_qir.Pattern.Record.{
  RecordKind, result_kind, unimplemented_kind, unknown_kind, marker, record_kind, push_output,
  record_result, record_by_kind, record_captured, record_named, record_by_opcode,
  rt_record_instruction,
}
use qcs_sdk_qir.Pattern.Readout.{entry_or_next-lt}
use qcs_sdk_qir.Pattern.Bounds.{IsWellFormed, OutputInRange, OutputInRange-mono}
use qcs_sdk_qir.Pattern.Bounds.Steps.{entry-IsWellFormed, MatchedWellFormed}

-- The marker of a record type refers to nothing.
data IsMarker : RecordKind → Type 0 where
  marks : {r : RecordedOutput} → OutputInRange 0 r → IsMarker (marker r)
  other_result : IsMarker result_kind
  other_unimplemented : IsMarker unimplemented_kind
  other_unknown : IsMarker unknown_kind

if-IsMarker :
    (b : Bool) {k l : RecordKind} → IsMarker k → IsMarker l → IsMarker (if b then k else l)
if-IsMarker true hk hl = hk
if-IsMarker false hk hl = hl

record_kind-IsMarker : (t : Text) → IsMarker (record_kind t)
unfolding record_kind
record_kind-IsMarker t =
    search
      (
        if-IsMarker,
        marks {r = tuple_start} tt,
        marks {r = tuple_end} tt,
        marks {r = array_start} tt,
        marks {r = array_end} tt,
        other_result,
        other_unimplemented,
        other_unknown,
      )
      depth 8

module _ {P : Type 0} ⦃q : QuilProgram P⦄ where
  pub push_output-IsWellFormed :
      {m : Module} {c : PatternContext P} (r : RecordedOutput)
      → OutputInRange (length c.read_result_mapping) r
      → IsWellFormed m c
      → IsWellFormed m (push_output r c)
  push_output-IsWellFormed {c} r h w = record {
    dense = w.dense;
    program = w.program;
    outputs = All-snoc _ c.recorded_output r w.outputs h;
    readouts = w.readouts;
    dynamic = w.dynamic;
  }

  record_result-IsWellFormed :
      (m : Module) (c : PatternContext P) (arguments : List OperationArgument)
      → IsWellFormed m c
      → Post (IsWellFormed m) (record_result c arguments)
  unfolding record_result
  record_result-IsWellFormed m c (OperationArgument.result k ∷ rest) w = returns (
      push_output-IsWellFormed _ (entry_or_next-lt k c.read_result_mapping w.dense)
        (entry-IsWellFormed k w))
  record_result-IsWellFormed m c _ w = raises

  record_by_kind-IsWellFormed :
      (m : Module) (c : PatternContext P) (i : Instruction) (t : Text) {k : RecordKind}
      → IsMarker k
      → IsWellFormed m c
      → Post (MatchedWellFormed m) (record_by_kind m c i t k)
  unfolding record_by_kind
  record_by_kind-IsWellFormed m c i t other_result w =
      Post-then (get_qis_function_arguments m i)
        λ arguments. Post-bind (record_result-IsWellFormed m c arguments w) λ c' h. returns h
  record_by_kind-IsWellFormed m c i t other_unimplemented w = raises
  record_by_kind-IsWellFormed m c i t (marks {r} h) w =
      returns (push_output-IsWellFormed r (OutputInRange-mono r (omega arith) h) w)
  record_by_kind-IsWellFormed m c i t other_unknown w = returns tt

  record_named-IsWellFormed :
      (m : Module) (c : PatternContext P) (i : Instruction) (name : Option Text)
      → IsWellFormed m c
      → Post (MatchedWellFormed m) (record_named m c i name)
  unfolding record_named
  record_named-IsWellFormed m c i none w = returns tt
  record_named-IsWellFormed m c i (some name) w = captured (record_captures name)
    where
      captured : (o : Option Text) → Post (MatchedWellFormed m) (record_captured m c i o)
      captured none = returns tt
      captured (some t) = record_by_kind-IsWellFormed m c i t (record_kind-IsMarker t) w

  record_by_opcode-IsWellFormed :
      (m : Module) (c : PatternContext P) (i : Instruction) (op : Opcode)
      → IsWellFormed m c
      → Post (MatchedWellFormed m) (record_by_opcode m c i op)
  unfolding record_by_opcode
  record_by_opcode-IsWellFormed m c i call w =
      Post-then (get_called_function_name m i) λ name. record_named-IsWellFormed m c i name w
  record_by_opcode-IsWellFormed m c i _ w = returns tt

  -- From a well-formed context, a matched recording call leaves a well-formed context: what is
  -- recorded is a marker or the readout offset of a result, which is in use afterwards.
  pub rt_record_instruction-IsWellFormed :
      (m : Module) (c : PatternContext P) (i : Instruction)
      → IsWellFormed m c
      → Post (MatchedWellFormed m) (rt_record_instruction m c i)
  unfolding rt_record_instruction
  rt_record_instruction-IsWellFormed m c i w =
      record_by_opcode-IsWellFormed m c i (m.get_opcode i) w
