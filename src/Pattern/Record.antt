-- ===== src/Pattern/Record.antt =====
-- `rt_record_instruction`: the calls that record output.
use qcs_sdk_qir.Base.{
  ◌||◌, Option, none, some, List, [], ◌∷◌, ◌++◌, Text, text, text_eq, if◌then◌else◌,
}
use qcs_sdk_qir.Base.Outcome.{Error, Result, ok, err, ◌>>=◌, malformed_record, unimplemented_record}
use qcs_sdk_qir.Llvm.{Module, Instruction, Opcode, call}
use qcs_sdk_qir.Interop.Arguments.{
  OperationArgument, result, get_called_function_name, get_qis_function_arguments,
}
use qcs_sdk_qir.Intrinsics.{record_captures}
use qcs_sdk_qir.Pattern.Context.{
  RecordedOutput, tuple_start, tuple_end, array_start, array_end, result_readout_offset,
  PatternContext, entry_or_next, Matched,
}

-- The arms of the match on the record type.
pub data RecordKind : Type 0 where
  result_kind unimplemented_kind unknown_kind : RecordKind
  marker : RecordedOutput → RecordKind

unfoldable pub record_kind : Text → RecordKind
unfolding text_eq
record_kind t =
    if text_eq t (text "result")
    then result_kind
    else if text_eq t (text "bool") || (text_eq t (text "integer") || text_eq t (text "double"))
    then unimplemented_kind
    else if text_eq t (text "tuple_start")
    then marker tuple_start
    else if text_eq t (text "tuple_end")
    then marker tuple_end
    else if text_eq t (text "array_start")
    then marker array_start
    else if text_eq t (text "array_end")
    then marker array_end
    else unknown_kind

module _ {P : Type 0} where
  -- `recorded_output.push(…)`
  abbrev pub push_output : RecordedOutput → PatternContext P → PatternContext P
  push_output r c = record c { recorded_output = c.recorded_output ++ r ∷ [] }

  -- A result that was never measured gets the next readout index.
  unfoldable pub record_result :
      PatternContext P → List OperationArgument → Result Error (PatternContext P)
  unfolding entry_or_next
  record_result c (result k ∷ _) =
      let (index, mapping) = entry_or_next k c.read_result_mapping in
      ok (push_output (result_readout_offset index) (record c { read_result_mapping = mapping }))
  record_result c _ = err malformed_record

  unfoldable pub record_by_kind :
      Module
      → PatternContext P
      → Instruction
      → Text
      → RecordKind
      → Result Error (Matched (PatternContext P))
  unfolding record_result get_qis_function_arguments
  record_by_kind m c i t result_kind = do
    arguments ← get_qis_function_arguments m i
    c' ← record_result c arguments
    ok (some (m.get_next_instruction i, c'))
  record_by_kind m c i t unimplemented_kind = err (unimplemented_record t)
  record_by_kind m c i t (marker r) = ok (some (m.get_next_instruction i, push_output r c))
  record_by_kind m c i t unknown_kind = ok none

  unfoldable pub record_captured :
      Module
      → PatternContext P
      → Instruction
      → Option Text
      → Result Error (Matched (PatternContext P))
  unfolding record_by_kind record_kind
  record_captured m c i none = ok none
  record_captured m c i (some t) = record_by_kind m c i t (record_kind t)

  unfoldable pub record_named :
      Module
      → PatternContext P
      → Instruction
      → Option Text
      → Result Error (Matched (PatternContext P))
  unfolding record_captured record_captures
  record_named m c i none = ok none
  record_named m c i (some name) = record_captured m c i (record_captures name)

  unfoldable pub record_by_opcode :
      Module → PatternContext P → Instruction → Opcode → Result Error (Matched (PatternContext P))
  unfolding record_named get_called_function_name
  record_by_opcode m c i call = do name ← get_called_function_name m i; record_named m c i name
  record_by_opcode m c i _ = ok none

  unfoldable pub rt_record_instruction :
      Module → PatternContext P → Instruction → Result Error (Matched (PatternContext P))
  unfolding record_by_opcode
  rt_record_instruction m c i = record_by_opcode m c i (m.get_opcode i)
