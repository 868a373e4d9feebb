-- ===== src/Interop/Arguments.antt =====
-- src/interop/instruction.rs: the callee and the arguments of a call instruction.
pub mod Operands
use qcs_sdk_qir.Base.{
  ℕ, zero, suc, ◌-◌, ◌+◌, ◌==◌, Option, none, some, List, [], ◌∷◌, Text, text, text_eq,
  if◌then◌else◌,
}
use qcs_sdk_qir.Base.Int.{ℤ, try_from}
use qcs_sdk_qir.Base.Outcome.{
  Error, Result, ok, err, ok_or, ◌>>=◌, operand_count_underflow, no_final_operand,
  block_call_target, no_operand, unnamed_struct, not_utf8, bad_qubit_index, bad_result_index,
  unexpected_pointer, unexpected_argument, unexpected_struct,
}
use qcs_sdk_qir.Llvm.{
  Module, Instruction, Pointer, IntValue, FloatValue, int_value, float_value, pointer_value,
  Operand, left, CStr, utf8, malformed, ElementType, struct_type, other_type,
}

-- `CStr::to_str().ok()`
abbrev pub to_str : CStr → Option Text
to_str (utf8 t) = some t
to_str malformed = none

-- The number of operands less one, as a `u32`: the subtraction overflows at 0.
unfoldable pub argument_count : Module → Instruction → Result Error ℕ
argument_count m i =
    if m.get_num_operands i == 0 then err operand_count_underflow else ok (m.get_num_operands i - 1)

callee_name : Module → Operand → Result Error (Option Text)
callee_name m (left (pointer_value p)) = ok (to_str (m.get_pointer_name p))
callee_name m _ = err block_call_target

-- The name of the function that a call instruction calls: its last operand.
unfoldable pub get_called_function_name : Module → Instruction → Result Error (Option Text)
unfolding argument_count callee_name
get_called_function_name m i = do
  last ← argument_count m i
  target ← ok_or (m.get_operand i last) no_final_operand
  callee_name m target

pub data OperationArgument : Type 0 where
  qubit result : ℕ → OperationArgument
  parameter : FloatValue → OperationArgument
  instruction : Instruction → OperationArgument

-- `Option::and_then(|value| u64::try_from(value).ok())`
abbrev pub and_then_u64 : Option ℤ → Option ℕ
and_then_u64 none = none
and_then_u64 (some z) = try_from z

unfoldable pub pointer_value_to_u64 : Module → Pointer → Option ℕ
unfolding try_from
pointer_value_to_u64 m p = and_then_u64 (m.pointer_constant p)

unfoldable pub integer_value_to_u64 : Module → IntValue → Option ℕ
unfolding try_from
integer_value_to_u64 m v = and_then_u64 (m.get_sign_extended_constant v)

unfoldable pub operand_to_integer : Operand → Option IntValue
operand_to_integer (left (int_value v)) = some v
operand_to_integer _ = none

struct_argument : Module → Pointer → Option CStr → Result Error OperationArgument
struct_argument m p none = err unnamed_struct
struct_argument m p (some malformed) = err not_utf8
struct_argument m p (some (utf8 name)) =
    if text_eq name (text "Qubit")
    then (do index ← ok_or (pointer_value_to_u64 m p) bad_qubit_index; ok (qubit index))
    else if text_eq name (text "Result")
    then (do index ← ok_or (pointer_value_to_u64 m p) bad_result_index; ok (result index))
    else err (unexpected_struct name)

plain_pointer_argument : Option Instruction → Result Error OperationArgument
plain_pointer_argument none = err unexpected_pointer
plain_pointer_argument (some inst) = ok (instruction inst)

pointer_argument : Module → Pointer → ElementType → Result Error OperationArgument
pointer_argument m p (struct_type name) = struct_argument m p name
pointer_argument m p other_type = plain_pointer_argument (m.as_instruction (pointer_value p))

-- The argument that an operand stands for.
unfoldable pub operand_argument : Module → Operand → Result Error OperationArgument
unfolding pointer_argument struct_argument plain_pointer_argument pointer_value_to_u64 text_eq
operand_argument m (left (pointer_value p)) = pointer_argument m p (m.get_element_type p)
operand_argument m (left (float_value f)) = ok (parameter f)
operand_argument m _ = err unexpected_argument

-- The arguments of the operands from `k` on, `n` of them; the first error ends the collection.
unfoldable pub collect_arguments :
    Module → Instruction → ℕ → ℕ → Result Error (List OperationArgument)
collect_arguments m i k zero = ok []
collect_arguments m i k (suc n) = do
  target ← ok_or (m.get_operand i k) no_operand
  argument ← operand_argument m target
  rest ← collect_arguments m i (k + 1) n
  ok (argument ∷ rest)

-- The arguments of a quantum intrinsic, in order; the last operand is the function.
unfoldable pub get_qis_function_arguments :
    Module → Instruction → Result Error (List OperationArgument)
unfolding argument_count collect_arguments operand_argument
get_qis_function_arguments m i = do count ← argument_count m i; collect_arguments m i 0 count
