-- ===== src/Llvm.antt =====
-- LLVM as the `inkwell` crate shows it: handles, and the module as the observations that the
-- program makes of it. `inkwell` and LLVM are not part of the repository: a `Module` is a parameter
-- of every definition that looks at one, and a change of the module is another `Module`.
pub mod Chain
pub mod Builder
use qcs_sdk_qir.Base.{ℕ, Bool, Option, List, Text}
use qcs_sdk_qir.Base.Int.{ℤ}

-- A handle of inkwell wraps a pointer, and two handles are equal if their pointers are.
abbrev pub Instruction : Type 0
Instruction = ℕ

abbrev pub BasicBlock : Type 0
BasicBlock = ℕ

abbrev pub Function : Type 0
Function = ℕ

abbrev pub Pointer : Type 0
Pointer = ℕ

abbrev pub IntValue : Type 0
IntValue = ℕ

abbrev pub FloatValue : Type 0
FloatValue = ℕ

abbrev pub PhiValue : Type 0
PhiValue = ℕ

-- what a call gives
abbrev pub CallSite : Type 0
CallSite = ℕ

abbrev pub Global : Type 0
Global = ℕ

abbrev pub StructType : Type 0
StructType = ℕ

-- a use of a value by an instruction
abbrev pub Use : Type 0
Use = ℕ

-- An `f64`, as its bit pattern.
abbrev pub Double : Type 0
Double = ℕ

-- The opcodes that the program tells apart.
pub data Opcode : Type 0 where
  phi add icmp br call ret other : Opcode

-- `BasicValueEnum`
pub data BasicValue : Type 0 where
  int_value : IntValue → BasicValue
  float_value : FloatValue → BasicValue
  pointer_value : Pointer → BasicValue
  other_value : BasicValue

-- `Either<BasicValueEnum, BasicBlock>`
pub data Operand : Type 0 where
  left : BasicValue → Operand
  right : BasicBlock → Operand

-- A C string that an LLVM name is read from; `to_str` fails if it is not UTF-8.
pub data CStr : Type 0 where
  utf8 : Text → CStr
  malformed : CStr

-- What a pointer's type points at: a struct, with its name if it has one, or another type.
pub data ElementType : Type 0 where
  struct_type : Option CStr → ElementType
  other_type : ElementType

pub record Module : Type 0 where
  -- instructions
  pub get_opcode : Instruction → Opcode
  pub get_next_instruction : Instruction → Option Instruction
  pub get_num_operands : Instruction → ℕ
  pub get_operand : Instruction → ℕ → Option Operand
  pub get_operand_use : Instruction → ℕ → Option Use
  pub get_first_use : Instruction → Option Use
  pub get_used_value : Use → Operand
  -- values
  pub as_instruction : BasicValue → Option Instruction
  pub get_pointer_name : Pointer → CStr
  pub get_element_type : Pointer → ElementType
  -- `const_to_int(i64).get_sign_extended_constant()`
  pub pointer_constant : Pointer → Option ℤ
  pub get_sign_extended_constant : IntValue → Option ℤ
  pub get_constant : FloatValue → Option Double
  pub is_const : FloatValue → Bool
  -- `get_parent`
  pub get_parent : Instruction → Option BasicBlock
  -- `TryInto<PhiValue>`, and the incoming values of a phi
  pub try_into_phi : Instruction → Option PhiValue
  pub phi_instruction : PhiValue → Instruction
  pub count_incoming : PhiValue → ℕ
  pub get_incoming : PhiValue → ℕ → Option (BasicValue × BasicBlock)
  -- `try_as_basic_value().left()`
  pub call_value : CallSite → Option BasicValue
  -- `as_any_value_enum().into_int_value()`; an instruction that has no integer value panics
  pub int_of_instruction : Instruction → Option IntValue
  -- blocks and functions
  pub get_first_instruction : BasicBlock → Option Instruction
  pub get_last_instruction : BasicBlock → Option Instruction
  pub get_terminator : BasicBlock → Option Instruction
  pub get_block_name : BasicBlock → Text
  -- `get_name().to_str()` succeeds
  pub block_name_is_utf8 : BasicBlock → Bool
  pub get_basic_blocks : Function → List BasicBlock
  pub get_first_basic_block : Function → Option BasicBlock
  pub get_function : Text → Option Function
  pub get_global : Text → Option Global
  pub get_struct_type : Text → Option StructType
  pub get_functions : List Function
  pub count_attributes : Function → ℕ
  pub has_string_attribute : Function → Text → Bool
  -- the function's type is `void ()`
  pub is_void : Function → Bool
