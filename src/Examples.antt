-- ===== src/Examples.antt =====
-- Two small modules, and the theorems applied to them.
mod Programs
mod Interop
mod Scans
mod Growth
mod Surprises
mod Success
mod Outputs
mod Names
pub mod Qir
mod Nested
use qcs_sdk_qir.Base.{
  ℕ, suc, ◌+◌, ◌*◌, ◌==◌, ◌≡◌, true, false, not, Option, none, some, List, [], ◌∷◌, Text, text,
  text_eq, get_elem?, leb, arith, if◌then◌else◌,
}
use qcs_sdk_qir.Base.Int.{ℤ, pos}
use qcs_sdk_qir.Llvm.{
  Module, Opcode, phi, add, icmp, br, call, ret, other, BasicValue, int_value, float_value,
  pointer_value, Operand, left, right, utf8, struct_type, BasicBlock,
}
use qcs_sdk_qir.Quil.Sample.{ListProgram}
use qcs_sdk_qir.Llvm.Builder.{cast}
use qcs_sdk_qir.Context.Structs.{build_string_type}
use qcs_sdk_qir.Context.{QcsCompilerContext, qvm, default_options}

abbrev pick {ℓ} : {A : Type ℓ} → A → Option A → A
pick d none = d
pick d (some a) = a

abbrev pub nth {ℓ} : {A : Type ℓ} → A → List A → ℕ → A
nth d xs i = pick d (get_elem? xs i)

-- 0 and the instructions from 6 on are the loop; 1 to 5 are h(0), rx(v7, 0), rz(5, 0), mz(0, 0) and
-- the record of result 0; 9 returns.
abbrev pub opcodes : List Opcode
opcodes = phi ∷ call ∷ call ∷ call ∷ call ∷ call ∷ add ∷ icmp ∷ br ∷ ret ∷ []

abbrev pub pointer : ℕ → Operand
pointer p = left (pointer_value p)

abbrev pub operands : List (List Operand)
operands =
    []
    ∷ (pointer 0 ∷ pointer 2 ∷ [])
    ∷ (left (float_value 7) ∷ pointer 0 ∷ pointer 3 ∷ [])
    ∷ (left (float_value 5) ∷ pointer 0 ∷ pointer 4 ∷ [])
    ∷ (pointer 0 ∷ pointer 1 ∷ pointer 5 ∷ [])
    ∷ (pointer 1 ∷ pointer 6 ∷ [])
    ∷ (left (int_value 0) ∷ left (int_value 1) ∷ [])
    ∷ (left (int_value 0) ∷ left (int_value 2) ∷ [])
    ∷ (left (int_value 3) ∷ right 2 ∷ right 1 ∷ [])
    ∷ []
    ∷ []

abbrev pub pointer_names : List Text
pointer_names =
    []
    ∷ []
    ∷ text "__quantum__qis__h__body"
    ∷ text "__quantum__qis__rx__adj"
    ∷ text "__quantum__qis__rz__body"
    ∷ text "__quantum__qis__mz__body"
    ∷ text "__quantum__rt__result_record_output"
    ∷ []

abbrev count : List Operand → ℕ
count [] = 0
count (o ∷ os) = suc (count os)

abbrev loop_value : BasicValue → Option ℕ
loop_value (int_value v) = if v == 0 then some 0 else none
loop_value _ = none

-- What differs: where the block starts, what follows the record, and the blocks.
abbrev pub sample : ℕ → ℕ → List BasicBlock → Module
sample first after blocks = record {
  get_opcode = nth other opcodes;
  get_next_instruction = λ i. if i == 5 then some after else if leb 8 i then none else some (i + 1);
  get_num_operands = λ i. count (nth [] operands i);
  get_operand = λ i k. get_elem? (nth [] operands i) k;
  get_operand_use = λ i k. some (i * 10 + k);
  get_first_use = λ i. some ((i + 1) * 10);
  get_used_value = λ u. left (int_value (if u == 70 then 0 else 9));
  as_instruction = loop_value;
  get_pointer_name = λ p. utf8 (nth [] pointer_names p);
  get_element_type =
      λ p. struct_type (some (utf8 (if p == 0 then text "Qubit" else text "Result")));
  pointer_constant = λ p. some (pos 0);
  get_sign_extended_constant = λ v. some (pos (nth 0 (0 ∷ 1 ∷ 100 ∷ []) v));
  get_constant = λ v. if v == 7 then none else some v;
  is_const = λ v. not (v == 7);
  get_parent = λ i. some 1;
  try_into_phi = λ i. some i;
  phi_instruction = λ v. v;
  count_incoming = λ v. 2;
  get_incoming = λ v k. some (int_value k, if k == 0 then 0 else 1);
  call_value = λ c. some (pointer_value c);
  int_of_instruction = λ i. some i;
  get_first_instruction = λ b. some first;
  get_last_instruction = λ b. some 9;
  get_terminator = λ b. some 8;
  get_block_name = λ b. if b == 1 then text "body" else text "entry";
  block_name_is_utf8 = λ b. true;
  get_basic_blocks = λ f. blocks;
  get_first_basic_block = λ f. some 0;
  get_function = λ t. none;
  get_global = λ t. none;
  get_struct_type = λ t. none;
  get_functions = 4 ∷ 3 ∷ [];
  count_attributes = λ f. if f == 3 then 1 else 0;
  has_string_attribute = λ f t. text_eq t (text "EntryPoint");
  is_void = λ f. true;
}

abbrev pub shots_module : Module
shots_module = sample 0 6 (0 ∷ 1 ∷ 2 ∷ [])

abbrev pub unitary_module : Module
unitary_module = sample 1 9 (0 ∷ [])

abbrev pub context : Module → QcsCompilerContext ListProgram
context m = record {
  state = record { llvm = m; history = [] };
  types = record {
    string = build_string_type;
    executable_struct = 0;
    executable_cache_struct = 1;
    execution_result_struct = 2;
  };
  values = record {
    free_executable_function = 40;
    free_execution_result_function = 41;
    executable_from_quil_function = 42;
    execute_on_qpu_function = 43;
    execute_on_qvm_function = 44;
    get_readout_bit_function = 45;
    panic_on_failure_function = 46;
    parameter_memory_region_name = cast 47 build_string_type;
    quantum_processor_id = none;
    set_param_function = 49;
    wrap_in_shots_function = 50;
    executable_cache_global = 51;
    create_executable_cache = 52;
    add_executable_cache_item = 53;
    read_from_executable_cache = 54;
    free_executable_cache = 55;
  };
  target = qvm;
  quil_programs = [];
  options = default_options;
}
