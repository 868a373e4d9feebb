-- ===== src/Context/Externals.antt =====
-- src/context/values.rs: the functions, strings and globals of the QCS runtime in a module, each
-- taken from the module if it has one of that name, and else declared.
pub mod New
pub mod Processor
pub mod Declared
use qcs_sdk_qir.Base.{true, false, Option, none, some, List, [], ◌∷◌, Text, text}
use qcs_sdk_qir.Llvm.{Module, Function, Pointer, Global}
use qcs_sdk_qir.Llvm.Builder.{
  LlvmType, bool_type, i32, i64, f64, void, named, ptr, FunctionType, Linkage, external, Argument,
  cast, Llvm, Build, pure, perform, module_now, add_function, build_global_string, ◌>>=◌,
}
use qcs_sdk_qir.Quil.{parameter_region}
use qcs_sdk_qir.Context.Target.{ExecutionTarget, qpu, qvm}
use qcs_sdk_qir.Context.Structs.{Types, executable, executable_cache, execution_result}

abbrev function_type : LlvmType → List LlvmType → FunctionType
function_type r ps = record { returned = r; parameters = ps; is_var_args = false }

abbrev pub executable_pointer : Types → Module → LlvmType
executable_pointer t m = ptr (named (executable t m))

abbrev pub cache_pointer : Types → Module → LlvmType
cache_pointer t m = ptr (named (executable_cache t m))

abbrev pub result_pointer : Types → Module → LlvmType
result_pointer t m = ptr (named (execution_result t m))

module _ (L : Llvm) (types : Types) where
  -- `if let Some(existing_function) = module.get_function(NAME) { … } else { … }`
  unfoldable pub existing_or_added :
      Text → (Module → FunctionType) → Option Linkage → Option Function → Build Function
  unfolding perform
  existing_or_added name type_in linkage (some f) = pure f
  existing_or_added name type_in linkage none = do
    m ← module_now
    perform L (add_function name (type_in m) linkage)

  unfoldable pub declare_function : Text → (Module → FunctionType) → Option Linkage → Build Function
  unfolding existing_or_added
  declare_function name type_in linkage = do
    m ← module_now
    existing_or_added name type_in linkage (m.get_function name)

  unfoldable pub build_executable_from_quil_function : Build Function
  build_executable_from_quil_function =
      declare_function (text "executable_from_quil")
        (λ m. function_type (executable_pointer types m) (types.string ∷ [])) (some external)

  unfoldable pub build_execute_on_qpu_function : Build Function
  build_execute_on_qpu_function =
      declare_function (text "execute_on_qpu")
        (λ m.
          function_type (result_pointer types m) (executable_pointer types m ∷ types.string ∷ []))
        (some external)

  unfoldable pub build_execute_on_qvm_function : Build Function
  build_execute_on_qvm_function =
      declare_function (text "execute_on_qvm")
        (λ m. function_type (result_pointer types m) (executable_pointer types m ∷ []))
        (some external)

  unfoldable pub build_free_executable_function : Build Function
  build_free_executable_function =
      declare_function (text "free_executable")
        (λ m. function_type void (executable_pointer types m ∷ [])) (some external)

  unfoldable pub build_free_execution_result_function : Build Function
  build_free_execution_result_function =
      declare_function (text "free_execution_result")
        (λ m. function_type void (result_pointer types m ∷ [])) (some external)

  unfoldable pub build_create_executable_cache_function : Build Function
  build_create_executable_cache_function =
      declare_function (text "create_executable_cache")
        (λ m. function_type (cache_pointer types m) (i32 ∷ [])) none

  unfoldable pub build_add_executable_cache_item_function : Build Function
  build_add_executable_cache_item_function =
      declare_function (text "add_executable_cache_item")
        (λ m. function_type void (cache_pointer types m ∷ i32 ∷ types.string ∷ [])) none

  unfoldable pub build_read_from_executable_cache_function : Build Function
  build_read_from_executable_cache_function =
      declare_function (text "read_from_executable_cache")
        (λ m. function_type (executable_pointer types m) (cache_pointer types m ∷ i32 ∷ [])) none

  unfoldable pub build_free_executable_cache_function : Build Function
  build_free_executable_cache_function =
      declare_function (text "free_executable_cache")
        (λ m. function_type void (cache_pointer types m ∷ [])) none

  unfoldable pub build_get_readout_bit_function : Build Function
  build_get_readout_bit_function =
      declare_function (text "get_readout_bit")
        (λ m. function_type bool_type (result_pointer types m ∷ i64 ∷ i64 ∷ [])) (some external)

  unfoldable pub build_set_param_function : Build Function
  build_set_param_function =
      declare_function (text "set_param")
        (λ m. function_type void (executable_pointer types m ∷ types.string ∷ i32 ∷ f64 ∷ []))
        (some external)

  unfoldable pub build_panic_on_failure_function : Build Function
  build_panic_on_failure_function =
      declare_function (text "panic_on_failure")
        (λ m. function_type void (result_pointer types m ∷ [])) (some external)

  unfoldable pub build_wrap_in_shots_function : Build Function
  build_wrap_in_shots_function =
      declare_function (text "wrap_in_shots")
        (λ m. function_type void (executable_pointer types m ∷ i32 ∷ [])) (some external)

  -- `match module.get_global(NAME)`
  unfoldable pub existing_or_string : Text → Text → Option Global → Build Global
  unfolding perform
  existing_or_string name content (some g) = pure g
  existing_or_string name content none = perform L (build_global_string content name)

  -- The global's address, cast to a string.
  unfoldable pub global_string : Text → Text → Build Argument
  unfolding existing_or_string
  global_string name content = do
    m ← module_now
    g ← existing_or_string name content (m.get_global name)
    pure (cast g types.string)

  unfoldable pub build_parameter_memory_region_name : Build Argument
  unfolding global_string
  build_parameter_memory_region_name =
      global_string (text "parameter_memory_region_name") parameter_region

  unfoldable pub build_quantum_processor_id : ExecutionTarget → Build (Option Argument)
  unfolding global_string
  build_quantum_processor_id (qpu id) = do
    g ← global_string (text "quantum_processor_id") id
    pure (some g)
  build_quantum_processor_id qvm = pure none

pub record Values : Type 0 where
  pub free_executable_function : Function
  pub free_execution_result_function : Function
  pub executable_from_quil_function : Function
  pub execute_on_qpu_function : Function
  pub execute_on_qvm_function : Function
  pub get_readout_bit_function : Function
  pub panic_on_failure_function : Function
  pub parameter_memory_region_name : Argument
  pub quantum_processor_id : Option Argument
  pub set_param_function : Function
  pub wrap_in_shots_function : Function
  pub executable_cache_global : Global
  pub create_executable_cache : Function
  pub add_executable_cache_item : Function
  pub read_from_executable_cache : Function
  pub free_executable_cache : Function
