-- ===== src/Interop/Call.antt =====
-- src/interop/call.rs: the calls of the QCS runtime. Only the module is changed; of the context a
-- call reads the types and the values.
pub mod Runs
pub mod Typing
use qcs_sdk_qir.Base.{ℕ, true, some, Option, List, [], ◌∷◌, text}
use qcs_sdk_qir.Base.Outcome.{no_quantum_processor_id}
use qcs_sdk_qir.Llvm.{Pointer, IntValue, FloatValue, Global, Function}
use qcs_sdk_qir.Llvm.Builder.{
  i32, i64, external, Argument, pointer, int_argument, float_argument, cast, const_int, Llvm, Build,
  pure, perform, required, call_pointer, call_int, add_function, build_call, build_load, ◌>>=◌,
  ◌>>◌,
}
use qcs_sdk_qir.Context.Structs.{Types}
use qcs_sdk_qir.Context.Externals.{Values}

abbrev pub Executable : Type 0
Executable = Pointer

abbrev pub ExecutionResult : Type 0
ExecutionResult = Pointer

module _ (L : Llvm) where
  -- A call whose result is a pointer, or whose result nobody looks at.
  unfoldable pub call_for_pointer : Function → List Argument → Build Pointer
  unfolding perform call_pointer
  call_for_pointer f args = do site ← perform L (build_call f args); call_pointer site

  unfoldable pub call_only : Function → List Argument → Build (Unit {0})
  unfolding perform
  call_only f args = do perform L (build_call f args); pure tt

  unfoldable pub printf : Types → Pointer → Build (Unit {0})
  unfolding perform call_only
  printf types string = do
    f ← perform L (
        add_function (text "printf")
          (record { returned = i32; parameters = types.string ∷ []; is_var_args = true })
          (some external))
    call_only f (cast string types.string ∷ [])

  unfoldable pub executable_from_quil : Types → Values → Pointer → Build Executable
  unfolding call_for_pointer
  executable_from_quil types values quil =
      call_for_pointer values.executable_from_quil_function (cast quil types.string ∷ [])

module _ (L : Llvm) (values : Values) where
  unfoldable pub execute_on_qpu : Executable → Build ExecutionResult
  unfolding call_for_pointer
  execute_on_qpu executable = do
    id ← required values.quantum_processor_id no_quantum_processor_id
    call_for_pointer L values.execute_on_qpu_function (pointer executable ∷ id ∷ [])

  unfoldable pub execute_on_qvm : Executable → Build ExecutionResult
  unfolding call_for_pointer
  execute_on_qvm executable =
      call_for_pointer L values.execute_on_qvm_function (pointer executable ∷ [])

  unfoldable pub free_executable : Executable → Build (Unit {0})
  unfolding call_only
  free_executable executable = call_only L values.free_executable_function (pointer executable ∷ [])

  unfoldable pub free_execution_result : ExecutionResult → Build (Unit {0})
  unfolding call_only
  free_execution_result result =
      call_only L values.free_execution_result_function (pointer result ∷ [])

  -- The executable at an index of the cache.
  unfoldable pub get_executable : Argument → Build Executable
  unfolding perform call_for_pointer
  get_executable index = do
    cache ← perform L (build_load values.executable_cache_global)
    call_for_pointer L values.read_from_executable_cache (pointer cache ∷ index ∷ [])

  unfoldable pub panic_on_execution_result_failure : ExecutionResult → Build (Unit {0})
  unfolding call_only
  panic_on_execution_result_failure result =
      call_only L values.panic_on_failure_function (pointer result ∷ [])

  unfoldable pub get_readout_bit : ExecutionResult → IntValue → ℕ → Build IntValue
  unfolding perform call_int
  get_readout_bit result shot_index readout_index = do
    site ← perform L (
        build_call values.get_readout_bit_function
          (pointer result ∷ int_argument shot_index ∷ const_int i64 readout_index ∷ []))
    call_int site

  unfoldable pub set_param : Executable → ℕ → FloatValue → Build (Unit {0})
  unfolding call_only
  set_param executable index value = call_only L values.set_param_function (
      pointer executable
      ∷ values.parameter_memory_region_name
      ∷ const_int i32 index
      ∷ float_argument value
      ∷ [])

  unfoldable pub wrap_in_shots : Executable → ℕ → Build (Unit {0})
  unfolding call_only
  wrap_in_shots executable shots =
      call_only L values.wrap_in_shots_function (pointer executable ∷ const_int i32 shots ∷ [])
