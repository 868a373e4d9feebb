-- ===== src/Context/Externals/New.antt =====
-- src/context/values.rs: `Values::new`.
use qcs_sdk_qir.Base.{false, Option, none, some, text, and_then}
use qcs_sdk_qir.Base.Outcome.{entrypoint_missing}
use qcs_sdk_qir.Llvm.{Global}
use qcs_sdk_qir.Llvm.Builder.{
  private_linkage, Llvm, Build, pure, perform, required, module_now, position_at_end, add_global,
  set_linkage, set_externally_initialized, set_initializer_zero, ◌>>=◌, ◌>>◌,
}
use qcs_sdk_qir.Interop.Entrypoint.{get_entry_function}
use qcs_sdk_qir.Context.Target.{ExecutionTarget}
use qcs_sdk_qir.Context.Structs.{Types, executable, executable_cache, execution_result}
use qcs_sdk_qir.Context.Externals.{
  Values, cache_pointer, declare_function, build_executable_from_quil_function,
  build_execute_on_qpu_function, build_execute_on_qvm_function, build_free_executable_function,
  build_free_execution_result_function, build_create_executable_cache_function,
  build_add_executable_cache_item_function, build_read_from_executable_cache_function,
  build_free_executable_cache_function, build_get_readout_bit_function, build_set_param_function,
  build_panic_on_failure_function, build_wrap_in_shots_function, build_parameter_memory_region_name,
  build_quantum_processor_id,
}

module _ (L : Llvm) (types : Types) where
  unfoldable pub existing_or_cache : Option Global → Build Global
  unfolding perform executable_cache
  existing_or_cache (some g) = pure g
  existing_or_cache none = do
    m ← module_now
    perform L (add_global (cache_pointer types m) (text "executable_cache"))

  -- The global that holds the cache: private, and null at the start.
  unfoldable pub build_executable_cache : Build Global
  unfolding existing_or_cache perform executable_cache
  build_executable_cache = do
    m ← module_now
    cache ← existing_or_cache (m.get_global (text "executable_cache"))
    perform L (set_linkage cache private_linkage)
    perform L (set_externally_initialized cache false)
    m' ← module_now
    perform L (set_initializer_zero cache (cache_pointer types m'))
    pure cache

  -- The fields in the order in which they are computed.
  unfoldable pub new_values : ExecutionTarget → Build Values
  unfolding get_entry_function perform declare_function executable execution_result
      build_executable_cache build_executable_from_quil_function build_execute_on_qpu_function
      build_execute_on_qvm_function build_free_executable_function
      build_free_execution_result_function build_get_readout_bit_function
      build_panic_on_failure_function build_parameter_memory_region_name build_quantum_processor_id
      build_set_param_function build_wrap_in_shots_function build_create_executable_cache_function
      build_add_executable_cache_item_function build_read_from_executable_cache_function
      build_free_executable_cache_function
  new_values target = do
    m ← module_now
    block ← required (and_then (get_entry_function m) m.get_first_basic_block) entrypoint_missing
    perform L (position_at_end block)
    cache ← build_executable_cache
    from_quil ← build_executable_from_quil_function L types
    on_qpu ← build_execute_on_qpu_function L types
    on_qvm ← build_execute_on_qvm_function L types
    free_exe ← build_free_executable_function L types
    free_result ← build_free_execution_result_function L types
    readout_bit ← build_get_readout_bit_function L types
    panic ← build_panic_on_failure_function L types
    region_name ← build_parameter_memory_region_name L types
    processor ← build_quantum_processor_id L types target
    param ← build_set_param_function L types
    wrap ← build_wrap_in_shots_function L types
    create ← build_create_executable_cache_function L types
    add_item ← build_add_executable_cache_item_function L types
    read ← build_read_from_executable_cache_function L types
    free_cache ← build_free_executable_cache_function L types
    pure (record {
      free_executable_function = free_exe;
      free_execution_result_function = free_result;
      executable_from_quil_function = from_quil;
      execute_on_qpu_function = on_qpu;
      execute_on_qvm_function = on_qvm;
      get_readout_bit_function = readout_bit;
      panic_on_failure_function = panic;
      parameter_memory_region_name = region_name;
      quantum_processor_id = processor;
      set_param_function = param;
      wrap_in_shots_function = wrap;
      executable_cache_global = cache;
      create_executable_cache = create;
      add_executable_cache_item = add_item;
      read_from_executable_cache = read;
      free_executable_cache = free_cache;
    })
