-- ===== src/Context/Structs.antt =====
-- src/context/types.rs: the types of the QCS runtime.
use qcs_sdk_qir.Base.{Option, none, some, text}
use qcs_sdk_qir.Llvm.{Module, StructType}
use qcs_sdk_qir.Llvm.Builder.{
  LlvmType, i8, ptr, Llvm, Build, pure, perform, opaque_struct_type, ◌>>=◌,
}

pub record Types : Type 0 where
  pub string : LlvmType
  pub executable_struct : StructType
  pub executable_cache_struct : StructType
  pub execution_result_struct : StructType

abbrev pub build_string_type : LlvmType
build_string_type = ptr i8

abbrev or_own : Option StructType → StructType → StructType
or_own (some s) own = s
or_own none own = own

-- A struct type of that name in the module is used in place of the own one.
unfoldable pub executable : Types → Module → StructType
executable t m = or_own (m.get_struct_type (text "Executable")) t.executable_struct

unfoldable pub executable_cache : Types → Module → StructType
executable_cache t m = or_own (m.get_struct_type (text "ExecutableCache")) t.executable_cache_struct

unfoldable pub execution_result : Types → Module → StructType
execution_result t m = or_own (m.get_struct_type (text "ExecutionResult")) t.execution_result_struct

-- `Types::new`
unfoldable pub new_types : Llvm → Build Types
unfolding perform
new_types L = do
  result ← perform L (opaque_struct_type (text "ExecutionResult"))
  exe ← perform L (opaque_struct_type (text "Executable"))
  cache ← perform L (opaque_struct_type (text "ExecutableCache"))
  pure (record {
    string = build_string_type;
    executable_struct = exe;
    executable_cache_struct = cache;
    execution_result_struct = result;
  })
