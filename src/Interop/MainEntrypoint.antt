-- ===== src/Interop/MainEntrypoint.antt =====
-- src/interop/entrypoint.rs: `add_main_entrypoint`.
use qcs_sdk_qir.Base.{false, none, some, [], text}
use qcs_sdk_qir.Base.Outcome.{entrypoint_missing}
use qcs_sdk_qir.Llvm.Builder.{
  i32, const_int, Llvm, Build, pure, perform, required, module_now, add_function,
  append_basic_block, position_at_end, build_call, build_return, ◌>>=◌, ◌>>◌,
}
use qcs_sdk_qir.Interop.Entrypoint.{get_entry_function}

-- A `main` that calls the entry function, which is looked for once `main` is there, and returns 0.
unfoldable pub add_main_entrypoint : Llvm → Build (Unit {0})
unfolding perform get_entry_function
add_main_entrypoint L = do
  main_function ← perform L (
      add_function (text "main") (record { returned = i32; parameters = []; is_var_args = false })
        none)
  entry ← perform L (append_basic_block main_function (text "entry"))
  perform L (position_at_end entry)
  m ← module_now
  qir_entrypoint ← required (get_entry_function m) entrypoint_missing
  perform L (build_call qir_entrypoint [])
  perform L (build_return (some (const_int i32 0)))
  pure tt
