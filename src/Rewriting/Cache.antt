-- ===== src/Rewriting/Cache.antt =====
-- `build_populate_executable_cache_function` of both qir.rs files, and the end of `transpile_module`,
-- which calls it first thing in the entry function.
pub mod Populating
pub mod Items
use qcs_sdk_qir.Base.{ℕ, suc, false, Option, none, some, List, [], ◌∷◌, Text, text, length}
use qcs_sdk_qir.Base.Outcome.{no_entry_block}
use qcs_sdk_qir.Llvm.{Function, BasicBlock, Instruction, Pointer}
use qcs_sdk_qir.Llvm.Builder.{
  i32, void, pointer, cast, const_int, Llvm, Build, pure, perform, required, module_now,
  add_function, append_basic_block, position_at_end, position_before, build_call, build_store,
  build_global_string, build_return, ◌>>=◌, ◌>>◌,
}
use qcs_sdk_qir.Context.Structs.{Types}
use qcs_sdk_qir.Context.Externals.{Values}
use qcs_sdk_qir.Interop.Call.{call_for_pointer, call_only}

abbrev pub populate_name : Text
populate_name = text "populate_executable_array"

-- `to_string` is `Program::to_string(true)` of quil_rs.
module _ {P : Type 0} (to_string : P → Text) (L : Llvm) (types : Types) (values : Values) where
  unfoldable pub add_cache_item : Pointer → ℕ → P → Build (Unit {0})
  unfolding perform call_only
  add_cache_item cache index program = do
    string ← perform L (build_global_string (to_string program) (text "quil_program"))
    call_only L values.add_executable_cache_item
        (pointer cache ∷ const_int i32 index ∷ cast string types.string ∷ [])

  -- `for index in 0..context.quil_programs.len()`, from an index on.
  unfoldable pub add_cache_items : Pointer → ℕ → List P → Build (Unit {0})
  unfolding add_cache_item
  add_cache_items cache index [] = pure tt
  add_cache_items cache index (program ∷ programs) = do
    add_cache_item cache index program
    add_cache_items cache (suc index) programs

  unfoldable pub new_populate_function : List P → Build Function
  unfolding perform call_for_pointer add_cache_items
  new_populate_function programs = do
    f ← perform L (
        add_function populate_name
          (record { returned = void; parameters = []; is_var_args = false }) none)
    block ← perform L (append_basic_block f (text "entry"))
    perform L (position_at_end block)
    cache ← call_for_pointer L values.create_executable_cache (const_int i32 (length programs) ∷ [])
    perform L (build_store values.executable_cache_global (pointer cache))
    add_cache_items cache 0 programs
    perform L (build_return none)
    pure f

  unfoldable pub existing_or_new : List P → Option Function → Build Function
  unfolding new_populate_function
  existing_or_new programs (some f) = pure f
  existing_or_new programs none = new_populate_function programs

  unfoldable pub build_populate_executable_cache_function : List P → Build Function
  unfolding existing_or_new
  build_populate_executable_cache_function programs = do
    m ← module_now
    existing_or_new programs (m.get_function populate_name)

  position_at_start : BasicBlock → Option Instruction → Build ℕ
  unfolding perform
  position_at_start block (some i) = perform L (position_before i)
  position_at_start block none = perform L (position_at_end block)

  -- The populating function is built, and called at the start of the entry function.
  unfoldable pub populate_at_entry : Function → List P → Build (Unit {0})
  unfolding build_populate_executable_cache_function position_at_start call_only
  populate_at_entry entrypoint programs = do
    populate ← build_populate_executable_cache_function programs
    m ← module_now
    block ← required (m.get_first_basic_block entrypoint) no_entry_block
    position_at_start block (m.get_first_instruction block)
    call_only L populate []
