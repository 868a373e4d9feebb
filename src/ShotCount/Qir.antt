-- ===== src/ShotCount/Qir.antt =====
-- shot_count_block/qir.rs: the module in which each scanned block's quantum instructions are
-- replaced by the execution of their program.
pub mod Depth
pub mod Refinement
pub mod Agreement
pub mod Typing
use qcs_sdk_qir.Base.{ℕ, zero, suc, Option, none, some, List, [], ◌∷◌, Text}
use qcs_sdk_qir.Base.Outcome.{Error, Result, ok, err, ok_or, entrypoint_missing, out_of_fuel, ◌>>=◌}
use qcs_sdk_qir.Llvm.{BasicBlock, Function}
use qcs_sdk_qir.Llvm.Builder.{Llvm, Build}
use qcs_sdk_qir.Quil.Program.{QuilProgram}
use qcs_sdk_qir.Context.{QcsCompilerContext}
use qcs_sdk_qir.Interop.Entrypoint.{get_entry_function}
use qcs_sdk_qir.Pattern.Assemble.{assemble}
use qcs_sdk_qir.ShotCount.Loop.{ShotCountPatternMatchContext, get_program_data}
use qcs_sdk_qir.ShotCount.Scan.{Callback, from_basic_block}
use qcs_sdk_qir.ShotCount.Insert.{insert_execution}
use qcs_sdk_qir.Rewriting.Cache.{populate_at_entry}
use qcs_sdk_qir.Rewriting.Launch.{cached_programs, with_programs}

module _ {P : Type 0} ⦃q : QuilProgram P⦄ (to_string : P → Text) (L : Llvm) (fuel : ℕ) where
  insert_data :
      QcsCompilerContext P
      → ShotCountPatternMatchContext P
      → BasicBlock
      → Option (P × ℕ)
      → Result Error (QcsCompilerContext P)
  insert_data ctx pc block none = ok ctx
  insert_data ctx pc block (some (program, shots)) =
      let assembled = assemble ctx.llvm ctx.options pc.common program in
      with_programs ctx (cached_programs ctx.options.cache_executables ctx.quil_programs assembled)
        (insert_execution to_string L fuel ctx pc assembled shots block)

  unfoldable pub insert_quil_program :
      QcsCompilerContext P
      → ShotCountPatternMatchContext P
      → BasicBlock
      → Result Error (QcsCompilerContext P)
  unfolding insert_data cached_programs with_programs insert_execution assemble get_program_data
  insert_quil_program ctx pc block = insert_data ctx pc block (get_program_data pc)

  unfoldable pub transpile_basic_block :
      Callback P
      → QcsCompilerContext P
      → BasicBlock
      → List Text
      → Result Error (QcsCompilerContext P)
  unfolding from_basic_block insert_quil_program
  transpile_basic_block callback ctx block visited = do
    (ctx', pc) ← from_basic_block callback visited fuel ctx block
    insert_quil_program ctx' pc block

  unfoldable pub transpile_blocks :
      Callback P
      → List Text
      → List BasicBlock
      → QcsCompilerContext P
      → Result Error (QcsCompilerContext P)
  unfolding transpile_basic_block
  transpile_blocks callback visited [] ctx = ok ctx
  transpile_blocks callback visited (block ∷ blocks) ctx = do
    ctx' ← transpile_basic_block callback ctx block visited
    transpile_blocks callback visited blocks ctx'

  -- On fuel for the depth of nested calls.
  unfoldable pub transpile_function : ℕ → Callback P
  unfolding transpile_blocks
  transpile_function zero ctx function visited = err out_of_fuel
  transpile_function (suc depth) ctx function visited =
      transpile_blocks (transpile_function depth) visited (ctx.llvm.get_basic_blocks function) ctx

  unfoldable pub transpile_module : ℕ → QcsCompilerContext P → Result Error (QcsCompilerContext P)
  unfolding get_entry_function transpile_function populate_at_entry with_programs
  transpile_module depth ctx = do
    entrypoint ← ok_or (get_entry_function ctx.llvm) entrypoint_missing
    ctx' ← transpile_function depth ctx entrypoint []
    with_programs ctx' ctx'.quil_programs
        (populate_at_entry to_string L ctx'.types ctx'.values entrypoint ctx'.quil_programs)
