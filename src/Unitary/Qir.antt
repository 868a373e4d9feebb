-- ===== src/Unitary/Qir.antt =====
-- unitary/qir.rs: the module in which each scanned block's quantum instructions are replaced by the
-- execution of their program.
pub mod Refinement
use qcs_sdk_qir.Base.{ℕ, Option, none, some, List, [], ◌∷◌, Text}
use qcs_sdk_qir.Base.Outcome.{Error, Result, ok, err, ok_or, entrypoint_missing, ◌>>=◌}
use qcs_sdk_qir.Llvm.{BasicBlock, Function}
use qcs_sdk_qir.Llvm.Builder.{Llvm}
use qcs_sdk_qir.Quil.Program.{QuilProgram}
use qcs_sdk_qir.Context.{QcsCompilerContext}
use qcs_sdk_qir.Interop.Entrypoint.{get_entry_function}
use qcs_sdk_qir.Pattern.Context.{PatternContext}
use qcs_sdk_qir.Pattern.Assemble.{assemble}
use qcs_sdk_qir.Unitary.Scan.{from_basic_block, get_program_data}
use qcs_sdk_qir.Unitary.Insert.{insert_execution}
use qcs_sdk_qir.Rewriting.Cache.{populate_at_entry}
use qcs_sdk_qir.Rewriting.Launch.{cached_programs, with_programs}

module _ {P : Type 0} ⦃q : QuilProgram P⦄ (to_string : P → Text) (L : Llvm) (fuel : ℕ) where
  insert_data :
      QcsCompilerContext P
      → PatternContext P
      → BasicBlock
      → Option P
      → Result Error (QcsCompilerContext P)
  insert_data ctx c block none = ok ctx
  insert_data ctx c block (some program) =
      let assembled = assemble ctx.llvm ctx.options c program in
      with_programs ctx (cached_programs ctx.options.cache_executables ctx.quil_programs assembled)
        (insert_execution to_string L ctx c assembled block)

  unfoldable pub insert_quil_program :
      QcsCompilerContext P → PatternContext P → BasicBlock → Result Error (QcsCompilerContext P)
  unfolding insert_data cached_programs with_programs insert_execution assemble get_program_data
  insert_quil_program ctx c block = insert_data ctx c block (get_program_data c)

  unfoldable pub transpile_basic_block :
      QcsCompilerContext P → BasicBlock → Result Error (QcsCompilerContext P)
  unfolding from_basic_block insert_quil_program
  transpile_basic_block ctx block = do
    c ← from_basic_block ctx.llvm fuel block
    insert_quil_program ctx c block

  unfoldable pub transpile_blocks :
      List BasicBlock → QcsCompilerContext P → Result Error (QcsCompilerContext P)
  unfolding transpile_basic_block
  transpile_blocks [] ctx = ok ctx
  transpile_blocks (block ∷ blocks) ctx = do
    ctx' ← transpile_basic_block ctx block
    transpile_blocks blocks ctx'

  unfoldable pub transpile_function :
      QcsCompilerContext P → Function → Result Error (QcsCompilerContext P)
  unfolding transpile_blocks
  transpile_function ctx function = transpile_blocks (ctx.llvm.get_basic_blocks function) ctx

  unfoldable pub transpile_module : QcsCompilerContext P → Result Error (QcsCompilerContext P)
  unfolding get_entry_function transpile_function populate_at_entry with_programs
  transpile_module ctx = do
    entrypoint ← ok_or (get_entry_function ctx.llvm) entrypoint_missing
    ctx' ← transpile_function ctx entrypoint
    with_programs ctx' ctx'.quil_programs
        (populate_at_entry to_string L ctx'.types ctx'.values entrypoint ctx'.quil_programs)
