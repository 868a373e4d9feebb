-- ===== src/ShotCount/Insert.antt =====
-- shot_count_block/qir.rs: `insert_quil_program`, from the execution block on.
pub mod Protocol
use qcs_sdk_qir.Base.{
  ℕ, zero, suc, true, Option, none, some, List, [], ◌∷◌, Text, text, and_then, length,
}
use qcs_sdk_qir.Base.Outcome.{
  Error, Result, ok, err, entrypoint_missing, no_initial_instruction, no_terminator, no_else_target,
  not_an_int, not_an_instruction, out_of_fuel,
}
use qcs_sdk_qir.Llvm.{BasicBlock, Function, Instruction, IntValue, int_value}
use qcs_sdk_qir.Llvm.Builder.{
  Llvm, Build, pure, perform, required, module_now, build_unconditional_branch, position_at,
  position_at_end, replace_uses, ◌>>=◌, ◌>>◌,
}
use qcs_sdk_qir.Quil.Program.{QuilProgram}
use qcs_sdk_qir.Context.{QcsCompilerContext}
use qcs_sdk_qir.Interop.Entrypoint.{get_entry_function}
use qcs_sdk_qir.Interop.Call.{
  ExecutionResult, wrap_in_shots, panic_on_execution_result_failure, get_readout_bit,
  free_execution_result,
}
use qcs_sdk_qir.Interop.Branches.{
  get_conditional_branch_else_target, replace_conditional_branch_target, replace_phi_clauses,
}
use qcs_sdk_qir.Pattern.Context.{PatternContext}
use qcs_sdk_qir.Pattern.Assemble.{assemble}
use qcs_sdk_qir.ShotCount.Loop.{ShotCountPatternMatchContext, get_program_data}
use qcs_sdk_qir.ShotCount.Scan.{Callback, from_basic_block}
use qcs_sdk_qir.Rewriting.Cache.{populate_at_entry}
use qcs_sdk_qir.Rewriting.Launch.{
  insert_suffixed_block, execution_block, remove_instructions, program_executable, set_params,
  execute,
}

module _ {P : Type 0} (to_string : P → Text) (L : Llvm) where
  -- The execution block's calls, up to the branch to the old block.
  unfoldable pub launch :
      QcsCompilerContext P → PatternContext P → P → ℕ → BasicBlock → Build ExecutionResult
  unfolding program_executable wrap_in_shots set_params execute panic_on_execution_result_failure
      perform
  launch ctx c program shots block = do
    executable ←
        program_executable L ctx.types ctx.values ctx.options.cache_executables
          (length ctx.quil_programs) (to_string program)
    wrap_in_shots L ctx.values executable shots
    set_params L ctx.types ctx.values executable 0 c.parameters
    result ← execute L ctx.types ctx.values ctx.target executable
    panic_on_execution_result_failure L ctx.values result
    perform L (build_unconditional_branch block)
    pure result

  -- One readout: the bit of the shot takes the place of the instruction that read it.
  unfoldable pub read_bit :
      QcsCompilerContext P → ExecutionResult → IntValue → ℕ → Instruction → Build (Unit {0})
  unfolding get_readout_bit perform
  read_bit ctx result shot_index readout_index instruction = do
    bit ← get_readout_bit L ctx.values result shot_index readout_index
    m ← module_now
    new ← required (m.as_instruction (int_value bit)) not_an_instruction
    perform L (replace_uses instruction new)
    pure tt

  unfoldable pub read_bits :
      QcsCompilerContext P → ExecutionResult → IntValue → List (ℕ × Instruction) → Build (Unit {0})
  unfolding read_bit
  read_bits ctx result shot_index [] = pure tt
  read_bits ctx result shot_index ((readout_index, instruction) ∷ rest) = do
    read_bit ctx result shot_index readout_index instruction
    read_bits ctx result shot_index rest

  -- The readouts, right after the first instruction of the loop.
  unfoldable pub insert_readouts :
      QcsCompilerContext P
      → ShotCountPatternMatchContext P
      → ExecutionResult
      → BasicBlock
      → Build (Unit {0})
  unfolding read_bits perform
  insert_readouts ctx pc result block = do
    m ← module_now
    after ← required (and_then pc.initial_instruction m.get_next_instruction) no_initial_instruction
    perform L (position_at block after)
    initial ← required pc.initial_instruction no_initial_instruction
    shot_index ← required (m.int_of_instruction initial) not_an_int
    read_bits ctx result shot_index pc.common.readout_instruction_mapping

  -- The cleanup block between the loop and what came after it.
  unfoldable pub insert_cleanup :
      QcsCompilerContext P → ExecutionResult → BasicBlock → Build BasicBlock
  unfolding insert_suffixed_block get_conditional_branch_else_target perform free_execution_result
  insert_cleanup ctx result block = do
    cleanup ← insert_suffixed_block L block (text "_cleanup")
    m ← module_now
    terminator ← required (m.get_terminator block) no_terminator
    next_block ← required (get_conditional_branch_else_target m terminator) no_else_target
    perform L (position_at_end cleanup)
    free_execution_result L ctx.values result
    perform L (build_unconditional_branch next_block)
    pure cleanup

  unfoldable pub link_blocks : ℕ → BasicBlock → BasicBlock → BasicBlock → Build (Unit {0})
  unfolding replace_conditional_branch_target replace_phi_clauses
  link_blocks fuel block execution cleanup = do
    m ← module_now
    terminator ← required (m.get_terminator block) no_terminator
    replace_conditional_branch_target L terminator (some block) (some cleanup)
    replace_phi_clauses L fuel block block execution true

  -- All of `insert_quil_program` behind the program's declarations.
  unfoldable pub insert_execution :
      ℕ
      → QcsCompilerContext P
      → ShotCountPatternMatchContext P
      → P
      → ℕ
      → BasicBlock
      → Build (Unit {0})
  unfolding execution_block launch insert_readouts insert_cleanup link_blocks remove_instructions
  insert_execution fuel ctx pc program shots block = do
    execution ← execution_block L block
    result ← launch ctx pc.common program shots block
    insert_readouts ctx pc result block
    cleanup ← insert_cleanup ctx result block
    link_blocks fuel block execution cleanup
    remove_instructions L pc.common.instructions_to_remove
