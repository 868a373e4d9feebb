-- ===== src/Unitary/Insert.antt =====
-- unitary/qir.rs: `insert_quil_program`, from the execution block on.
pub mod Protocol
use qcs_sdk_qir.Base.{ℕ, zero, true, false, Bool, Option, none, some, List, Text, text, length}
use qcs_sdk_qir.Base.Outcome.{entrypoint_missing, no_entry_block, no_last_instruction}
use qcs_sdk_qir.Llvm.{BasicBlock, Function, Instruction, Opcode, ret}
use qcs_sdk_qir.Llvm.Builder.{
  Llvm, Build, pure, perform, required, module_now, build_unconditional_branch, build_return,
  position_at_end, position_before, remove_from_basic_block, ◌>>=◌, ◌>>◌,
}
use qcs_sdk_qir.Context.{QcsCompilerContext}
use qcs_sdk_qir.Interop.Entrypoint.{get_entry_function}
use qcs_sdk_qir.Interop.Call.{
  ExecutionResult, panic_on_execution_result_failure, free_execution_result,
}
use qcs_sdk_qir.Pattern.Context.{PatternContext}
use qcs_sdk_qir.Rewriting.Launch.{
  insert_suffixed_block, execution_block, remove_instructions, program_executable, set_params,
  execute,
}

abbrev pub is_return : Opcode → Bool
is_return ret = true
is_return _ = false

module _ {P : Type 0} (to_string : P → Text) (L : Llvm) where
  -- The execution block's calls.
  unfoldable pub launch : QcsCompilerContext P → PatternContext P → P → Build ExecutionResult
  unfolding program_executable set_params execute panic_on_execution_result_failure
  launch ctx c program = do
    executable ←
        program_executable L ctx.types ctx.values ctx.options.cache_executables
          (length ctx.quil_programs) (to_string program)
    set_params L ctx.types ctx.values executable 0 c.parameters
    result ← execute L ctx.types ctx.values ctx.target executable
    panic_on_execution_result_failure L ctx.values result
    pure result

  -- The cleanup block, in which the function returns.
  unfoldable pub insert_cleanup :
      QcsCompilerContext P → ExecutionResult → BasicBlock → BasicBlock → Build (Unit {0})
  unfolding insert_suffixed_block perform free_execution_result
  insert_cleanup ctx result block execution = do
    cleanup ← insert_suffixed_block L block (text "_cleanup")
    perform L (position_at_end execution)
    perform L (build_unconditional_branch cleanup)
    perform L (position_at_end cleanup)
    free_execution_result L ctx.values result
    perform L (build_return none)
    pure tt

  -- `if last_entry_block_instruction.get_opcode() == Return { … }`
  unfoldable pub remove_return : Instruction → Bool → Build (Unit {0})
  unfolding perform
  remove_return i true = do perform L (remove_from_basic_block i); pure tt
  remove_return i false = pure tt

  -- The entry block goes on to the execution block in place of returning.
  unfoldable pub enter_execution : BasicBlock → Build (Unit {0})
  unfolding get_entry_function perform remove_return
  enter_execution execution = do
    m ← module_now
    entry ← required (get_entry_function m) entrypoint_missing
    block ← required (m.get_first_basic_block entry) no_entry_block
    last ← required (m.get_last_instruction block) no_last_instruction
    perform L (position_before last)
    perform L (build_unconditional_branch execution)
    m' ← module_now
    remove_return last (is_return (m'.get_opcode last))

  -- All of `insert_quil_program` behind the program's declarations.
  unfoldable pub insert_execution :
      QcsCompilerContext P → PatternContext P → P → BasicBlock → Build (Unit {0})
  unfolding execution_block launch insert_cleanup enter_execution remove_instructions
  insert_execution ctx c program block = do
    execution ← execution_block L block
    result ← launch ctx c program
    insert_cleanup ctx result block execution
    enter_execution execution
    remove_instructions L c.instructions_to_remove
