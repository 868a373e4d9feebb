-- ===== src/ShotCount/Quil.antt =====
-- shot_count_block/quil.rs: the Quil program, the shot count and the recorded output of a module.
pub mod Safety
pub mod Count
use qcs_sdk_qir.Base.{ℕ, Option, none, some, List, [], ◌∷◌, Text, text, text_eq, if◌then◌else◌}
use qcs_sdk_qir.Base.Outcome.{
  Error, Result, ok, err, ok_or, ◌>>=◌, entrypoint_missing, body_missing, pattern_missing,
  nested_call,
}
use qcs_sdk_qir.Llvm.{Module, BasicBlock, Function}
use qcs_sdk_qir.Quil.Program.{QuilProgram}
use qcs_sdk_qir.Context.{QcsCompilerContext}
use qcs_sdk_qir.Interop.Entrypoint.{get_entry_function}
use qcs_sdk_qir.Pattern.Context.{RecordedOutput}
use qcs_sdk_qir.Pattern.Assemble.{assemble}
use qcs_sdk_qir.ShotCount.Loop.{ShotCountPatternMatchContext, get_program_data}
use qcs_sdk_qir.ShotCount.Scan.{Callback, from_basic_block}

pub record ProgramOutput (P : Type 0) : Type 0 where
  pub program : P
  pub shot_count : ℕ
  pub recorded_output : List RecordedOutput

unfoldable pub fail_on_nested_function_call : {P : Type 0} → Callback P
fail_on_nested_function_call ctx function visited = err (nested_call function)

-- `blocks.into_iter().find(|el| el.get_name() == "body")`
unfoldable pub find_body : Module → List BasicBlock → Option BasicBlock
unfolding text_eq
find_body m [] = none
find_body m (b ∷ bs) = if text_eq (m.get_block_name b) (text "body") then some b else find_body m bs

module _ {P : Type 0} ⦃q : QuilProgram P⦄ where
  unfoldable pub output_of :
      QcsCompilerContext P
      → ShotCountPatternMatchContext P
      → Option (P × ℕ)
      → Result Error (ProgramOutput P)
  output_of ctx pc none = err pattern_missing
  output_of ctx pc (some (program, shots)) = ok (record {
    program = assemble ctx.llvm ctx.options pc.common program;
    shot_count = shots;
    recorded_output = pc.common.recorded_output;
  })

  unfoldable pub build_quil_program :
      QcsCompilerContext P → ShotCountPatternMatchContext P → Result Error (ProgramOutput P)
  unfolding output_of assemble get_program_data
  build_quil_program ctx pc = output_of ctx pc (get_program_data pc)

  unfoldable pub transpile_basic_block :
      ℕ → QcsCompilerContext P → BasicBlock → List Text → Result Error (ProgramOutput P)
  unfolding from_basic_block build_quil_program fail_on_nested_function_call
  transpile_basic_block fuel ctx block visited = do
    (ctx', pc) ← from_basic_block fail_on_nested_function_call visited fuel ctx block
    build_quil_program ctx' pc

  unfoldable pub transpile_function :
      ℕ → QcsCompilerContext P → Function → List Text → Result Error (ProgramOutput P)
  unfolding find_body transpile_basic_block
  transpile_function fuel ctx function visited = do
    body ← ok_or (find_body ctx.llvm (ctx.llvm.get_basic_blocks function)) body_missing
    transpile_basic_block fuel ctx body visited

  unfoldable pub transpile_module : ℕ → QcsCompilerContext P → Result Error (ProgramOutput P)
  unfolding get_entry_function transpile_function
  transpile_module fuel ctx = do
    entrypoint ← ok_or (get_entry_function ctx.llvm) entrypoint_missing
    transpile_function fuel ctx entrypoint []
