-- ===== src/Unitary/Quil.antt =====
-- unitary/quil.rs: the Quil program and the recorded output of a module.
pub mod Safety
pub mod Walk
pub mod Success
use qcs_sdk_qir.Base.{ℕ, List, [], ◌∷◌, length, if◌then◌else◌}
use qcs_sdk_qir.Base.Outcome.{
  Error, Result, ok, err, ok_or, ◌>>=◌, entrypoint_missing, not_void, block_count,
}
use qcs_sdk_qir.Llvm.{BasicBlock, Function}
use qcs_sdk_qir.Quil.Program.{QuilProgram}
use qcs_sdk_qir.Context.{QcsCompilerContext}
use qcs_sdk_qir.Interop.Entrypoint.{get_entry_function}
use qcs_sdk_qir.Pattern.Context.{RecordedOutput, PatternContext}
use qcs_sdk_qir.Pattern.Assemble.{assemble}
use qcs_sdk_qir.Unitary.Scan.{from_basic_block}

pub record ProgramOutput (P : Type 0) : Type 0 where
  pub program : P
  pub recorded_output : List RecordedOutput

module _ {P : Type 0} ⦃q : QuilProgram P⦄ where
  unfoldable pub build_quil_program :
      QcsCompilerContext P → PatternContext P → Result Error (ProgramOutput P)
  unfolding assemble
  build_quil_program ctx c = ok (record {
    program = assemble ctx.llvm ctx.options c c.quil_program;
    recorded_output = c.recorded_output;
  })

  unfoldable pub transpile_basic_block :
      ℕ → QcsCompilerContext P → BasicBlock → Result Error (ProgramOutput P)
  unfolding from_basic_block build_quil_program
  transpile_basic_block fuel ctx block = do
    c ← from_basic_block ctx.llvm fuel block
    build_quil_program ctx c

  -- A function of the unitary format has one block.
  unfoldable pub single_block :
      ℕ → QcsCompilerContext P → List BasicBlock → Result Error (ProgramOutput P)
  single_block fuel ctx (block ∷ []) = transpile_basic_block fuel ctx block
  single_block fuel ctx blocks = err (block_count (length blocks))

  unfoldable pub transpile_function :
      ℕ → QcsCompilerContext P → Function → Result Error (ProgramOutput P)
  unfolding single_block transpile_basic_block
  transpile_function fuel ctx function =
      if ctx.llvm.is_void function
      then single_block fuel ctx (ctx.llvm.get_basic_blocks function)
      else err not_void

  unfoldable pub transpile_module : ℕ → QcsCompilerContext P → Result Error (ProgramOutput P)
  unfolding get_entry_function transpile_function
  transpile_module fuel ctx = do
    entrypoint ← ok_or (get_entry_function ctx.llvm) entrypoint_missing
    transpile_function fuel ctx entrypoint
