-- ===== src/Unitary/Quil/Walk.antt =====
-- The transpilation of a unitary module and the walk over its block (unitary/quil.rs).
use qcs_sdk_qir.Base.{ℕ, ◌≤◌, ◌≡◌, refl, true, some, List, [], ◌∷◌, length}
use qcs_sdk_qir.Base.Outcome.{◌>>=◌}
use qcs_sdk_qir.Llvm.{Instruction, BasicBlock, Function}
use qcs_sdk_qir.Llvm.Chain.{IsChain}
use qcs_sdk_qir.Quil.Program.{QuilProgram}
use qcs_sdk_qir.Context.{QcsCompilerContext}
use qcs_sdk_qir.Interop.Entrypoint.{get_entry_function}
use qcs_sdk_qir.Pattern.Context.{initial}
use qcs_sdk_qir.Unitary.Scan.Termination.{walk, unitary_scan-eq-walk}
use qcs_sdk_qir.Unitary.Quil.{
  build_quil_program, transpile_basic_block, single_block, transpile_function, transpile_module,
}

module _ {P : Type 0} ⦃q : QuilProgram P⦄ where
  -- Where the entry function has one block, the transpilation is the walk over it.
  pub unitary_module-eq-walk :
      (ctx : QcsCompilerContext P) (f : Function) (block : BasicBlock) (is : List Instruction)
      (fuel : ℕ)
      → get_entry_function ctx.llvm ≡ some f
      → ctx.llvm.is_void f ≡ true
      → ctx.llvm.get_basic_blocks f ≡ block ∷ []
      → IsChain ctx.llvm (ctx.llvm.get_first_instruction block) is
      → length is ≤ fuel
      → transpile_module fuel ctx ≡ (walk ctx.llvm is initial >>= build_quil_program ctx)
  unfolding transpile_module transpile_function single_block transpile_basic_block
  unitary_module-eq-walk ctx f block is fuel e v b h le =
      rw (e, v, b, unitary_scan-eq-walk {P = P} ctx.llvm block is fuel h le) refl
