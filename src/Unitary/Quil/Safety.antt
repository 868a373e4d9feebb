-- ===== src/Unitary/Quil/Safety.antt =====
-- The memory that the Quil output of a unitary program refers to (unitary/quil.rs).
use qcs_sdk_qir.Base.{ℕ, ◌≡◌, List, [], ◌∷◌}
use qcs_sdk_qir.Base.Outcome.{
  ok, ok_or, Post, returns, raises, Post-then, Post-bind, Post-eq_ok, Post-if,
}
use qcs_sdk_qir.Llvm.{BasicBlock}
use qcs_sdk_qir.Quil.Program.{QuilProgram}
use qcs_sdk_qir.Context.{QcsCompilerContext}
use qcs_sdk_qir.Interop.Entrypoint.{get_entry_function}
use qcs_sdk_qir.Pattern.Context.{PatternContext}
use qcs_sdk_qir.Pattern.Bounds.{IsWellFormed}
use qcs_sdk_qir.Pattern.Assemble.Safety.{
  LiteralConstants, IsSelfContained, assemble-IsSelfContained,
}
use qcs_sdk_qir.Unitary.Scan.Bounds.{from_basic_block-WellFormed}
use qcs_sdk_qir.Unitary.Quil.{
  ProgramOutput, build_quil_program, transpile_basic_block, single_block, transpile_function,
  transpile_module,
}

module _ {P : Type 0} ⦃q : QuilProgram P⦄ where
  abbrev pub OutputSelfContained : ProgramOutput P → Type 0
  OutputSelfContained out = IsSelfContained out.program out.recorded_output

module _ {P : Type 0} ⦃q : QuilProgram P⦄ (fuel : ℕ) (ctx : QcsCompilerContext P)
    (l : LiteralConstants ctx.llvm) where
  build_quil_program-SelfContained :
      (c : PatternContext P)
      → IsWellFormed ctx.llvm c
      → Post OutputSelfContained (build_quil_program ctx c)
  unfolding build_quil_program
  build_quil_program-SelfContained c w =
      returns (assemble-IsSelfContained ctx.llvm ctx.options c l w)

  transpile_basic_block-SelfContained :
      (block : BasicBlock) → Post OutputSelfContained (transpile_basic_block fuel ctx block)
  unfolding transpile_basic_block
  transpile_basic_block-SelfContained block =
      Post-bind (from_basic_block-WellFormed ctx.llvm fuel block) build_quil_program-SelfContained

  single_block-SelfContained :
      (blocks : List BasicBlock) → Post OutputSelfContained (single_block fuel ctx blocks)
  unfolding single_block
  single_block-SelfContained (block ∷ []) = transpile_basic_block-SelfContained block
  single_block-SelfContained _ = raises

  transpile_module-Post : Post OutputSelfContained (transpile_module fuel ctx)
  unfolding transpile_module transpile_function
  transpile_module-Post = Post-then (ok_or (get_entry_function ctx.llvm) _) λ function.
      Post-if (ctx.llvm.is_void function)
        (single_block-SelfContained (ctx.llvm.get_basic_blocks function)) raises

module _ {P : Type 0} ⦃q : QuilProgram P⦄ where
  -- If every float constant of the module is a literal and the transpilation of a unitary
  -- module returns a Quil program, then each memory reference of the program's gates and
  -- measurements is to a region that the program declares and below the declared size, the
  -- readout region is declared, and the recorded output reads only places of it.
  pub unitary_module-IsSelfContained :
      (fuel : ℕ) (ctx : QcsCompilerContext P) (out : ProgramOutput P)
      → LiteralConstants ctx.llvm
      → transpile_module fuel ctx ≡ ok out
      → IsSelfContained out.program out.recorded_output
  unitary_module-IsSelfContained fuel ctx out l e = Post-eq_ok (transpile_module-Post fuel ctx l) e
