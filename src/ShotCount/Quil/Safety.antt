-- ===== src/ShotCount/Quil/Safety.antt =====
-- The memory that the Quil output of a shot-count program refers to (shot_count_block/quil.rs).
use qcs_sdk_qir.Base.{ℕ, ◌≡◌, Bool, true, false, Option, none, some, List, [], Text, is_empty}
use qcs_sdk_qir.Base.Outcome.{ok, ok_or, Post, returns, raises, Post-then, Post-bind, Post-eq_ok}
use qcs_sdk_qir.Llvm.{BasicBlock}
use qcs_sdk_qir.Quil.Program.{QuilProgram}
use qcs_sdk_qir.Context.{QcsCompilerContext}
use qcs_sdk_qir.Interop.Entrypoint.{get_entry_function}
use qcs_sdk_qir.Pattern.Bounds.{IsWellFormed}
use qcs_sdk_qir.Pattern.Assemble.Safety.{
  LiteralConstants, IsSelfContained, assemble-IsSelfContained,
}
use qcs_sdk_qir.ShotCount.Loop.{ShotCountPatternMatchContext, with_shots}
use qcs_sdk_qir.ShotCount.Scan.Bounds.{KeepsConstants, from_basic_block-WellFormed}
use qcs_sdk_qir.ShotCount.Quil.{
  ProgramOutput, fail_on_nested_function_call, find_body, output_of, build_quil_program,
  transpile_basic_block, transpile_function, transpile_module,
}

-- The callback of the Quil output changes nothing: it fails.
fail-KeepsConstants :
    {P : Type 0} (J : QcsCompilerContext P → Type 0) → KeepsConstants J fail_on_nested_function_call
unfolding fail_on_nested_function_call
fail-KeepsConstants J = record { keeps = λ ctx f visited j. raises }

abbrev pub OutputSelfContained : {P : Type 0} ⦃q : QuilProgram P⦄ → ProgramOutput P → Type 0
OutputSelfContained out = IsSelfContained out.program out.recorded_output

module _ {P : Type 0} ⦃q : QuilProgram P⦄ where
  abbrev HasLiterals : QcsCompilerContext P → Type 0
  HasLiterals ctx = LiteralConstants ctx.llvm

  build_quil_program-SelfContained :
      (ctx : QcsCompilerContext P) (pc : ShotCountPatternMatchContext P)
      → LiteralConstants ctx.llvm
      → IsWellFormed ctx.llvm pc.common
      → Post OutputSelfContained (build_quil_program ctx pc)
  unfolding build_quil_program
  build_quil_program-SelfContained ctx pc l w =
      built pc.shot_count (is_empty (q.to_instructions pc.quil_program false))
    where
      built :
          (shots : Option ℕ) (empty : Bool)
          → Post OutputSelfContained (output_of ctx pc (with_shots shots empty pc.quil_program))
      built none empty = raises
      built (some n) true = raises
      built (some n) false = returns (assemble-IsSelfContained ctx.llvm ctx.options pc.common l w)

  transpile_basic_block-SelfContained :
      (fuel : ℕ) (ctx : QcsCompilerContext P) (block : BasicBlock) (visited : List Text)
      → LiteralConstants ctx.llvm
      → Post OutputSelfContained (transpile_basic_block fuel ctx block visited)
  unfolding transpile_basic_block
  transpile_basic_block-SelfContained fuel ctx block visited l =
      Post-bind
        (from_basic_block-WellFormed HasLiterals fail_on_nested_function_call
          (fail-KeepsConstants HasLiterals) visited fuel ctx block l)
        λ r h. build_quil_program-SelfContained r.0 r.1 h.1 h.0

  transpile_module-Post :
      (fuel : ℕ) (ctx : QcsCompilerContext P)
      → LiteralConstants ctx.llvm
      → Post OutputSelfContained (transpile_module fuel ctx)
  unfolding transpile_module transpile_function
  transpile_module-Post fuel ctx l = Post-then (ok_or (get_entry_function ctx.llvm) _) λ function.
      Post-then (ok_or (find_body ctx.llvm (ctx.llvm.get_basic_blocks function)) _)
        λ block. transpile_basic_block-SelfContained fuel ctx block [] l

  -- If every float constant of the module is a literal and the transpilation of a shot-count
  -- module returns a Quil program, then each memory reference of the program's gates and
  -- measurements is to a region that the program declares and below the declared size, the
  -- readout region is declared, and the recorded output reads only places of it.
  pub transpile_module-IsSelfContained :
      (fuel : ℕ) (ctx : QcsCompilerContext P) (out : ProgramOutput P)
      → LiteralConstants ctx.llvm
      → transpile_module fuel ctx ≡ ok out
      → IsSelfContained out.program out.recorded_output
  transpile_module-IsSelfContained fuel ctx out l e =
      Post-eq_ok (transpile_module-Post fuel ctx l) e
