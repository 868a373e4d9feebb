-- ===== src/ShotCount/Quil/Count.antt =====
-- The shot count of the Quil output (shot_count_block/quil.rs).
use qcs_sdk_qir.Base.{ℕ, ◌≡◌, refl, Bool, true, false, Option, none, some, List, [], Text, is_empty}
use qcs_sdk_qir.Base.Outcome.{ok, ok_or, Post, returns, raises, Post-then, Post-bind, Post-eq_ok}
use qcs_sdk_qir.Llvm.{Module, BasicBlock}
use qcs_sdk_qir.Quil.Program.{QuilProgram}
use qcs_sdk_qir.Context.{QcsCompilerContext}
use qcs_sdk_qir.Interop.Entrypoint.{get_entry_function}
use qcs_sdk_qir.ShotCount.Loop.{ShotCountPatternMatchContext, with_shots}
use qcs_sdk_qir.ShotCount.Scan.Count.{IsLoop, CountFound, KeepsModule, from_basic_block-Found}
use qcs_sdk_qir.ShotCount.Quil.{
  ProgramOutput, fail_on_nested_function_call, find_body, output_of, build_quil_program,
  transpile_basic_block, transpile_function, transpile_module,
}

fail-KeepsModule : {P : Type 0} → KeepsModule {P = P} fail_on_nested_function_call
unfolding fail_on_nested_function_call
fail-KeepsModule = record { keeps = λ ctx f visited. raises }

module _ {P : Type 0} ⦃q : QuilProgram P⦄ (m : Module) where
  abbrev OutputIsLoop : ProgramOutput P → Type 0
  OutputIsLoop out = IsLoop m out.shot_count

  build_quil_program-IsLoop :
      (ctx : QcsCompilerContext P) (pc : ShotCountPatternMatchContext P)
      → CountFound m pc
      → Post OutputIsLoop (build_quil_program ctx pc)
  unfolding build_quil_program
  build_quil_program-IsLoop ctx pc f =
      built pc.shot_count refl (is_empty (q.to_instructions pc.quil_program false))
    where
      built :
          (shots : Option ℕ)
          → pc.shot_count ≡ shots
          → (empty : Bool)
          → Post OutputIsLoop (output_of ctx pc (with_shots shots empty pc.quil_program))
      built none e empty = raises
      built (some n) e true = raises
      built (some n) e false = returns (f.found n e)

  transpile_basic_block-IsLoop :
      (fuel : ℕ) (ctx : QcsCompilerContext P) (block : BasicBlock) (visited : List Text)
      → ctx.llvm ≡ m
      → Post OutputIsLoop (transpile_basic_block fuel ctx block visited)
  unfolding transpile_basic_block
  transpile_basic_block-IsLoop fuel ctx block visited l =
      Post-bind
        (from_basic_block-Found fail_on_nested_function_call fail-KeepsModule visited m fuel ctx
          block l)
        λ r h. build_quil_program-IsLoop r.0 r.1 h.1

  transpile_module-Post :
      (fuel : ℕ) (ctx : QcsCompilerContext P)
      → ctx.llvm ≡ m
      → Post OutputIsLoop (transpile_module fuel ctx)
  unfolding transpile_module transpile_function
  transpile_module-Post fuel ctx l = Post-then (ok_or (get_entry_function ctx.llvm) _) λ function.
      Post-then (ok_or (find_body ctx.llvm (ctx.llvm.get_basic_blocks function)) _)
        λ block. transpile_basic_block-IsLoop fuel ctx block [] l

module _ {P : Type 0} ⦃q : QuilProgram P⦄ where
  -- If the transpilation of a shot-count module returns a shot count, the module has a loop
  -- with that limit: a phi instruction, and an addition of 1 followed by a comparison of the
  -- phi with the constant that is the shot count and a branch on that comparison.
  pub transpile_module-IsLoop :
      (fuel : ℕ) (ctx : QcsCompilerContext P) (out : ProgramOutput P)
      → transpile_module fuel ctx ≡ ok out
      → IsLoop ctx.llvm out.shot_count
  transpile_module-IsLoop fuel ctx out e =
      Post-eq_ok (transpile_module-Post ctx.llvm fuel ctx refl) e
