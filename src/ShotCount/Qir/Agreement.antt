-- ===== src/ShotCount/Qir/Agreement.antt =====
-- The two outputs of a shot-count block: the Quil program of quil.rs, and the execution that qir.rs
-- puts into the module.
use qcs_sdk_qir.Base.{ℕ, ◌≡◌, refl, none, List, Text, arith}
use qcs_sdk_qir.Base.Outcome.{Error, Result, ok, >>=-eq-ok, Post-eq_ok, nested_call}
use qcs_sdk_qir.Llvm.{BasicBlock}
use qcs_sdk_qir.Llvm.Builder.{Llvm}
use qcs_sdk_qir.Quil.Program.{QuilProgram}
use qcs_sdk_qir.Context.{QcsCompilerContext}
use qcs_sdk_qir.ShotCount.Loop.{ShotCountPatternMatchContext}
use qcs_sdk_qir.ShotCount.Scan.{Callback, from_basic_block}
use qcs_sdk_qir.ShotCount.Scan.Callbacks.{from_basic_block-Keeps}
use qcs_sdk_qir.ShotCount.Quil as Quil
use qcs_sdk_qir.ShotCount.Quil.{
  ProgramOutput, fail_on_nested_function_call, output_of, build_quil_program,
}
use qcs_sdk_qir.ShotCount.Scan.Refusal.{Refuses, from_basic_block-AlsoReturns, Refuses-Keeps}
use qcs_sdk_qir.ShotCount.Insert.Protocol.{job_of}
use qcs_sdk_qir.ShotCount.Qir as Qir
use qcs_sdk_qir.ShotCount.Qir.{insert_quil_program}
use qcs_sdk_qir.ShotCount.Qir.Refinement.{
  BlockOutcome, nothing_to_do, executes, insert_quil_program-BlockOutcome,
}
use qcs_sdk_qir.Rewriting.Jobs.{Insertion}

ok_injective : {A : Type 0} {a b : A} → ◌≡◌ {A = Result Error A} (ok a) (ok b) → a ≡ b
ok_injective e = cc

refusal : {P : Type 0} → Refuses (fail_on_nested_function_call {P = P})
unfolding fail_on_nested_function_call
refusal = record { refuses = λ ctx f visited. (nested_call f, refl) }

module _ {P : Type 0} ⦃q : QuilProgram P⦄ (to_string : P → Text) (L : Llvm) where
  -- The program and the shot count of the output are those that the block is rewritten with.
  abbrev pub ExecutesOutput : QcsCompilerContext P → QcsCompilerContext P → ProgramOutput P → Type 0
  ExecutesOutput ctx ctx' out =
      (pc : ShotCountPatternMatchContext P) × Insertion to_string L ctx ctx'
        (job_of to_string ctx pc out.program out.shot_count) out.program

  output-ExecutesOutput :
      (ctx ctx' : QcsCompilerContext P) (pc : ShotCountPatternMatchContext P)
      (out : ProgramOutput P)
      → build_quil_program ctx pc ≡ ok out
      → BlockOutcome to_string L ctx pc ctx'
      → ExecutesOutput ctx ctx' out
  unfolding build_quil_program output_of
  output-ExecutesOutput ctx ctx' pc out e (nothing_to_do h) = absurd (no_output (rw h at e))
    where
      no_output : output_of ctx pc none ≡ ok out → ⊥
      no_output f = ground arith
  output-ExecutesOutput ctx ctx' pc out e (executes h i) = rw (← ok_injective (rw h at e)) (pc, i)

  -- If a shot-count block is transpiled to a Quil program, and is rewritten in its module, with
  -- any treatment of nested calls and whatever LLVM answers, then one execution is inserted by
  -- the protocol of the QCS runtime, and its program and its number of shots are those of the
  -- Quil output.
  pub insert-ExecutesOutput :
      (fuel : ℕ) (callback : Callback P) (ctx ctx' : QcsCompilerContext P) (block : BasicBlock)
      (visited : List Text) (out : ProgramOutput P)
      → Quil.transpile_basic_block fuel ctx block visited ≡ ok out
      → Qir.transpile_basic_block to_string L fuel callback ctx block visited ≡ ok ctx'
      → ExecutesOutput ctx ctx' out
  unfolding Quil.transpile_basic_block Qir.transpile_basic_block
  insert-ExecutesOutput fuel callback ctx ctx' block visited out e e' =
      let ((ctx1, pc), scanned, built) =
        >>=-eq-ok (from_basic_block fail_on_nested_function_call visited fuel ctx block) _ e in
      let same : ctx1 ≡ ctx =
        Post-eq_ok
          (from_basic_block-Keeps (λ c. c ≡ ctx) fail_on_nested_function_call
            (Refuses-Keeps _ fail_on_nested_function_call refusal) visited fuel ctx block refl)
          scanned in
      let also =
        Post-eq_ok
          (from_basic_block-AlsoReturns fail_on_nested_function_call refusal callback visited fuel
            ctx block)
          scanned in
      let inserted =
        insert_quil_program-BlockOutcome to_string L fuel ctx1 ctx' pc block (rw also at e') in
      rw same at (output-ExecutesOutput ctx1 ctx' pc out built inserted)
