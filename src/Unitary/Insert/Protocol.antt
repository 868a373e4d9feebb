-- ===== src/Unitary/Insert/Protocol.antt =====
-- `insert_quil_program` of unitary/qir.rs as a user of the QCS runtime.
use qcs_sdk_qir.Base.{ℕ, refl, Bool, true, false, none, [], length, Text}
use qcs_sdk_qir.Llvm.{BasicBlock, Instruction}
use qcs_sdk_qir.Llvm.Builder.{Llvm, History}
use qcs_sdk_qir.Context.{QcsCompilerContext}
use qcs_sdk_qir.Interop.Call.{panic_on_execution_result_failure, free_execution_result}
use qcs_sdk_qir.Pattern.Context.{PatternContext}
use qcs_sdk_qir.Unitary.Insert.{
  launch, insert_cleanup, remove_return, enter_execution, insert_execution,
}
use qcs_sdk_qir.Rewriting.Protocol.{Job, idle, checked, freed, check, free}
use qcs_sdk_qir.Rewriting.Protocol.Triples.{
  Leads, pure-Leads, bind-Leads, then-Leads, required-Leads, now-Leads, quiet-Leads,
  call_only-Leads,
}
use qcs_sdk_qir.Rewriting.Protocol.Parts.{
  source_of, suffixed_block-Leads, execution_block-Leads, program_executable-Leads,
  set_params-Leads, execute-Leads,
}
use qcs_sdk_qir.Rewriting.Protocol.Quiet.{remove_instructions-Leads}

-- What is to be done for the program of a scanned block: it is run once, and no bit is read.
abbrev pub job_of : {P : Type 0} → (P → Text) → QcsCompilerContext P → PatternContext P → P → Job
job_of to_string ctx c program = record {
  source = source_of ctx.options.cache_executables (length ctx.quil_programs) (to_string program);
  shots = none;
  arguments = c.parameters;
  readouts = [];
  target = ctx.target;
}

module _ {P : Type 0} (to_string : P → Text) (L : Llvm) (ctx : QcsCompilerContext P)
    (c : PatternContext P) (program : P) (block : BasicBlock) {old : History} where
  launch-Leads :
      Leads L ctx.types ctx.values
        (job_of to_string ctx c program)
        old
        idle
        (launch to_string L ctx c program)
        (λ r. checked r [])
  unfolding launch panic_on_execution_result_failure
  launch-Leads =
      bind-Leads
        (program_executable-Leads ctx.options.cache_executables (length ctx.quil_programs)
          (to_string program) refl)
        λ e. then-Leads (set_params-Leads e 0 c.parameters) (
          bind-Leads (execute-Leads e _ ctx.target refl)
            λ r. then-Leads (call_only-Leads _ _ λ h a. check) (pure-Leads r (λ r. checked r [])))

  insert_cleanup-Leads :
      (r : ℕ) (execution : BasicBlock)
      → Leads L ctx.types ctx.values
          (job_of to_string ctx c program)
          old
          (checked r [])
          (insert_cleanup to_string L ctx r block execution)
          (λ _. freed)
  unfolding insert_cleanup free_execution_result
  insert_cleanup-Leads r execution = bind-Leads (suffixed_block-Leads block _) λ cleanup.
      then-Leads (quiet-Leads _ tt) (
        then-Leads (quiet-Leads _ tt) (
          then-Leads (quiet-Leads _ tt) (
            then-Leads (call_only-Leads _ _ λ h a. free)
              (then-Leads (quiet-Leads _ tt) (pure-Leads tt (λ _. freed))))))

  remove_return-Leads :
      (i : Instruction) (b : Bool)
      → Leads L ctx.types ctx.values
          (job_of to_string ctx c program)
          old
          freed
          (remove_return to_string L i b)
          (λ _. freed)
  unfolding remove_return
  remove_return-Leads i true = then-Leads (quiet-Leads _ tt) (pure-Leads tt (λ _. freed))
  remove_return-Leads i false = pure-Leads tt (λ _. freed)

  enter_execution-Leads :
      (execution : BasicBlock)
      → Leads L ctx.types ctx.values
          (job_of to_string ctx c program)
          old
          freed
          (enter_execution to_string L execution)
          (λ _. freed)
  unfolding enter_execution
  enter_execution-Leads execution = bind-Leads now-Leads λ m.
      bind-Leads (required-Leads _ _) λ entry. bind-Leads (required-Leads _ _) λ first.
        bind-Leads (required-Leads _ _) λ last.
          then-Leads (quiet-Leads _ tt)
            (then-Leads (quiet-Leads _ tt) (bind-Leads now-Leads λ m'. remove_return-Leads last _))

  pub insert_execution-Leads :
      Leads L ctx.types ctx.values
        (job_of to_string ctx c program)
        old
        idle
        (insert_execution to_string L ctx c program block)
        (λ _. freed)
  unfolding insert_execution
  insert_execution-Leads = bind-Leads (execution_block-Leads block) λ execution.
      bind-Leads launch-Leads λ r. then-Leads (insert_cleanup-Leads r execution) (
        then-Leads (enter_execution-Leads execution)
          (remove_instructions-Leads c.instructions_to_remove))
