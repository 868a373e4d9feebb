-- ===== src/ShotCount/Insert/Protocol.antt =====
-- `insert_quil_program` of shot_count_block/qir.rs as a user of the QCS runtime.
use qcs_sdk_qir.Base.{ℕ, refl, some, List, [], ◌∷◌, length, Text}
use qcs_sdk_qir.Llvm.{BasicBlock, Instruction, IntValue}
use qcs_sdk_qir.Llvm.Builder.{Llvm, History}
use qcs_sdk_qir.Context.{QcsCompilerContext}
use qcs_sdk_qir.Interop.Call.{
  wrap_in_shots, panic_on_execution_result_failure, get_readout_bit, free_execution_result,
}
use qcs_sdk_qir.ShotCount.Loop.{ShotCountPatternMatchContext}
use qcs_sdk_qir.ShotCount.Insert.{
  launch, read_bit, read_bits, insert_readouts, insert_cleanup, link_blocks, insert_execution,
}
use qcs_sdk_qir.Rewriting.Protocol.{Job, idle, checked, freed, wrap, check, bit, free}
use qcs_sdk_qir.Rewriting.Protocol.Triples.{
  Leads, pure-Leads, bind-Leads, then-Leads, required-Leads, now-Leads, quiet-Leads,
  call_only-Leads, call_for_int-Leads,
}
use qcs_sdk_qir.Rewriting.Protocol.Parts.{
  source_of, suffixed_block-Leads, execution_block-Leads, program_executable-Leads,
  set_params-Leads, execute-Leads,
}
use qcs_sdk_qir.Rewriting.Protocol.Quiet.{
  replace_branch-Leads, replace_phi_clauses-Leads, remove_instructions-Leads,
}

-- The readout indices of the recorded readouts, in order.
abbrev pub indices : List (ℕ × Instruction) → List ℕ
indices [] = []
indices ((k, i) ∷ rest) = k ∷ indices rest

module _ {P : Type 0} (to_string : P → Text) where
  -- What is to be done for the program of a scanned block.
  abbrev pub job_of : QcsCompilerContext P → ShotCountPatternMatchContext P → P → ℕ → Job
  job_of ctx pc program n = record {
    source = source_of ctx.options.cache_executables (length ctx.quil_programs) (to_string program);
    shots = some n;
    arguments = pc.common.parameters;
    readouts = indices pc.common.readout_instruction_mapping;
    target = ctx.target;
  }

module _ {P : Type 0} (to_string : P → Text) (L : Llvm) (ctx : QcsCompilerContext P)
    (pc : ShotCountPatternMatchContext P) (program : P) (n : ℕ) (block : BasicBlock)
    {old : History} where
  launch-Leads :
      Leads L ctx.types ctx.values
        (job_of to_string ctx pc program n)
        old
        idle
        (launch to_string L ctx pc.common program n block)
        (λ r. checked r (indices pc.common.readout_instruction_mapping))
  unfolding launch wrap_in_shots panic_on_execution_result_failure
  launch-Leads =
      bind-Leads
        (program_executable-Leads ctx.options.cache_executables (length ctx.quil_programs)
          (to_string program) refl)
        λ e. then-Leads (call_only-Leads _ _ λ h a. wrap refl) (
          then-Leads (set_params-Leads e 0 pc.common.parameters) (
            bind-Leads (execute-Leads e _ ctx.target refl) λ r.
              then-Leads (call_only-Leads _ _ λ h a. check)
                (then-Leads (quiet-Leads _ tt) (pure-Leads r (λ r. checked r _)))))

  read_bit-Leads :
      (r : ℕ) (shot : IntValue) (k : ℕ) (i : Instruction) (ks : List ℕ)
      → Leads L ctx.types ctx.values
          (job_of to_string ctx pc program n)
          old
          (checked r (k ∷ ks))
          (read_bit to_string L ctx r shot k i)
          (λ _. checked r ks)
  unfolding read_bit get_readout_bit
  read_bit-Leads r shot k i ks = bind-Leads (call_for_int-Leads _ _ λ h a. bit) λ b.
      bind-Leads now-Leads λ m.
        bind-Leads (required-Leads _ _)
          λ new. then-Leads (quiet-Leads _ tt) (pure-Leads tt (λ _. _))

  read_bits-Leads :
      (r : ℕ) (shot : IntValue) (readouts : List (ℕ × Instruction))
      → Leads L ctx.types ctx.values
          (job_of to_string ctx pc program n)
          old
          (checked r (indices readouts))
          (read_bits to_string L ctx r shot readouts)
          (λ _. checked r [])
  unfolding read_bits
  read_bits-Leads r shot [] = pure-Leads tt (λ _. _)
  read_bits-Leads r shot ((k, i) ∷ rest) =
      then-Leads (read_bit-Leads r shot k i (indices rest)) (read_bits-Leads r shot rest)

  insert_readouts-Leads :
      (r : ℕ)
      → Leads L ctx.types ctx.values
          (job_of to_string ctx pc program n)
          old
          (checked r (indices pc.common.readout_instruction_mapping))
          (insert_readouts to_string L ctx pc r block)
          (λ _. checked r [])
  unfolding insert_readouts
  insert_readouts-Leads r = bind-Leads now-Leads λ m. bind-Leads (required-Leads _ _) λ after.
      then-Leads (quiet-Leads _ tt) (
        bind-Leads (required-Leads _ _)
          λ initial. bind-Leads (required-Leads _ _) λ shot. read_bits-Leads r shot _)

  insert_cleanup-Leads :
      (r : ℕ)
      → Leads L ctx.types ctx.values
          (job_of to_string ctx pc program n)
          old
          (checked r [])
          (insert_cleanup to_string L ctx r block)
          (λ _. freed)
  unfolding insert_cleanup free_execution_result
  insert_cleanup-Leads r = bind-Leads (suffixed_block-Leads block _) λ cleanup.
      bind-Leads now-Leads λ m. bind-Leads (required-Leads _ _) λ terminator.
        bind-Leads (required-Leads _ _) λ following. then-Leads (quiet-Leads _ tt) (
          then-Leads (call_only-Leads _ _ λ h a. free)
            (then-Leads (quiet-Leads _ tt) (pure-Leads cleanup (λ _. freed))))

  link_blocks-Leads :
      (fuel : ℕ) (execution cleanup : BasicBlock)
      → Leads L ctx.types ctx.values
          (job_of to_string ctx pc program n)
          old
          freed
          (link_blocks to_string L fuel block execution cleanup)
          (λ _. freed)
  unfolding link_blocks
  link_blocks-Leads fuel execution cleanup = bind-Leads now-Leads λ m.
      bind-Leads (required-Leads _ _) λ terminator.
        then-Leads (replace_branch-Leads terminator (some block) (some cleanup))
          (replace_phi_clauses-Leads fuel block block execution _)

  pub insert_execution-Leads :
      (fuel : ℕ)
      → Leads L ctx.types ctx.values
          (job_of to_string ctx pc program n)
          old
          idle
          (insert_execution to_string L fuel ctx pc program n block)
          (λ _. freed)
  unfolding insert_execution
  insert_execution-Leads fuel = bind-Leads (execution_block-Leads block) λ execution.
      bind-Leads launch-Leads λ r. then-Leads (insert_readouts-Leads r) (
        bind-Leads (insert_cleanup-Leads r) λ cleanup.
          then-Leads (link_blocks-Leads fuel execution cleanup)
            (remove_instructions-Leads pc.common.instructions_to_remove))
