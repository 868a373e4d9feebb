-- ===== src/Rewriting/Protocol/Parts.antt =====
-- The parts that the two `insert_quil_program` share, as steps of the protocol.
use qcs_sdk_qir.Base.{ℕ, suc, ◌≡◌, refl, Bool, true, false, List, [], ◌∷◌, Text}
use qcs_sdk_qir.Llvm.{BasicBlock, FloatValue}
use qcs_sdk_qir.Llvm.Builder.{Llvm, perform, History, call_pointer, ◌>>=◌}
use qcs_sdk_qir.Context.{ExecutionTarget, qpu, qvm}
use qcs_sdk_qir.Context.Structs.{Types}
use qcs_sdk_qir.Context.Externals.{Values}
use qcs_sdk_qir.Interop.Call.{
  call_for_pointer, executable_from_quil, get_executable, set_param, execute_on_qpu, execute_on_qvm,
}
use qcs_sdk_qir.Rewriting.Launch.{
  insert_suffixed_block, execution_block, program_executable, set_params, execute,
}
use qcs_sdk_qir.Rewriting.Protocol.{
  Source, from_text, from_cache, Job, Phase, idle, ready, executed, after_making, quiet, make, read,
  set, run, on_qpu, on_qvm,
}
use qcs_sdk_qir.Rewriting.Protocol.Triples.{
  Leads, pure-Leads, bind-Leads, then-Leads, required-Leads, required_bind-Leads, now-Leads,
  next-At, quiet-Leads, call_only-Leads, call_for_pointer-Leads, pointer-Ends,
}

abbrev pub source_of : Bool → ℕ → Text → Source
source_of true index program_text = from_cache index
source_of false index program_text = from_text program_text

-- The number of parameters set when a list of them is through.
abbrev pub final : ℕ → List FloatValue → ℕ
final k [] = k
final k (x ∷ xs) = final (suc k) xs

module _ {L : Llvm} {t : Types} {v : Values} {job : Job} {old : History} where
  pub suffixed_block-Leads :
      {p : Phase} (block : BasicBlock) (suffix : Text)
      → Leads L t v job old p (insert_suffixed_block L block suffix) (λ _. p)
  unfolding insert_suffixed_block
  suffixed_block-Leads block suffix =
      bind-Leads now-Leads λ m. bind-Leads (required-Leads _ _) λ name. quiet-Leads _ tt

  pub execution_block-Leads :
      {p : Phase} (block : BasicBlock) → Leads L t v job old p (execution_block L block) (λ _. p)
  unfolding execution_block
  execution_block-Leads block = bind-Leads (suffixed_block-Leads block _) λ execution.
      then-Leads (quiet-Leads _ tt) (then-Leads (quiet-Leads _ tt) (pure-Leads execution (λ _. _)))

  from_text-Leads :
      (program_text : Text)
      → job.source ≡ from_text program_text
      → Leads L t v job old idle (program_executable L t v false 0 program_text) (after_making job)
  unfolding ◌>>=◌ program_executable executable_from_quil perform call_for_pointer call_pointer
  from_text-Leads program_text e = record {
    ends = λ s h. pointer-Ends _ _ _ λ x g. next-At (next-At h (quiet tt)) (make e refl g);
  }

  from_cache-Leads :
      (index : ℕ) (program_text : Text)
      → job.source ≡ from_cache index
      → Leads L t v job old idle
          (program_executable L t v true index program_text)
          (after_making job)
  unfolding ◌>>=◌ program_executable get_executable perform call_for_pointer call_pointer
  from_cache-Leads index program_text e = record {
    ends = λ s h. pointer-Ends _ _ _ λ x g. next-At (next-At h (quiet tt)) (read e refl g);
  }

  pub program_executable-Leads :
      (cache : Bool) (index : ℕ) (program_text : Text)
      → job.source ≡ source_of cache index program_text
      → Leads L t v job old idle
          (program_executable L t v cache index program_text)
          (after_making job)
  unfolding program_executable
  program_executable-Leads true index program_text e = from_cache-Leads index program_text e
  program_executable-Leads false index program_text e = from_text-Leads program_text e

  pub set_params-Leads :
      (e k : ℕ) (xs : List FloatValue)
      → Leads L t v job old (ready e k xs) (set_params L t v e k xs) (λ _. ready e (final k xs) [])
  unfolding set_params set_param
  set_params-Leads e k [] = pure-Leads tt (λ _. _)
  set_params-Leads e k (x ∷ xs) =
      then-Leads (call_only-Leads _ _ λ h a. set) (set_params-Leads e (suc k) xs)

  pub execute-Leads :
      (e k : ℕ) (target : ExecutionTarget)
      → job.target ≡ target
      → Leads L t v job old (ready e k []) (execute L t v target e) executed
  unfolding execute execute_on_qpu execute_on_qvm
  execute-Leads e k (qpu id) h =
      required_bind-Leads _ _
        λ p same. call_for_pointer-Leads _ _ λ _ a x g. run (rw h (on_qpu same)) g
  execute-Leads e k qvm h = call_for_pointer-Leads _ _ λ _ a x g. run (rw h on_qvm) g
