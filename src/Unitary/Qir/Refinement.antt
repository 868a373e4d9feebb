-- ===== src/Unitary/Qir/Refinement.antt =====
-- What unitary/qir.rs makes of a module, against the protocol of the QCS runtime.
use qcs_sdk_qir.Base.{ℕ, ◌≡◌, refl, Option, none, some, List, [], ◌∷◌, Text}
use qcs_sdk_qir.Base.Outcome.{Post, ok, returns, Post-bind, Post-then, Post-imp, Post-eq_ok}
use qcs_sdk_qir.Llvm.{BasicBlock}
use qcs_sdk_qir.Llvm.Builder.{Llvm}
use qcs_sdk_qir.Quil.Program.{QuilProgram}
use qcs_sdk_qir.Context.{QcsCompilerContext}
use qcs_sdk_qir.Pattern.Context.{PatternContext}
use qcs_sdk_qir.Pattern.Assemble.{assemble}
use qcs_sdk_qir.Unitary.Scan.{from_basic_block, get_program_data}
use qcs_sdk_qir.Unitary.Insert.Protocol.{job_of, insert_execution-Leads}
use qcs_sdk_qir.Unitary.Qir.{
  insert_data, insert_quil_program, transpile_basic_block, transpile_blocks, transpile_function,
  transpile_module,
}
use qcs_sdk_qir.Rewriting.Whole.{ModuleOutcome, entry_found, with_programs-ModuleOutcome}
use qcs_sdk_qir.Rewriting.Jobs.{
  Insertion, untouched, Rewritten, with_programs-Insertion, Rewritten-step,
}

module _ {P : Type 0} ⦃q : QuilProgram P⦄ (to_string : P → Text) (L : Llvm) where
  -- What becomes of a scanned block.
  pub data BlockOutcome (ctx : QcsCompilerContext P) (c : PatternContext P)
      : QcsCompilerContext P → Type 0 where
    nothing_to_do : get_program_data c ≡ none → BlockOutcome ctx c ctx
    executes :
        {ctx' : QcsCompilerContext P} {program : P}
        → get_program_data c ≡ some program
        → Insertion to_string L ctx ctx'
            (job_of to_string ctx c (assemble ctx.llvm ctx.options c program))
            (assemble ctx.llvm ctx.options c program)
        → BlockOutcome ctx c ctx'

  insert_program-Post :
      (fuel : ℕ) (ctx : QcsCompilerContext P) (c : PatternContext P) (block : BasicBlock)
      → Post (BlockOutcome ctx c) (insert_quil_program to_string L fuel ctx c block)
  unfolding insert_quil_program insert_data
  insert_program-Post fuel ctx c block = of_data (get_program_data c) refl
    where
      of_data :
          (o : Option P)
          → get_program_data c ≡ o
          → Post (BlockOutcome ctx c) (insert_data to_string L fuel ctx c block o)
      of_data none e = returns (nothing_to_do e)
      of_data (some program) e =
          let assembled = assemble ctx.llvm ctx.options c program in
          Post-imp
            (with_programs-Insertion ctx (job_of to_string ctx c assembled) assembled _
              (insert_execution-Leads to_string L ctx c assembled block) refl)
            (λ ctx' i. executes e i)

  -- If the rewriting of a scanned unitary block succeeds, then either the scan has no program
  -- and the context is as it was, or the commands that are given to LLVM follow the protocol of
  -- the QCS runtime from start to end for the program, the parameters and the target of that
  -- block, without shots and readouts, whatever LLVM answers, the module is the one that LLVM
  -- has after them, the rest of the context stays, and the program becomes the last of those to
  -- cache if executables are cached, while otherwise they stay.
  pub insert_program-BlockOutcome :
      (fuel : ℕ) (ctx ctx' : QcsCompilerContext P) (c : PatternContext P) (block : BasicBlock)
      → insert_quil_program to_string L fuel ctx c block ≡ ok ctx'
      → BlockOutcome ctx c ctx'
  insert_program-BlockOutcome fuel ctx ctx' c block e =
      Post-eq_ok (insert_program-Post fuel ctx c block) e

  BlockOutcome-Rewritten :
      {first ctx ctx' : QcsCompilerContext P} {c : PatternContext P}
      → BlockOutcome ctx c ctx'
      → Rewritten to_string L first ctx
      → Rewritten to_string L first ctx'
  BlockOutcome-Rewritten (nothing_to_do e) r = r
  BlockOutcome-Rewritten (executes e i) r = Rewritten-step r i

  transpile_blocks-Rewritten :
      (fuel : ℕ) (first : QcsCompilerContext P) (blocks : List BasicBlock)
      (ctx : QcsCompilerContext P)
      → Rewritten to_string L first ctx
      → Post (Rewritten to_string L first) (transpile_blocks to_string L fuel blocks ctx)
  unfolding transpile_blocks transpile_basic_block
  transpile_blocks-Rewritten fuel first [] ctx r = returns r
  transpile_blocks-Rewritten fuel first (block ∷ blocks) ctx r =
      Post-bind
        (Post-then (from_basic_block ctx.llvm fuel block)
          λ c. Post-imp (insert_program-Post fuel ctx c block) λ ctx' o. BlockOutcome-Rewritten o r)
        (transpile_blocks-Rewritten fuel first blocks)

  unitary_module-Post :
      (fuel : ℕ) (ctx : QcsCompilerContext P)
      → Post (ModuleOutcome to_string L ctx) (transpile_module to_string L fuel ctx)
  unfolding transpile_module transpile_function
  unitary_module-Post fuel ctx = Post-bind (entry_found to_string L ctx) λ entrypoint found.
      Post-bind
        (transpile_blocks-Rewritten fuel ctx (ctx.llvm.get_basic_blocks entrypoint) ctx
          ([], untouched))
        λ ctx' r. with_programs-ModuleOutcome to_string L ctx ctx' entrypoint found r

  -- If the rewriting of a unitary module succeeds, whatever LLVM answers, then it is a sequence
  -- of insertions of executions that each follow the protocol of the QCS runtime, and the last
  -- commands call, at the start of the first block of the module's entry function, the function
  -- named populate_executable_array: the one that the rewritten module has, or, if it has none,
  -- a new one. The commands since the last insertion that build a new one are these and no
  -- others: a function of that name without parameters and result, a block of it where the
  -- builder is placed, a cache with a place for each program to cache, stored in the context's
  -- cache global, an item of the cache for each program in order, and a return; and every
  -- inserted execution then either takes its executable from its own program's text, or reads
  -- it at an index below the size of the cache, at which the text of that program is added.
  pub unitary_module-ModuleOutcome :
      (fuel : ℕ) (ctx ctx' : QcsCompilerContext P)
      → transpile_module to_string L fuel ctx ≡ ok ctx'
      → ModuleOutcome to_string L ctx ctx'
  unitary_module-ModuleOutcome fuel ctx ctx' e = Post-eq_ok (unitary_module-Post fuel ctx) e
