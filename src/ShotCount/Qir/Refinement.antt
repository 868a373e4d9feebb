-- ===== src/ShotCount/Qir/Refinement.antt =====
-- What shot_count_block/qir.rs makes of a module, against the protocol of the QCS runtime.
use qcs_sdk_qir.Base.{ℕ, zero, suc, ◌≡◌, refl, Option, none, some, List, [], ◌∷◌, Text}
use qcs_sdk_qir.Base.Outcome.{ok, Post, returns, raises, Post-bind, Post-imp, Post-eq_ok}
use qcs_sdk_qir.Llvm.{BasicBlock}
use qcs_sdk_qir.Llvm.Builder.{Llvm}
use qcs_sdk_qir.Quil.Program.{QuilProgram}
use qcs_sdk_qir.Context.{QcsCompilerContext}
use qcs_sdk_qir.Pattern.Assemble.{assemble}
use qcs_sdk_qir.ShotCount.Loop.{ShotCountPatternMatchContext, get_program_data}
use qcs_sdk_qir.ShotCount.Scan.{Callback}
use qcs_sdk_qir.ShotCount.Scan.Callbacks.{Keeps, from_basic_block-Keeps}
use qcs_sdk_qir.ShotCount.Insert.Protocol.{job_of, insert_execution-Leads}
use qcs_sdk_qir.ShotCount.Qir.{
  insert_data, insert_quil_program, transpile_basic_block, transpile_blocks, transpile_function,
  transpile_module,
}
use qcs_sdk_qir.Rewriting.Whole.{ModuleOutcome, entry_found, with_programs-ModuleOutcome}
use qcs_sdk_qir.Rewriting.Jobs.{
  Insertion, untouched, Rewritten, with_programs-Insertion, Rewritten-step,
}

module _ {P : Type 0} ⦃q : QuilProgram P⦄ (to_string : P → Text) (L : Llvm) where
  -- What becomes of a scanned block.
  pub data BlockOutcome (ctx : QcsCompilerContext P) (pc : ShotCountPatternMatchContext P)
      : QcsCompilerContext P → Type 0 where
    nothing_to_do : get_program_data pc ≡ none → BlockOutcome ctx pc ctx
    executes :
        {ctx' : QcsCompilerContext P} {program : P} {n : ℕ}
        → get_program_data pc ≡ some (program, n)
        → Insertion to_string L ctx ctx'
            (job_of to_string ctx pc (assemble ctx.llvm ctx.options pc.common program) n)
            (assemble ctx.llvm ctx.options pc.common program)
        → BlockOutcome ctx pc ctx'

  pub insert_quil_program-Post :
      (fuel : ℕ) (ctx : QcsCompilerContext P) (pc : ShotCountPatternMatchContext P)
      (block : BasicBlock)
      → Post (BlockOutcome ctx pc) (insert_quil_program to_string L fuel ctx pc block)
  unfolding insert_quil_program insert_data
  insert_quil_program-Post fuel ctx pc block = of_data (get_program_data pc) refl
    where
      of_data :
          (o : Option (P × ℕ))
          → get_program_data pc ≡ o
          → Post (BlockOutcome ctx pc) (insert_data to_string L fuel ctx pc block o)
      of_data none e = returns (nothing_to_do e)
      of_data (some (program, n)) e =
          let assembled = assemble ctx.llvm ctx.options pc.common program in
          Post-imp
            (with_programs-Insertion ctx (job_of to_string ctx pc assembled n) assembled _
              (insert_execution-Leads to_string L ctx pc assembled n block fuel) refl)
            (λ ctx' i. executes e i)

  -- If the rewriting of a scanned shot-count block succeeds, then either the scan has no
  -- program and shot count and the context is as it was, or the commands that are given to LLVM
  -- follow the protocol of the QCS runtime from start to end for the program, the shot count,
  -- the parameters, the readouts and the target of that block, whatever LLVM answers, the
  -- module is the one that LLVM has after them, the rest of the context stays, and the program
  -- becomes the last of those to cache if executables are cached, while otherwise they stay.
  -- The protocol: the executable is made from the string of the program's text, or read, at the
  -- index of the program, from the cache that is loaded from the context's cache global just
  -- before; it is wrapped once in the shots; every parameter is set once, in order, under its
  -- index; the executable is executed once, on the target; its result is checked, the bits of
  -- the readouts are read in order, and it is freed; no other function is called and none is
  -- added to the module.
  pub insert_quil_program-BlockOutcome :
      (fuel : ℕ) (ctx ctx' : QcsCompilerContext P) (pc : ShotCountPatternMatchContext P)
      (block : BasicBlock)
      → insert_quil_program to_string L fuel ctx pc block ≡ ok ctx'
      → BlockOutcome ctx pc ctx'
  insert_quil_program-BlockOutcome fuel ctx ctx' pc block e =
      Post-eq_ok (insert_quil_program-Post fuel ctx pc block) e

  BlockOutcome-Rewritten :
      {first ctx ctx' : QcsCompilerContext P} {pc : ShotCountPatternMatchContext P}
      → BlockOutcome ctx pc ctx'
      → Rewritten to_string L first ctx
      → Rewritten to_string L first ctx'
  BlockOutcome-Rewritten (nothing_to_do e) r = r
  BlockOutcome-Rewritten (executes e i) r = Rewritten-step r i

  module _ (fuel : ℕ) (first : QcsCompilerContext P) where
    abbrev Reached : QcsCompilerContext P → Type 0
    Reached = Rewritten to_string L first

    transpile_blocks-Rewritten :
        (callback : Callback P) (k : Keeps Reached callback) (visited : List Text)
        (blocks : List BasicBlock) (ctx : QcsCompilerContext P)
        → Reached ctx
        → Post Reached (transpile_blocks to_string L fuel callback visited blocks ctx)
    unfolding transpile_blocks transpile_basic_block
    transpile_blocks-Rewritten callback k visited [] ctx r = returns r
    transpile_blocks-Rewritten callback k visited (block ∷ blocks) ctx r =
        Post-bind
          (Post-bind (from_basic_block-Keeps Reached callback k visited fuel ctx block r) λ p r'.
            Post-imp (insert_quil_program-Post fuel p.0 p.1 block)
              λ ctx' o. BlockOutcome-Rewritten o r')
          (transpile_blocks-Rewritten callback k visited blocks)

    pub transpile_function-Keeps :
        (depth : ℕ) → Keeps Reached (transpile_function to_string L fuel depth)
    unfolding transpile_function
    transpile_function-Keeps zero = record { keeps = λ ctx f visited r. raises }
    transpile_function-Keeps (suc depth) = record {
      keeps = λ ctx f visited r.
          transpile_blocks-Rewritten (transpile_function to_string L fuel depth)
            (transpile_function-Keeps depth) visited (ctx.llvm.get_basic_blocks f) ctx r;
    }

  transpile_module-Post :
      (fuel depth : ℕ) (ctx : QcsCompilerContext P)
      → Post (ModuleOutcome to_string L ctx) (transpile_module to_string L fuel depth ctx)
  unfolding transpile_module
  transpile_module-Post fuel depth ctx = Post-bind (entry_found to_string L ctx) λ entrypoint found.
      Post-bind ((transpile_function-Keeps fuel ctx depth).keeps ctx entrypoint [] ([], untouched))
        λ ctx' r. with_programs-ModuleOutcome to_string L ctx ctx' entrypoint found r

  -- If the rewriting of a shot-count module succeeds, with nested calls of functions and
  -- whatever LLVM answers, then it is a sequence of insertions of executions that each follow
  -- the protocol of the QCS runtime, and the last commands call, at the start of the first
  -- block of the module's entry function, the function named populate_executable_array: the one
  -- that the rewritten module has, or, if it has none, a new one. The commands since the last
  -- insertion that build a new one are these and no others: a function of that name without
  -- parameters and result, a block of it where the builder is placed, a cache with a place for
  -- each program to cache, stored in the context's cache global, an item of the cache for each
  -- program in order, and a return; and every inserted execution then either takes its
  -- executable from its own program's text, or reads it at an index below the size of the
  -- cache, at which the text of that program is added.
  pub transpile_module-ModuleOutcome :
      (fuel depth : ℕ) (ctx ctx' : QcsCompilerContext P)
      → transpile_module to_string L fuel depth ctx ≡ ok ctx'
      → ModuleOutcome to_string L ctx ctx'
  transpile_module-ModuleOutcome fuel depth ctx ctx' e =
      Post-eq_ok (transpile_module-Post fuel depth ctx) e
