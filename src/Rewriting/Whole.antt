-- ===== src/Rewriting/Whole.antt =====
-- A whole module after `transpile_module` of a qir.rs: the executions that were added, and the
-- cache that they read.
use qcs_sdk_qir.Base.{
  ℕ, zero, suc, ◌<◌, ◌≡◌, refl, none, some, List, [], ◌∷◌, Text, text, length, get_elem?, All,
  All-imp, arith,
}
use qcs_sdk_qir.Base.Outcome.{
  Error, Result, ok, err, ok_or, entrypoint_missing, Post, Post-ok_or, returns, raises,
}
use qcs_sdk_qir.Llvm.{Function, Pointer}
use qcs_sdk_qir.Llvm.Builder.{Llvm, State, History}
use qcs_sdk_qir.Context.{QcsCompilerContext}
use qcs_sdk_qir.Interop.Entrypoint.{get_entry_function}
use qcs_sdk_qir.Interop.Collected.{IsEntryFunction, get_entry_function_iff}
use qcs_sdk_qir.Rewriting.Cache.{populate_at_entry}
use qcs_sdk_qir.Rewriting.Cache.Populating.{
  Adds, Builds, Populates, HasPopulate, had, new, CallsAtStart, PopulatesAtEntry,
}
use qcs_sdk_qir.Rewriting.Cache.Items.{populate_at_entry-Runs}
use qcs_sdk_qir.Rewriting.Launch.{with_programs}
use qcs_sdk_qir.Rewriting.Protocol.{Source, from_text, from_cache, Job}
use qcs_sdk_qir.Rewriting.Jobs.{Rewrites, Rewritten, IsServed, Provides, Rewrites-IsServed}

length-of-get_elem? {ℓ} :
    {A : Type ℓ} (xs : List A) (k : ℕ) (x : A) → get_elem? xs k ≡ some x → k < length xs
length-of-get_elem? [] k x e = ground arith
length-of-get_elem? (y ∷ xs) zero x e = omega arith
length-of-get_elem? (y ∷ xs) (suc k) x e = omega (arith, length-of-get_elem? xs k x e)

module _ {P : Type 0} (to_string : P → Text) (L : Llvm) where
  -- Where a job's executable comes from: the program's text, or a place of the cache, at which the
  -- program is added.
  abbrev pub FindsAt : QcsCompilerContext P → Pointer → History → Source → P → Type 0
  FindsAt ctx cache h (from_text t) program = t ≡ to_string program
  FindsAt ctx cache h (from_cache k) program =
      (k < length ctx.quil_programs) × Adds to_string ctx.types ctx.values cache k program h

  -- Every job finds its program: in the module's own populating function, which is kept as it is, or
  -- in the cache that the new one fills, with a place for each program of the context.
  pub data Served (ctx : QcsCompilerContext P) (jobs : List (Job × P)) (f : Function)
      : State → Type 0 where
    as_it_was :
        ctx.llvm.get_function (text "populate_executable_array") ≡ some f
        → Served ctx jobs f ctx.state
    filled :
        {s : State} {cache : Pointer}
        → ctx.llvm.get_function (text "populate_executable_array") ≡ none
        → Builds to_string ctx.types ctx.values L ctx.history ctx.quil_programs f cache s.history
        → All (λ j. FindsAt ctx cache s.history j.0.source j.1) jobs
        → Served ctx jobs f s

  -- From the context of the module as it was to the one that is returned.
  pub record ModuleOutcome (first last : QcsCompilerContext P) : Type 0 where
    pub entrypoint : Function
    pub entry : IsEntryFunction first.llvm entrypoint
    pub jobs : List (Job × P)
    pub rewritten : QcsCompilerContext P
    pub rewrites : Rewrites to_string L first jobs rewritten
    pub same_programs : last.quil_programs ≡ rewritten.quil_programs
    pub populate : Function
    pub in_between : State
    pub served : Served rewritten jobs populate in_between
    pub calls : CallsAtStart L entrypoint populate in_between last.state

  finds_at :
      (ctx : QcsCompilerContext P) (f : Function) (h : History)
      (p : Populates to_string ctx.types ctx.values L ctx.history ctx.quil_programs f h)
      (source : Source) (program : P)
      → Provides to_string ctx.quil_programs source program
      → FindsAt ctx p.cache h source program
  finds_at ctx f h p (from_text t) program e = e
  finds_at ctx f h p (from_cache k) program e =
      (length-of-get_elem? ctx.quil_programs k program e, p.adds k program e)

  HasPopulate-Served :
      (ctx : QcsCompilerContext P) (jobs : List (Job × P)) (f : Function) (s : State)
      → All (IsServed to_string ctx.quil_programs) jobs
      → HasPopulate to_string ctx.types ctx.values L ctx.state ctx.quil_programs f s
      → Served ctx jobs f s
  HasPopulate-Served ctx jobs f s served (had e) = as_it_was e
  HasPopulate-Served ctx jobs f s served (new e p) =
      filled e p.builds (All-imp jobs (λ j x. finds_at ctx f s.history p j.0.source j.1 x) served)

  -- The entry function, where there is one.
  pub entry_found :
      (ctx : QcsCompilerContext P)
      → Post
          (λ f. get_entry_function ctx.llvm ≡ some f)
          (ok_or (get_entry_function ctx.llvm) entrypoint_missing)
  entry_found ctx = Post-ok_or {P = λ f. get_entry_function ctx.llvm ≡ some f} _ _ (λ f e. e)

  pub with_programs-ModuleOutcome :
      (first ctx : QcsCompilerContext P) (entrypoint : Function)
      → get_entry_function first.llvm ≡ some entrypoint
      → Rewritten to_string L first ctx
      → Post (ModuleOutcome first) (
          with_programs ctx ctx.quil_programs
            (populate_at_entry to_string L ctx.types ctx.values entrypoint ctx.quil_programs))
  unfolding with_programs
  with_programs-ModuleOutcome first ctx entrypoint found r =
      outcome
        (populate_at_entry-Runs to_string ctx.types ctx.values L entrypoint ctx.quil_programs
          ctx.state).post
    where
      outcome :
          {o : Result Error (Unit {0} × State)}
          → Post
              (λ x.
                PopulatesAtEntry to_string ctx.types ctx.values L ctx.state entrypoint
                  ctx.quil_programs x.1)
              o
          → Post (ModuleOutcome first) (elim o [
            | err e ↦ err e
            | ok (_, s) ↦ ok (record ctx { state = s; quil_programs = ctx.quil_programs })
          ])
      outcome (returns {a = (u, s)} h) = returns (record {
        entrypoint = entrypoint;
        entry = (get_entry_function_iff first.llvm entrypoint).0 found;
        jobs = r.0;
        rewritten = ctx;
        rewrites = r.1;
        same_programs = refl;
        populate = h.populate;
        in_between = h.in_between;
        served =
            HasPopulate-Served ctx r.0 h.populate h.in_between (Rewrites-IsServed to_string L r.1)
              h.has;
        calls = h.calls;
      })
      outcome raises = raises
