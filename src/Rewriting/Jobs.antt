-- ===== src/Rewriting/Jobs.antt =====
-- The programs that are executed in place of the blocks of a module, one after the other, and where
-- each execution gets its program from.
use qcs_sdk_qir.Base.{
  ℕ, zero, suc, ◌≡◌, ◌⊎◌, inl, inr, refl, Bool, true, false, some, List, [], ◌∷◌, ◌++◌, Text,
  length, get_elem?, All, All-imp, arith,
}
use qcs_sdk_qir.Base.Outcome.{Error, Result, ok, err, Post, returns, raises}
use qcs_sdk_qir.Llvm.Builder.{Llvm, State, Build}
use qcs_sdk_qir.Context.{QcsCompilerContext}
use qcs_sdk_qir.Rewriting.Launch.{cached_programs, with_programs}
use qcs_sdk_qir.Rewriting.Protocol.{Source, from_text, from_cache, Job, idle, freed, Follows, here}
use qcs_sdk_qir.Rewriting.Protocol.Triples.{Leads, Ends}
use qcs_sdk_qir.Rewriting.Protocol.Parts.{source_of}

-- The programs to cache once there is one more: it is the last of them if executables are cached.
abbrev pub kept_with : {P : Type 0} → Bool → List P → P → List P
kept_with true programs program = programs ++ program ∷ []
kept_with false programs program = programs

cached_programs-eq :
    {P : Type 0} (cache : Bool) (programs : List P) (program : P)
    → cached_programs cache programs program ≡ kept_with cache programs program
unfolding cached_programs
cached_programs-eq true programs program = refl
cached_programs-eq false programs program = refl

module _ {P : Type 0} (to_string : P → Text) (L : Llvm) where
  -- One execution of a program is added, by the protocol, and the program is cached if the options
  -- say so; the rest of the context stays as it is.
  pub record Insertion (ctx ctx' : QcsCompilerContext P) (job : Job) (program : P) : Type 0 where
    pub follows : Follows L ctx.types ctx.values job ctx.history ctx'.history freed
    pub shown : ctx'.llvm ≡ L.observe ctx'.history
    pub source :
        job.source
        ≡ source_of ctx.options.cache_executables (length ctx.quil_programs) (to_string program)
    pub programs :
        ctx'.quil_programs ≡ kept_with ctx.options.cache_executables ctx.quil_programs program
    pub same_types : ctx'.types ≡ ctx.types
    pub same_values : ctx'.values ≡ ctx.values
    pub same_target : ctx'.target ≡ ctx.target
    pub same_options : ctx'.options ≡ ctx.options

  -- Insertions one after the other, the latest first.
  pub data Rewrites (first : QcsCompilerContext P)
      : List (Job × P) → QcsCompilerContext P → Type 0 where
    untouched : Rewrites first [] first
    inserts :
        {jobs : List (Job × P)} {ctx ctx' : QcsCompilerContext P} {job : Job} {program : P}
        → Rewrites first jobs ctx
        → Insertion ctx ctx' job program
        → Rewrites first ((job, program) ∷ jobs) ctx'

  abbrev pub Rewritten : QcsCompilerContext P → QcsCompilerContext P → Type 0
  Rewritten ctx ctx' = (jobs : List (Job × P)) × Rewrites ctx jobs ctx'

-- Where the executable comes from, that program is.
abbrev pub Provides : {P : Type 0} → (P → Text) → List P → Source → P → Type 0
Provides to_string programs (from_text t) program = t ≡ to_string program
Provides to_string programs (from_cache k) program = get_elem? programs k ≡ some program

abbrev pub IsServed : {P : Type 0} → (P → Text) → List P → Job × P → Type 0
IsServed to_string programs (job, program) = Provides to_string programs job.source program

get_elem?_end {ℓ} :
    {A : Type ℓ} (xs : List A) (x : A) → get_elem? (xs ++ x ∷ []) (length xs) ≡ some x
get_elem?_end [] x = refl
get_elem?_end (y ∷ xs) x = get_elem?_end xs x

get_elem?_front {ℓ} :
    {A : Type ℓ} (xs ys : List A) (k : ℕ) (x : A)
    → get_elem? xs k ≡ some x
    → get_elem? (xs ++ ys) k ≡ some x
get_elem?_front [] ys k x e = ground arith
get_elem?_front (y ∷ xs) ys zero x e = e
get_elem?_front (y ∷ xs) ys (suc k) x e = get_elem?_front xs ys k x e

module _ {P : Type 0} (to_string : P → Text) where
  cached-Provides :
      (cache : Bool) (programs : List P) (program : P)
      → Provides to_string
          (kept_with cache programs program)
          (source_of cache (length programs) (to_string program))
          program
  cached-Provides true programs program = get_elem?_end programs program
  cached-Provides false programs program = refl

  kept-Provides :
      (cache : Bool) (programs : List P) (program : P) (source : Source) (p : P)
      → Provides to_string programs source p
      → Provides to_string (kept_with cache programs program) source p
  kept-Provides cache programs program (from_text t) p h = h
  kept-Provides false programs program (from_cache k) p h = h
  kept-Provides true programs program (from_cache k) p h = get_elem?_front programs _ k p h

  -- Every job still finds its program when all the insertions are done.
  pub Rewrites-IsServed :
      (L : Llvm) {first ctx : QcsCompilerContext P} {jobs : List (Job × P)}
      → Rewrites to_string L first jobs ctx
      → All (IsServed to_string ctx.quil_programs) jobs
  Rewrites-IsServed L untouched = tt
  Rewrites-IsServed L (inserts {jobs = jobs} {ctx = ctx} {program = program} r i) = (
    rw (i.programs, i.source)
        (cached-Provides ctx.options.cache_executables ctx.quil_programs program),
    All-imp jobs
        (λ j h.
          rw i.programs (
            kept-Provides ctx.options.cache_executables ctx.quil_programs program j.0.source j.1 h))
        (Rewrites-IsServed L r),
  )

freed_shown : {A : Type 0} → (freed ≡ idle) ⊎ A → A
freed_shown (inl e) = ground (arith, e)
freed_shown (inr a) = a

module _ {P : Type 0} {to_string : P → Text} {L : Llvm} where
  -- Work that does a job by the protocol is an insertion.
  pub with_programs-Insertion :
      (ctx : QcsCompilerContext P) (job : Job) (program : P) (work : Build (Unit {0}))
      → Leads L ctx.types ctx.values job ctx.history idle work (λ _. freed)
      → job.source
        ≡ source_of ctx.options.cache_executables (length ctx.quil_programs) (to_string program)
      → Post
          (λ ctx'. Insertion to_string L ctx ctx' job program)
          (with_programs ctx
            (cached_programs ctx.options.cache_executables ctx.quil_programs program)
            work)
  unfolding with_programs
  with_programs-Insertion ctx job program work leads e =
      inserted (leads.ends ctx.state (record { follows = here; shown = inl refl }))
    where
      inserted :
          {o : Result Error (Unit {0} × State)}
          → Ends L ctx.types ctx.values job ctx.history (λ _. freed) o
          → Post
              (λ ctx'. Insertion to_string L ctx ctx' job program)
              (elim o [
                | err e ↦ err e
                | ok (_, s) ↦ ok (record ctx {
                  state = s;
                  quil_programs =
                      cached_programs ctx.options.cache_executables ctx.quil_programs program;
                })
              ])
      inserted (returns h) = returns (record {
        follows = h.follows;
        shown = freed_shown h.shown;
        source = e;
        programs = cached_programs-eq ctx.options.cache_executables ctx.quil_programs program;
        same_types = refl;
        same_values = refl;
        same_target = refl;
        same_options = refl;
      })
      inserted raises = raises

  pub Rewritten-step :
      {first ctx ctx' : QcsCompilerContext P} {job : Job} {program : P}
      → Rewritten to_string L first ctx
      → Insertion to_string L ctx ctx' job program
      → Rewritten to_string L first ctx'
  Rewritten-step (jobs, r) i = (_, inserts r i)
