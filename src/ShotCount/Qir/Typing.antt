-- ===== src/ShotCount/Qir/Typing.antt =====
-- The types of the calls that shot_count_block/qir.rs puts into a module.
use qcs_sdk_qir.Base.{ℕ, ◌≡◌, refl, List, [], Text}
use qcs_sdk_qir.Base.Outcome.{Error, Result, ok, Post, returns, raises, Post-eq_ok}
use qcs_sdk_qir.Llvm.{Module, Function}
use qcs_sdk_qir.Llvm.Builder.{Llvm, State, History}
use qcs_sdk_qir.Llvm.Builder.Runs.{Runs, both-Runs, bind-Runs, pure-Runs}
use qcs_sdk_qir.Quil.Program.{QuilProgram}
use qcs_sdk_qir.Context.{
  QcsCompilerContext, ContextOptions, ExecutionTarget, types_and_values, context_of, new_from_data,
}
use qcs_sdk_qir.Context.Structs.{Types}
use qcs_sdk_qir.Context.Externals.{Values}
use qcs_sdk_qir.Context.Externals.Processor.{HasStrings, new_values-HasStrings}
use qcs_sdk_qir.Context.Externals.Declared.{HoldsAll}
use qcs_sdk_qir.Context.Externals.Declared.Made.{new_values-HoldsAll, new_types-Shown}
use qcs_sdk_qir.Interop.Call.Typing.{TypedSince, no_more, later, Follows-TypedSince}
use qcs_sdk_qir.Rewriting.Jobs.{Rewrites, untouched, inserts}
use qcs_sdk_qir.ShotCount.Qir.{transpile_function}
use qcs_sdk_qir.ShotCount.Qir.Refinement.{transpile_function-Keeps}

module _ (L : Llvm) (parsed : Module) where
  TypedSince-trans :
      {t : Types} {v : Values} {made h h' h'' : History}
      → TypedSince L parsed t v made h h'
      → TypedSince L parsed t v made h' h''
      → TypedSince L parsed t v made h h''
  TypedSince-trans a no_more = a
  TypedSince-trans a (later b e) = later (TypedSince-trans a b) e

  -- The values of a context: their strings have the type of strings, and their functions are those
  -- of the runtime.
  record Sound (t : Types) (v : Values) (h : History) : Type 0 where
    strings : HasStrings t v
    holds : HoldsAll L parsed t v h

  types_and_values-Runs :
      (target : ExecutionTarget) (s : State)
      → s.llvm ≡ parsed
      → Runs s (types_and_values L target) (λ tv s'. Sound tv.0 tv.1 s'.history)
  unfolding types_and_values
  types_and_values-Runs target s e = bind-Runs (new_types-Shown L parsed s) λ types s1 shown.
      bind-Runs
        (both-Runs (new_values-HasStrings L types target s1)
          (new_values-HoldsAll L parsed types target s1 shown))
        λ values s2 h. pure-Runs (types, values) (record { strings = h.0; holds = h.1 })

  module _ {P : Type 0} where
    abbrev SoundContext : QcsCompilerContext P → Type 0
    SoundContext ctx = Sound ctx.types ctx.values ctx.history

    context_of-Sound :
        (target : ExecutionTarget) (options : ContextOptions)
        {o : Result Error ((Types × Values) × State)}
        → Post (λ r. Sound r.0.0 r.0.1 r.1.history) o
        → Post SoundContext (context_of target options o)
    context_of-Sound target options (returns {a = ((types, values), s)} h) = returns h
    context_of-Sound target options raises = raises

    new_from_data-Sound :
        (target : ExecutionTarget) (options : ContextOptions)
        → Post SoundContext (new_from_data L (ok parsed) target options)
    unfolding new_from_data
    new_from_data-Sound target options =
        context_of-Sound target options
          (types_and_values-Runs target (record { llvm = parsed; history = [] }) refl).post

    -- What the insertions keep of a context, and the calls that they have made.
    record TypedRewrite (first ctx : QcsCompilerContext P) : Type 0 where
      same_types : ctx.types ≡ first.types
      same_values : ctx.values ≡ first.values
      calls : TypedSince L parsed first.types first.values first.history first.history ctx.history

    Rewrites-Typed :
        (to_string : P → Text) {first ctx : QcsCompilerContext P} {jobs : List _}
        → SoundContext first
        → Rewrites to_string L first jobs ctx
        → TypedRewrite first ctx
    Rewrites-Typed to_string h untouched = record {
      same_types = refl;
      same_values = refl;
      calls = no_more;
    }
    Rewrites-Typed to_string h (inserts r i) =
        let before = Rewrites-Typed to_string h r in
        record {
          same_types = rw i.same_types before.same_types;
          same_values = rw i.same_values before.same_values;
          calls = TypedSince-trans before.calls (
              Follows-TypedSince h.strings h.holds
                (rw (before.same_types, before.same_values) at i.follows));
        }

module _ {P : Type 0} ⦃q : QuilProgram P⦄ (to_string : P → Text) (L : Llvm) where
  -- If a context is made from a module and a function is then rewritten, with the functions
  -- that it calls, whatever LLVM answers, every call that is inserted is of a function that the
  -- context holds for a name of the QCS runtime. That function was found under that name, in
  -- the module as it was at some point of making the context, or it is the answer to a
  -- declaration of that name there, whose parameters are as many as the arguments and which
  -- they agree with in kind: a pointer with a pointer type, an integer with an integer type of
  -- any width, a float with f64 whatever its own width, a constant or a cast with exactly its
  -- own type.
  pub transpile_function-TypedSince :
      (parsed : Module) (target : ExecutionTarget) (options : ContextOptions)
      (ctx ctx' : QcsCompilerContext P) (fuel depth : ℕ) (function : Function) (visited : List Text)
      → new_from_data L (ok parsed) target options ≡ ok ctx
      → transpile_function to_string L fuel depth ctx function visited ≡ ok ctx'
      → TypedSince L parsed ctx.types ctx.values ctx.history ctx.history ctx'.history
  transpile_function-TypedSince parsed target options ctx ctx' fuel depth function visited made e =
      let sound = Post-eq_ok (new_from_data-Sound L parsed target options) made in
      let r =
        Post-eq_ok
          ((transpile_function-Keeps to_string L fuel ctx depth).keeps ctx function visited
            ([], untouched))
          e in
      (Rewrites-Typed L parsed to_string sound r.1).calls
