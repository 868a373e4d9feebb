-- ===== src/Context.antt =====
-- src/context: the compiler's context and the execution target.
pub mod Target
pub mod Structs
pub mod Externals
pub use Target.{ExecutionTarget, qpu, qvm}
use qcs_sdk_qir.Base.{Bool, false, Option, none, List, [], Text}
use qcs_sdk_qir.Base.Outcome.{Result, Error, err, ok}
use qcs_sdk_qir.Llvm.{Module}
use qcs_sdk_qir.Llvm.Builder.{Llvm, State, Build, pure, ◌>>=◌}
use qcs_sdk_qir.Context.Structs.{Types, new_types}
use qcs_sdk_qir.Context.Externals.{Values}
use qcs_sdk_qir.Context.Externals.New.{new_values}

pub record ContextOptions : Type 0 where
  pub cache_executables : Bool
  pub rewiring_pragma : Option Text

-- `ContextOptions::default()`
abbrev pub default_options : ContextOptions
default_options = record { cache_executables = false; rewiring_pragma = none }

-- The base context, the module and the builder are LLVM's: `state` is the module as they have made
-- it.
pub record QcsCompilerContext (P : Type 0) : Type 0 where
  pub state : State
  pub open state use *
  pub types : Types
  pub values : Values
  pub target : ExecutionTarget
  pub quil_programs : List P
  pub options : ContextOptions

-- What `new_from_data` asks of LLVM, once the module is loaded.
unfoldable pub types_and_values : Llvm → ExecutionTarget → Build (Types × Values)
unfolding new_types new_values
types_and_values L target = do
  types ← new_types L
  values ← new_values L types target
  pure (types, values)

abbrev pub context_of :
    {P : Type 0}
    → ExecutionTarget
    → ContextOptions
    → Result Error ((Types × Values) × State)
    → Result Error (QcsCompilerContext P)
context_of target options (err e) = err e
context_of target options (ok ((types, values), s)) = ok (record {
  state = s;
  types = types;
  values = values;
  target = target;
  quil_programs = [];
  options = options;
})

-- `QCSCompilerContext::new_from_data`. `parsed` is `load_module_from_bitcode` on the data, which
-- gives the module that LLVM parses, or LLVM's error.
unfoldable pub new_from_data :
    {P : Type 0}
    → Llvm
    → Result Error Module
    → ExecutionTarget
    → ContextOptions
    → Result Error (QcsCompilerContext P)
unfolding types_and_values
new_from_data L (err e) target options = err e
new_from_data L (ok m) target options =
    context_of target options (types_and_values L target (record { llvm = m; history = [] }))
