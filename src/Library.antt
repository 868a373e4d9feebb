-- ===== src/Library.antt =====
-- src/lib.rs: the four functions of the library.
use qcs_sdk_qir.Base.{ℕ, Bool, true, false, Option, Text}
use qcs_sdk_qir.Base.Outcome.{Error, Result, ok, err, ◌>>=◌}
use qcs_sdk_qir.Llvm.{Module}
use qcs_sdk_qir.Llvm.Builder.{Llvm, State}
use qcs_sdk_qir.Quil.Program.{QuilProgram}
use qcs_sdk_qir.Context.{ContextOptions, ExecutionTarget, qvm, default_options, new_from_data}
use qcs_sdk_qir.Interop.MainEntrypoint.{add_main_entrypoint}
use qcs_sdk_qir.ShotCount.Quil as ShotCount
use qcs_sdk_qir.ShotCount.Qir as ShotCountQir
use qcs_sdk_qir.Unitary.Quil as Unitary
use qcs_sdk_qir.Unitary.Qir as UnitaryQir

pub record PatchOptions : Type 0 where
  pub with_main_entrypoint : Bool
  pub execution_target : ExecutionTarget
  pub cache_executables : Bool
  pub quil_rewiring_pragma : Option Text

abbrev pub context_options : PatchOptions → ContextOptions
context_options o = record {
  cache_executables = o.cache_executables;
  rewiring_pragma = o.quil_rewiring_pragma;
}

-- `if options.add_main_entrypoint { … }`, and the context's module.
unfoldable pub finish : Llvm → Bool → State → Result Error State
unfolding add_main_entrypoint
finish L false s = ok s
finish L true s = elim (add_main_entrypoint L s) [ err e ↦ err e | ok (_, s') ↦ ok s' ]

-- `parsed` is `load_module_from_bitcode(context, bitcode)`; a module comes with how it was made.
module _ {P : Type 0} ⦃q : QuilProgram P⦄ (to_string : P → Text) (L : Llvm) (fuel depth : ℕ) where
  unfoldable pub patch_qir_with_qcs : PatchOptions → Result Error Module → Result Error State
  unfolding new_from_data ShotCountQir.transpile_module finish
  patch_qir_with_qcs options parsed = do
    ctx ← new_from_data L parsed options.execution_target (context_options options)
    ctx' ← ShotCountQir.transpile_module to_string L fuel depth ctx
    finish L options.with_main_entrypoint ctx'.state

  unfoldable pub patch_unitary_qir_with_qcs :
      PatchOptions → Result Error Module → Result Error State
  unfolding new_from_data UnitaryQir.transpile_module finish
  patch_unitary_qir_with_qcs options parsed = do
    ctx ← new_from_data L parsed options.execution_target (context_options options)
    ctx' ← UnitaryQir.transpile_module to_string L fuel ctx
    finish L options.with_main_entrypoint ctx'.state

module _ {P : Type 0} ⦃q : QuilProgram P⦄ (L : Llvm) (fuel : ℕ) where
  unfoldable pub transpile_qir_to_quil :
      Result Error Module → Result Error (ShotCount.ProgramOutput P)
  unfolding new_from_data ShotCount.transpile_module
  transpile_qir_to_quil parsed = do
    ctx ← new_from_data L parsed qvm default_options
    ShotCount.transpile_module fuel ctx

  unfoldable pub transpile_unitary_qir_to_quil :
      Result Error Module → Result Error (Unitary.ProgramOutput P)
  unfolding new_from_data Unitary.transpile_module
  transpile_unitary_qir_to_quil parsed = do
    ctx ← new_from_data L parsed qvm default_options
    Unitary.transpile_module fuel ctx
