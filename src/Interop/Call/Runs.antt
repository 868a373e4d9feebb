-- ===== src/Interop/Call/Runs.antt =====
-- What one call leaves: `call_only` and `call_for_pointer`, run from a state.
use qcs_sdk_qir.Base.{ℕ, ◌≡◌, refl, some, List}
use qcs_sdk_qir.Base.Outcome.{returns, raises}
use qcs_sdk_qir.Llvm.{Function, Pointer, BasicValue, pointer_value}
use qcs_sdk_qir.Llvm.Builder.{
  Llvm, State, Argument, build_call, lift, into_pointer_value, call_pointer,
}
use qcs_sdk_qir.Llvm.Builder.Runs.{
  Runs, after, required-Runs, pure-Runs, now-Runs, perform-Runs, perform_then-Runs,
}
use qcs_sdk_qir.Interop.Call.{call_only, call_for_pointer}

module _ (L : Llvm) (f : Function) (args : List Argument) (s : State) where
  pub call_only-Runs :
      Runs s (call_only L f args) (λ _ s'. (a : ℕ) × (s' ≡ after L (build_call f args) a s))
  unfolding call_only
  call_only-Runs = perform_then-Runs L _ λ a. pure-Runs tt (a, refl)

  pointer-Runs :
      (v : BasicValue) {s1 : State} {Q : Pointer → State → Type 0}
      → ((p : Pointer) → v ≡ pointer_value p → Q p s1)
      → Runs s1 (lift (into_pointer_value v)) Q
  unfolding into_pointer_value
  pointer-Runs (pointer_value p) k = record { post = returns (k p refl) }
  pointer-Runs _ k = record { post = raises }

  pub call_for_pointer-Runs : Runs s (call_for_pointer L f args) (λ p s'.
      (a : ℕ) × (s' ≡ after L (build_call f args) a s)
      × (s'.llvm.call_value a ≡ some (pointer_value p)))
  unfolding call_for_pointer call_pointer
  call_for_pointer-Runs =
      perform-Runs L _
        λ a. now-Runs _ (required-Runs _ _ λ v e. pointer-Runs v λ p g. (a, refl, rw (← g) e))
