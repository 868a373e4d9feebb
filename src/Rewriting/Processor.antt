-- ===== src/Rewriting/Processor.antt =====
-- The execution of a program for the target of its context.
use qcs_sdk_qir.Base.{◌≡◌, ◌≢◌, refl, Option, none, some, List, [], arith}
use qcs_sdk_qir.Base.Outcome.{
  Error, Result, ok, err, Post, returns, raises, Post-eq_ok, no_quantum_processor_id, no_call_value,
}
use qcs_sdk_qir.Llvm.{Module, Function, BasicValue, pointer_value}
use qcs_sdk_qir.Llvm.Builder.{
  Llvm, State, Argument, perform, required, lift, call_pointer, into_pointer_value, ◌>>=◌,
}
use qcs_sdk_qir.Context.{
  QcsCompilerContext, ContextOptions, ExecutionTarget, qpu, qvm, types_and_values, context_of,
  new_from_data,
}
use qcs_sdk_qir.Context.Structs.{Types}
use qcs_sdk_qir.Context.Externals.{Values}
use qcs_sdk_qir.Context.Externals.Processor.{NamesProcessor, new_values-Runs}
use qcs_sdk_qir.Interop.Call.{Executable, call_for_pointer, execute_on_qpu, execute_on_qvm}
use qcs_sdk_qir.Rewriting.Launch.{execute}
use qcs_sdk_qir.Llvm.Builder.Runs.{Runs, any-Runs, bind-Runs, pure-Runs}

-- Any error but that there is no processor.
abbrev HasProcessor : {A : Type 0} → Result Error A → Type 0
HasProcessor o = o ≢ err no_quantum_processor_id

module _ (L : Llvm) where
  pointer_of_value :
      (o : Option BasicValue) (s : State)
      → HasProcessor ((required o no_call_value >>= λ v. lift (into_pointer_value v)) s)
  unfolding into_pointer_value ◌>>=◌
  pointer_of_value none s = λ e. ground arith
  pointer_of_value (some (pointer_value p)) s = λ e. ground arith
  pointer_of_value (some _) s = λ e. ground arith

  call_for_pointer-HasProcessor :
      (f : Function) (args : List Argument) (s : State) → HasProcessor (call_for_pointer L f args s)
  unfolding call_for_pointer perform call_pointer ◌>>=◌
  call_for_pointer-HasProcessor f args s = pointer_of_value _ _

  execute-HasProcessor :
      (t : Types) (v : Values) (target : ExecutionTarget)
      → NamesProcessor target v.quantum_processor_id
      → (e : Executable) (s : State) → HasProcessor (execute L t v target e s)
  unfolding execute execute_on_qpu execute_on_qvm ◌>>=◌
  execute-HasProcessor t v (qpu id) (a, h) e s =
      rw h (call_for_pointer-HasProcessor v.execute_on_qpu_function _ s)
  execute-HasProcessor t v qvm h e s = call_for_pointer-HasProcessor v.execute_on_qvm_function _ s

  types_and_values-Runs :
      (target : ExecutionTarget) (s : State)
      → Runs s (types_and_values L target) (λ tv _. NamesProcessor target tv.1.quantum_processor_id)
  unfolding types_and_values
  types_and_values-Runs target s = any-Runs _ λ types s1.
      bind-Runs (new_values-Runs L types target s1) λ values s2 h. pure-Runs (types, values) h

  -- Whatever the program.
  abbrev pub CanExecute : {P : Type 0} → ExecutionTarget → QcsCompilerContext P → Type 0
  CanExecute target ctx =
      (ctx.target ≡ target)
      × ((executable : Executable) (s : State)
          → execute L ctx.types ctx.values ctx.target executable s ≢ err no_quantum_processor_id)

  context_of-CanExecute :
      {P : Type 0} (target : ExecutionTarget) (options : ContextOptions)
      {o : Result Error ((Types × Values) × State)}
      → Post (λ r. NamesProcessor target r.0.1.quantum_processor_id) o
      → Post (CanExecute target) (context_of {P = P} target options o)
  context_of-CanExecute target options (returns {a = ((types, values), s)} h) =
      returns (refl, λ e s'. execute-HasProcessor types values target h e s')
  context_of-CanExecute target options raises = raises

  new_from_data-Post :
      {P : Type 0} (parsed : Result Error Module) (target : ExecutionTarget)
      (options : ContextOptions)
      → Post (CanExecute target) (new_from_data {P = P} L parsed target options)
  unfolding new_from_data
  new_from_data-Post (err e) target options = raises
  new_from_data-Post (ok m) target options =
      context_of-CanExecute target options
        (types_and_values-Runs target (record { llvm = m; history = [] })).post

  -- If a context is made from a module for a target, quantum processor or virtual machine, it
  -- has that target, and the insertion of an execution for it never fails for want of a quantum
  -- processor's name, whatever the module and whatever LLVM answers.
  pub new_from_data-CanExecute :
      {P : Type 0} (parsed : Result Error Module) (target : ExecutionTarget)
      (options : ContextOptions) (ctx : QcsCompilerContext P)
      → new_from_data L parsed target options ≡ ok ctx
      → CanExecute target ctx
  new_from_data-CanExecute parsed target options ctx e =
      Post-eq_ok (new_from_data-Post parsed target options) e
