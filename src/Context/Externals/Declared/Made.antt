-- ===== src/Context/Externals/Declared/Made.antt =====
-- `Values::new` (src/context/values.rs) makes each function under its own name.
use qcs_sdk_qir.Base.{ℕ, ◌≡◌, refl, Option, none, some, List, [], ◌∷◌, Text, text}
use qcs_sdk_qir.Llvm.{Module, Function, Global}
use qcs_sdk_qir.Llvm.Builder.{FunctionType, Linkage, Llvm, State, pure, Command, History, Event}
use qcs_sdk_qir.Llvm.Builder.Runs.{
  Runs, after, bind-Runs, required-Runs, pure-Runs, now-Runs, perform-Runs, perform_then-Runs,
  perform_last-Runs,
}
use qcs_sdk_qir.Context.Target.{ExecutionTarget, qpu, qvm}
use qcs_sdk_qir.Context.Structs.{Types, new_types}
use qcs_sdk_qir.Context.Externals.{
  Values, existing_or_added, declare_function, existing_or_string, global_string,
  build_parameter_memory_region_name, build_quantum_processor_id,
  build_executable_from_quil_function, build_execute_on_qpu_function, build_execute_on_qvm_function,
  build_free_executable_function, build_free_execution_result_function,
  build_create_executable_cache_function, build_add_executable_cache_item_function,
  build_read_from_executable_cache_function, build_free_executable_cache_function,
  build_get_readout_bit_function, build_set_param_function, build_panic_on_failure_function,
  build_wrap_in_shots_function,
}
use qcs_sdk_qir.Context.Externals.New.{existing_or_cache, build_executable_cache, new_values}
use qcs_sdk_qir.Context.Externals.Declared.{
  RuntimeFunction, from_quil, on_qpu_function, on_qvm_function, free_result, read_cache,
  readout_bit, set_a_param, panic_on_failure, wrap_shots, name_of, Parameters, of_from_quil, of_qpu,
  of_qvm, of_free, of_read, of_bit, of_param, of_panic, of_wrap, latest, earlier, Shown, at_last,
  before, Held, found, declared, HoldsAll,
}

module _ (L : Llvm) (first : Module) where
  module _ (t : Types) where
    Held-later :
        {e : Event} {h : History} {r : RuntimeFunction} {f : Function}
        → Held L first t h r f
        → Held L first t (e ∷ h) r f
    Held-later (found s e) = found (before s) e
    Held-later (declared g p) = declared (earlier g) p

    -- The functions made so far.
    abbrev AllHeld : List (RuntimeFunction × Function) → History → Type 0
    AllHeld [] h = Unit {0}
    AllHeld ((r, f) ∷ ks) h = Held L first t h r f × AllHeld ks h

    record Known (ks : List (RuntimeFunction × Function)) (s : State) : Type 0 where
      shown : Shown L first s.history s.llvm
      held : AllHeld ks s.history

    AllHeld-later :
        (ks : List (RuntimeFunction × Function)) (e : Event) (h : History)
        → AllHeld ks h
        → AllHeld ks (e ∷ h)
    AllHeld-later [] e h a = tt
    AllHeld-later ((r, f) ∷ ks) e h a = (Held-later a.0, AllHeld-later ks e h a.1)

    module _ {ks : List (RuntimeFunction × Function)} where
      Known-after : {s : State} (c : Command) (a : ℕ) → Known ks s → Known ks (after L c a s)
      Known-after c a k = record { shown = at_last; held = AllHeld-later ks _ _ k.held }

      declare-Known :
          (r : RuntimeFunction) (type_in : Module → FunctionType) (linkage : Option Linkage)
          (s : State)
          → ((m : Module) → Parameters t r (type_in m).parameters)
          → Known ks s
          → Runs s
              (declare_function L t (name_of r) type_in linkage)
              (λ f s'. Known ((r, f) ∷ ks) s')
      unfolding declare_function existing_or_added
      declare-Known r type_in linkage s p k =
          now-Runs _ (existing (s.llvm.get_function (name_of r)) refl)
        where
          existing :
              (o : Option Function)
              → s.llvm.get_function (name_of r) ≡ o
              → Runs s
                  (existing_or_added L t (name_of r) type_in linkage o)
                  (λ f s'. Known ((r, f) ∷ ks) s')
          existing (some f) e =
              pure-Runs f (record { shown = k.shown; held = (found k.shown e, k.held) })
          existing none e = now-Runs _ (
              perform_last-Runs L _ λ a. record {
                shown = at_last;
                held = (declared latest (p s.llvm), AllHeld-later ks _ _ k.held);
              })

      other-Known :
          (name : Text) (type_in : Module → FunctionType) (linkage : Option Linkage) (s : State)
          → Known ks s
          → Runs s (declare_function L t name type_in linkage) (λ f s'. Known ks s')
      unfolding declare_function existing_or_added
      other-Known name type_in linkage s k = now-Runs _ (existing (s.llvm.get_function name))
        where
          existing :
              (o : Option Function)
              → Runs s (existing_or_added L t name type_in linkage o) (λ f s'. Known ks s')
          existing (some f) = pure-Runs f k
          existing none = now-Runs _ (perform_last-Runs L _ λ a. Known-after _ a k)

      string-Known :
          (name content : Text) (s : State)
          → Known ks s
          → Runs s (global_string L t name content) (λ g s'. Known ks s')
      unfolding global_string existing_or_string
      string-Known name content s k =
          now-Runs _ (bind-Runs (existing (s.llvm.get_global name)) λ g s' k'. pure-Runs _ k')
        where
          existing :
              (o : Option Global)
              → Runs s (existing_or_string L t name content o) (λ g s'. Known ks s')
          existing (some g) = pure-Runs g k
          existing none = perform_last-Runs L _ λ a. Known-after _ a k

      processor-Known :
          (target : ExecutionTarget) (s : State)
          → Known ks s
          → Runs s (build_quantum_processor_id L t target) (λ o s'. Known ks s')
      unfolding build_quantum_processor_id
      processor-Known (qpu id) s k =
          bind-Runs (string-Known _ id s k) λ g s' k'. pure-Runs (some g) k'
      processor-Known qvm s k = pure-Runs none k

      cache-Known :
          (s : State) → Known ks s → Runs s (build_executable_cache L t) (λ g s'. Known ks s')
      unfolding build_executable_cache existing_or_cache
      cache-Known s k = now-Runs _ (
          bind-Runs (existing (s.llvm.get_global (text "executable_cache"))) λ g s' k'.
            perform_then-Runs L _ λ a. perform_then-Runs L _ λ b. now-Runs _ (
              perform_then-Runs L _
                λ c. pure-Runs g (Known-after _ c (Known-after _ b (Known-after _ a k')))))
        where
          existing : (o : Option Global) → Runs s (existing_or_cache L t o) (λ g s'. Known ks s')
          existing (some g) = pure-Runs g k
          existing none = now-Runs _ (perform_last-Runs L _ λ a. Known-after _ a k)

    -- In the order in which they are made, the latest first.
    abbrev made_for : Values → List (RuntimeFunction × Function)
    made_for v =
        (read_cache, v.read_from_executable_cache)
        ∷ (wrap_shots, v.wrap_in_shots_function)
        ∷ (set_a_param, v.set_param_function)
        ∷ (panic_on_failure, v.panic_on_failure_function)
        ∷ (readout_bit, v.get_readout_bit_function)
        ∷ (free_result, v.free_execution_result_function)
        ∷ (on_qvm_function, v.execute_on_qvm_function)
        ∷ (on_qpu_function, v.execute_on_qpu_function)
        ∷ (from_quil, v.executable_from_quil_function)
        ∷ []

    made-HoldsAll : {h : History} (v : Values) → AllHeld (made_for v) h → HoldsAll L first t v h
    made-HoldsAll v a read_cache = a.0
    made-HoldsAll v a wrap_shots = a.1.0
    made-HoldsAll v a set_a_param = a.1.1.0
    made-HoldsAll v a panic_on_failure = a.1.1.1.0
    made-HoldsAll v a readout_bit = a.1.1.1.1.0
    made-HoldsAll v a free_result = a.1.1.1.1.1.0
    made-HoldsAll v a on_qvm_function = a.1.1.1.1.1.1.0
    made-HoldsAll v a on_qpu_function = a.1.1.1.1.1.1.1.0
    made-HoldsAll v a from_quil = a.1.1.1.1.1.1.1.1.0

    pure_made :
        {s : State} (v : Values)
        → AllHeld (made_for v) s.history
        → Runs s (pure v) (λ w s'. HoldsAll L first t w s'.history)
    pure_made v a = pure-Runs v (made-HoldsAll v a)

    pub new_values-HoldsAll :
        (target : ExecutionTarget) (s : State)
        → Shown L first s.history s.llvm
        → Runs s (new_values L t target) (λ v s'. HoldsAll L first t v s'.history)
    unfolding new_values build_executable_from_quil_function build_execute_on_qpu_function
        build_execute_on_qvm_function build_free_executable_function
        build_free_execution_result_function build_get_readout_bit_function
        build_panic_on_failure_function build_parameter_memory_region_name build_set_param_function
        build_wrap_in_shots_function build_create_executable_cache_function
        build_add_executable_cache_item_function build_read_from_executable_cache_function
        build_free_executable_cache_function
    new_values-HoldsAll target s h = now-Runs _ (
        required-Runs _ _ λ block e. perform_then-Runs L _ λ a.
          bind-Runs (cache-Known {ks = []} _ (record { shown = at_last; held = tt })) λ cache s1 k1.
            bind-Runs (declare-Known from_quil _ _ s1 (λ m. of_from_quil) k1) λ quil s2 k2.
              bind-Runs (declare-Known on_qpu_function _ _ s2 (λ m. of_qpu) k2) λ on_p s3 k3.
                bind-Runs (declare-Known on_qvm_function _ _ s3 (λ m. of_qvm) k3) λ on_v s4 k4.
                  bind-Runs (other-Known _ _ _ s4 k4) λ exe s5 k5.
                    bind-Runs (declare-Known free_result _ _ s5 (λ m. of_free) k5) λ res s6 k6.
                      bind-Runs (declare-Known readout_bit _ _ s6 (λ m. of_bit) k6) λ bit s7 k7.
                        bind-Runs (declare-Known panic_on_failure _ _ s7 (λ m. of_panic) k7)
                          λ pan s8 k8. bind-Runs (string-Known _ _ s8 k8) λ reg s9 k9.
                            bind-Runs (processor-Known target s9 k9) λ pr s10 k10.
                              bind-Runs (declare-Known set_a_param _ _ s10 (λ m. of_param) k10)
                                λ par s11 k11.
                                  bind-Runs (declare-Known wrap_shots _ _ s11 (λ m. of_wrap) k11)
                                    λ wr s12 k12.
                                      bind-Runs (other-Known _ _ _ s12 k12) λ cr s13 k13.
                                        bind-Runs (other-Known _ _ _ s13 k13) λ ad s14 k14.
                                          bind-Runs
                                            (declare-Known read_cache _ _ s14 (λ m. of_read) k14)
                                            λ rd s15 k15.
                                              bind-Runs (other-Known _ _ _ s15 k15)
                                                λ fr s16 k16. pure_made _ k16.held)

pub new_types-Shown :
    (L : Llvm) (first : Module) (s : State)
    → Runs s (new_types L) (λ t s'. Shown L first s'.history s'.llvm)
unfolding new_types
new_types-Shown L first s =
    perform-Runs L _ λ a. perform-Runs L _ λ b. perform-Runs L _ λ c. pure-Runs _ at_last
