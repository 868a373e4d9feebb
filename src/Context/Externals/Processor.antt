-- ===== src/Context/Externals/Processor.antt =====
-- The quantum processor's name in a module that is compiled for a quantum processor.
use qcs_sdk_qir.Base.{◌≡◌, refl, Option, none, some, Text, arith}
use qcs_sdk_qir.Llvm.{Global}
use qcs_sdk_qir.Llvm.Builder.{Llvm, State, Argument, cast}
use qcs_sdk_qir.Llvm.Builder.Runs.{
  Runs, bind-Runs, required-Runs, pure-Runs, now-Runs, perform_then-Runs, any-Runs,
}
use qcs_sdk_qir.Context.Target.{ExecutionTarget, qpu, qvm}
use qcs_sdk_qir.Context.Structs.{Types}
use qcs_sdk_qir.Context.Externals.{
  Values, build_quantum_processor_id, global_string, build_parameter_memory_region_name,
}
use qcs_sdk_qir.Context.Externals.New.{new_values}

-- A global's address, cast to a string.
abbrev pub IsString : Types → Argument → Type 0
IsString t a = (g : Global) × (a ≡ cast g t.string)

-- A processor is named exactly if the target is one.
abbrev pub NamesProcessor : ExecutionTarget → Option Argument → Type 0
NamesProcessor (qpu id) o = (a : Argument) × (o ≡ some a)
NamesProcessor qvm o = o ≡ none

processor-Runs :
    (L : Llvm) (types : Types) (target : ExecutionTarget) (s : State)
    → Runs s (build_quantum_processor_id L types target) (λ o _. NamesProcessor target o)
unfolding build_quantum_processor_id
processor-Runs L types (qpu id) s = any-Runs _ λ g s'. pure-Runs (some g) (g, refl)
processor-Runs L types qvm s = pure-Runs none refl

pub new_values-Runs :
    (L : Llvm) (types : Types) (target : ExecutionTarget) (s : State)
    → Runs s (new_values L types target) (λ v _. NamesProcessor target v.quantum_processor_id)
unfolding new_values
new_values-Runs L types target s = now-Runs _ (
    required-Runs _ _ λ block e. perform_then-Runs L _ λ a. any-Runs _ λ cache s1.
      any-Runs _ λ from_quil s2. any-Runs _ λ on_qpu s3. any-Runs _ λ on_qvm s4.
        any-Runs _ λ free_exe s5. any-Runs _ λ free_result s6. any-Runs _ λ bit s7.
          any-Runs _ λ panic s8. any-Runs _ λ region s9.
            bind-Runs (processor-Runs L types target s9) λ processor s10 h. any-Runs _ λ param s11.
              any-Runs _ λ wrap s12. any-Runs _ λ create s13.
                any-Runs _
                  λ add_item s14. any-Runs _ λ read s15. any-Runs _ λ free_cache s16. pure-Runs _ h)

-- The strings that the values hold are of the type of strings.
pub record HasStrings (t : Types) (v : Values) : Type 0 where
  pub region_name : IsString t v.parameter_memory_region_name
  pub processor : (a : Argument) → v.quantum_processor_id ≡ some a → IsString t a

global_string-Runs :
    (L : Llvm) (types : Types) (name content : Text) (s : State)
    → Runs s (global_string L types name content) (λ a _. IsString types a)
unfolding global_string
global_string-Runs L types name content s = now-Runs _ (any-Runs _ λ g s1. pure-Runs _ (g, refl))

some_injective : {A : Type 0} {a b : A} → ◌≡◌ {A = Option A} (some a) (some b) → a ≡ b
some_injective e = cc

processor-IsString :
    (L : Llvm) (types : Types) (target : ExecutionTarget) (s : State)
    → Runs s
        (build_quantum_processor_id L types target)
        (λ o _. (a : Argument) → o ≡ some a → IsString types a)
unfolding build_quantum_processor_id
processor-IsString L types (qpu id) s =
    bind-Runs (global_string-Runs L types _ id s)
      λ g s' h. pure-Runs (some g) λ a e. rw (← some_injective e) h
processor-IsString L types qvm s = pure-Runs none λ a e. ground arith

pub new_values-HasStrings :
    (L : Llvm) (types : Types) (target : ExecutionTarget) (s : State)
    → Runs s (new_values L types target) (λ v _. HasStrings types v)
unfolding new_values build_parameter_memory_region_name
new_values-HasStrings L types target s = now-Runs _ (
    required-Runs _ _ λ block e. perform_then-Runs L _ λ a. any-Runs _ λ cache s1.
      any-Runs _ λ from_quil s2. any-Runs _ λ on_qpu s3. any-Runs _ λ on_qvm s4.
        any-Runs _ λ free_exe s5. any-Runs _ λ free_result s6. any-Runs _ λ bit s7.
          any-Runs _ λ panic s8. bind-Runs (global_string-Runs L types _ _ s8) λ region s9 hr.
            bind-Runs (processor-IsString L types target s9) λ processor s10 hp.
              any-Runs _ λ param s11. any-Runs _ λ wrap s12. any-Runs _ λ create s13.
                any-Runs _ λ add_item s14. any-Runs _ λ read s15.
                  any-Runs _
                    λ free_cache s16. pure-Runs _ (record { region_name = hr; processor = hp }))
