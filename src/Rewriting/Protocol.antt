-- ===== src/Rewriting/Protocol.antt =====
-- How the QCS runtime is to be used for one program: which calls, in which order, on which handles.
-- An executable is made from the program's text, or read from the cache; it is wrapped in the shots;
-- each parameter is set, in order; it is executed once; the result is checked, its bits are read,
-- and it is freed.
pub mod Functions
pub mod Triples
pub mod Parts
pub mod Quiet
use qcs_sdk_qir.Base.{ℕ, suc, ◌≡◌, Bool, Option, none, some, List, [], ◌∷◌, Text}
use qcs_sdk_qir.Llvm.{Module, FloatValue, IntValue, Instruction, pointer_value}
use qcs_sdk_qir.Llvm.Builder.{
  i32, i64, Argument, pointer, int_argument, float_argument, cast, const_int, Command, build_call,
  add_function, build_global_string, build_load, Event, History, Llvm,
}
use qcs_sdk_qir.Context.{ExecutionTarget, qpu, qvm}
use qcs_sdk_qir.Context.Structs.{Types}
use qcs_sdk_qir.Context.Externals.{Values}
use qcs_sdk_qir.Interop.Call.{Executable, ExecutionResult}

-- Where the executable comes from.
pub data Source : Type 0 where
  from_text : Text → Source
  from_cache : ℕ → Source

pub record Job : Type 0 where
  pub source : Source
  pub shots : Option ℕ
  pub arguments : List FloatValue
  pub readouts : List ℕ
  pub target : ExecutionTarget

pub data Phase : Type 0 where
  idle : Phase
  -- the executable, before the shots are known
  made : Executable → Phase
  -- the number of parameters set, and those that are left
  ready : Executable → ℕ → List FloatValue → Phase
  executed : ExecutionResult → Phase
  -- the readouts that are left
  checked : ExecutionResult → List ℕ → Phase
  freed : Phase

-- No call, and no new function.
abbrev pub IsQuiet : Command → Type 0
IsQuiet (build_call f args) = ⊥
IsQuiet (add_function name type linkage) = ⊥
IsQuiet _ = Unit {0}

-- An executable that is not to be wrapped is ready.
abbrev pub after_making : Job → Executable → Phase
after_making job e = elim job.shots [ none ↦ ready e 0 job.arguments | some n ↦ made e ]

abbrev pub did : Command → ℕ → Event
did c a = record { command = c; answer = a }

-- The arguments of the call that executes, and the function called.
pub data Executes (v : Values) (e : Executable) : ExecutionTarget → Command → Type 0 where
  on_qvm : Executes v e qvm (build_call v.execute_on_qvm_function (pointer e ∷ []))
  on_qpu :
      {id : Text} {processor : Argument}
      → v.quantum_processor_id ≡ some processor
      → Executes v e (qpu id) (build_call v.execute_on_qpu_function (pointer e ∷ processor ∷ []))

module _ (L : Llvm) (t : Types) (v : Values) (job : Job) where
  -- LLVM shows the pointer `p` as the value of the latest call.
  abbrev pub Gives : History → ℕ → ℕ → Type 0
  Gives h a p = (L.observe h).call_value a ≡ some (pointer_value p)

  -- A command after the history leads from a phase to a phase.
  pub data Step (h : History) : Phase → Event → Phase → Type 0 where
    quiet : {p : Phase} {c : Command} {a : ℕ} → IsQuiet c → Step h p (did c a) p
    make :
        {text name : Text} {string : ℕ} {before : History} {a e : ℕ}
        → job.source ≡ from_text text
        → h ≡ did (build_global_string text name) string ∷ before
        → Gives
            (did (build_call v.executable_from_quil_function (cast string t.string ∷ [])) a ∷ h)
            a
            e
        → Step h idle
            (did (build_call v.executable_from_quil_function (cast string t.string ∷ [])) a)
            (after_making job e)
    read :
        {index cache a e : ℕ} {before : History}
        → job.source ≡ from_cache index
        → h ≡ did (build_load v.executable_cache_global) cache ∷ before
        → Gives
            (did
                (build_call v.read_from_executable_cache (pointer cache ∷ const_int i32 index ∷ []))
                a
              ∷ h)
            a
            e
        → Step h idle
            (did
              (build_call v.read_from_executable_cache (pointer cache ∷ const_int i32 index ∷ []))
              a)
            (after_making job e)
    wrap :
        {e n a : ℕ}
        → job.shots ≡ some n
        → Step h
            (made e)
            (did (build_call v.wrap_in_shots_function (pointer e ∷ const_int i32 n ∷ [])) a)
            (ready e 0 job.arguments)
    set :
        {e k x a : ℕ} {xs : List FloatValue}
        → Step h
            (ready e k (x ∷ xs))
            (did
              (build_call v.set_param_function (
                pointer e
                ∷ v.parameter_memory_region_name
                ∷ const_int i32 k
                ∷ float_argument x
                ∷ []))
              a)
            (ready e (suc k) xs)
    run :
        {e k a r : ℕ} {c : Command}
        → Executes v e job.target c
        → Gives (did c a ∷ h) a r
        → Step h (ready e k []) (did c a) (executed r)
    check :
        {r a : ℕ}
        → Step h
            (executed r)
            (did (build_call v.panic_on_failure_function (pointer r ∷ [])) a)
            (checked r job.readouts)
    bit :
        {r k a : ℕ} {ks : List ℕ} {shot : IntValue}
        → Step h
            (checked r (k ∷ ks))
            (did
              (build_call v.get_readout_bit_function
                (pointer r ∷ int_argument shot ∷ const_int i64 k ∷ []))
              a)
            (checked r ks)
    free :
        {r a : ℕ}
        → Step h
            (checked r [])
            (did (build_call v.free_execution_result_function (pointer r ∷ [])) a)
            freed

  -- From the history `old` on, the commands lead from `idle` to a phase.
  pub data Follows (old : History) : History → Phase → Type 0 where
    here : Follows old old idle
    next :
        {h : History} {p p' : Phase} {e : Event}
        → Follows old h p
        → Step h p e p'
        → Follows old (e ∷ h) p'
