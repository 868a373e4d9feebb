-- ===== src/Context/Externals/Declared.antt =====
-- Where the functions of the QCS runtime that a context holds come from, and with which parameters
-- they are declared (src/context/values.rs).
pub mod Made
use qcs_sdk_qir.Base.{ℕ, ◌≡◌, refl, Option, none, some, List, [], ◌∷◌, Text, text, All}
use qcs_sdk_qir.Llvm.{Module, Function, Global}
use qcs_sdk_qir.Llvm.Builder.{
  LlvmType, i32, i64, f64, ptr, FunctionType, Linkage, Argument, Llvm, State, pure, Command,
  add_function, History, Event,
}
use qcs_sdk_qir.Llvm.Builder.Runs.{
  Runs, after, bind-Runs, required-Runs, pure-Runs, now-Runs, perform-Runs, perform_then-Runs,
  perform_last-Runs,
}
use qcs_sdk_qir.Context.Target.{ExecutionTarget, qpu, qvm}
use qcs_sdk_qir.Context.Structs.{Types, new_types}
use qcs_sdk_qir.Context.Externals.{
  Values, existing_or_added, declare_function, existing_or_string, global_string,
  build_parameter_memory_region_name, build_quantum_processor_id,
  build_executable_from_quil_function, build_execute_on_qpu_function, build_execute_on_qvm_function,
  build_free_executable_function, build_free_execution_result_function,
  build_create_executable_cache_function, build_add_executable_cache_item_function,
  build_read_from_executable_cache_function, build_free_executable_cache_function,
  build_get_readout_bit_function, build_set_param_function, build_panic_on_failure_function,
  build_wrap_in_shots_function,
}
use qcs_sdk_qir.Context.Externals.New.{existing_or_cache, build_executable_cache, new_values}

-- The functions that a rewritten block calls.
pub data RuntimeFunction : Type 0 where
  from_quil on_qpu_function on_qvm_function free_result read_cache readout_bit set_a_param
        panic_on_failure wrap_shots :
      RuntimeFunction

abbrev pub name_of : RuntimeFunction → Text
name_of from_quil = text "executable_from_quil"
name_of on_qpu_function = text "execute_on_qpu"
name_of on_qvm_function = text "execute_on_qvm"
name_of free_result = text "free_execution_result"
name_of read_cache = text "read_from_executable_cache"
name_of readout_bit = text "get_readout_bit"
name_of set_a_param = text "set_param"
name_of panic_on_failure = text "panic_on_failure"
name_of wrap_shots = text "wrap_in_shots"

abbrev pub function_of : Values → RuntimeFunction → Function
function_of v from_quil = v.executable_from_quil_function
function_of v on_qpu_function = v.execute_on_qpu_function
function_of v on_qvm_function = v.execute_on_qvm_function
function_of v free_result = v.free_execution_result_function
function_of v read_cache = v.read_from_executable_cache
function_of v readout_bit = v.get_readout_bit_function
function_of v set_a_param = v.set_param_function
function_of v panic_on_failure = v.panic_on_failure_function
function_of v wrap_shots = v.wrap_in_shots_function

-- Its parameters: pointers to structs, the type of strings, and numbers.
pub data Parameters (t : Types) : RuntimeFunction → List LlvmType → Type 0 where
  of_from_quil : Parameters t from_quil (t.string ∷ [])
  of_qpu : {e : LlvmType} → Parameters t on_qpu_function (ptr e ∷ t.string ∷ [])
  of_qvm : {e : LlvmType} → Parameters t on_qvm_function (ptr e ∷ [])
  of_free : {r : LlvmType} → Parameters t free_result (ptr r ∷ [])
  of_read : {c : LlvmType} → Parameters t read_cache (ptr c ∷ i32 ∷ [])
  of_bit : {r : LlvmType} → Parameters t readout_bit (ptr r ∷ i64 ∷ i64 ∷ [])
  of_param : {e : LlvmType} → Parameters t set_a_param (ptr e ∷ t.string ∷ i32 ∷ f64 ∷ [])
  of_panic : {r : LlvmType} → Parameters t panic_on_failure (ptr r ∷ [])
  of_wrap : {e : LlvmType} → Parameters t wrap_shots (ptr e ∷ i32 ∷ [])

-- The command was given, with that answer.
pub data Given (c : Command) (a : ℕ) : History → Type 0 where
  latest : {h : History} → Given c a (record { command = c; answer = a } ∷ h)
  earlier : {e : Event} {h : History} → Given c a h → Given c a (e ∷ h)

module _ (L : Llvm) (first : Module) where
  -- The module as it was at some point: at the start, or after some of the commands.
  pub data Shown : History → Module → Type 0 where
    at_start : {h : History} → Shown h first
    at_last : {h : History} → Shown h (L.observe h)
    before : {e : Event} {h : History} {m : Module} → Shown h m → Shown (e ∷ h) m

  module _ (t : Types) where
    -- The module had a function of that name, or one was declared with those parameters.
    pub data Held (h : History) (r : RuntimeFunction) (f : Function) : Type 0 where
      found : {m : Module} → Shown h m → m.get_function (name_of r) ≡ some f → Held h r f
      declared :
          {ft : FunctionType} {linkage : Option Linkage}
          → Given (add_function (name_of r) ft linkage) f h
          → Parameters t r ft.parameters
          → Held h r f

    -- Each function of the values is one of that name and those parameters.
    abbrev pub HoldsAll : Values → History → Type 0
    HoldsAll v h = (r : RuntimeFunction) → Held h r (function_of v r)
