-- ===== src/Interop/Call/Typing.antt =====
-- The types of the calls of the QCS runtime, against its declarations in src/context/values.rs.
use qcs_sdk_qir.Base.{ℕ, ◌≡◌, refl, Option, some, List, [], ◌∷◌}
use qcs_sdk_qir.Llvm.{Module, Function}
use qcs_sdk_qir.Llvm.Builder.{
  LlvmType, bool_type, i8, i32, i64, f64, ptr, FunctionType, Linkage, Argument, pointer,
  int_argument, float_argument, cast, const_int, Llvm, Command, build_call, add_function, History,
  Event,
}
use qcs_sdk_qir.Context.Target.{ExecutionTarget}
use qcs_sdk_qir.Context.Structs.{Types}
use qcs_sdk_qir.Context.Externals.{Values}
use qcs_sdk_qir.Context.Externals.Declared.{
  RuntimeFunction, from_quil, on_qpu_function, on_qvm_function, free_result, read_cache,
  readout_bit, set_a_param, panic_on_failure, wrap_shots, name_of, function_of, Parameters,
  of_from_quil, of_qpu, of_qvm, of_free, of_read, of_bit, of_param, of_panic, of_wrap, Given, Shown,
  Held, found, declared, HoldsAll,
}
use qcs_sdk_qir.Context.Externals.Processor.{IsString, HasStrings}
use qcs_sdk_qir.Rewriting.Protocol.{
  Job, Phase, IsQuiet, Step, quiet, make, read, wrap, set, run, check, bit, free, Executes, on_qpu,
  on_qvm, Follows, here, next,
}

-- The integers, of any width.
abbrev IsInteger : LlvmType → Type 0
IsInteger bool_type = Unit {0}
IsInteger i8 = Unit {0}
IsInteger i32 = Unit {0}
IsInteger i64 = Unit {0}
IsInteger _ = ⊥

-- An argument is of the kind of a parameter. A handle shows whether it is a pointer, an integer or a
-- float, and not what it points to or how wide it is; a cast and a constant show their type.
pub data Fits : Argument → LlvmType → Type 0 where
  a_pointer : {p : ℕ} {t : LlvmType} → Fits (pointer p) (ptr t)
  an_int : {v : ℕ} {t : LlvmType} → IsInteger t → Fits (int_argument v) t
  a_float : {v : ℕ} → Fits (float_argument v) f64
  a_cast : {p : ℕ} {t : LlvmType} → Fits (cast p t) t
  a_constant : {t : LlvmType} {n : ℕ} → Fits (const_int t n) t

pub data FitAll : List Argument → List LlvmType → Type 0 where
  nothing : FitAll [] []
  one_more :
      {a : Argument} {t : LlvmType} {args : List Argument} {ts : List LlvmType}
      → Fits a t
      → FitAll args ts
      → FitAll (a ∷ args) (t ∷ ts)

module _ (L : Llvm) (first : Module) (t : Types) (v : Values) (made : History) where
  -- The function was in the module under that name, or one of that name was declared, with
  -- parameters that the arguments fit, before the context was complete.
  pub data CallSource (r : RuntimeFunction) (f : Function) (args : List Argument) : Type 0 where
    in_module :
        {m : Module}
        → Shown L first made m
        → m.get_function (name_of r) ≡ some f
        → CallSource r f args
    as_declared :
        {ft : FunctionType} {linkage : Option Linkage}
        → Given (add_function (name_of r) ft linkage) f made
        → FitAll args ft.parameters
        → CallSource r f args

  -- A call of the function that the context holds for one of the names.
  pub record TypedCall (f : Function) (args : List Argument) : Type 0 where
    pub which : RuntimeFunction
    pub callee : f ≡ function_of v which
    pub source : CallSource which f args

  abbrev pub IsTyped : Command → Type 0
  IsTyped (build_call f args) = TypedCall f args
  IsTyped _ = Unit {0}

  -- Every call since then.
  pub data TypedSince (old : History) : History → Type 0 where
    no_more : TypedSince old old
    later :
        {h : History} {e : Event} → TypedSince old h → IsTyped e.command → TypedSince old (e ∷ h)

  quiet-IsTyped : (c : Command) → IsQuiet c → IsTyped c
  quiet-IsTyped (build_call f args) h = absurd h
  quiet-IsTyped _ h = tt

  source_of_Held :
      {r : RuntimeFunction} {f : Function} {args : List Argument}
      → Held L first t made r f
      → ((ps : List LlvmType) → Parameters t r ps → FitAll args ps)
      → CallSource r f args
  source_of_Held (found s e) fits = in_module s e
  source_of_Held (declared g p) fits = as_declared g (fits _ p)

string-Fits : {a : Argument} (t : Types) → IsString t a → Fits a t.string
string-Fits t h = rw h.1 a_cast

pointer_only-Fit : {p : ℕ} {e : LlvmType} → FitAll (pointer p ∷ []) (ptr e ∷ [])
pointer_only-Fit = one_more a_pointer nothing

module _ {t : Types} where
  quil-Fit :
      {p : ℕ} (ps : List LlvmType) → Parameters t from_quil ps → FitAll (cast p t.string ∷ []) ps
  quil-Fit _ of_from_quil = one_more a_cast nothing

  qpu-Fit :
      {p : ℕ} {a : Argument} (s : IsString t a) (ps : List LlvmType)
      → Parameters t on_qpu_function ps
      → FitAll (pointer p ∷ a ∷ []) ps
  qpu-Fit s _ of_qpu = one_more a_pointer (one_more (string-Fits t s) nothing)

  qvm-Fit :
      {p : ℕ} (ps : List LlvmType) → Parameters t on_qvm_function ps → FitAll (pointer p ∷ []) ps
  qvm-Fit _ of_qvm = pointer_only-Fit

  free-Fit : {p : ℕ} (ps : List LlvmType) → Parameters t free_result ps → FitAll (pointer p ∷ []) ps
  free-Fit _ of_free = pointer_only-Fit

  panic-Fit :
      {p : ℕ} (ps : List LlvmType) → Parameters t panic_on_failure ps → FitAll (pointer p ∷ []) ps
  panic-Fit _ of_panic = pointer_only-Fit

  read-Fit :
      {p n : ℕ} (ps : List LlvmType)
      → Parameters t read_cache ps
      → FitAll (pointer p ∷ const_int i32 n ∷ []) ps
  read-Fit _ of_read = one_more a_pointer (one_more a_constant nothing)

  wrap-Fit :
      {p n : ℕ} (ps : List LlvmType)
      → Parameters t wrap_shots ps
      → FitAll (pointer p ∷ const_int i32 n ∷ []) ps
  wrap-Fit _ of_wrap = one_more a_pointer (one_more a_constant nothing)

  bit-Fit :
      {p i n : ℕ} (ps : List LlvmType)
      → Parameters t readout_bit ps
      → FitAll (pointer p ∷ int_argument i ∷ const_int i64 n ∷ []) ps
  bit-Fit _ of_bit = one_more a_pointer (one_more (an_int tt) (one_more a_constant nothing))

  param-Fit :
      {p n x : ℕ} {a : Argument} (s : IsString t a) (ps : List LlvmType)
      → Parameters t set_a_param ps
      → FitAll (pointer p ∷ a ∷ const_int i32 n ∷ float_argument x ∷ []) ps
  param-Fit s _ of_param =
      one_more a_pointer
        (one_more (string-Fits t s) (one_more a_constant (one_more a_float nothing)))

module _ {L : Llvm} {first : Module} {t : Types} {v : Values} {made : History}
    (strings : HasStrings t v) (holds : HoldsAll L first t v made) where
  typed :
      (r : RuntimeFunction) {args : List Argument}
      → ((ps : List LlvmType) → Parameters t r ps → FitAll args ps)
      → TypedCall L first t v made (function_of v r) args
  typed r fits = record {
    which = r;
    callee = refl;
    source = source_of_Held L first t v made (holds r) fits;
  }

  Executes-IsTyped :
      {e : ℕ} {target : ExecutionTarget} {c : Command}
      → Executes v e target c
      → IsTyped L first t v made c
  Executes-IsTyped on_qvm = typed on_qvm_function qvm-Fit
  Executes-IsTyped (on_qpu {processor = processor} h) =
      typed on_qpu_function (qpu-Fit (strings.processor processor h))

  Step-IsTyped :
      {job : Job} {h : History} {p p' : Phase} {e : Event}
      → Step L t v job h p e p'
      → IsTyped L first t v made e.command
  Step-IsTyped (quiet {c = c} q) = quiet-IsTyped L first t v made c q
  Step-IsTyped (make e e' g) = typed from_quil quil-Fit
  Step-IsTyped (read e e' g) = typed read_cache read-Fit
  Step-IsTyped (wrap e) = typed wrap_shots wrap-Fit
  Step-IsTyped set = typed set_a_param (param-Fit strings.region_name)
  Step-IsTyped (run e g) = Executes-IsTyped e
  Step-IsTyped check = typed panic_on_failure panic-Fit
  Step-IsTyped bit = typed readout_bit bit-Fit
  Step-IsTyped free = typed free_result free-Fit

  -- Work that follows the protocol makes typed calls only.
  pub Follows-TypedSince :
      {job : Job} {old h : History} {p : Phase}
      → Follows L t v job old h p
      → TypedSince L first t v made old h
  Follows-TypedSince here = no_more
  Follows-TypedSince (next f s) = later (Follows-TypedSince f) (Step-IsTyped s)
