-- ===== src/Llvm/Builder.antt =====
-- The changes that the program makes to a module, as inkwell's builder, module and values offer
-- them. A change is a `Command`; what LLVM answers, and what the module looks like afterwards, is
-- LLVM's: both are a parameter that may depend on all the commands so far.
pub mod Runs
use qcs_sdk_qir.Base.{ℕ, Bool, Option, none, some, List, [], ◌∷◌, Text}
use qcs_sdk_qir.Base.Outcome.{Error, Result, ok, err, not_a_pointer, not_an_int, no_call_value}
use qcs_sdk_qir.Llvm.{
  Module, Instruction, BasicBlock, Function, Pointer, IntValue, FloatValue, BasicValue, int_value,
  pointer_value, PhiValue, CallSite, Global, StructType,
}

-- The types that the program builds, all in the generic address space.
pub data LlvmType : Type 0 where
  bool_type i8 i32 i64 f64 void : LlvmType
  named : StructType → LlvmType
  ptr : LlvmType → LlvmType

pub record FunctionType : Type 0 where
  pub returned : LlvmType
  pub parameters : List LlvmType
  pub is_var_args : Bool

pub data Linkage : Type 0 where
  external private_linkage : Linkage

-- An argument of a call. `const_int` keeps the value as it is given: LLVM cuts it to the width.
pub data Argument : Type 0 where
  pointer int_argument float_argument : ℕ → Argument
  -- `const_cast` of a pointer
  cast : Pointer → LlvmType → Argument
  const_int : LlvmType → ℕ → Argument

pub data Command : Type 0 where
  -- the context and the module
  opaque_struct_type : Text → Command
  add_function : Text → FunctionType → Option Linkage → Command
  add_global : LlvmType → Text → Command
  set_linkage : Global → Linkage → Command
  set_externally_initialized : Global → Bool → Command
  set_initializer_zero : Global → LlvmType → Command
  append_basic_block : Function → Text → Command
  insert_basic_block_after : BasicBlock → Text → Command
  -- values
  replace_block_uses : BasicBlock → BasicBlock → Command
  replace_uses : Instruction → Instruction → Command
  remove_from_basic_block : Instruction → Command
  add_incoming : PhiValue → List (BasicValue × BasicBlock) → Command
  -- the builder
  position_at_end : BasicBlock → Command
  position_at : BasicBlock → Instruction → Command
  position_before : Instruction → Command
  build_global_string : Text → Text → Command
  build_call : Function → List Argument → Command
  build_load : Pointer → Command
  build_store : Pointer → Argument → Command
  build_return : Option Argument → Command
  build_unconditional_branch : BasicBlock → Command
  build_conditional_branch : IntValue → BasicBlock → BasicBlock → Command
  build_phi : LlvmType → Command

-- A command and the handle that it gave; a command that gives nothing has any number there.
pub record Event : Type 0 where
  pub command : Command
  pub answer : ℕ

-- The events so far, the latest first.
abbrev pub History : Type 0
History = List Event

pub record Llvm : Type 0 where
  pub observe : History → Module
  pub respond : History → Command → ℕ

-- A module under construction.
pub record State : Type 0 where
  pub llvm : Module
  pub history : History

-- Work on the module that gives a value or an error. Every error is passed on to the caller of the
-- whole transformation, which drops the module.
abbrev pub Build {ℓ} : Type ℓ → Type ℓ
Build A = State → Result Error (A × State)

abbrev pub pure {ℓ} : {A : Type ℓ} → A → Build A
pure a s = ok (a, s)

infixl 5 ◌>>=◌ ◌>>◌
unfoldable pub ◌>>=◌ {ℓ κ} : {A : Type ℓ} {B : Type κ} → Build A → (A → Build B) → Build B
(m >>= f) s = elim (m s) [ err e ↦ err e | ok (a, s') ↦ f a s' ]

unfoldable pub ◌>>◌ {ℓ κ} : {A : Type ℓ} {B : Type κ} → Build A → Build B → Build B
(m >> k) s = elim (m s) [ err e ↦ err e | ok (a, s') ↦ k s' ]

-- `ok_or_else(…)?`
abbrev pub required {ℓ} : {A : Type ℓ} → Option A → Error → Build A
required none e s = err e
required (some a) e s = ok (a, s)

-- A look at the module as it is now.
abbrev pub module_now : Build Module
module_now s = ok (s.llvm, s)

module _ (L : Llvm) where
  -- A command, with the answer in the history and the module as LLVM then has it.
  unfoldable pub perform : Command → Build ℕ
  perform c s =
      let a = L.respond s.history c in
      let h = record { command = c; answer = a } ∷ s.history in
      ok (a, record { llvm = L.observe h; history = h })

-- `into_pointer_value`, which panics on another value
unfoldable pub into_pointer_value : BasicValue → Result Error Pointer
into_pointer_value (pointer_value p) = ok p
into_pointer_value _ = err not_a_pointer

unfoldable pub into_int_value : BasicValue → Result Error IntValue
into_int_value (int_value v) = ok v
into_int_value _ = err not_an_int

-- A result that does not touch the module.
abbrev pub lift {ℓ} : {A : Type ℓ} → Result Error A → Build A
lift (err e) s = err e
lift (ok a) s = ok (a, s)

-- `try_as_basic_value().left().ok_or_else(…)?.into_pointer_value()`
unfoldable pub call_pointer : CallSite → Build Pointer
unfolding into_pointer_value
call_pointer c = do
  m ← module_now
  v ← required (m.call_value c) no_call_value
  lift (into_pointer_value v)

unfoldable pub call_int : CallSite → Build IntValue
unfolding into_int_value
call_int c = do m ← module_now; v ← required (m.call_value c) no_call_value; lift (into_int_value v)
