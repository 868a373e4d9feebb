-- ===== src/Rewriting/Cache/Populating.antt =====
-- What the populating function is to do, and that it is called first thing in the entry function.
use qcs_sdk_qir.Base.{
  ℕ, suc, ◌≡◌, false, Option, none, some, List, [], ◌∷◌, Text, text, length, get_elem?,
}
use qcs_sdk_qir.Llvm.{Function, Pointer, BasicBlock, Instruction, pointer_value}
use qcs_sdk_qir.Llvm.Builder.{
  i32, pointer, cast, const_int, Llvm, State, History, Event, Command, build_call, build_store,
  build_global_string, FunctionType, void, position_at_end, position_before, append_basic_block,
  add_function, build_return,
}
use qcs_sdk_qir.Llvm.Builder.Runs.{after}
use qcs_sdk_qir.Context.Structs.{Types}
use qcs_sdk_qir.Context.Externals.{Values}

abbrev pub did : Command → ℕ → Event
did c a = record { command = c; answer = a }

abbrev pub no_signature : FunctionType
no_signature = record { returned = void; parameters = []; is_var_args = false }

-- The start of a block: in front of its first instruction, if it has one.
abbrev pub start_of : BasicBlock → Option Instruction → Command
start_of block (some i) = position_before i
start_of block none = position_at_end block

-- The call of `f` at the start of the first block of the entry function, and nothing else.
pub record CallsAtStart (L : Llvm) (entrypoint : Function) (f : Function) (s s' : State)
    : Type 0 where
  pub block : BasicBlock
  pub first_block : s.llvm.get_first_basic_block entrypoint ≡ some block
  pub answers : ℕ × ℕ
  pub called :
      s'
      ≡ after L
          (build_call f [])
          answers.0
          (after L (start_of block (s.llvm.get_first_instruction block)) answers.1 s)

module _ {P : Type 0} (to_string : P → Text) (types : Types) (values : Values) where
  -- Somewhere in the history, the program's text is made a string, and the string is added to the
  -- cache under the index.
  pub data Adds (cache : Pointer) (k : ℕ) (program : P) : History → Type 0 where
    now :
        {string a : ℕ} {h : History}
        → Adds cache k program (
            did
              (build_call values.add_executable_cache_item
                (pointer cache ∷ const_int i32 k ∷ cast string types.string ∷ []))
              a
            ∷ did (build_global_string (to_string program) (text "quil_program")) string
            ∷ h)
    earlier : {e : Event} {h : History} → Adds cache k program h → Adds cache k program (e ∷ h)

  -- A cache of that size is made, and stored where the executables are read from.
  pub data Creates (L : Llvm) (cache : Pointer) (size : ℕ) : History → Type 0 where
    created :
        {site a : ℕ} {h : History}
        → (L.observe (
              did (build_call values.create_executable_cache (const_int i32 size ∷ [])) site
              ∷ h)).call_value
            site
          ≡ some (pointer_value cache)
        → Creates L cache size (
            did (build_store values.executable_cache_global (pointer cache)) a
            ∷ did (build_call values.create_executable_cache (const_int i32 size ∷ [])) site
            ∷ h)
    before : {e : Event} {h : History} → Creates L cache size h → Creates L cache size (e ∷ h)

  -- The commands that build the populating function `f`, with the programs that are left: a function
  -- without parameters and result, a block of it where the builder is placed, a cache of that size,
  -- stored where executables are read from, and an item of the cache for each program in order.
  pub data Filling (L : Llvm) (old : History) (size : ℕ) (programs : List P) (f : Function)
      (cache : Pointer) : ℕ → List P → History → Type 0 where
    opened :
        {block b site a : ℕ}
        → Creates L cache size (
            did (build_store values.executable_cache_global (pointer cache)) a
            ∷ did (build_call values.create_executable_cache (const_int i32 size ∷ [])) site
            ∷ did (position_at_end block) b
            ∷ did (append_basic_block f (text "entry")) block
            ∷ did (add_function (text "populate_executable_array") no_signature none) f
            ∷ old)
        → Filling L old size programs f cache 0 programs (
            did (build_store values.executable_cache_global (pointer cache)) a
            ∷ did (build_call values.create_executable_cache (const_int i32 size ∷ [])) site
            ∷ did (position_at_end block) b
            ∷ did (append_basic_block f (text "entry")) block
            ∷ did (add_function (text "populate_executable_array") no_signature none) f
            ∷ old)
    filled :
        {k string a : ℕ} {program : P} {left : List P} {h : History}
        → Filling L old size programs f cache k (program ∷ left) h
        → Filling L old size programs f cache (suc k) left (
            did
              (build_call values.add_executable_cache_item
                (pointer cache ∷ const_int i32 k ∷ cast string types.string ∷ []))
              a
            ∷ did (build_global_string (to_string program) (text "quil_program")) string
            ∷ h)

  -- The function is built by those commands and a return, and no others.
  pub data Builds (L : Llvm) (old : History) (programs : List P) (f : Function) (cache : Pointer)
      : History → Type 0 where
    returned :
        {n a : ℕ} {h : History}
        → Filling L old (length programs) programs f cache n [] h
        → Builds L old programs f cache (did (build_return none) a ∷ h)

  -- A cache that holds each of the programs under its place in the list.
  pub record Populates (L : Llvm) (old : History) (programs : List P) (f : Function) (h : History)
      : Type 0 where
    pub cache : Pointer
    pub builds : Builds L old programs f cache h
    pub creates : Creates L cache (length programs) h
    pub adds : (k : ℕ) (program : P) → get_elem? programs k ≡ some program → Adds cache k program h

  module _ (L : Llvm) where
    -- The function that populates the cache: the module had one of that name before, or it is new.
    pub data HasPopulate (s : State) (programs : List P) : Function → State → Type 0 where
      had :
          {f : Function}
          → s.llvm.get_function (text "populate_executable_array") ≡ some f
          → HasPopulate s programs f s
      new :
          {f : Function} {s' : State}
          → s.llvm.get_function (text "populate_executable_array") ≡ none
          → Populates L s.history programs f s'.history
          → HasPopulate s programs f s'

    -- What the end of `transpile_module` leaves.
    pub record PopulatesAtEntry (s : State) (entrypoint : Function) (programs : List P) (s' : State)
        : Type 0 where
      pub populate : Function
      pub in_between : State
      pub has : HasPopulate s programs populate in_between
      pub calls : CallsAtStart L entrypoint populate in_between s'
