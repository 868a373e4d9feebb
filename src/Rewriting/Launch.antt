-- ===== src/Rewriting/Launch.antt =====
-- The lines of `insert_quil_program` that the two qir.rs files share: the block that runs the
-- program of a scanned block, and the removal of the scanned instructions.
use qcs_sdk_qir.Base.{
  ℕ, suc, Bool, true, false, Option, none, some, List, [], ◌∷◌, ◌++◌, Text, text, if◌then◌else◌,
}
use qcs_sdk_qir.Base.Outcome.{Error, Result, ok, err, not_utf8}
use qcs_sdk_qir.Llvm.{Module, BasicBlock, Instruction, FloatValue}
use qcs_sdk_qir.Llvm.Builder.{
  i32, const_int, Llvm, State, Build, pure, perform, required, module_now, insert_basic_block_after,
  replace_block_uses, position_at_end, build_global_string, remove_from_basic_block, ◌>>=◌, ◌>>◌,
}
use qcs_sdk_qir.Context.{ExecutionTarget, qpu, qvm, QcsCompilerContext}
use qcs_sdk_qir.Context.Structs.{Types}
use qcs_sdk_qir.Context.Externals.{Values}
use qcs_sdk_qir.Interop.Call.{
  Executable, ExecutionResult, executable_from_quil, execute_on_qpu, execute_on_qvm, get_executable,
  set_param,
}
use qcs_sdk_qir.Interop.Removal.{UseStore, remove_instructions_in_safe_order}

-- `format!("{}_suffix", block.get_name().to_str()?)`
unfoldable pub suffixed : Module → BasicBlock → Text → Option Text
suffixed m block suffix =
    if m.block_name_is_utf8 block then some (m.get_block_name block ++ suffix) else none

abbrev is_some {ℓ} : {A : Type ℓ} → Option A → Bool
is_some none = false
is_some (some a) = true

abbrev pub state_after : {A : Type 0} → State → Result Error (A × State) → State
state_after s (ok (a, s')) = s'
state_after s (err e) = s

module _ (L : Llvm) where
  unfoldable pub insert_suffixed_block : BasicBlock → Text → Build BasicBlock
  unfolding suffixed perform
  insert_suffixed_block block suffix = do
    m ← module_now
    name ← required (suffixed m block suffix) not_utf8
    perform L (insert_basic_block_after block name)

  -- The new block, which takes the place of the old one in the branches to it.
  unfoldable pub execution_block : BasicBlock → Build BasicBlock
  unfolding insert_suffixed_block perform
  execution_block block = do
    execution ← insert_suffixed_block block (text "_execution")
    perform L (replace_block_uses block execution)
    perform L (position_at_end execution)
    pure execution

  -- What a removal reads and changes of a module.
  unfoldable pub module_uses : UseStore State
  unfolding perform
  module_uses = record {
    in_use = λ s i. is_some (s.llvm.get_first_use i);
    remove_from_basic_block = λ s i. state_after s (perform L (remove_from_basic_block i) s);
  }

  unfoldable pub remove_instructions : List Instruction → Build (Unit {0})
  unfolding module_uses remove_instructions_in_safe_order
  remove_instructions is s = elim (remove_instructions_in_safe_order module_uses s is) [
    | err e ↦ err e
    | ok s' ↦ ok (tt, s')
  ]

module _ (L : Llvm) (types : Types) (values : Values) where
  -- The executable of the program: the next one of the cache, or one made from its text.
  unfoldable pub program_executable : Bool → ℕ → Text → Build Executable
  unfolding perform get_executable executable_from_quil
  program_executable true index program_text = get_executable L values (const_int i32 index)
  program_executable false index program_text = do
    string ← perform L (build_global_string program_text (text "quil_program"))
    executable_from_quil L types values string

  -- `for (index, value) in pattern_context.parameters.iter().enumerate()`, from an index on.
  unfoldable pub set_params : Executable → ℕ → List FloatValue → Build (Unit {0})
  unfolding set_param
  set_params executable index [] = pure tt
  set_params executable index (v ∷ vs) = do
    set_param L values executable index v
    set_params executable (suc index) vs

  unfoldable pub execute : ExecutionTarget → Executable → Build ExecutionResult
  unfolding execute_on_qpu execute_on_qvm
  execute (qpu id) executable = execute_on_qpu L values executable
  execute qvm executable = execute_on_qvm L values executable

-- `context.quil_programs.push(program)`, if executables are cached.
unfoldable pub cached_programs : {P : Type 0} → Bool → List P → P → List P
cached_programs cache programs program = if cache then programs ++ program ∷ [] else programs

-- The context after a piece of work on its module, with a list of programs to cache.
unfoldable pub with_programs :
    {P : Type 0}
    → QcsCompilerContext P
    → List P
    → Build (Unit {0})
    → Result Error (QcsCompilerContext P)
with_programs ctx programs work = elim (work ctx.state) [
  | err e ↦ err e
  | ok (_, s) ↦ ok (record ctx { state = s; quil_programs = programs })
]
