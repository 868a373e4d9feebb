-- ===== src/Examples/Qir.antt =====
-- The rewriting of the sample modules, over an LLVM that gives fresh handles and shows the module
-- without uses once something has been done to it.
use qcs_sdk_qir.Base.{
  ℕ, ◌+◌, ◌≡◌, refl, true, none, List, [], ◌∷◌, Text, text, text_eq, length, leb, if◌then◌else◌,
}
use qcs_sdk_qir.Base.Outcome.{Error, Result, ok, err}
use qcs_sdk_qir.Llvm.{Module}
use qcs_sdk_qir.Llvm.Builder.{Llvm, State, History, build_call, ◌>>=◌, ◌>>◌}
use qcs_sdk_qir.Quil.Sample.{ListProgram, empty, list_program}
use qcs_sdk_qir.Context.{QcsCompilerContext, qpu, qvm, default_options, new_from_data}
use qcs_sdk_qir.ShotCount.Qir as ShotCount
use qcs_sdk_qir.Unitary.Qir as Unitary
use qcs_sdk_qir.ShotCount.Qir.Refinement.{
  BlockOutcome, insert_quil_program-BlockOutcome, transpile_module-ModuleOutcome,
}
use qcs_sdk_qir.ShotCount.Quil as Quil
use qcs_sdk_qir.ShotCount.Quil.{fail_on_nested_function_call}
use qcs_sdk_qir.Interop.Call.Typing.{TypedSince}
use qcs_sdk_qir.ShotCount.Qir.Typing.{transpile_function-TypedSince}
use qcs_sdk_qir.ShotCount.Qir.Agreement.{ExecutesOutput, insert-ExecutesOutput}
use qcs_sdk_qir.ShotCount.Loop.{ShotCountPatternMatchContext, start}
use qcs_sdk_qir.ShotCount.Scan.{from_basic_block}
use qcs_sdk_qir.Unitary.Qir.Refinement as Refinement
use qcs_sdk_qir.Unitary.Scan as Scan
use qcs_sdk_qir.Pattern.Context.{PatternContext, initial}
use qcs_sdk_qir.Rewriting.Whole.{ModuleOutcome}
use qcs_sdk_qir.Rewriting.Processor.{CanExecute, new_from_data-CanExecute}
use qcs_sdk_qir.Interop.Branches.{replace_phi_clause}
use qcs_sdk_qir.Interop.Branches.Phi.{Replaced, replace_phi_clause-Replaced}
use qcs_sdk_qir.Examples.{sample, unitary_module, context}

abbrev fresh_llvm : Module → Llvm
fresh_llvm m = record {
  observe = λ h. record m { get_first_use = λ i. none };
  respond = λ h c. 1000 + length h;
}

abbrev pub to_text : ListProgram → Text
to_text p = text "program"

abbrev value_of : {A : Type 0} → A → Result Error A → A
value_of d (ok a) = a
value_of d (err e) = d

-- The functions called, the latest first.
abbrev called : History → List ℕ
called [] = []
called (e ∷ h) = elim e.command [ build_call f args ↦ f ∷ called h | _ ↦ called h ]

abbrev pub called_by : Result Error (QcsCompilerContext ListProgram) → List ℕ
called_by (ok ctx) = called ctx.history
called_by (err e) = []

abbrev pub loop_module : Module
loop_module = sample 0 6 (1 ∷ [])

abbrev shots_run : Result Error (QcsCompilerContext ListProgram)
shots_run = ShotCount.transpile_module to_text (fresh_llvm loop_module) 20 3 (context loop_module)

abbrev unitary_run : Result Error (QcsCompilerContext ListProgram)
unitary_run =
    Unitary.transpile_module to_text (fresh_llvm unitary_module) 20 (context unitary_module)

-- From the text: wrapped, a parameter set, executed on the QVM, checked and freed; then the cache.
shots_calls : called_by shots_run ≡ 1028 ∷ 52 ∷ 41 ∷ 46 ∷ 44 ∷ 49 ∷ 50 ∷ 42 ∷ []
unfolding ShotCount.transpile_module list_program ◌>>=◌ ◌>>◌
shots_calls = refl

unitary_calls : called_by unitary_run ≡ 1021 ∷ 52 ∷ 41 ∷ 46 ∷ 44 ∷ 49 ∷ 42 ∷ []
unfolding Unitary.transpile_module list_program ◌>>=◌ ◌>>◌
unitary_calls = refl

abbrev caching : QcsCompilerContext ListProgram
caching = record (context loop_module) {
  options = record { cache_executables = true; rewiring_pragma = none };
}

abbrev cached_run : Result Error (QcsCompilerContext ListProgram)
cached_run = ShotCount.transpile_module to_text (fresh_llvm loop_module) 20 3 caching

-- The executable is read from the cache, to which its program is added at the start.
cached_calls : called_by cached_run ≡ 1028 ∷ 53 ∷ 52 ∷ 41 ∷ 46 ∷ 44 ∷ 49 ∷ 50 ∷ 54 ∷ []
unfolding ShotCount.transpile_module list_program ◌>>=◌ ◌>>◌
cached_calls = refl

abbrev scanned : ShotCountPatternMatchContext ListProgram
scanned =
    elim (from_basic_block (ShotCount.transpile_function to_text (fresh_llvm loop_module) 20 2) []
      20 (context loop_module) 1) [ ok (_, pc) ↦ pc | err e ↦ start ]

abbrev inserted : Result Error (QcsCompilerContext ListProgram)
inserted =
    ShotCount.insert_quil_program to_text (fresh_llvm loop_module) 20 (context loop_module) scanned
      1

insert_quil_program-BlockOutcome_example :
    BlockOutcome to_text
      (fresh_llvm loop_module)
      (context loop_module)
      scanned
      (value_of (context loop_module) inserted)
unfolding ShotCount.insert_quil_program from_basic_block list_program ◌>>=◌ ◌>>◌
insert_quil_program-BlockOutcome_example =
    insert_quil_program-BlockOutcome to_text (fresh_llvm loop_module) 20 (context loop_module)
      (value_of (context loop_module) inserted) scanned 1 refl

abbrev block_run : Result Error (QcsCompilerContext ListProgram)
block_run =
    ShotCount.transpile_basic_block to_text (fresh_llvm loop_module) 20 fail_on_nested_function_call
      (context loop_module) 1 []

abbrev block_output : Result Error (Quil.ProgramOutput ListProgram)
block_output = Quil.transpile_basic_block 20 (context loop_module) 1 []

abbrev no_output : Quil.ProgramOutput ListProgram
no_output = record { program = empty; shot_count = 0; recorded_output = [] }

insert-ExecutesOutput_example :
    ExecutesOutput to_text
      (fresh_llvm loop_module)
      (context loop_module)
      (value_of (context loop_module) block_run)
      (value_of no_output block_output)
unfolding ShotCount.transpile_basic_block Quil.transpile_basic_block list_program ◌>>=◌ ◌>>◌
insert-ExecutesOutput_example =
    insert-ExecutesOutput to_text (fresh_llvm loop_module) 20 fail_on_nested_function_call
      (context loop_module) (value_of (context loop_module) block_run) 1 []
      (value_of no_output block_output) refl refl

transpile_module-ModuleOutcome_example :
    ModuleOutcome to_text (fresh_llvm loop_module) caching (value_of caching cached_run)
unfolding ShotCount.transpile_module list_program ◌>>=◌ ◌>>◌
transpile_module-ModuleOutcome_example =
    transpile_module-ModuleOutcome to_text (fresh_llvm loop_module) 20 3 caching
      (value_of caching cached_run) refl

abbrev scanned_block : PatternContext ListProgram
scanned_block = value_of initial (Scan.from_basic_block unitary_module 20 0)

abbrev inserted_block : Result Error (QcsCompilerContext ListProgram)
inserted_block =
    Unitary.insert_quil_program to_text (fresh_llvm unitary_module) 20 (context unitary_module)
      scanned_block 0

insert_program-BlockOutcome_example :
    Refinement.BlockOutcome to_text
      (fresh_llvm unitary_module)
      (context unitary_module)
      scanned_block
      (value_of (context unitary_module) inserted_block)
unfolding Unitary.insert_quil_program Scan.from_basic_block list_program ◌>>=◌ ◌>>◌
insert_program-BlockOutcome_example =
    Refinement.insert_program-BlockOutcome to_text (fresh_llvm unitary_module) 20
      (context unitary_module) (value_of (context unitary_module) inserted_block) scanned_block 0
      refl

unitary_module-ModuleOutcome_example :
    ModuleOutcome to_text
      (fresh_llvm unitary_module)
      (context unitary_module)
      (value_of (context unitary_module) unitary_run)
unfolding Unitary.transpile_module list_program ◌>>=◌ ◌>>◌
unitary_module-ModuleOutcome_example =
    Refinement.unitary_module-ModuleOutcome to_text (fresh_llvm unitary_module) 20
      (context unitary_module) (value_of (context unitary_module) unitary_run) refl

abbrev replaced_phi : Result Error (Unit {0} × State)
replaced_phi = replace_phi_clause (fresh_llvm loop_module) 0 1 60 true (context loop_module).state

abbrev state_of : State
state_of = (value_of (tt, (context loop_module).state) replaced_phi).1

replace_phi_clause-Replaced_example :
    Replaced (fresh_llvm loop_module) 0 1 60 (context loop_module).state state_of
unfolding replace_phi_clause ◌>>=◌ ◌>>◌
replace_phi_clause-Replaced_example =
    replace_phi_clause-Replaced (fresh_llvm loop_module) 0 1 60 (context loop_module).state state_of
      refl

-- An LLVM that shows the uses until 22 commands have been given, which make a context.
abbrev used_llvm : Llvm
used_llvm = record {
  observe = λ h.
      if leb (length h) 22 then loop_module else record loop_module { get_first_use = λ i. none };
  respond = λ h c. 1000 + length h;
}

abbrev made_loop : Result Error (QcsCompilerContext ListProgram)
made_loop = new_from_data used_llvm (ok loop_module) qvm default_options

abbrev loop_context : QcsCompilerContext ListProgram
loop_context = value_of (context loop_module) made_loop

abbrev loop_run : Result Error (QcsCompilerContext ListProgram)
loop_run = ShotCount.transpile_function to_text used_llvm 20 3 loop_context 4 []

-- The functions are those that the context has declared.
loop_calls : called_by loop_run ≡ 1012 ∷ 1014 ∷ 1010 ∷ 1016 ∷ 1017 ∷ 1008 ∷ []
unfolding new_from_data ShotCount.transpile_function list_program ◌>>=◌ ◌>>◌ text_eq
loop_calls = refl

transpile_function-TypedSince_example :
    TypedSince used_llvm loop_module loop_context.types loop_context.values loop_context.history
      loop_context.history
      (value_of loop_context loop_run).history
unfolding new_from_data ShotCount.transpile_function list_program ◌>>=◌ ◌>>◌ text_eq
transpile_function-TypedSince_example =
    transpile_function-TypedSince to_text used_llvm loop_module qvm default_options loop_context
      (value_of loop_context loop_run) 20 3 4 [] refl refl

abbrev made : Result Error (QcsCompilerContext ListProgram)
made =
    new_from_data (fresh_llvm unitary_module) (ok unitary_module) (qpu (text "Aspen"))
      default_options

new_from_data-CanExecute_example :
    CanExecute
      (fresh_llvm unitary_module)
      (qpu (text "Aspen"))
      (value_of (context unitary_module) made)
unfolding new_from_data ◌>>=◌ ◌>>◌ text_eq
new_from_data-CanExecute_example =
    new_from_data-CanExecute (fresh_llvm unitary_module) (ok unitary_module) (qpu (text "Aspen"))
      default_options (value_of (context unitary_module) made) refl
