-- ===== src/Examples/Nested.antt =====
-- Loops and nested calls in the rewriting of the sample modules.
use qcs_sdk_qir.Base.{
  ◌+◌, ◌==◌, ◌≡◌, refl, true, Bool-cases, inl, inr, none, some, List, [], ◌∷◌, Text, text, text_eq,
  length, arith, if◌then◌else◌,
}
use qcs_sdk_qir.Base.Outcome.{ok}
use qcs_sdk_qir.Llvm.{Module, Instruction, utf8}
use qcs_sdk_qir.Llvm.Builder.{Llvm, ◌>>=◌, ◌>>◌}
use qcs_sdk_qir.Quil.Sample.{ListProgram, list_program}
use qcs_sdk_qir.Context.{QcsCompilerContext}
use qcs_sdk_qir.Interop.Branches.{replace_phi_clauses}
use qcs_sdk_qir.Interop.Branches.Loop.{
  KeepsFollowing, Replaced-Observed, replace_each, replace_phi_clauses-eq-each,
}
use qcs_sdk_qir.Rewriting.Protocol.Functions.{as_before}
use qcs_sdk_qir.ShotCount.Qir.{transpile_function}
use qcs_sdk_qir.ShotCount.Scan.{Callback, contains}
use qcs_sdk_qir.ShotCount.Qir.Depth.{
  unvisited, Names, KeepsNames, nested, transpile_function-eq-nested,
}
use qcs_sdk_qir.Examples.{pointer_names, nth, context}
use qcs_sdk_qir.Examples.Qir.{to_text, called_by, loop_module}

-- An LLVM that shows the same module whatever is done to it.
abbrev same_llvm : Llvm
same_llvm = record { observe = λ h. loop_module; respond = λ h c. 1000 + length h }

same_llvm-Following : KeepsFollowing same_llvm 1 60
same_llvm-Following = record {
  keeps = λ s s' i v is o e r h. rw (Replaced-Observed same_llvm 1 60 v s s' r, o) (rw o at h);
}

abbrev loop_instructions : List Instruction
loop_instructions = 0 ∷ 1 ∷ 2 ∷ 3 ∷ 4 ∷ 5 ∷ 6 ∷ 7 ∷ 8 ∷ []

replace_phi_clauses-eq-each_example :
    replace_phi_clauses same_llvm 9 1 1 60 true (context loop_module).state
    ≡ replace_each same_llvm 1 60 loop_instructions (context loop_module).state
replace_phi_clauses-eq-each_example =
    replace_phi_clauses-eq-each same_llvm 1 60 same_llvm-Following 9 1 loop_instructions
      (context loop_module).state refl
      (refl, (refl, (refl, (refl, (refl, (refl, (refl, (refl, (refl, refl))))))))) (omega arith)

-- In place of the record, a call with an argument that is named like a function of the module.
abbrev helped_module : Module
helped_module = record loop_module {
  get_pointer_name = λ p.
      utf8
        (if p == 1 then text "helper" else if p == 6 then text "note" else nth [] pointer_names p);
  get_function = λ t. if text_eq (text "helper") t then some 7 else none;
}

-- The first insertion takes 28 commands: the uses are shown when it is done, and not in between.
abbrev helped_llvm : Llvm
helped_llvm = record {
  observe = λ h.
      if length h == 28 then helped_module else record helped_module { get_first_use = λ i. none };
  respond = λ h c. 1000 + length h;
}

abbrev helped : QcsCompilerContext ListProgram
helped = context helped_module

-- The helper's block is rewritten, and then that of the function that calls it.
helped_calls :
    called_by (transpile_function to_text helped_llvm 20 2 helped 4 [])
    ≡ 41 ∷ 46 ∷ 44 ∷ 49 ∷ 50 ∷ 42 ∷ 41 ∷ 46 ∷ 44 ∷ 49 ∷ 50 ∷ 42 ∷ []
unfolding transpile_function list_program ◌>>=◌ ◌>>◌ text_eq
helped_calls = refl

abbrev only_helper : List Text
only_helper = text "helper" ∷ []

helped_module-Names : Names only_helper helped_module
unfolding contains
helped_module-Names name f e = elim (Bool-cases (text_eq (text "helper") name)) [
  | inl y ↦ rw y
  | inr n ↦ let none≡some = rw n at e in ground (arith, none≡some)
]

helped_llvm-Names : KeepsNames helped_llvm only_helper []
helped_llvm-Names h a = elim (Bool-cases (length h == 28)) [
  | inl y ↦ rw y helped_module-Names
  | inr n ↦ rw n helped_module-Names
]

-- Too deep a call is not an error here.
abbrev ignore : Callback ListProgram
ignore ctx function visited = ok ctx

transpile_function-eq-nested_example :
    transpile_function to_text helped_llvm 20 2 helped 4 []
    ≡ nested to_text helped_llvm 20 ignore 5 helped 4 []
unfolding unvisited contains
transpile_function-eq-nested_example =
    transpile_function-eq-nested to_text helped_llvm 20 only_helper [] helped_llvm-Names ignore 2 5
      helped 4 [] helped_module-Names as_before (omega arith) (omega arith)
