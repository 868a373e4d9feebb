-- ===== src/Examples/Surprises.antt =====
-- Tests of behaviour that the comments of the code do not suggest, at variants of the modules.
use qcs_sdk_qir.Base.{
  ℕ, ◌==◌, ◌≡◌, refl, true, Option, none, some, List, [], ◌∷◌, text, text_eq, get_elem?,
  if◌then◌else◌,
}
use qcs_sdk_qir.Base.Outcome.{Error, Result, ok, err, nested_call, pattern_missing}
use qcs_sdk_qir.Llvm.{Module, other, Operand, utf8}
use qcs_sdk_qir.Quil.{Declaration, parameter_region}
use qcs_sdk_qir.Quil.Program.{region, find_region}
use qcs_sdk_qir.Quil.Sample.{ListProgram, list_program}
use qcs_sdk_qir.ShotCount.Quil.{ProgramOutput, transpile_module}
use qcs_sdk_qir.Examples.{nth, opcodes, pointer, pointer_names, shots_module, context}

-- Instruction 5 calls a function of the module, with these operands.
abbrev calling : List Operand → Module
calling os = record shots_module {
  get_num_operands = λ i. if i == 5 then 2 else shots_module.get_num_operands i;
  get_operand = λ i k. if i == 5 then get_elem? os k else shots_module.get_operand i k;
  get_pointer_name = λ p. if p == 6 then utf8 (text "helper") else utf8 (nth [] pointer_names p);
  get_function = λ t. if text_eq t (text "helper") then some 8 else none;
}

abbrev shots_of : Result Error (ProgramOutput ListProgram) → Option ℕ
shots_of (ok out) = some out.shot_count
shots_of (err e) = none

-- With an argument in front of the callee the call is not seen to be nested, and is left out.
call_with_argument :
    shots_of (transpile_module 20 (context (calling (pointer 1 ∷ pointer 6 ∷ [])))) ≡ some 100
unfolding transpile_module list_program
call_with_argument = refl

-- Where the first operand is the function, the call is refused.
call_seen :
    transpile_module {P = ListProgram} 20 (context (calling (pointer 6 ∷ pointer 6 ∷ [])))
    ≡ err (nested_call 8)
unfolding transpile_module list_program
call_seen = refl

-- An addition of 1 that no comparison follows ends the scan, and the pattern is not found.
stray_addition :
    transpile_module {P = ListProgram} 20 (
      context
        (record shots_module { get_opcode = λ i. if i == 7 then other else nth other opcodes i }))
    ≡ err pattern_missing
unfolding transpile_module list_program
stray_addition = refl

abbrev parameters_of : Result Error (ProgramOutput ListProgram) → Option Declaration
parameters_of (ok out) = region out.program parameter_region
parameters_of (err e) = none

-- A constant without a literal value is referred to, but its region is not declared.
constant_expression :
    parameters_of (transpile_module 20 (context (record shots_module { is_const = λ v. true })))
    ≡ none
unfolding transpile_module list_program find_region
constant_expression = refl
