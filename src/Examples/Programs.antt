-- ===== src/Examples/Programs.antt =====
-- The transpilers' theorems at the two modules.
use qcs_sdk_qir.Base.{◌≡◌, refl, some, List, [], ◌∷◌, arith, text}
use qcs_sdk_qir.Base.Int.{ℤ, pos}
use qcs_sdk_qir.Base.Outcome.{Result, Error, ok, err}
use qcs_sdk_qir.Quil.{
  Instruction, gate, measurement, number, address, fixed, dagger, parameter_region, ro, bit,
}
use qcs_sdk_qir.Quil.Program.{body, region, find_region}
use qcs_sdk_qir.Quil.Sample.{ListProgram, empty, list_program}
use qcs_sdk_qir.Pattern.Assemble.Safety.{LiteralConstants, IsSelfContained}
use qcs_sdk_qir.ShotCount.Quil as ShotCount
use qcs_sdk_qir.ShotCount.Quil.Safety.{transpile_module-IsSelfContained}
use qcs_sdk_qir.ShotCount.Quil.Count.{transpile_module-IsLoop}
use qcs_sdk_qir.ShotCount.Scan.Count.{IsLoop}
use qcs_sdk_qir.Unitary.Quil as Unitary
use qcs_sdk_qir.Unitary.Quil.Safety.{unitary_module-IsSelfContained}
use qcs_sdk_qir.Output.{i8_data}
use qcs_sdk_qir.Output.Debug.{try_new}
use qcs_sdk_qir.Output.Render.{render_shots}
use qcs_sdk_qir.Output.Transpiled.{shot_count_output-renders, unitary_output-renders}
use qcs_sdk_qir.Examples.{shots_module, unitary_module, context}

shots_module-literals : LiteralConstants shots_module
shots_module-literals = record { literal = λ v h. ground arith }

unitary_module-literals : LiteralConstants unitary_module
unitary_module-literals = record { literal = λ v h. ground arith }

abbrev shots_result : Result Error (ShotCount.ProgramOutput ListProgram)
shots_result = ShotCount.transpile_module 20 (context shots_module)

abbrev shots_or_empty :
    Result Error (ShotCount.ProgramOutput ListProgram) → ShotCount.ProgramOutput ListProgram
shots_or_empty (ok out) = out
shots_or_empty (err e) = record { program = empty; shot_count = 0; recorded_output = [] }

abbrev shots_output : ShotCount.ProgramOutput ListProgram
shots_output = shots_or_empty shots_result

shots_result-eq : shots_result ≡ ok shots_output
unfolding ShotCount.transpile_module list_program
shots_result-eq = refl

-- h, the adjoint of rx with the first parameter, rz with a constant, and the measurement
abbrev expected : List Instruction
expected =
    gate (record { name = text "H"; parameters = []; qubits = fixed 0 ∷ []; modifiers = [] })
    ∷ gate (record {
      name = text "RX";
      parameters = address (record { name = parameter_region; index = 0 }) ∷ [];
      qubits = fixed 0 ∷ [];
      modifiers = dagger ∷ [];
    })
    ∷ gate (record {
      name = text "RZ";
      parameters = number 5 ∷ [];
      qubits = fixed 0 ∷ [];
      modifiers = [];
    })
    ∷ measurement (record { target = some (record { name = ro; index = 0 }); qubit = fixed 0 })
    ∷ []

shots_count-test : shots_output.shot_count ≡ 100
unfolding ShotCount.transpile_module list_program
shots_count-test = refl

shots_body-test : body shots_output.program ≡ expected
unfolding ShotCount.transpile_module list_program
shots_body-test = refl

abbrev unitary_result : Result Error (Unitary.ProgramOutput ListProgram)
unitary_result = Unitary.transpile_module 20 (context unitary_module)

abbrev unitary_or_empty :
    Result Error (Unitary.ProgramOutput ListProgram) → Unitary.ProgramOutput ListProgram
unitary_or_empty (ok out) = out
unitary_or_empty (err e) = record { program = empty; recorded_output = [] }

abbrev unitary_output : Unitary.ProgramOutput ListProgram
unitary_output = unitary_or_empty unitary_result

unitary_result-eq : unitary_result ≡ ok unitary_output
unfolding Unitary.transpile_module list_program
unitary_result-eq = refl

unitary_body-test : body unitary_output.program ≡ expected
unfolding Unitary.transpile_module list_program
unitary_body-test = refl

transpile_module-IsSelfContained_example :
    IsSelfContained shots_output.program shots_output.recorded_output
transpile_module-IsSelfContained_example =
    transpile_module-IsSelfContained 20 (context shots_module) shots_output shots_module-literals
      shots_result-eq

unitary_module-IsSelfContained_example :
    IsSelfContained unitary_output.program unitary_output.recorded_output
unitary_module-IsSelfContained_example =
    unitary_module-IsSelfContained 20 (context unitary_module) unitary_output
      unitary_module-literals unitary_result-eq

transpile_module-IsLoop_example : IsLoop shots_module shots_output.shot_count
transpile_module-IsLoop_example =
    transpile_module-IsLoop 20 (context shots_module) shots_output shots_result-eq

abbrev shots_data : List (List ℤ)
shots_data = (pos 1 ∷ []) ∷ (pos 0 ∷ []) ∷ []

shots_region :
    region shots_output.program ro ≡ some (record { name = ro; data_type = bit; size = 1 })
unfolding ShotCount.transpile_module list_program find_region
shots_region = refl

unitary_region :
    region unitary_output.program ro ≡ some (record { name = ro; data_type = bit; size = 1 })
unfolding Unitary.transpile_module list_program find_region
unitary_region = refl

shot_count_output-renders_example :
    try_new (i8_data shots_data) shots_output.recorded_output
    ≡ ok (render_shots 0 shots_data shots_output.recorded_output)
shot_count_output-renders_example =
    shot_count_output-renders 20 (context shots_module) shots_output _ shots_data
      shots_module-literals shots_result-eq shots_region (omega arith, (omega arith, tt))

unitary_output-renders_example :
    try_new (i8_data shots_data) unitary_output.recorded_output
    ≡ ok (render_shots 0 shots_data unitary_output.recorded_output)
unitary_output-renders_example =
    unitary_output-renders 20 (context unitary_module) unitary_output _ shots_data
      unitary_module-literals unitary_result-eq unitary_region (omega arith, (omega arith, tt))
