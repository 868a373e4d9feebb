-- ===== src/Examples/Growth.antt =====
-- The theorems on growing contexts, at scans that start in the middle of a block.
use qcs_sdk_qir.Base.{◌≡◌, refl, none, some, []}
use qcs_sdk_qir.Base.Outcome.{Result, Error, ok, err}
use qcs_sdk_qir.Quil.Sample.{ListProgram, list_program}
use qcs_sdk_qir.Context.{QcsCompilerContext}
use qcs_sdk_qir.Pattern.Context.{PatternContext, initial}
use qcs_sdk_qir.Pattern.Growth.{IsLater}
use qcs_sdk_qir.ShotCount.Loop.{ShotCountPatternMatchContext, start}
use qcs_sdk_qir.ShotCount.Scan as ShotCount
use qcs_sdk_qir.ShotCount.Scan.Growth.{shot_count_scan-IsLater}
use qcs_sdk_qir.ShotCount.Quil.{fail_on_nested_function_call}
use qcs_sdk_qir.Unitary.Scan as Unitary
use qcs_sdk_qir.Unitary.Scan.Growth.{unitary_scan-IsLater}
use qcs_sdk_qir.Examples.{shots_module, unitary_module, context}

abbrev or_initial : Result Error (PatternContext ListProgram) → PatternContext ListProgram
or_initial (ok c) = c
or_initial (err e) = initial

-- The scan of the first instruction and of the others after it, which end with the return.
abbrev halfway : PatternContext ListProgram
halfway =
    or_initial
      (Unitary.scan (record unitary_module { get_next_instruction = λ i. none }) 1 (some 1) initial)

abbrev finished : PatternContext ListProgram
finished = or_initial (Unitary.scan unitary_module 5 (some 2) halfway)

finished-eq : Unitary.scan unitary_module 5 (some 2) halfway ≡ ok finished
unfolding Unitary.scan list_program
finished-eq = refl

unitary_scan-IsLater_example : IsLater halfway finished
unitary_scan-IsLater_example =
    unitary_scan-IsLater unitary_module 5 (some 2) halfway finished finished-eq

abbrev looping : ShotCountPatternMatchContext ListProgram
looping = record start { initial_instruction = some 0; common = halfway }

abbrev Scanned : Type 0
Scanned = QcsCompilerContext ListProgram × ShotCountPatternMatchContext ListProgram

abbrev or_looping : Result Error Scanned → Scanned
or_looping (ok r) = r
or_looping (err e) = (context shots_module, looping)

abbrev looped : Scanned
looped =
    or_looping
      (ShotCount.scan fail_on_nested_function_call [] 5 (some 2) (context shots_module) looping)

looped-eq :
    ShotCount.scan fail_on_nested_function_call [] 5 (some 2) (context shots_module) looping
    ≡ ok (looped.0, looped.1)
unfolding ShotCount.scan list_program
looped-eq = refl

shot_count_scan-IsLater_example : IsLater halfway looped.1.common
shot_count_scan-IsLater_example =
    shot_count_scan-IsLater fail_on_nested_function_call [] 5 (some 2) (context shots_module)
      looped.0 looping looped.1 looped-eq
