-- ===== src/Examples/Outputs.antt =====
-- The theorems on printed output and on copied programs at small inputs.
use qcs_sdk_qir.Base.{◌≡◌, refl, List, [], ◌∷◌, ◌++◌, map, none, some, All, arith, text}
use qcs_sdk_qir.Base.Int.{ℤ, pos, negsuc}
use qcs_sdk_qir.Base.Outcome.{ok}
use qcs_sdk_qir.Quil.Sample.{list_program}
use qcs_sdk_qir.Pattern.Context.{
  RecordedOutput, shot_start, shot_end, result_readout_offset, bool_readout_offset,
}
use qcs_sdk_qir.Output.{i8_data, try_format}
use qcs_sdk_qir.Output.Debug.{try_new, shot_line, result_line, debug_output_format}
use qcs_sdk_qir.Output.Render.{
  ShotSupports, render_shots, render, try_new-eq-render, try_new-Supports,
}
use qcs_sdk_qir.Output.Reading.{read_line, results_from, read-try_new}

-- Two shots; what follows the end of the shot is not reached.
abbrev two_shots : List (List ℤ)
two_shots = (pos 1 ∷ negsuc 1 ∷ []) ∷ (pos 10 ∷ pos 20 ∷ []) ∷ []

abbrev mapping : List RecordedOutput
mapping = shot_start ∷ result_readout_offset 1 ∷ shot_end ∷ bool_readout_offset 7 ∷ []

two_shots-supported : All (ShotSupports mapping) two_shots
two_shots-supported = ((tt, (omega arith, (tt, tt))), ((tt, (omega arith, (tt, tt))), tt))

try_format-test :
    try_format debug_output_format (i8_data two_shots) mapping
    ≡ ok (
        text "[shot:1 start]"
        ++ (10 ∷ text "[shot:1 result -2]"
            ++ (10 ∷ text "[shot:1 end]"
                ++ (10 ∷ text "[shot:2 start]"
                    ++ (10 ∷ text "[shot:2 result 20]" ++ (10 ∷ text "[shot:2 end]"))))))
unfolding try_format debug_output_format
try_format-test = refl

try_new-eq-render_example :
    try_new (i8_data two_shots) mapping ≡ ok (render_shots 0 two_shots mapping)
try_new-eq-render_example = try_new-eq-render two_shots mapping two_shots-supported

try_new-Supports_example :
    (shots : List (List ℤ)) × (i8_data two_shots ≡ i8_data shots) × All (ShotSupports mapping) shots
try_new-Supports_example =
    try_new-Supports (i8_data two_shots) mapping (render_shots 0 two_shots mapping)
      try_new-eq-render_example

read_line-test :
    map read_line (render_shots 0 two_shots mapping)
    ≡ (1, none) ∷ (1, some (negsuc 1)) ∷ (1, none) ∷ (2, none) ∷ (2, some (pos 20)) ∷ (2, none) ∷ []
unfolding read_line render_shots render shot_line result_line
read_line-test = refl

read-try_new_example :
    (shots : List (List ℤ)) × (i8_data two_shots ≡ i8_data shots)
    × (map read_line (render_shots 0 two_shots mapping) ≡ results_from 0 shots mapping)
read-try_new_example =
    read-try_new (i8_data two_shots) mapping (render_shots 0 two_shots mapping)
      (try_new-eq-render two_shots mapping two_shots-supported)
