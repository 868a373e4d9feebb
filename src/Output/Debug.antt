-- ===== src/Output/Debug.antt =====
-- src/output/debug.rs: the debug format.
use qcs_sdk_qir.Base.{ℕ, ◌+◌, Option, none, some, List, [], ◌∷◌, ◌++◌, Text, text, get_elem?}
use qcs_sdk_qir.Base.Int.{ℤ}
use qcs_sdk_qir.Base.Outcome.{Result, ok, err, ◌>>=◌}
use qcs_sdk_qir.Pattern.Context.{
  RecordedOutput, shot_start, shot_end, tuple_start, tuple_end, array_start, array_end,
  result_readout_offset, bool_readout_offset, integer_readout_offset, double_readout_offset,
}
use qcs_sdk_qir.Output.{
  FormatError, unimplemented_result_type, unimplemented_record_type, no_shot_data_at_index,
  RegisterData, i8_data, i16_data, f64_data, complex32_data, OutputFormat, join_lines,
}
use qcs_sdk_qir.Output.Decimal.{decimal, decimal_int}

-- `format!("[shot:{} <what>]", shot_id)`
unfoldable pub shot_line : ℕ → Text → Text
unfolding decimal
shot_line id what = text "[shot:" ++ (decimal id ++ (b' ' ∷ (what ++ text "]")))

-- `format!("[shot:{} result {}]", shot_id, result)`
unfoldable pub result_line : ℕ → ℤ → Text
unfolding shot_line decimal_int
result_line id result = shot_line id (text "result " ++ decimal_int result)

-- `format!("{:?}", recorded_output)` of the kinds that are not supported
abbrev pub debug_of : Text → ℕ → Text
debug_of name index = name ++ (b'(' ∷ (decimal index ++ text ")"))

unfoldable pub push_result : ℕ → ℕ → List Text → Option ℤ → Result FormatError (List Text)
unfolding result_line
push_result id index output (some result) = ok (output ++ result_line id result ∷ [])
push_result id index output none = err (no_shot_data_at_index id index)

-- The inner loop, over the recorded output; it breaks at the end of the shot.
unfoldable pub format_shot :
    ℕ → List ℤ → List RecordedOutput → List Text → Result FormatError (List Text)
unfolding push_result shot_line decimal
format_shot id shot [] output = ok output
format_shot id shot (shot_start ∷ mapping) output =
    format_shot id shot mapping (output ++ shot_line id (text "start") ∷ [])
format_shot id shot (shot_end ∷ mapping) output = ok (output ++ shot_line id (text "end") ∷ [])
format_shot id shot (result_readout_offset index ∷ mapping) output =
    push_result id index output (get_elem? shot index) >>= format_shot id shot mapping
format_shot id shot (bool_readout_offset index ∷ mapping) output =
    err (unimplemented_record_type (debug_of (text "BoolReadoutOffset") index))
format_shot id shot (integer_readout_offset index ∷ mapping) output =
    err (unimplemented_record_type (debug_of (text "IntegerReadoutOffset") index))
format_shot id shot (double_readout_offset index ∷ mapping) output =
    err (unimplemented_record_type (debug_of (text "DoubleReadoutOffset") index))
format_shot id shot (tuple_start ∷ mapping) output =
    format_shot id shot mapping (output ++ shot_line id (text "tuple_start") ∷ [])
format_shot id shot (tuple_end ∷ mapping) output =
    format_shot id shot mapping (output ++ shot_line id (text "tuple_end") ∷ [])
format_shot id shot (array_start ∷ mapping) output =
    format_shot id shot mapping (output ++ shot_line id (text "array_start") ∷ [])
format_shot id shot (array_end ∷ mapping) output =
    format_shot id shot mapping (output ++ shot_line id (text "array_end") ∷ [])

-- The outer loop, over the shots from `shot_idx` on.
unfoldable pub format_shots :
    ℕ → List (List ℤ) → List RecordedOutput → List Text → Result FormatError (List Text)
unfolding format_shot
format_shots shot_idx [] mapping output = ok output
format_shots shot_idx (shot ∷ shots) mapping output =
    format_shot (shot_idx + 1) shot mapping output >>= format_shots (shot_idx + 1) shots mapping

unfoldable pub try_new : RegisterData → List RecordedOutput → Result FormatError (List Text)
unfolding format_shots
try_new (i8_data shots) mapping = format_shots 0 shots mapping []
try_new (i16_data debug) mapping = err (unimplemented_result_type debug)
try_new (f64_data debug) mapping = err (unimplemented_result_type debug)
try_new (complex32_data debug) mapping = err (unimplemented_result_type debug)

-- `DebugOutputFormat`, whose only field is the list of its lines
unfoldable pub debug_output_format : OutputFormat (List Text)
unfolding try_new join_lines
debug_output_format = record { try_new = try_new; to_string = join_lines }
