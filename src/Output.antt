-- ===== src/Output.antt =====
-- src/output: the text that shows recorded output and the results of an execution.
pub mod Decimal
pub mod Debug
pub mod Reading
pub mod Render
pub mod Transpiled
use qcs_sdk_qir.Base.{ℕ, List, [], ◌∷◌, ◌++◌, Text}
use qcs_sdk_qir.Base.Int.{ℤ}
use qcs_sdk_qir.Base.Outcome.{Result, ok, ◌>>=◌}
use qcs_sdk_qir.Pattern.Context.{RecordedOutput}

-- output/mod.rs: Error
pub data FormatError : Type 0 where
  unimplemented_result_type : Text → FormatError
  unimplemented_record_type : Text → FormatError
  no_shot_data_at_index : ℕ → ℕ → FormatError

-- `qcs::RegisterData`: of the kinds that are not supported the code reads their `Debug` text only.
pub data RegisterData : Type 0 where
  i8_data : List (List ℤ) → RegisterData
  i16_data f64_data complex32_data : Text → RegisterData

-- The trait `OutputFormat`, with `to_string` from its supertrait `Display`.
pub record OutputFormat (F : Type 0) : Type 0 where
  pub try_new : RegisterData → List RecordedOutput → Result FormatError F
  pub to_string : F → Text

unfoldable pub try_format :
    {F : Type 0} → OutputFormat F → RegisterData → List RecordedOutput → Result FormatError Text
try_format format result mapping = do
  output ← format.try_new result mapping
  ok (format.to_string output)

-- `[String]::join("\n")`
unfoldable pub join_lines : List Text → Text
join_lines [] = []
join_lines (t ∷ []) = t
join_lines (t ∷ u ∷ ts) = t ++ (10 ∷ join_lines (u ∷ ts))
