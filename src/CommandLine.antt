-- ===== src/CommandLine.antt =====
-- src/main.rs: the two commands, from the parsed arguments to what is written.
use qcs_sdk_qir.Base.{ℕ, Option, none, some, Text, text, text_eq, if◌then◌else◌}
use qcs_sdk_qir.Base.Outcome.{Error, Result, ok, err, ◌>>=◌, unrecognized_format}
use qcs_sdk_qir.Llvm.{Module}
use qcs_sdk_qir.Llvm.Builder.{Llvm, State}
use qcs_sdk_qir.Quil.Program.{QuilProgram}
use qcs_sdk_qir.ShotCount.Quil as ShotCount
use qcs_sdk_qir.Unitary.Quil as Unitary
use qcs_sdk_qir.Library.{
  PatchOptions, patch_qir_with_qcs, patch_unitary_qir_with_qcs, transpile_qir_to_quil,
  transpile_unitary_qir_to_quil,
}

pub data QirFormat : Type 0 where
  shot_count_format unitary_format : QirFormat

-- `QirFormat::from_str`
unfoldable pub format_from_str : Text → Result Error QirFormat
unfolding text_eq
format_from_str s =
    if text_eq s (text "shot-count")
    then ok shot_count_format
    else if text_eq s (text "unitary")
    then ok unitary_format
    else err unrecognized_format

-- `QcsQirCli`, with the options of the transformation as the `PatchOptions` they become.
pub data QcsQirCli : Type 0 where
  transform : QirFormat → PatchOptions → Text → Option Text → QcsQirCli
  transpile_to_quil : QirFormat → Text → QcsQirCli

-- What is written, and where.
pub data Written (P : Type 0) : Type 0 where
  bitcode_to_path : Text → State → Written P
  module_to_stderr : State → Written P
  shot_count_output : ShotCount.ProgramOutput P → Written P
  unitary_output : Unitary.ProgramOutput P → Written P

abbrev pub write_module : {P : Type 0} → Option Text → State → Written P
write_module (some path) s = bitcode_to_path path s
write_module none s = module_to_stderr s

-- `read` is `std::fs::read`, and `parse` is `load_module_from_bitcode`, over the bytes of a file.
module _ {P Bytes : Type 0} ⦃q : QuilProgram P⦄ (to_string : P → Text) (L : Llvm) (fuel depth : ℕ)
    (read : Text → Result Error Bytes) (parse : Bytes → Result Error Module) where
  unfoldable pub patch : QirFormat → PatchOptions → Result Error Module → Result Error State
  unfolding patch_qir_with_qcs patch_unitary_qir_with_qcs
  patch shot_count_format options parsed = patch_qir_with_qcs to_string L fuel depth options parsed
  patch unitary_format options parsed =
      patch_unitary_qir_with_qcs to_string L fuel depth options parsed

  unfoldable pub transpile : QirFormat → Result Error Module → Result Error (Written P)
  unfolding transpile_qir_to_quil transpile_unitary_qir_to_quil
  transpile shot_count_format parsed = do
    output ← transpile_qir_to_quil L fuel parsed
    ok (shot_count_output output)
  transpile unitary_format parsed = do
    output ← transpile_unitary_qir_to_quil L fuel parsed
    ok (unitary_output output)

  unfoldable pub main : QcsQirCli → Result Error (Written P)
  unfolding patch transpile
  main (transform format options path bitcode_out) = do
    bitcode ← read path
    s ← patch format options (parse bitcode)
    ok (write_module bitcode_out s)
  main (transpile_to_quil format path) = do
    data_read ← read path
    transpile format (parse data_read)
