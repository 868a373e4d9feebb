-- ===== src/Examples/Interop.antt =====
-- The theorems on LLVM's calls and functions at a small module.
use qcs_sdk_qir.Base.{◌≡◌, ◌↔◌, some, [], ◌∷◌, refl, List, Bool, false, not, ◌==◌, ◌||◌, ◌&&◌, ℕ}
use qcs_sdk_qir.Base.Outcome.{ok, err, removal_stuck}
use qcs_sdk_qir.Interop.Arguments.{qubit, parameter, get_qis_function_arguments}
use qcs_sdk_qir.Interop.Entrypoint.{get_entry_function}
use qcs_sdk_qir.Interop.Collected.{
  StandFor, get_qis_function_arguments_iff, IsEntryFunction, get_entry_function_iff,
}
use qcs_sdk_qir.Interop.Removal.{UseStore, remove_instructions_in_safe_order}
use qcs_sdk_qir.Interop.Removal.Order.{RemovalOutcome, remove_instructions_in_safe_order-Outcome}
use qcs_sdk_qir.Examples.{shots_module}

get_qis_function_arguments_iff_example :
    (get_qis_function_arguments shots_module 2 ≡ ok (parameter 7 ∷ qubit 0 ∷ [])) ↔ (
      (shots_module.get_num_operands 2 ≡ 3)
      × StandFor shots_module 2 0 (parameter 7 ∷ qubit 0 ∷ []))
get_qis_function_arguments_iff_example =
    get_qis_function_arguments_iff shots_module 2 (parameter 7 ∷ qubit 0 ∷ [])

get_entry_function_iff_example :
    (get_entry_function shots_module ≡ some 3) ↔ IsEntryFunction shots_module 3
get_entry_function_iff_example = get_entry_function_iff shots_module 3

abbrev has : List ℕ → ℕ → Bool
has [] i = false
has (j ∷ js) i = (j == i) || has js i

-- The state is what was removed; 1 is used by 2 as long as it is there, and 7 always.
abbrev uses : UseStore (List ℕ)
uses = record {
  in_use = λ s i. (i == 1 && not (has s 2)) || i == 7;
  remove_from_basic_block = λ s i. i ∷ s;
}

-- 1 is removed in the second round.
removal-test : remove_instructions_in_safe_order uses [] (1 ∷ 2 ∷ 3 ∷ []) ≡ ok (1 ∷ 3 ∷ 2 ∷ [])
unfolding remove_instructions_in_safe_order
removal-test = refl

removal_stuck-test : remove_instructions_in_safe_order uses [] (1 ∷ 7 ∷ 3 ∷ []) ≡ err removal_stuck
unfolding remove_instructions_in_safe_order
removal_stuck-test = refl

remove_instructions_in_safe_order-Outcome_example :
    RemovalOutcome uses []
      (1 ∷ 2 ∷ 3 ∷ [])
      (remove_instructions_in_safe_order uses [] (1 ∷ 2 ∷ 3 ∷ []))
remove_instructions_in_safe_order-Outcome_example =
    remove_instructions_in_safe_order-Outcome uses [] (1 ∷ 2 ∷ 3 ∷ [])
