-- ===== src/Interop/Removal.antt =====
-- src/interop/instruction.rs: `remove_instructions_in_safe_order`.
pub mod Order
use qcs_sdk_qir.Base.{
  ℕ, zero, suc, Bool, true, false, List, [], ◌∷◌, length, is_empty, if◌then◌else◌,
}
use qcs_sdk_qir.Base.Outcome.{Error, Result, ok, err, out_of_fuel, removal_stuck}
use qcs_sdk_qir.Llvm.{Instruction}

-- The part of a module that the removal looks at and changes, as LLVM keeps it: which instructions
-- are in use, and the module without an instruction. Nothing is asked of the two.
pub record UseStore (S : Type 0) : Type 0 where
  -- `get_first_use().is_some()`
  pub in_use : S → Instruction → Bool
  pub remove_from_basic_block : S → Instruction → S

-- What a round leaves: the module, the instructions that were kept, and whether one was removed.
pub record Round (S : Type 0) : Type 0 where
  pub store : S
  pub kept : List Instruction
  pub removed_in_round : Bool

module _ {S : Type 0} (u : UseStore S) where
  abbrev pub keep : Instruction → Round S → Round S
  keep i r = record r { kept = i ∷ r.kept }

  abbrev pub dropped : Round S → Round S
  dropped r = record r { removed_in_round = true }

  -- `instructions.retain(…)`
  unfoldable pub retain_used : S → List Instruction → Round S
  retain_used s [] = record { store = s; kept = []; removed_in_round = false }
  retain_used s (i ∷ is) = elim (u.in_use s i) [
    | true ↦ keep i (retain_used s is)
    | false ↦ dropped (retain_used (u.remove_from_basic_block s i) is)
  ]

  -- The end of a round: nothing is left, nothing was removed, or another round.
  abbrev pub after_round : (S → List Instruction → Result Error S) → Round S → Result Error S
  after_round again r =
      if is_empty r.kept
      then ok r.store
      else elim r.removed_in_round [ true ↦ again r.store r.kept | false ↦ err removal_stuck ]

  -- The loop, on fuel: one unit for each round.
  unfoldable pub removal_rounds : ℕ → S → List Instruction → Result Error S
  unfolding retain_used
  removal_rounds zero s is = err out_of_fuel
  removal_rounds (suc fuel) s is = after_round (removal_rounds fuel) (retain_used s is)

  -- A round that does not end the loop removes an instruction, so that this many rounds are enough.
  unfoldable pub remove_instructions_in_safe_order : S → List Instruction → Result Error S
  unfolding removal_rounds
  remove_instructions_in_safe_order s is = removal_rounds (suc (length is)) s is
