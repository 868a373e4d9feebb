-- ===== src/Interop/Branches.antt =====
-- src/interop/instruction.rs: the targets of branches and the clauses of phi instructions.
pub mod Phi
pub mod Loop
use qcs_sdk_qir.Base.{
  ℕ, zero, suc, ◌==◌, ◌-◌, Bool, true, false, not, Option, none, some, List, [], ◌∷◌, ◌++◌,
  if◌then◌else◌,
}
use qcs_sdk_qir.Base.Outcome.{
  Error, no_parent, no_block_target, no_comparison, no_first_instruction, no_incoming, not_a_phi,
  out_of_fuel,
}
use qcs_sdk_qir.Llvm.{
  Module, Instruction, BasicBlock, IntValue, BasicValue, PhiValue, Operand, left, right, int_value,
  Opcode, phi,
}
use qcs_sdk_qir.Llvm.Builder.{
  i64, Llvm, Build, pure, perform, required, module_now, position_at, position_before,
  build_conditional_branch, build_phi, add_incoming, replace_uses, remove_from_basic_block, ◌>>=◌,
  ◌>>◌,
}

-- `if let Some(Either::Right(target)) = operand`
abbrev pub block_of : Option Operand → Option BasicBlock
block_of (some (right b)) = some b
block_of _ = none

abbrev pub int_of : Option Operand → Option IntValue
int_of (some (left (int_value v))) = some v
int_of _ = none

unfoldable pub get_conditional_branch_else_target : Module → Instruction → Option BasicBlock
get_conditional_branch_else_target m i = block_of (m.get_operand i 1)

-- `unwrap_or`
abbrev pub given_or : Option BasicBlock → BasicBlock → BasicBlock
given_or (some b) d = b
given_or none d = d

abbrev xor : Bool → Bool → Bool
xor true b = not b
xor false b = b

-- The block that a clause names in the new phi.
unfoldable pub redirect : BasicBlock → BasicBlock → Bool → BasicBlock → BasicBlock
redirect old new reverse_match b = if xor reverse_match (b == old) then new else b

abbrev pub is_phi : Opcode → Bool
is_phi phi = true
is_phi _ = false

module _ (L : Llvm) where
  unfoldable pub replace_conditional_branch_target :
      Instruction → Option BasicBlock → Option BasicBlock → Build (Unit {0})
  unfolding perform
  replace_conditional_branch_target i replace_then replace_else = do
    m ← module_now
    parent ← required (m.get_parent i) no_parent
    perform L (position_at parent i)
    m' ← module_now
    original_then ← required (block_of (m'.get_operand i 2)) no_block_target
    original_else ← required (block_of (m'.get_operand i 1)) no_block_target
    comparison ← required (int_of (m'.get_operand i 0)) no_comparison
    new ← perform L (
        build_conditional_branch comparison (given_or replace_then original_then)
          (given_or replace_else original_else))
    perform L (replace_uses i new)
    perform L (remove_from_basic_block i)
    pure tt

  -- The new clauses, from the index on: `n` of them are left.
  unfoldable pub new_incoming :
      PhiValue → BasicBlock → BasicBlock → Bool → ℕ → ℕ → Build (List (BasicValue × BasicBlock))
  unfolding redirect
  new_incoming i old new reverse_match index zero = pure []
  new_incoming i old new reverse_match index (suc n) = do
    m ← module_now
    (value, block) ← required (m.get_incoming i index) no_incoming
    rest ← new_incoming i old new reverse_match (suc index) n
    pure ((value, redirect old new reverse_match block) ∷ rest)

  unfoldable pub replace_phi_clause : PhiValue → BasicBlock → BasicBlock → Bool → Build (Unit {0})
  unfolding perform new_incoming
  replace_phi_clause i old new reverse_match = do
    m ← module_now
    parent ← required (m.get_parent (m.phi_instruction i)) no_parent
    first ← required (m.get_first_instruction parent) no_first_instruction
    perform L (position_before first)
    m' ← module_now
    incoming ← new_incoming i old new reverse_match 0 (m'.count_incoming i)
    new_phi ← perform L (build_phi i64)
    perform L (add_incoming new_phi incoming)
    perform L (replace_uses (m'.phi_instruction i) new_phi)
    perform L (remove_from_basic_block (m'.phi_instruction i))
    pure tt

  -- `if current_instruction.get_opcode() == Phi { … }`
  unfoldable pub replace_if_phi :
      Instruction → BasicBlock → BasicBlock → Bool → Bool → Build (Unit {0})
  unfolding replace_phi_clause
  replace_if_phi i old new reverse_match false = pure tt
  replace_if_phi i old new reverse_match true = do
    m ← module_now
    v ← required (m.try_into_phi i) not_a_phi
    replace_phi_clause v old new reverse_match

  -- The loop over the block's instructions, on fuel: one unit for each.
  unfoldable pub replace_phis_from :
      ℕ → Option Instruction → BasicBlock → BasicBlock → Bool → Build (Unit {0})
  unfolding replace_if_phi
  replace_phis_from fuel none old new reverse_match = pure tt
  replace_phis_from zero (some i) old new reverse_match = required none out_of_fuel
  replace_phis_from (suc fuel) (some i) old new reverse_match = do
    m ← module_now
    replace_if_phi i old new reverse_match (is_phi (m.get_opcode i))
    replace_phis_from fuel (m.get_next_instruction i) old new reverse_match

  unfoldable pub replace_phi_clauses :
      ℕ → BasicBlock → BasicBlock → BasicBlock → Bool → Build (Unit {0})
  unfolding replace_phis_from
  replace_phi_clauses fuel within old new reverse_match = do
    m ← module_now
    replace_phis_from fuel (m.get_first_instruction within) old new reverse_match
