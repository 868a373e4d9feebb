-- ===== src/ShotCount/Loop.antt =====
-- shot_count_block/pattern.rs: the context of the scan, and the two ends of the shot-count loop.
pub mod Keeps
pub mod Conditions
pub mod Count
pub mod Ends
pub mod Phi
use qcs_sdk_qir.Base.{
  ℕ, ◌==◌, Bool, true, false, ◌&&◌, Option, none, some, is_empty, and_then, option_eq,
  if◌then◌else◌,
}
use qcs_sdk_qir.Base.Int.{try_from}
use qcs_sdk_qir.Base.Outcome.{
  Error, Result, ok, err, ok_or, ◌>>=◌, no_operand_use, not_basic_value, no_constant,
  negative_shot_count, not_loop_variable, no_branch, not_branch, bad_shot_operand,
}
use qcs_sdk_qir.Llvm.{
  Module, Instruction, BasicBlock, IntValue, Opcode, phi, add, icmp, br, Operand, left, right,
  BasicValue, int_value,
}
use qcs_sdk_qir.Quil.Program.{QuilProgram}
use qcs_sdk_qir.Interop.Arguments.{operand_to_integer, integer_value_to_u64}
use qcs_sdk_qir.Pattern.Context.{PatternContext, initial, Matched}

-- `initial_instruction_hash` is written and never read, and is left out.
pub record ShotCountPatternMatchContext (P : Type 0) : Type 0 where
  pub initial_instruction : Option Instruction
  pub shot_count : Option ℕ
  pub next_basic_block : Option BasicBlock
  pub common : PatternContext P
  pub open common use *

-- `ShotCountPatternMatchContext::default()`
abbrev pub start : {P : Type 0} ⦃q : QuilProgram P⦄ → ShotCountPatternMatchContext P
start = record {
  initial_instruction = none;
  shot_count = none;
  next_basic_block = none;
  common = initial;
}

abbrev pub with_shots : {P : Type 0} → Option ℕ → Bool → P → Option (P × ℕ)
with_shots none empty p = none
with_shots (some shots) empty p = if empty then none else some (p, shots)

abbrev pub is_br : Opcode → Bool
is_br br = true
is_br _ = false

-- `map_or(false, |int_value| int_value == 1)`
abbrev pub is_one : Option ℕ → Bool
is_one none = false
is_one (some n) = n == 1

-- The second operand of the instruction is the constant 1.
unfoldable pub increment_is_one : Module → Instruction → Bool
unfolding operand_to_integer integer_value_to_u64
increment_is_one m i =
    is_one (and_then (and_then (m.get_operand i 1) operand_to_integer) (integer_value_to_u64 m))

abbrev pub basic_value : Operand → Result Error BasicValue
basic_value (left v) = ok v
basic_value (right b) = err not_basic_value

-- The instruction, if it is one, whose value is the first operand of the comparison.
unfoldable pub compared_instruction : Module → Instruction → Result Error (Option Instruction)
compared_instruction m next = do
  use_of_first ← ok_or (m.get_operand_use next 0) no_operand_use
  value ← basic_value (m.get_used_value use_of_first)
  ok (m.as_instruction value)

matches_loop_start : Module → Option Instruction → Instruction → Result Error Bool
matches_loop_start m none next = ok false
matches_loop_start m (some instr) next = do
  compared ← compared_instruction m next
  ok (option_eq compared (some instr))

-- The limit of the loop: a constant that is not negative.
unfoldable pub shots_of : Module → IntValue → Result Error ℕ
unfolding try_from
shots_of m v = do
  constant ← ok_or (m.get_sign_extended_constant v) no_constant
  ok_or (try_from constant) negative_shot_count

abbrev pub else_target : Option Operand → Option BasicBlock → Option BasicBlock
else_target (some (right b)) old = some b
else_target _ old = old

module _ {P : Type 0} where
  loop_branch :
      Module
      → ShotCountPatternMatchContext P
      → Instruction
      → ℕ
      → Instruction
      → Result Error (ShotCountPatternMatchContext P)
  loop_branch m c next shots final =
      if is_br (m.get_opcode final) && option_eq (m.get_first_use next) (m.get_operand_use final 0)
      then ok (record c {
        shot_count = some shots;
        next_basic_block = else_target (m.get_operand final 1) c.next_basic_block;
      })
      else err not_branch

  loop_limit :
      Module
      → ShotCountPatternMatchContext P
      → Instruction
      → Option Operand
      → Result Error (ShotCountPatternMatchContext P)
  loop_limit m c next (some (left (int_value v))) = do
    shots ← shots_of m v
    final ← ok_or (m.get_next_instruction next) no_branch
    loop_branch m c next shots final
  loop_limit m c next _ = err bad_shot_operand

  -- The error reads the compared operand once more, for its message.
  loop_compare :
      Module
      → ShotCountPatternMatchContext P
      → Instruction
      → Bool
      → Result Error (ShotCountPatternMatchContext P)
  loop_compare m c next true = loop_limit m c next (m.get_operand next 1)
  loop_compare m c next false = compared_instruction m next >>= λ _. err not_loop_variable

  loop_icmp :
      Module
      → ShotCountPatternMatchContext P
      → Instruction
      → Option Operand
      → Result Error (ShotCountPatternMatchContext P)
  loop_icmp m c next (some (left (int_value v))) = do
    same ← matches_loop_start m c.initial_instruction next
    loop_compare m c next same
  loop_icmp m c next _ = ok c

  loop_after :
      Module
      → ShotCountPatternMatchContext P
      → Instruction
      → Opcode
      → Result Error (ShotCountPatternMatchContext P)
  loop_after m c next icmp = loop_icmp m c next (m.get_operand next 0)
  loop_after m c next _ = ok c

  loop_next :
      Module
      → ShotCountPatternMatchContext P
      → Option Instruction
      → Result Error (Matched (ShotCountPatternMatchContext P))
  loop_next m c none = ok none
  loop_next m c (some next) = do
    c' ← loop_after m c next (m.get_opcode next)
    ok (some (m.get_next_instruction next, c'))

  loop_end_by_opcode :
      Module
      → ShotCountPatternMatchContext P
      → Instruction
      → Opcode
      → Result Error (Matched (ShotCountPatternMatchContext P))
  loop_end_by_opcode m c i add =
      if increment_is_one m i then loop_next m c (m.get_next_instruction i) else ok none
  loop_end_by_opcode m c i _ = ok none

  unfoldable pub shot_count_loop_end :
      Module
      → ShotCountPatternMatchContext P
      → Instruction
      → Result Error (Matched (ShotCountPatternMatchContext P))
  unfolding loop_end_by_opcode loop_next loop_after loop_icmp loop_compare loop_limit loop_branch
      matches_loop_start increment_is_one compared_instruction shots_of option_eq
  shot_count_loop_end m c i = loop_end_by_opcode m c i (m.get_opcode i)

  loop_start_by_opcode :
      Module
      → ShotCountPatternMatchContext P
      → Instruction
      → Opcode
      → Matched (ShotCountPatternMatchContext P)
  loop_start_by_opcode m c i phi =
      some (m.get_next_instruction i, record c { initial_instruction = some i })
  loop_start_by_opcode m c i _ = none

  unfoldable pub shot_count_loop_start :
      Module
      → ShotCountPatternMatchContext P
      → Instruction
      → Matched (ShotCountPatternMatchContext P)
  unfolding loop_start_by_opcode
  shot_count_loop_start m c i = loop_start_by_opcode m c i (m.get_opcode i)

module _ {P : Type 0} ⦃q : QuilProgram P⦄ where
  -- The program and the shot count, if both have been found.
  unfoldable pub get_program_data : ShotCountPatternMatchContext P → Option (P × ℕ)
  get_program_data c =
      with_shots c.shot_count (is_empty (q.to_instructions c.quil_program false)) c.quil_program
