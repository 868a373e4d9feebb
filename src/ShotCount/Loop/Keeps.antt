-- ===== src/ShotCount/Loop/Keeps.antt =====
-- The common fields of the context at the two ends of the loop (shot_count_block/pattern.rs).
use qcs_sdk_qir.Base.{◌≡◌, refl, Bool, true, false, Option, none, some}
use qcs_sdk_qir.Base.Outcome.{Post, returns, raises, Post-then, Post-bind, Post-if, ok_or}
use qcs_sdk_qir.Llvm.{Module, Instruction, Opcode, phi, add, icmp, Operand, left, int_value}
use qcs_sdk_qir.Pattern.Context.{Matched}
use qcs_sdk_qir.Pattern.Progress.{GoesToNext}
use qcs_sdk_qir.ShotCount.Loop.{
  ShotCountPatternMatchContext, shots_of, compared_instruction, matches_loop_start,
  increment_is_one, loop_branch, loop_limit, loop_compare, loop_icmp, loop_after, loop_next,
  loop_end_by_opcode, shot_count_loop_end, loop_start_by_opcode, shot_count_loop_start,
}

module _ {P : Type 0} where
  abbrev pub SameCommon : ShotCountPatternMatchContext P → ShotCountPatternMatchContext P → Type 0
  SameCommon c c' = c'.common ≡ c.common

  abbrev pub MatchedSame :
      ShotCountPatternMatchContext P → Matched (ShotCountPatternMatchContext P) → Type 0
  MatchedSame c none = Unit {0}
  MatchedSame c (some (next, c')) = SameCommon c c'

module _ {P : Type 0} (m : Module) (c : ShotCountPatternMatchContext P) where
  loop_limit-SameCommon :
      (next : Instruction) (o : Option Operand) → Post (SameCommon c) (loop_limit m c next o)
  unfolding loop_limit loop_branch
  loop_limit-SameCommon next (some (left (int_value v))) = Post-then (shots_of m v) λ shots.
      Post-then (ok_or (m.get_next_instruction next) _) λ final. Post-if _ (returns refl) raises
  loop_limit-SameCommon next _ = raises

  loop_compare-SameCommon :
      (next : Instruction) (same : Bool) → Post (SameCommon c) (loop_compare m c next same)
  unfolding loop_compare
  loop_compare-SameCommon next true = loop_limit-SameCommon next (m.get_operand next 1)
  loop_compare-SameCommon next false = Post-then (compared_instruction m next) λ _. raises

  loop_icmp-SameCommon :
      (next : Instruction) (o : Option Operand) → Post (SameCommon c) (loop_icmp m c next o)
  unfolding loop_icmp
  loop_icmp-SameCommon next (some (left (int_value v))) =
      Post-then (matches_loop_start m c.initial_instruction next) (loop_compare-SameCommon next)
  loop_icmp-SameCommon next _ = returns refl

  loop_after-SameCommon :
      (next : Instruction) (op : Opcode) → Post (SameCommon c) (loop_after m c next op)
  unfolding loop_after
  loop_after-SameCommon next icmp = loop_icmp-SameCommon next (m.get_operand next 0)
  loop_after-SameCommon next _ = returns refl

  loop_next-MatchedSame : (o : Option Instruction) → Post (MatchedSame c) (loop_next m c o)
  unfolding loop_next
  loop_next-MatchedSame none = returns tt
  loop_next-MatchedSame (some next) =
      Post-bind (loop_after-SameCommon next (m.get_opcode next)) λ c' h. returns h

  loop_end_by_opcode-MatchedSame :
      (i : Instruction) (op : Opcode) → Post (MatchedSame c) (loop_end_by_opcode m c i op)
  unfolding loop_end_by_opcode
  loop_end_by_opcode-MatchedSame i add =
      Post-if (increment_is_one m i) (loop_next-MatchedSame (m.get_next_instruction i)) (returns tt)
  loop_end_by_opcode-MatchedSame i _ = returns tt

  pub shot_count_loop_end-MatchedSame :
      (i : Instruction) → Post (MatchedSame c) (shot_count_loop_end m c i)
  unfolding shot_count_loop_end
  shot_count_loop_end-MatchedSame i = loop_end_by_opcode-MatchedSame i (m.get_opcode i)

  loop_start_by_opcode-MatchedSame :
      (i : Instruction) (op : Opcode) → MatchedSame c (loop_start_by_opcode m c i op)
  unfolding loop_start_by_opcode
  loop_start_by_opcode-MatchedSame i phi = refl
  loop_start_by_opcode-MatchedSame i _ = tt

  pub shot_count_loop_start-MatchedSame :
      (i : Instruction) → MatchedSame c (shot_count_loop_start m c i)
  unfolding shot_count_loop_start
  shot_count_loop_start-MatchedSame i = loop_start_by_opcode-MatchedSame i (m.get_opcode i)

module _ {P : Type 0} (m : Module) (c : ShotCountPatternMatchContext P) where
  loop_start_by_opcode-GoesToNext :
      (i : Instruction) (op : Opcode) → GoesToNext m i (loop_start_by_opcode m c i op)
  unfolding loop_start_by_opcode
  loop_start_by_opcode-GoesToNext i phi = refl
  loop_start_by_opcode-GoesToNext i _ = tt

  pub shot_count_loop_start-GoesToNext :
      (i : Instruction) → GoesToNext m i (shot_count_loop_start m c i)
  unfolding shot_count_loop_start
  shot_count_loop_start-GoesToNext i = loop_start_by_opcode-GoesToNext i (m.get_opcode i)
