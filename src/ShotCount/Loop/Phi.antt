-- ===== src/ShotCount/Loop/Phi.antt =====
-- What the match of the start of a loop has found (shot_count_block/pattern.rs).
use qcs_sdk_qir.Base.{◌≡◌, refl, none, some}
use qcs_sdk_qir.Llvm.{Module, Instruction, Opcode, phi}
use qcs_sdk_qir.Pattern.Context.{Matched}
use qcs_sdk_qir.ShotCount.Loop.{
  ShotCountPatternMatchContext, loop_start_by_opcode, shot_count_loop_start,
}

-- A match of the start of the loop has found a phi instruction.
abbrev pub MatchedPhi :
    {P : Type 0}
    → Module
    → ShotCountPatternMatchContext P
    → Instruction
    → Matched (ShotCountPatternMatchContext P)
    → Type 0
MatchedPhi m c i none = Unit {0}
MatchedPhi m c i (some (next, c')) =
    (m.get_opcode i ≡ phi) × (c'.initial_instruction ≡ some i) × (c'.shot_count ≡ c.shot_count)

module _ {P : Type 0} (m : Module) (c : ShotCountPatternMatchContext P) (i : Instruction) where
  loop_start_by_opcode-Phi :
      (op : Opcode) → m.get_opcode i ≡ op → MatchedPhi m c i (loop_start_by_opcode m c i op)
  unfolding loop_start_by_opcode
  loop_start_by_opcode-Phi phi e = (e, refl, refl)
  loop_start_by_opcode-Phi _ e = tt

  pub shot_count_loop_start-Phi : MatchedPhi m c i (shot_count_loop_start m c i)
  unfolding shot_count_loop_start
  shot_count_loop_start-Phi = loop_start_by_opcode-Phi (m.get_opcode i) refl
