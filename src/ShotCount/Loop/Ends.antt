-- ===== src/ShotCount/Loop/Ends.antt =====
-- The ends of loops that shot_count_block/pattern.rs recognizes.
use qcs_sdk_qir.Base.{ℕ, ◌≡◌, Option, some}
use qcs_sdk_qir.Base.Outcome.{ok}
use qcs_sdk_qir.Llvm.{Module, Instruction}
use qcs_sdk_qir.ShotCount.Loop.{ShotCountPatternMatchContext, shot_count_loop_end}

module _ {P : Type 0} (m : Module) (c : ShotCountPatternMatchContext P) where
  -- The instruction is matched as the end of a loop, with that shot count.
  abbrev pub EndsWith : Instruction → ℕ → Type 0
  EndsWith i shots =
      (next : Option Instruction) × (c' : ShotCountPatternMatchContext P) × (shot_count_loop_end m c
          i
        ≡ ok (some (next, c')))
      × (c'.shot_count ≡ some shots)
