-- ===== src/ShotCount/Scan.antt =====
-- `ShotCountPatternMatchContext::from_basic_block`: the scan of a block for a shot-count loop.
pub mod Callbacks
pub mod Depth
pub mod Refusal
pub mod Bounds
pub mod Growth
pub mod Count
pub mod Termination
use qcs_sdk_qir.Base.{
  ℕ, zero, suc, Bool, false, ◌||◌, Option, none, some, List, [], ◌∷◌, ◌++◌, Text, text_eq,
  if◌then◌else◌,
}
use qcs_sdk_qir.Base.Outcome.{Error, Result, ok, err, ok_or, ◌>>=◌, not_utf8, out_of_fuel}
use qcs_sdk_qir.Llvm.{Instruction, BasicBlock, Function, Opcode, call, Operand, left, pointer_value}
use qcs_sdk_qir.Quil.Program.{QuilProgram}
use qcs_sdk_qir.Context.{QcsCompilerContext}
use qcs_sdk_qir.Interop.Arguments.{to_str}
use qcs_sdk_qir.Pattern.Context.{RecordedOutput, shot_start, shot_end, PatternContext, Matched}
use qcs_sdk_qir.Pattern.Record.{push_output, rt_record_instruction}
use qcs_sdk_qir.Pattern.Quantum.{quantum_instruction}
use qcs_sdk_qir.ShotCount.Loop.{
  ShotCountPatternMatchContext, start, shot_count_loop_start, shot_count_loop_end,
}

-- `function_call_callback`: it may change the module, and gets the names visited so far.
abbrev pub Callback : Type 0 → Type 0
Callback P = QcsCompilerContext P → Function → List Text → Result Error (QcsCompilerContext P)

-- One round of the scan: where it goes on, or that it has broken off.
pub data Round (P : Type 0) : Type 0 where
  go_on : Option Instruction → QcsCompilerContext P → ShotCountPatternMatchContext P → Round P
  broken : QcsCompilerContext P → ShotCountPatternMatchContext P → Round P

unfoldable pub contains : List Text → Text → Bool
unfolding text_eq
contains [] t = false
contains (x ∷ xs) t = text_eq x t || contains xs t

module _ {P : Type 0} where
  abbrev pub record_loop :
      RecordedOutput → ShotCountPatternMatchContext P → ShotCountPatternMatchContext P
  record_loop r pc = record pc { common = push_output r pc.common }

  abbrev pub step_over :
      QcsCompilerContext P → ShotCountPatternMatchContext P → Instruction → Round P
  step_over ctx pc i = go_on (ctx.llvm.get_next_instruction i) ctx pc

  -- Before the start of the loop.
  abbrev pub seek_start :
      QcsCompilerContext P
      → ShotCountPatternMatchContext P
      → Instruction
      → Matched (ShotCountPatternMatchContext P)
      → Round P
  seek_start ctx pc i none = step_over ctx pc i
  seek_start ctx pc i (some (next, pc')) = go_on next ctx (record_loop shot_start pc')

  call_known :
      Callback P
      → List Text
      → QcsCompilerContext P
      → ShotCountPatternMatchContext P
      → Instruction
      → Text
      → Option Function
      → Result Error (Round P)
  call_known callback visited ctx pc i name none = ok (step_over ctx pc i)
  call_known callback visited ctx pc i name (some function) = do
    ctx' ← callback ctx function (visited ++ name ∷ [])
    ok (step_over ctx' pc i)

  call_named :
      Callback P
      → List Text
      → QcsCompilerContext P
      → ShotCountPatternMatchContext P
      → Instruction
      → Text
      → Result Error (Round P)
  call_named callback visited ctx pc i name =
      if contains visited name
      then ok (step_over ctx pc i)
      else call_known callback visited ctx pc i name (ctx.llvm.get_function name)

  -- The callee is looked for in the first operand.
  call_operand :
      Callback P
      → List Text
      → QcsCompilerContext P
      → ShotCountPatternMatchContext P
      → Instruction
      → Option Operand
      → Result Error (Round P)
  call_operand callback visited ctx pc i (some (left (pointer_value p))) = do
    name ← ok_or (to_str (ctx.llvm.get_pointer_name p)) not_utf8
    call_named callback visited ctx pc i name
  call_operand callback visited ctx pc i _ = ok (step_over ctx pc i)

  unfoldable pub other_instruction :
      Callback P
      → List Text
      → QcsCompilerContext P
      → ShotCountPatternMatchContext P
      → Instruction
      → Opcode
      → Result Error (Round P)
  unfolding call_operand call_named call_known contains
  other_instruction callback visited ctx pc i call =
      call_operand callback visited ctx pc i (ctx.llvm.get_operand i 0)
  other_instruction callback visited ctx pc i _ = ok (step_over ctx pc i)

  -- The last tests of the ladder, for an instruction that is no intrinsic.
  after_record :
      Callback P
      → List Text
      → QcsCompilerContext P
      → ShotCountPatternMatchContext P
      → Instruction
      → Matched (ShotCountPatternMatchContext P)
      → Result Error (Round P)
  after_record callback visited ctx pc i (some (_, pc')) =
      ok (broken ctx (record_loop shot_end pc'))
  after_record callback visited ctx pc i none =
      other_instruction callback visited ctx pc i (ctx.llvm.get_opcode i)

  after_quantum :
      Callback P
      → List Text
      → QcsCompilerContext P
      → ShotCountPatternMatchContext P
      → Instruction
      → Matched (PatternContext P)
      → Result Error (Round P)
  after_quantum callback visited ctx pc i (some (next, c)) =
      ok (go_on next ctx (record pc { common = c }))
  after_quantum callback visited ctx pc i none = do
    ended ← shot_count_loop_end ctx.llvm pc i
    after_record callback visited ctx pc i ended

module _ {P : Type 0} ⦃q : QuilProgram P⦄ where
  in_loop :
      Callback P
      → List Text
      → QcsCompilerContext P
      → ShotCountPatternMatchContext P
      → Instruction
      → Matched (PatternContext P)
      → Result Error (Round P)
  in_loop callback visited ctx pc i (some (next, c)) =
      ok (go_on next ctx (record pc { common = c }))
  in_loop callback visited ctx pc i none = do
    recorded ← rt_record_instruction ctx.llvm pc.common i
    after_quantum callback visited ctx pc i recorded

  -- The body of the `while let`.
  scan_round :
      Callback P
      → List Text
      → QcsCompilerContext P
      → ShotCountPatternMatchContext P
      → Instruction
      → Option Instruction
      → Result Error (Round P)
  scan_round callback visited ctx pc i none =
      ok (seek_start ctx pc i (shot_count_loop_start ctx.llvm pc i))
  scan_round callback visited ctx pc i (some _) = do
    matched ← quantum_instruction ctx.llvm pc.common i
    in_loop callback visited ctx pc i matched

  unfoldable pub visit :
      Callback P
      → List Text
      → QcsCompilerContext P
      → ShotCountPatternMatchContext P
      → Instruction
      → Result Error (Round P)
  unfolding scan_round in_loop after_quantum after_record other_instruction quantum_instruction
      rt_record_instruction shot_count_loop_start shot_count_loop_end
  visit callback visited ctx pc i = scan_round callback visited ctx pc i pc.initial_instruction

module _ {P : Type 0} where
  abbrev pub resume :
      (Option Instruction
        → QcsCompilerContext P
        → ShotCountPatternMatchContext P
        → Result Error (QcsCompilerContext P × ShotCountPatternMatchContext P))
      → Round P
      → Result Error (QcsCompilerContext P × ShotCountPatternMatchContext P)
  resume again (go_on next ctx pc) = again next ctx pc
  resume again (broken ctx pc) = ok (ctx, pc)

module _ {P : Type 0} ⦃q : QuilProgram P⦄ where
  -- The loop, on fuel: each round that goes on takes one unit.
  unfoldable pub scan :
      Callback P
      → List Text
      → ℕ
      → Option Instruction
      → QcsCompilerContext P
      → ShotCountPatternMatchContext P
      → Result Error (QcsCompilerContext P × ShotCountPatternMatchContext P)
  unfolding visit
  scan callback visited fuel none ctx pc = ok (ctx, pc)
  scan callback visited zero (some i) ctx pc = err out_of_fuel
  scan callback visited (suc fuel) (some i) ctx pc =
      visit callback visited ctx pc i >>= resume (scan callback visited fuel)

  unfoldable pub from_basic_block :
      Callback P
      → List Text
      → ℕ
      → QcsCompilerContext P
      → BasicBlock
      → Result Error (QcsCompilerContext P × ShotCountPatternMatchContext P)
  unfolding scan
  from_basic_block callback visited fuel ctx block =
      scan callback visited fuel (ctx.llvm.get_first_instruction block) ctx start
