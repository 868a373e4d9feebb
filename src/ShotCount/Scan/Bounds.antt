-- ===== src/ShotCount/Scan/Bounds.antt =====
-- The invariant of the context in a scan for a shot-count loop (shot_count_block/pattern.rs).
use qcs_sdk_qir.Base.{
  ℕ, zero, suc, ◌≡◌, ◌∙◌, Option, none, some, List, [], ◌∷◌, ◌++◌, Text, All-imp,
}
use qcs_sdk_qir.Base.Outcome.{ok_or, Post, returns, raises, Post-then, Post-bind, Post-if}
use qcs_sdk_qir.Llvm.{
  Instruction, BasicBlock, Function, FloatValue, Opcode, call, Operand, left, pointer_value,
}
use qcs_sdk_qir.Quil.Program.{QuilProgram}
use qcs_sdk_qir.Context.{QcsCompilerContext}
use qcs_sdk_qir.Interop.Arguments.{to_str}
use qcs_sdk_qir.Pattern.Context.{shot_start, shot_end, PatternContext, Matched}
use qcs_sdk_qir.Pattern.Bounds.{IsWellFormed, initial-IsWellFormed}
use qcs_sdk_qir.Pattern.Bounds.Steps.{MatchedWellFormed, quantum_instruction-IsWellFormed}
use qcs_sdk_qir.Pattern.Bounds.Output.{push_output-IsWellFormed, rt_record_instruction-IsWellFormed}
use qcs_sdk_qir.ShotCount.Loop.{ShotCountPatternMatchContext, start}
use qcs_sdk_qir.ShotCount.Loop.Keeps.{
  MatchedSame, shot_count_loop_start-MatchedSame, shot_count_loop_end-MatchedSame,
}
use qcs_sdk_qir.ShotCount.Scan.{
  Callback, Round, go_on, broken, seek_start, contains, call_known, call_named, call_operand,
  other_instruction, after_record, after_quantum, in_loop, scan_round, visit, resume, scan,
  from_basic_block,
}

module _ {P : Type 0} where
  -- The two modules have the same constants.
  abbrev pub SameConstants : QcsCompilerContext P → QcsCompilerContext P → Type 0
  SameConstants ctx ctx' = (v : FloatValue) → ctx'.llvm.get_constant v ≡ ctx.llvm.get_constant v

  -- What a callback does to the module leaves its constants as they are, and keeps `J`.
  pub record KeepsConstants (J : QcsCompilerContext P → Type 0) (callback : Callback P)
      : Type 0 where
    pub keeps :
        (ctx : QcsCompilerContext P) (f : Function) (visited : List Text)
        → J ctx
        → Post (λ ctx'. SameConstants ctx ctx' × J ctx') (callback ctx f visited)

module _ {P : Type 0} ⦃q : QuilProgram P⦄ where
  SameConstants-IsWellFormed :
      (ctx ctx' : QcsCompilerContext P) {c : PatternContext P}
      → SameConstants ctx ctx'
      → IsWellFormed ctx.llvm c
      → IsWellFormed ctx'.llvm c
  SameConstants-IsWellFormed ctx ctx' {c} same w = record {
    dense = w.dense;
    program = w.program;
    outputs = w.outputs;
    readouts = w.readouts;
    dynamic = All-imp c.parameters (λ v h. same v ∙ h) w.dynamic;
  }

  -- What a round leaves is well formed.
  pub data RoundWellFormed (J : QcsCompilerContext P → Type 0) : Round P → Type 0 where
    going :
        {next : Option Instruction} {ctx : QcsCompilerContext P}
        {pc : ShotCountPatternMatchContext P}
        → IsWellFormed ctx.llvm pc.common
        → J ctx
        → RoundWellFormed J (go_on next ctx pc)
    done :
        {ctx : QcsCompilerContext P} {pc : ShotCountPatternMatchContext P}
        → IsWellFormed ctx.llvm pc.common
        → J ctx
        → RoundWellFormed J (broken ctx pc)

module _ {P : Type 0} ⦃q : QuilProgram P⦄ (J : QcsCompilerContext P → Type 0)
    (callback : Callback P) (k : KeepsConstants J callback) (visited : List Text)
    (ctx : QcsCompilerContext P) (pc : ShotCountPatternMatchContext P) (i : Instruction)
    (w : IsWellFormed ctx.llvm pc.common) (j : J ctx) where
  call_known-WellFormed :
      (name : Text) (o : Option Function)
      → Post (RoundWellFormed J) (call_known callback visited ctx pc i name o)
  unfolding call_known
  call_known-WellFormed name none = returns (going w j)
  call_known-WellFormed name (some f) =
      Post-bind (k.keeps ctx f (visited ++ name ∷ []) j)
        λ ctx' kept. returns (going (SameConstants-IsWellFormed ctx ctx' kept.0 w) kept.1)

  call_operand-WellFormed :
      (o : Option Operand) → Post (RoundWellFormed J) (call_operand callback visited ctx pc i o)
  unfolding call_operand call_named
  call_operand-WellFormed (some (left (pointer_value p))) =
      Post-then (ok_or (to_str (ctx.llvm.get_pointer_name p)) _) λ name.
        Post-if (contains visited name) (returns (going w j))
          (call_known-WellFormed name (ctx.llvm.get_function name))
  call_operand-WellFormed _ = returns (going w j)

  other_instruction-WellFormed :
      (op : Opcode) → Post (RoundWellFormed J) (other_instruction callback visited ctx pc i op)
  unfolding other_instruction
  other_instruction-WellFormed call = call_operand-WellFormed (ctx.llvm.get_operand i 0)
  other_instruction-WellFormed _ = returns (going w j)

  after_quantum-WellFormed :
      (o : Matched (PatternContext P))
      → MatchedWellFormed ctx.llvm o
      → Post (RoundWellFormed J) (after_quantum callback visited ctx pc i o)
  unfolding after_quantum after_record
  after_quantum-WellFormed (some (next, c)) h = returns (going h j)
  after_quantum-WellFormed none h = Post-bind (shot_count_loop_end-MatchedSame ctx.llvm pc i) ended
    where
      ended :
          (o : Matched (ShotCountPatternMatchContext P))
          → MatchedSame pc o
          → Post (RoundWellFormed J) (after_record callback visited ctx pc i o)
      ended none same = other_instruction-WellFormed (ctx.llvm.get_opcode i)
      ended (some (next, pc')) same =
          returns (done (push_output-IsWellFormed shot_end tt (rw same w)) j)

  in_loop-WellFormed :
      (o : Matched (PatternContext P))
      → MatchedWellFormed ctx.llvm o
      → Post (RoundWellFormed J) (in_loop callback visited ctx pc i o)
  unfolding in_loop
  in_loop-WellFormed (some (next, c)) h = returns (going h j)
  in_loop-WellFormed none h =
      Post-bind (rt_record_instruction-IsWellFormed ctx.llvm pc.common i w) after_quantum-WellFormed

  seek_start-WellFormed :
      (o : Matched (ShotCountPatternMatchContext P))
      → MatchedSame pc o
      → RoundWellFormed J (seek_start ctx pc i o)
  seek_start-WellFormed none same = going w j
  seek_start-WellFormed (some (next, pc')) same =
      going (push_output-IsWellFormed shot_start tt (rw same w)) j

  scan_round-WellFormed :
      (o : Option Instruction) → Post (RoundWellFormed J) (scan_round callback visited ctx pc i o)
  unfolding scan_round
  scan_round-WellFormed none =
      returns (seek_start-WellFormed _ (shot_count_loop_start-MatchedSame ctx.llvm pc i))
  scan_round-WellFormed (some first) =
      Post-bind (quantum_instruction-IsWellFormed ctx.llvm pc.common i w) in_loop-WellFormed

  pub visit-WellFormed : Post (RoundWellFormed J) (visit callback visited ctx pc i)
  unfolding visit
  visit-WellFormed = scan_round-WellFormed pc.initial_instruction

module _ {P : Type 0} ⦃q : QuilProgram P⦄ (J : QcsCompilerContext P → Type 0)
    (callback : Callback P) (k : KeepsConstants J callback) (visited : List Text) where
  abbrev pub ResultWellFormed : QcsCompilerContext P × ShotCountPatternMatchContext P → Type 0
  ResultWellFormed r = IsWellFormed r.0.llvm r.1.common × J r.0

  pub scan-WellFormed :
      (fuel : ℕ) (next : Option Instruction) (ctx : QcsCompilerContext P)
      (pc : ShotCountPatternMatchContext P)
      → IsWellFormed ctx.llvm pc.common
      → J ctx
      → Post ResultWellFormed (scan callback visited fuel next ctx pc)
  unfolding scan
  scan-WellFormed fuel none ctx pc w j = returns (w, j)
  scan-WellFormed zero (some i) ctx pc w j = raises
  scan-WellFormed (suc fuel) (some i) ctx pc w j =
      Post-bind (visit-WellFormed J callback k visited ctx pc i w j)
        (resumed (scan-WellFormed fuel))
    where
      resumed :
          ((next : Option Instruction) (ctx : QcsCompilerContext P)
              (pc : ShotCountPatternMatchContext P)
            → IsWellFormed ctx.llvm pc.common
            → J ctx
            → Post ResultWellFormed (scan callback visited fuel next ctx pc))
          → (r : Round P) → RoundWellFormed J r
          → Post ResultWellFormed (resume (scan callback visited fuel) r)
      resumed ih (go_on next ctx pc) (going h j) = ih next ctx pc h j
      resumed ih (broken ctx pc) (done h j) = returns (h, j)

  -- At the end of the scan of a block the context refers to nothing out of range.
  pub from_basic_block-WellFormed :
      (fuel : ℕ) (ctx : QcsCompilerContext P) (block : BasicBlock)
      → J ctx
      → Post ResultWellFormed (from_basic_block callback visited fuel ctx block)
  unfolding from_basic_block
  from_basic_block-WellFormed fuel ctx block =
      scan-WellFormed fuel _ ctx start (initial-IsWellFormed ctx.llvm)
