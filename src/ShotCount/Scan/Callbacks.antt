-- ===== src/ShotCount/Scan/Callbacks.antt =====
-- What the callback keeps of the compiler's context, whatever it is, the scan of a block keeps.
use qcs_sdk_qir.Base.{ℕ, zero, suc, Option, none, some, List, [], ◌∷◌, ◌++◌, Text}
use qcs_sdk_qir.Base.Outcome.{Post, returns, raises, Post-bind, Post-then, Post-if, ok_or}
use qcs_sdk_qir.Llvm.{Instruction, BasicBlock, Function, Opcode, call, Operand, left, pointer_value}
use qcs_sdk_qir.Quil.Program.{QuilProgram}
use qcs_sdk_qir.Context.{QcsCompilerContext}
use qcs_sdk_qir.Interop.Arguments.{to_str}
use qcs_sdk_qir.Pattern.Context.{PatternContext, Matched}
use qcs_sdk_qir.Pattern.Record.{rt_record_instruction}
use qcs_sdk_qir.Pattern.Quantum.{quantum_instruction}
use qcs_sdk_qir.ShotCount.Loop.{ShotCountPatternMatchContext, shot_count_loop_end, start}
use qcs_sdk_qir.ShotCount.Scan.{
  Callback, Round, go_on, broken, contains, call_known, call_named, call_operand, other_instruction,
  after_record, after_quantum, in_loop, seek_start, scan_round, visit, resume, scan,
  from_basic_block,
}

module _ {P : Type 0} (J : QcsCompilerContext P → Type 0) where
  pub record Keeps (callback : Callback P) : Type 0 where
    pub keeps :
        (ctx : QcsCompilerContext P) (f : Function) (visited : List Text)
        → J ctx
        → Post J (callback ctx f visited)

  -- Of the context that a round leaves.
  pub data RoundKeeps : Round P → Type 0 where
    going :
        {next : Option Instruction} {ctx : QcsCompilerContext P}
        {pc : ShotCountPatternMatchContext P}
        → J ctx
        → RoundKeeps (go_on next ctx pc)
    done :
        {ctx : QcsCompilerContext P} {pc : ShotCountPatternMatchContext P}
        → J ctx
        → RoundKeeps (broken ctx pc)

module _ {P : Type 0} ⦃q : QuilProgram P⦄ (J : QcsCompilerContext P → Type 0)
    (callback : Callback P) (k : Keeps J callback) (visited : List Text)
    (ctx : QcsCompilerContext P) (pc : ShotCountPatternMatchContext P) (i : Instruction)
    (j : J ctx) where
  call_known-Keeps :
      (name : Text) (o : Option Function)
      → Post (RoundKeeps J) (call_known callback visited ctx pc i name o)
  unfolding call_known
  call_known-Keeps name none = returns (going j)
  call_known-Keeps name (some f) =
      Post-bind (k.keeps ctx f (visited ++ name ∷ []) j) λ ctx' kept. returns (going kept)

  call_operand-Keeps :
      (o : Option Operand) → Post (RoundKeeps J) (call_operand callback visited ctx pc i o)
  unfolding call_operand call_named
  call_operand-Keeps (some (left (pointer_value p))) =
      Post-then (ok_or (to_str (ctx.llvm.get_pointer_name p)) _) λ name.
        Post-if (contains visited name) (returns (going j))
          (call_known-Keeps name (ctx.llvm.get_function name))
  call_operand-Keeps _ = returns (going j)

  other_instruction-Keeps :
      (op : Opcode) → Post (RoundKeeps J) (other_instruction callback visited ctx pc i op)
  unfolding other_instruction
  other_instruction-Keeps call = call_operand-Keeps (ctx.llvm.get_operand i 0)
  other_instruction-Keeps _ = returns (going j)

  after_record-Keeps :
      (o : Matched (ShotCountPatternMatchContext P))
      → Post (RoundKeeps J) (after_record callback visited ctx pc i o)
  unfolding after_record
  after_record-Keeps none = other_instruction-Keeps (ctx.llvm.get_opcode i)
  after_record-Keeps (some (next, pc')) = returns (done j)

  after_quantum-Keeps :
      (o : Matched (PatternContext P))
      → Post (RoundKeeps J) (after_quantum callback visited ctx pc i o)
  unfolding after_quantum
  after_quantum-Keeps (some (next, c)) = returns (going j)
  after_quantum-Keeps none = Post-then (shot_count_loop_end ctx.llvm pc i) after_record-Keeps

  in_loop-Keeps :
      (o : Matched (PatternContext P)) → Post (RoundKeeps J) (in_loop callback visited ctx pc i o)
  unfolding in_loop
  in_loop-Keeps (some (next, c)) = returns (going j)
  in_loop-Keeps none = Post-then (rt_record_instruction ctx.llvm pc.common i) after_quantum-Keeps

  seek_start-Keeps :
      (o : Matched (ShotCountPatternMatchContext P)) → RoundKeeps J (seek_start ctx pc i o)
  seek_start-Keeps none = going j
  seek_start-Keeps (some (next, pc')) = going j

  scan_round-Keeps :
      (o : Option Instruction) → Post (RoundKeeps J) (scan_round callback visited ctx pc i o)
  unfolding scan_round
  scan_round-Keeps none = returns (seek_start-Keeps _)
  scan_round-Keeps (some first) = Post-then (quantum_instruction ctx.llvm pc.common i) in_loop-Keeps

  pub visit-Keeps : Post (RoundKeeps J) (visit callback visited ctx pc i)
  unfolding visit
  visit-Keeps = scan_round-Keeps pc.initial_instruction

module _ {P : Type 0} ⦃q : QuilProgram P⦄ (J : QcsCompilerContext P → Type 0)
    (callback : Callback P) (k : Keeps J callback) (visited : List Text) where
  abbrev ResultKeeps : QcsCompilerContext P × ShotCountPatternMatchContext P → Type 0
  ResultKeeps r = J r.0

  scan-Keeps :
      (fuel : ℕ) (next : Option Instruction) (ctx : QcsCompilerContext P)
      (pc : ShotCountPatternMatchContext P)
      → J ctx
      → Post ResultKeeps (scan callback visited fuel next ctx pc)
  unfolding scan
  scan-Keeps fuel none ctx pc j = returns j
  scan-Keeps zero (some i) ctx pc j = raises
  scan-Keeps (suc fuel) (some i) ctx pc j =
      Post-bind (visit-Keeps J callback k visited ctx pc i j) (resumed (scan-Keeps fuel))
    where
      resumed :
          ((next : Option Instruction) (ctx : QcsCompilerContext P)
              (pc : ShotCountPatternMatchContext P)
            → J ctx
            → Post ResultKeeps (scan callback visited fuel next ctx pc))
          → (r : Round P) → RoundKeeps J r
          → Post ResultKeeps (resume (scan callback visited fuel) r)
      resumed ih (go_on next ctx pc) (going h) = ih next ctx pc h
      resumed ih (broken ctx pc) (done h) = returns h

  pub from_basic_block-Keeps :
      (fuel : ℕ) (ctx : QcsCompilerContext P) (block : BasicBlock)
      → J ctx
      → Post ResultKeeps (from_basic_block callback visited fuel ctx block)
  unfolding from_basic_block
  from_basic_block-Keeps fuel ctx block =
      scan-Keeps fuel (ctx.llvm.get_first_instruction block) ctx start
