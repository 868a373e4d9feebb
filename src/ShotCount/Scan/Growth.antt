-- ===== src/ShotCount/Scan/Growth.antt =====
-- How the context changes in a scan for a shot-count loop (shot_count_block/pattern.rs).
use qcs_sdk_qir.Base.{ℕ, zero, suc, ◌≡◌, Option, none, some, List, [], ◌∷◌, ◌++◌, Text}
use qcs_sdk_qir.Base.Outcome.{
  ok, ok_or, Post, returns, raises, Post-then, Post-bind, Post-if, Post-imp, Post-eq_ok,
}
use qcs_sdk_qir.Llvm.{Instruction, Function, Opcode, call, Operand, left, pointer_value}
use qcs_sdk_qir.Quil.Program.{QuilProgram}
use qcs_sdk_qir.Context.{QcsCompilerContext}
use qcs_sdk_qir.Interop.Arguments.{to_str}
use qcs_sdk_qir.Pattern.Context.{shot_start, shot_end, PatternContext, Matched}
use qcs_sdk_qir.Pattern.Growth.{IsLater, IsLater-refl, IsLater-trans, MatchedLater}
use qcs_sdk_qir.Pattern.Growth.Steps.{
  push_output-IsLater, quantum_instruction-Later, rt_record_instruction-Later,
}
use qcs_sdk_qir.ShotCount.Loop.{ShotCountPatternMatchContext}
use qcs_sdk_qir.ShotCount.Loop.Keeps.{
  MatchedSame, shot_count_loop_start-MatchedSame, shot_count_loop_end-MatchedSame,
}
use qcs_sdk_qir.ShotCount.Scan.{
  Callback, Round, go_on, broken, seek_start, contains, call_known, call_named, call_operand,
  other_instruction, after_record, after_quantum, in_loop, scan_round, visit, resume, scan,
}

abbrev RoundLater : {P : Type 0} → ⦃q : QuilProgram P⦄ → PatternContext P → Round P → Type 0
RoundLater c (go_on next ctx pc) = IsLater c pc.common
RoundLater c (broken ctx pc) = IsLater c pc.common

module _ {P : Type 0} ⦃q : QuilProgram P⦄ (callback : Callback P) (visited : List Text)
    (ctx : QcsCompilerContext P) (pc : ShotCountPatternMatchContext P) (i : Instruction) where
  -- The fields of the state at the start of a round.
  abbrev Later : Round P → Type 0
  Later = RoundLater pc.common

  same : IsLater pc.common pc.common
  same = IsLater-refl pc.common

  call_known-Later :
      (name : Text) (o : Option Function) → Post Later (call_known callback visited ctx pc i name o)
  unfolding call_known
  call_known-Later name none = returns same
  call_known-Later name (some f) =
      Post-then (callback ctx f (visited ++ name ∷ [])) λ ctx'. returns same

  call_operand-Later : (o : Option Operand) → Post Later (call_operand callback visited ctx pc i o)
  unfolding call_operand call_named
  call_operand-Later (some (left (pointer_value p))) =
      Post-then (ok_or (to_str (ctx.llvm.get_pointer_name p)) _) λ name.
        Post-if (contains visited name) (returns same)
          (call_known-Later name (ctx.llvm.get_function name))
  call_operand-Later _ = returns same

  other_instruction-Later :
      (op : Opcode) → Post Later (other_instruction callback visited ctx pc i op)
  unfolding other_instruction
  other_instruction-Later call = call_operand-Later (ctx.llvm.get_operand i 0)
  other_instruction-Later _ = returns same

  after_record-Later :
      (o : Matched (ShotCountPatternMatchContext P))
      → MatchedSame pc o
      → Post Later (after_record callback visited ctx pc i o)
  unfolding after_record
  after_record-Later none e = other_instruction-Later (ctx.llvm.get_opcode i)
  after_record-Later (some (next, pc')) e = returns (rw e (push_output-IsLater shot_end pc.common))

  after_quantum-Later :
      (o : Matched (PatternContext P))
      → MatchedLater pc.common o
      → Post Later (after_quantum callback visited ctx pc i o)
  unfolding after_quantum
  after_quantum-Later (some (next, c)) h = returns h
  after_quantum-Later none h =
      Post-bind (shot_count_loop_end-MatchedSame ctx.llvm pc i) after_record-Later

  in_loop-Later :
      (o : Matched (PatternContext P))
      → MatchedLater pc.common o
      → Post Later (in_loop callback visited ctx pc i o)
  unfolding in_loop
  in_loop-Later (some (next, c)) h = returns h
  in_loop-Later none h =
      Post-bind (rt_record_instruction-Later ctx.llvm pc.common i) after_quantum-Later

  seek_start-Later :
      (o : Matched (ShotCountPatternMatchContext P))
      → MatchedSame pc o
      → Later (seek_start ctx pc i o)
  seek_start-Later none e = same
  seek_start-Later (some (next, pc')) e = rw e (push_output-IsLater shot_start pc.common)

  scan_round-Later : (o : Option Instruction) → Post Later (scan_round callback visited ctx pc i o)
  unfolding scan_round
  scan_round-Later none =
      returns (seek_start-Later _ (shot_count_loop_start-MatchedSame ctx.llvm pc i))
  scan_round-Later (some first) =
      Post-bind (quantum_instruction-Later ctx.llvm pc.common i) in_loop-Later

  visit-Later : Post Later (visit callback visited ctx pc i)
  unfolding visit
  visit-Later = scan_round-Later pc.initial_instruction

module _ {P : Type 0} ⦃q : QuilProgram P⦄ (callback : Callback P) (visited : List Text) where
  abbrev ResultLater :
      PatternContext P → QcsCompilerContext P × ShotCountPatternMatchContext P → Type 0
  ResultLater c r = IsLater c r.1.common

  abbrev ScanLater : ℕ → Type 0
  ScanLater fuel =
      (next : Option Instruction) (ctx : QcsCompilerContext P) (pc : ShotCountPatternMatchContext P)
      → Post (ResultLater pc.common) (scan callback visited fuel next ctx pc)

  resume-Later :
      (fuel : ℕ) (c : PatternContext P)
      → ScanLater fuel
      → (r : Round P) → RoundLater c r
      → Post (ResultLater c) (resume (scan callback visited fuel) r)
  resume-Later fuel c ih (go_on next ctx pc) h = Post-imp (ih next ctx pc) λ r k. IsLater-trans h k
  resume-Later fuel c ih (broken ctx pc) h = returns h

  scan-Later : (fuel : ℕ) → ScanLater fuel
  unfolding scan
  scan-Later fuel none ctx pc = returns (IsLater-refl pc.common)
  scan-Later zero (some i) ctx pc = raises
  scan-Later (suc fuel) (some i) ctx pc =
      Post-bind (visit-Later callback visited ctx pc i)
        (resume-Later fuel pc.common (scan-Later fuel))

  -- Where a scan for a shot-count loop succeeds from any point with any context and any
  -- callback, the body and the recorded output of the context stay a prefix of those of the
  -- result, and each parameter index and readout offset in use keeps its value.
  pub shot_count_scan-IsLater :
      (fuel : ℕ) (next : Option Instruction) (ctx ctx' : QcsCompilerContext P)
      (pc pc' : ShotCountPatternMatchContext P)
      → scan callback visited fuel next ctx pc ≡ ok (ctx', pc')
      → IsLater pc.common pc'.common
  shot_count_scan-IsLater fuel next ctx ctx' pc pc' e = Post-eq_ok (scan-Later fuel next ctx pc) e
