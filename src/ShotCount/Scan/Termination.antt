-- ===== src/ShotCount/Scan/Termination.antt =====
-- The scan of a block and a walk over the block's instructions (shot_count_block/pattern.rs).
use qcs_sdk_qir.Base.{
  ℕ, zero, suc, ◌≤◌, ◌≡◌, refl, Option, none, some, List, [], ◌∷◌, ◌++◌, length, Text, arith,
}
use qcs_sdk_qir.Base.Outcome.{
  Error, Result, ok, ok_or, ◌>>=◌, Post, returns, Post-then, Post-bind, Post-if, bind_congr,
}
use qcs_sdk_qir.Llvm.{Instruction, BasicBlock, Function, Opcode, call, Operand, left, pointer_value}
use qcs_sdk_qir.Llvm.Chain.{IsChain}
use qcs_sdk_qir.Quil.Program.{QuilProgram}
use qcs_sdk_qir.Context.{QcsCompilerContext}
use qcs_sdk_qir.Interop.Arguments.{to_str}
use qcs_sdk_qir.Pattern.Context.{PatternContext, Matched}
use qcs_sdk_qir.Pattern.Progress.{
  GoesToNext, quantum_instruction-GoesToNext, rt_record_instruction-GoesToNext,
}
use qcs_sdk_qir.ShotCount.Loop.{ShotCountPatternMatchContext, start, shot_count_loop_end}
use qcs_sdk_qir.ShotCount.Loop.Keeps.{shot_count_loop_start-GoesToNext}
use qcs_sdk_qir.ShotCount.Scan.{
  Callback, Round, go_on, broken, seek_start, contains, call_known, call_named, call_operand,
  other_instruction, after_record, after_quantum, in_loop, scan_round, visit, resume, scan,
  from_basic_block,
}

module _ {P : Type 0} where
  -- The order of the instructions is the same.
  abbrev pub SameOrder : QcsCompilerContext P → QcsCompilerContext P → Type 0
  SameOrder ctx ctx' =
      (i : Instruction) → ctx'.llvm.get_next_instruction i ≡ ctx.llvm.get_next_instruction i

  -- A callback that leaves the order of the instructions alone.
  pub record KeepsOrder (callback : Callback P) : Type 0 where
    pub keeps :
        (ctx : QcsCompilerContext P) (f : Function) (visited : List Text)
        → Post (SameOrder ctx) (callback ctx f visited)

  abbrev pub RoundGoesToNext : QcsCompilerContext P → Instruction → Round P → Type 0
  RoundGoesToNext ctx i (go_on next ctx' pc) =
      (next ≡ ctx.llvm.get_next_instruction i) × SameOrder ctx ctx'
  RoundGoesToNext ctx i (broken ctx' pc) = Unit {0}

module _ {P : Type 0} (callback : Callback P) (k : KeepsOrder callback) (visited : List Text)
    (ctx : QcsCompilerContext P) (pc : ShotCountPatternMatchContext P) (i : Instruction) where
  call_known-GoesToNext :
      (name : Text) (o : Option Function)
      → Post (RoundGoesToNext ctx i) (call_known callback visited ctx pc i name o)
  unfolding call_known
  call_known-GoesToNext name none = returns (refl, λ j. refl)
  call_known-GoesToNext name (some f) =
      Post-bind (k.keeps ctx f (visited ++ name ∷ [])) λ ctx' same. returns (same i, same)

  call_operand-GoesToNext :
      (o : Option Operand) → Post (RoundGoesToNext ctx i) (call_operand callback visited ctx pc i o)
  unfolding call_operand call_named
  call_operand-GoesToNext (some (left (pointer_value p))) =
      Post-then (ok_or (to_str (ctx.llvm.get_pointer_name p)) _) λ name.
        Post-if (contains visited name) (returns (refl, λ j. refl))
          (call_known-GoesToNext name (ctx.llvm.get_function name))
  call_operand-GoesToNext _ = returns (refl, λ j. refl)

  other_instruction-GoesToNext :
      (op : Opcode) → Post (RoundGoesToNext ctx i) (other_instruction callback visited ctx pc i op)
  unfolding other_instruction
  other_instruction-GoesToNext call = call_operand-GoesToNext (ctx.llvm.get_operand i 0)
  other_instruction-GoesToNext _ = returns (refl, λ j. refl)

  after_record-GoesToNext :
      (o : Matched (ShotCountPatternMatchContext P))
      → Post (RoundGoesToNext ctx i) (after_record callback visited ctx pc i o)
  unfolding after_record
  after_record-GoesToNext none = other_instruction-GoesToNext (ctx.llvm.get_opcode i)
  after_record-GoesToNext (some (next, pc')) = returns tt

  after_quantum-GoesToNext :
      (o : Matched (PatternContext P))
      → GoesToNext ctx.llvm i o
      → Post (RoundGoesToNext ctx i) (after_quantum callback visited ctx pc i o)
  unfolding after_quantum
  after_quantum-GoesToNext (some (next, c)) h = returns (h, λ j. refl)
  after_quantum-GoesToNext none h =
      Post-then (shot_count_loop_end ctx.llvm pc i) after_record-GoesToNext

module _ {P : Type 0} ⦃q : QuilProgram P⦄ (callback : Callback P) (k : KeepsOrder callback)
    (visited : List Text) where
  in_loop-GoesToNext :
      (ctx : QcsCompilerContext P) (pc : ShotCountPatternMatchContext P) (i : Instruction)
      (o : Matched (PatternContext P))
      → GoesToNext ctx.llvm i o
      → Post (RoundGoesToNext ctx i) (in_loop callback visited ctx pc i o)
  unfolding in_loop
  in_loop-GoesToNext ctx pc i (some (next, c)) h = returns (h, λ j. refl)
  in_loop-GoesToNext ctx pc i none h =
      Post-bind (rt_record_instruction-GoesToNext ctx.llvm pc.common i)
        (after_quantum-GoesToNext callback k visited ctx pc i)

  seek_start-GoesToNext :
      (ctx : QcsCompilerContext P) (pc : ShotCountPatternMatchContext P) (i : Instruction)
      (o : Matched (ShotCountPatternMatchContext P))
      → GoesToNext ctx.llvm i o
      → RoundGoesToNext ctx i (seek_start ctx pc i o)
  seek_start-GoesToNext ctx pc i none h = (refl, λ j. refl)
  seek_start-GoesToNext ctx pc i (some (next, pc')) h = (h, λ j. refl)

  scan_round-GoesToNext :
      (ctx : QcsCompilerContext P) (pc : ShotCountPatternMatchContext P) (i : Instruction)
      (o : Option Instruction)
      → Post (RoundGoesToNext ctx i) (scan_round callback visited ctx pc i o)
  unfolding scan_round
  scan_round-GoesToNext ctx pc i none =
      returns (seek_start-GoesToNext ctx pc i _ (shot_count_loop_start-GoesToNext ctx.llvm pc i))
  scan_round-GoesToNext ctx pc i (some first) =
      Post-bind (quantum_instruction-GoesToNext ctx.llvm pc.common i) (in_loop-GoesToNext ctx pc i)

  visit-GoesToNext :
      (ctx : QcsCompilerContext P) (pc : ShotCountPatternMatchContext P) (i : Instruction)
      → Post (RoundGoesToNext ctx i) (visit callback visited ctx pc i)
  unfolding visit
  visit-GoesToNext ctx pc i = scan_round-GoesToNext ctx pc i pc.initial_instruction

abbrev pub Scanned : Type 0 → Type 0
Scanned P = Result Error (QcsCompilerContext P × ShotCountPatternMatchContext P)

module _ {P : Type 0} where
  abbrev proceed :
      (QcsCompilerContext P → ShotCountPatternMatchContext P → Scanned P) → Round P → Scanned P
  proceed again (go_on next ctx pc) = again ctx pc
  proceed again (broken ctx pc) = ok (ctx, pc)

module _ {P : Type 0} ⦃q : QuilProgram P⦄ where
  -- The same rounds over a list of instructions, with no fuel.
  pub walk :
      Callback P
      → List Text
      → List Instruction
      → QcsCompilerContext P
      → ShotCountPatternMatchContext P
      → Scanned P
  walk callback visited [] ctx pc = ok (ctx, pc)
  walk callback visited (i ∷ is) ctx pc =
      visit callback visited ctx pc i >>= proceed (walk callback visited is)

IsChain-SameOrder :
    {P : Type 0} (ctx ctx' : QcsCompilerContext P) (next : Option Instruction)
    (is : List Instruction)
    → SameOrder ctx ctx'
    → IsChain ctx.llvm next is
    → IsChain ctx'.llvm next is
IsChain-SameOrder ctx ctx' next [] same h = h
IsChain-SameOrder ctx ctx' next (i ∷ is) same h =
    (h.0, rw (same i) (IsChain-SameOrder ctx ctx' _ is same h.1))

module _ {P : Type 0} ⦃q : QuilProgram P⦄ (callback : Callback P) (k : KeepsOrder callback)
    (visited : List Text) where
  abbrev Agrees : List Instruction → ℕ → Type 0
  Agrees is fuel =
      (next : Option Instruction) (ctx : QcsCompilerContext P) (pc : ShotCountPatternMatchContext P)
      → IsChain ctx.llvm next is
      → scan callback visited fuel next ctx pc ≡ walk callback visited is ctx pc

  rounds_agree :
      (ctx : QcsCompilerContext P) (i : Instruction) (is : List Instruction) (fuel : ℕ)
      → IsChain ctx.llvm (ctx.llvm.get_next_instruction i) is
      → Agrees is fuel
      → (r : Round P) → RoundGoesToNext ctx i r
      → resume (scan callback visited fuel) r ≡ proceed (walk callback visited is) r
  rounds_agree ctx i is fuel chain ih (go_on next ctx' pc) h =
      ih next ctx' pc (IsChain-SameOrder ctx ctx' next is h.1 (rw h.0 chain))
  rounds_agree ctx i is fuel chain ih (broken ctx' pc) h = refl

  scan-eq-walk : (is : List Instruction) (fuel : ℕ) → length is ≤ fuel → Agrees is fuel
  unfolding scan walk
  scan-eq-walk [] fuel b next ctx pc h = rw h
  scan-eq-walk (i ∷ is) zero b next ctx pc h = absurd (omega arith)
  scan-eq-walk (i ∷ is) (suc fuel) b next ctx pc h = rw h.0 (
      bind_congr (visit-GoesToNext callback k visited ctx pc i)
        (rounds_agree ctx i is fuel h.1 (scan-eq-walk is fuel (omega arith))))

  -- If the callback leaves the order of the instructions alone, the block's instructions are a
  -- list and the fuel is at least its length, then the scan for a shot-count loop is the walk
  -- over that list, which takes no fuel: the loop ends.
  pub shot_count_scan-eq-walk :
      (ctx : QcsCompilerContext P) (block : BasicBlock) (is : List Instruction) (fuel : ℕ)
      → IsChain ctx.llvm (ctx.llvm.get_first_instruction block) is
      → length is ≤ fuel
      → from_basic_block callback visited fuel ctx block ≡ walk callback visited is ctx start
  unfolding from_basic_block
  shot_count_scan-eq-walk ctx block is fuel h b = scan-eq-walk is fuel b _ ctx start h
