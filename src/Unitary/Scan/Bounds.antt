-- ===== src/Unitary/Scan/Bounds.antt =====
-- The invariant of the context in a unitary scan (unitary/pattern.rs).
use qcs_sdk_qir.Base.{ℕ, zero, suc, Option, none, some}
use qcs_sdk_qir.Base.Outcome.{Post, returns, raises, Post-bind}
use qcs_sdk_qir.Llvm.{Module, Instruction, BasicBlock, Opcode, ret}
use qcs_sdk_qir.Quil.Program.{QuilProgram}
use qcs_sdk_qir.Pattern.Context.{PatternContext, initial, Matched}
use qcs_sdk_qir.Pattern.Bounds.{IsWellFormed, initial-IsWellFormed}
use qcs_sdk_qir.Pattern.Bounds.Steps.{MatchedWellFormed, quantum_instruction-IsWellFormed}
use qcs_sdk_qir.Pattern.Bounds.Output.{rt_record_instruction-IsWellFormed}
use qcs_sdk_qir.Unitary.Scan.{
  Round, go_on, returned, end_of_block, after_record, after_quantum, visit, resume, scan,
  from_basic_block,
}

module _ {P : Type 0} ⦃q : QuilProgram P⦄ where
  -- What a round leaves is well formed.
  abbrev pub RoundWellFormed : Module → Round P → Type 0
  RoundWellFormed m (go_on next c) = IsWellFormed m c
  RoundWellFormed m (returned c) = IsWellFormed m c

module _ {P : Type 0} ⦃q : QuilProgram P⦄ (m : Module) where
  end_of_block-WellFormed :
      (c : PatternContext P) (i : Instruction) (op : Opcode)
      → IsWellFormed m c
      → Post (RoundWellFormed m) (end_of_block c i op)
  unfolding end_of_block
  end_of_block-WellFormed c i ret w = returns w
  end_of_block-WellFormed c i _ w = raises

  after_record-WellFormed :
      (c : PatternContext P) (i : Instruction) (o : Matched (PatternContext P))
      → IsWellFormed m c
      → MatchedWellFormed m o
      → Post (RoundWellFormed m) (after_record m c i o)
  unfolding after_record
  after_record-WellFormed c i (some (next, c')) w h = returns h
  after_record-WellFormed c i none w h = end_of_block-WellFormed c i (m.get_opcode i) w

  after_quantum-WellFormed :
      (c : PatternContext P) (i : Instruction) (o : Matched (PatternContext P))
      → IsWellFormed m c
      → MatchedWellFormed m o
      → Post (RoundWellFormed m) (after_quantum m c i o)
  unfolding after_quantum
  after_quantum-WellFormed c i (some (next, c')) w h = returns h
  after_quantum-WellFormed c i none w h =
      Post-bind (rt_record_instruction-IsWellFormed m c i w)
        λ o h'. after_record-WellFormed c i o w h'

  visit-WellFormed :
      (c : PatternContext P) (i : Instruction)
      → IsWellFormed m c
      → Post (RoundWellFormed m) (visit m c i)
  unfolding visit
  visit-WellFormed c i w =
      Post-bind (quantum_instruction-IsWellFormed m c i w) λ o h. after_quantum-WellFormed c i o w h

  scan-WellFormed :
      (fuel : ℕ) (next : Option Instruction) (c : PatternContext P)
      → IsWellFormed m c
      → Post (IsWellFormed m) (scan m fuel next c)
  unfolding scan
  scan-WellFormed fuel none c w = returns w
  scan-WellFormed zero (some i) c w = raises
  scan-WellFormed (suc fuel) (some i) c w =
      Post-bind (visit-WellFormed c i w) (resumed (scan-WellFormed fuel))
    where
      resumed :
          ((next : Option Instruction) (c : PatternContext P)
            → IsWellFormed m c
            → Post (IsWellFormed m) (scan m fuel next c))
          → (r : Round P) → RoundWellFormed m r
          → Post (IsWellFormed m) (resume (scan m fuel) r)
      resumed ih (go_on next c) h = ih next c h
      resumed ih (returned c) h = returns h

  -- At the end of the scan of a block the context refers to nothing out of range.
  pub from_basic_block-WellFormed :
      (fuel : ℕ) (block : BasicBlock)
      → Post (IsWellFormed {P = P} m) (from_basic_block m fuel block)
  unfolding from_basic_block
  from_basic_block-WellFormed fuel block = scan-WellFormed fuel _ initial (initial-IsWellFormed m)
