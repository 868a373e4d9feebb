-- ===== src/Unitary/Scan/Termination.antt =====
-- The scan of a block and a walk over the block's instructions (unitary/pattern.rs).
use qcs_sdk_qir.Base.{
  ℕ, zero, suc, ◌≤◌, ◌≡◌, refl, Option, none, some, List, [], ◌∷◌, length, arith,
}
use qcs_sdk_qir.Base.Outcome.{
  Error, Result, ok, ◌>>=◌, Post, returns, raises, Post-bind, bind_congr,
}
use qcs_sdk_qir.Llvm.{Module, Instruction, BasicBlock, Opcode, ret}
use qcs_sdk_qir.Llvm.Chain.{IsChain}
use qcs_sdk_qir.Quil.Program.{QuilProgram}
use qcs_sdk_qir.Pattern.Context.{PatternContext, initial, Matched}
use qcs_sdk_qir.Pattern.Progress.{
  GoesToNext, quantum_instruction-GoesToNext, rt_record_instruction-GoesToNext,
}
use qcs_sdk_qir.Unitary.Scan.{
  Round, go_on, returned, end_of_block, after_record, after_quantum, visit, resume, scan,
  from_basic_block,
}

abbrev pub RoundGoesToNext : {P : Type 0} → Module → Instruction → Round P → Type 0
RoundGoesToNext m i (go_on next c) = next ≡ m.get_next_instruction i
RoundGoesToNext m i (returned c) = Unit {0}

module _ {P : Type 0} ⦃q : QuilProgram P⦄ (m : Module) (c : PatternContext P)
    (i : Instruction) where
  end_of_block-GoesToNext : (op : Opcode) → Post (RoundGoesToNext m i) (end_of_block c i op)
  unfolding end_of_block
  end_of_block-GoesToNext ret = returns tt
  end_of_block-GoesToNext _ = raises

  after_record-GoesToNext :
      (o : Matched (PatternContext P))
      → GoesToNext m i o
      → Post (RoundGoesToNext m i) (after_record m c i o)
  unfolding after_record
  after_record-GoesToNext (some (next, c')) h = returns h
  after_record-GoesToNext none h = end_of_block-GoesToNext (m.get_opcode i)

  after_quantum-GoesToNext :
      (o : Matched (PatternContext P))
      → GoesToNext m i o
      → Post (RoundGoesToNext m i) (after_quantum m c i o)
  unfolding after_quantum
  after_quantum-GoesToNext (some (next, c')) h = returns h
  after_quantum-GoesToNext none h =
      Post-bind (rt_record_instruction-GoesToNext m c i) after_record-GoesToNext

  visit-GoesToNext : Post (RoundGoesToNext m i) (visit m c i)
  unfolding visit
  visit-GoesToNext = Post-bind (quantum_instruction-GoesToNext m c i) after_quantum-GoesToNext

module _ {P : Type 0} ⦃q : QuilProgram P⦄ where
  abbrev proceed :
      (PatternContext P → Result Error (PatternContext P))
      → Round P
      → Result Error (PatternContext P)
  proceed again (go_on next c) = again c
  proceed again (returned c) = ok c

  -- The same rounds over a list of instructions, with no fuel.
  unfoldable pub walk :
      Module → List Instruction → PatternContext P → Result Error (PatternContext P)
  walk m [] c = ok c
  walk m (i ∷ is) c = visit m c i >>= proceed (walk m is)

  rounds_agree :
      (m : Module) (i : Instruction) (is : List Instruction) (fuel : ℕ)
      → ((c : PatternContext P) → scan m fuel (m.get_next_instruction i) c ≡ walk m is c)
      → (r : Round P) → RoundGoesToNext m i r
      → resume (scan m fuel) r ≡ proceed (walk m is) r
  rounds_agree m i is fuel ih (go_on next c) h = rw h (ih c)
  rounds_agree m i is fuel ih (returned c) h = refl

  scan-eq-walk :
      (m : Module) (is : List Instruction) (next : Option Instruction) (fuel : ℕ)
      (c : PatternContext P)
      → IsChain m next is
      → length is ≤ fuel
      → scan m fuel next c ≡ walk m is c
  unfolding scan walk
  scan-eq-walk m [] next fuel c h b = rw h
  scan-eq-walk m (i ∷ is) next zero c h b = absurd (omega arith)
  scan-eq-walk m (i ∷ is) next (suc fuel) c h b = rw h.0 (
      bind_congr (visit-GoesToNext m c i)
        (rounds_agree m i is fuel (λ c'. scan-eq-walk m is _ fuel c' h.1 (omega arith))))

  -- If the block's instructions are a list and the fuel is at least its length, then the scan
  -- of a unitary block is the walk over that list, which takes no fuel: the loop ends.
  pub unitary_scan-eq-walk :
      (m : Module) (block : BasicBlock) (is : List Instruction) (fuel : ℕ)
      → IsChain m (m.get_first_instruction block) is
      → length is ≤ fuel
      → from_basic_block {P = P} m fuel block ≡ walk m is initial
  unfolding from_basic_block
  unitary_scan-eq-walk m block is fuel h b =
      scan-eq-walk m is (m.get_first_instruction block) fuel initial h b
