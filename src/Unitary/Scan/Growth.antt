-- ===== src/Unitary/Scan/Growth.antt =====
-- How the context changes in a unitary scan (unitary/pattern.rs).
use qcs_sdk_qir.Base.{ℕ, zero, suc, ◌≡◌, Option, none, some}
use qcs_sdk_qir.Base.Outcome.{ok, Post, returns, raises, Post-bind, Post-imp, Post-eq_ok}
use qcs_sdk_qir.Llvm.{Module, Instruction, Opcode, ret}
use qcs_sdk_qir.Quil.Program.{QuilProgram}
use qcs_sdk_qir.Pattern.Context.{PatternContext, Matched}
use qcs_sdk_qir.Pattern.Growth.{IsLater, IsLater-refl, IsLater-trans, MatchedLater}
use qcs_sdk_qir.Pattern.Growth.Steps.{quantum_instruction-Later, rt_record_instruction-Later}
use qcs_sdk_qir.Unitary.Scan.{
  Round, go_on, returned, end_of_block, after_record, after_quantum, visit, resume, scan,
}

abbrev RoundLater : {P : Type 0} → ⦃q : QuilProgram P⦄ → PatternContext P → Round P → Type 0
RoundLater c (go_on next c') = IsLater c c'
RoundLater c (returned c') = IsLater c c'

module _ {P : Type 0} ⦃q : QuilProgram P⦄ (m : Module) where
  end_of_block-Later :
      (c : PatternContext P) (i : Instruction) (op : Opcode)
      → Post (RoundLater c) (end_of_block c i op)
  unfolding end_of_block
  end_of_block-Later c i ret = returns (IsLater-refl c)
  end_of_block-Later c i _ = raises

  after_record-Later :
      (c : PatternContext P) (i : Instruction) (o : Matched (PatternContext P))
      → MatchedLater c o
      → Post (RoundLater c) (after_record m c i o)
  unfolding after_record
  after_record-Later c i (some (next, c')) h = returns h
  after_record-Later c i none h = end_of_block-Later c i (m.get_opcode i)

  after_quantum-Later :
      (c : PatternContext P) (i : Instruction) (o : Matched (PatternContext P))
      → MatchedLater c o
      → Post (RoundLater c) (after_quantum m c i o)
  unfolding after_quantum
  after_quantum-Later c i (some (next, c')) h = returns h
  after_quantum-Later c i none h =
      Post-bind (rt_record_instruction-Later m c i) (after_record-Later c i)

  visit-Later : (c : PatternContext P) (i : Instruction) → Post (RoundLater c) (visit m c i)
  unfolding visit
  visit-Later c i = Post-bind (quantum_instruction-Later m c i) (after_quantum-Later c i)

  scan-Later :
      (fuel : ℕ) (next : Option Instruction) (c : PatternContext P)
      → Post (IsLater c) (scan m fuel next c)
  unfolding scan
  scan-Later fuel none c = returns (IsLater-refl c)
  scan-Later zero (some i) c = raises
  scan-Later (suc fuel) (some i) c = Post-bind (visit-Later c i) (resumed (scan-Later fuel))
    where
      resumed :
          ((next : Option Instruction) (d : PatternContext P)
            → Post (IsLater d) (scan m fuel next d))
          → (r : Round P) → RoundLater c r
          → Post (IsLater c) (resume (scan m fuel) r)
      resumed ih (go_on next d) h = Post-imp (ih next d) λ e k. IsLater-trans h k
      resumed ih (returned d) h = returns h

module _ {P : Type 0} ⦃q : QuilProgram P⦄ where
  -- Where a unitary scan succeeds from any point with any context, the body and the recorded
  -- output of the context stay a prefix of those of the result, and each parameter index and
  -- readout offset in use keeps its value.
  pub unitary_scan-IsLater :
      (m : Module) (fuel : ℕ) (next : Option Instruction) (c c' : PatternContext P)
      → scan m fuel next c ≡ ok c'
      → IsLater c c'
  unitary_scan-IsLater m fuel next c c' e = Post-eq_ok (scan-Later m fuel next c) e
