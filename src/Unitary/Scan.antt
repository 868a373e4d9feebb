-- ===== src/Unitary/Scan.antt =====
-- unitary/pattern.rs: `UnitaryPatternMatchContext::from_basic_block`.
pub mod Bounds
pub mod Growth
pub mod Success
pub mod Termination
use qcs_sdk_qir.Base.{ℕ, zero, suc, false, Option, none, some, is_empty, if◌then◌else◌}
use qcs_sdk_qir.Base.Outcome.{Error, Result, ok, err, ◌>>=◌, disallowed_instruction, out_of_fuel}
use qcs_sdk_qir.Llvm.{Module, Instruction, BasicBlock, Opcode, ret}
use qcs_sdk_qir.Quil.Program.{QuilProgram}
use qcs_sdk_qir.Pattern.Context.{PatternContext, initial, Matched}
use qcs_sdk_qir.Pattern.Record.{rt_record_instruction}
use qcs_sdk_qir.Pattern.Quantum.{quantum_instruction}

-- One round of the scan: where it goes on, or that it has returned.
pub data Round (P : Type 0) : Type 0 where
  go_on : Option Instruction → PatternContext P → Round P
  returned : PatternContext P → Round P

module _ {P : Type 0} where
  end_of_block : PatternContext P → Instruction → Opcode → Result Error (Round P)
  end_of_block c i ret = ok (returned c)
  end_of_block c i _ = err (disallowed_instruction i)

  after_record :
      Module → PatternContext P → Instruction → Matched (PatternContext P) → Result Error (Round P)
  after_record m c i (some (next, c')) = ok (go_on next c')
  after_record m c i none = end_of_block c i (m.get_opcode i)

  after_quantum :
      Module → PatternContext P → Instruction → Matched (PatternContext P) → Result Error (Round P)
  after_quantum m c i (some (next, c')) = ok (go_on next c')
  after_quantum m c i none = do recorded ← rt_record_instruction m c i; after_record m c i recorded

  abbrev pub resume :
      (Option Instruction → PatternContext P → Result Error (PatternContext P))
      → Round P
      → Result Error (PatternContext P)
  resume again (go_on next c) = again next c
  resume again (returned c) = ok c

module _ {P : Type 0} ⦃q : QuilProgram P⦄ where
  -- The body of the `while let`.
  unfoldable pub visit : Module → PatternContext P → Instruction → Result Error (Round P)
  unfolding after_quantum after_record end_of_block quantum_instruction rt_record_instruction
  visit m c i = do matched ← quantum_instruction m c i; after_quantum m c i matched

  -- The loop, on fuel: each round that goes on takes one unit.
  unfoldable pub scan :
      Module → ℕ → Option Instruction → PatternContext P → Result Error (PatternContext P)
  unfolding visit
  scan m fuel none c = ok c
  scan m zero (some i) c = err out_of_fuel
  scan m (suc fuel) (some i) c = visit m c i >>= resume (scan m fuel)

  unfoldable pub from_basic_block : Module → ℕ → BasicBlock → Result Error (PatternContext P)
  unfolding scan
  from_basic_block m fuel block = scan m fuel (m.get_first_instruction block) initial

  unfoldable pub get_program_data : PatternContext P → Option P
  get_program_data c =
      if is_empty (q.to_instructions c.quil_program false) then none else some c.quil_program
