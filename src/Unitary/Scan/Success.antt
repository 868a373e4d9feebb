-- ===== src/Unitary/Scan/Success.antt =====
-- The scan of a block of gate calls and a return (unitary/pattern.rs).
use qcs_sdk_qir.Base.{
  suc, ◌+◌, ◌≡◌, refl, ◌∙◌, some, List, [], ◌∷◌, ◌++◌, Text, All, length, length-snoc, arith,
}
use qcs_sdk_qir.Base.Outcome.{ok}
use qcs_sdk_qir.Llvm.{Module, Instruction, call, ret}
use qcs_sdk_qir.Quil.Program.{QuilProgram, body}
use qcs_sdk_qir.Interop.Arguments.{
  OperationArgument, get_called_function_name, get_qis_function_arguments,
}
use qcs_sdk_qir.Intrinsics.{QisCaptures, qis_captures}
use qcs_sdk_qir.Pattern.Context.{PatternContext}
use qcs_sdk_qir.Pattern.Gates.{GateSpec}
use qcs_sdk_qir.Pattern.Gates.Meaning.{add_gate_instruction-GateAdded}
use qcs_sdk_qir.Pattern.Gates.Success.{Fits, add_gate_instruction-Succeeds}
use qcs_sdk_qir.Pattern.Record.{rt_record_instruction, record_by_opcode}
use qcs_sdk_qir.Pattern.Quantum.{
  gate_operation, qis_operation, apply_operation, quantum_captured, quantum_named,
  quantum_by_opcode, quantum_instruction,
}
use qcs_sdk_qir.Unitary.Scan.{go_on, returned, end_of_block, after_record, after_quantum, visit}
use qcs_sdk_qir.Unitary.Scan.Termination.{walk}

-- A call of a gate's intrinsic, with arguments of the kinds that the gate asks for.
pub record IsGateCall (m : Module) (i : Instruction) : Type 0 where
  pub is_call : m.get_opcode i ≡ call
  pub name : Text
  pub called : get_called_function_name m i ≡ ok (some name)
  pub captures : QisCaptures
  pub captured : qis_captures name ≡ some captures
  pub spec : GateSpec
  pub operation : qis_operation captures.operation ≡ gate_operation spec
  pub arguments : List OperationArgument
  pub collected : get_qis_function_arguments m i ≡ ok arguments
  pub fits : Fits arguments spec

module _ {P : Type 0} ⦃q : QuilProgram P⦄ (m : Module) where
  -- Each gate call adds one instruction to the body.
  visit_gate :
      (c : PatternContext P) (i : Instruction)
      → IsGateCall m i
      → (c' : PatternContext P) × (visit m c i ≡ ok (go_on (m.get_next_instruction i) c'))
        × (length (body c'.quil_program) ≡ suc (length (body c.quil_program)))
        × (c'.use_active_reset ≡ c.use_active_reset)
  unfolding visit quantum_instruction quantum_by_opcode quantum_named quantum_captured
      apply_operation after_quantum
  visit_gate c i g =
      let (c₁, e) =
        (add_gate_instruction-Succeeds m c g.arguments g.spec g.captures.adjoint
            g.captures.controlled).1
          g.fits in
      let a =
        add_gate_instruction-GateAdded m c c₁ g.arguments g.spec g.captures.adjoint
          g.captures.controlled e in
      (
        record c₁ { instructions_to_remove = c₁.instructions_to_remove ++ i ∷ [] },
        rw (g.is_call, g.called, g.captured, g.collected, g.operation, e) refl,
        rw a.appended (length-snoc (body c.quil_program) _),
        a.same_reset,
      )

  visit_return :
      (c : PatternContext P) (i : Instruction)
      → m.get_opcode i ≡ ret
      → visit m c i ≡ ok (returned c)
  unfolding visit quantum_instruction quantum_by_opcode after_quantum rt_record_instruction
      record_by_opcode after_record end_of_block
  visit_return c i e = rw e (rw e (rw e refl))

  pub walk_gates :
      (calls : List Instruction) (r : Instruction) (c : PatternContext P)
      → All (IsGateCall m) calls
      → m.get_opcode r ≡ ret
      → (c' : PatternContext P) × (walk m (calls ++ r ∷ []) c ≡ ok c')
        × (length (body c'.quil_program) ≡ length calls + length (body c.quil_program))
        × (c'.use_active_reset ≡ c.use_active_reset)
  unfolding walk
  walk_gates [] r c h e = (c, rw (visit_return c r e) refl, omega arith, refl)
  walk_gates (i ∷ calls) r c h e =
      let (c₁, v, l, s) = visit_gate c i h.0 in
      let (c₂, w, k, t) = walk_gates calls r c₁ h.1 e in (c₂, rw v w, omega arith, t ∙ s)
