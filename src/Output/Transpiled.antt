-- ===== src/Output/Transpiled.antt =====
-- The debug format of what the transpilers record (src/output/debug.rs and quil.rs).
use qcs_sdk_qir.Base.{ℕ, ◌≤◌, ◌≡◌, some, List, [], ◌∷◌, length, All, All-imp, arith}
use qcs_sdk_qir.Base.Int.{ℤ}
use qcs_sdk_qir.Base.Outcome.{ok}
use qcs_sdk_qir.Quil.{Declaration, ro}
use qcs_sdk_qir.Quil.Program.{QuilProgram, region}
use qcs_sdk_qir.Context.{QcsCompilerContext}
use qcs_sdk_qir.Pattern.Context.{
  RecordedOutput, shot_start, shot_end, tuple_start, tuple_end, array_start, array_end,
  result_readout_offset, bool_readout_offset, integer_readout_offset, double_readout_offset,
}
use qcs_sdk_qir.Pattern.Bounds.{OutputInRange, OutputInRange-mono}
use qcs_sdk_qir.Pattern.Assemble.Safety.{LiteralConstants, IsSelfContained}
use qcs_sdk_qir.ShotCount.Quil as ShotCount
use qcs_sdk_qir.ShotCount.Quil.Safety.{transpile_module-IsSelfContained}
use qcs_sdk_qir.Unitary.Quil as Unitary
use qcs_sdk_qir.Unitary.Quil.Safety.{unitary_module-IsSelfContained}
use qcs_sdk_qir.Output.{i8_data}
use qcs_sdk_qir.Output.Debug.{try_new}
use qcs_sdk_qir.Output.Render.{through_end, render_shots, ShotSupports, try_new-eq-render}

All-through_end :
    (n : ℕ) (mapping : List RecordedOutput)
    → All (OutputInRange n) mapping
    → All (OutputInRange n) (through_end mapping)
All-through_end n [] h = tt
All-through_end n (shot_end ∷ mapping) h = (tt, tt)
All-through_end n (shot_start ∷ mapping) h = (tt, All-through_end n mapping h.1)
All-through_end n (tuple_start ∷ mapping) h = (tt, All-through_end n mapping h.1)
All-through_end n (tuple_end ∷ mapping) h = (tt, All-through_end n mapping h.1)
All-through_end n (array_start ∷ mapping) h = (tt, All-through_end n mapping h.1)
All-through_end n (array_end ∷ mapping) h = (tt, All-through_end n mapping h.1)
All-through_end n (result_readout_offset i ∷ mapping) h = (h.0, All-through_end n mapping h.1)
All-through_end n (bool_readout_offset i ∷ mapping) h = absurd h.0
All-through_end n (integer_readout_offset i ∷ mapping) h = absurd h.0
All-through_end n (double_readout_offset i ∷ mapping) h = absurd h.0

-- A shot with a bit for each place of the readout region supports the recorded output.
enough_bits :
    (n : ℕ) (mapping : List RecordedOutput) (shots : List (List ℤ))
    → All (OutputInRange n) mapping
    → All (λ (shot : List ℤ). n ≤ length shot) shots
    → All (ShotSupports mapping) shots
enough_bits n mapping shots h b =
    All-imp shots
      (λ shot le.
        All-imp (through_end mapping) (λ r. OutputInRange-mono r le) (All-through_end n mapping h))
      b

module _ {P : Type 0} ⦃q : QuilProgram P⦄ where
  recorded-renders :
      (program : P) (outputs : List RecordedOutput) (d : Declaration) (shots : List (List ℤ))
      → IsSelfContained program outputs
      → region program ro ≡ some d
      → All (λ (shot : List ℤ). d.size ≤ length shot) shots
      → try_new (i8_data shots) outputs ≡ ok (render_shots 0 shots outputs)
  recorded-renders program outputs d shots s e b =
      let same : s.readout ≡ d = ground (arith, s.readout_found, e) in
      try_new-eq-render shots outputs (enough_bits d.size outputs shots (rw (← same) s.recorded) b)

  -- If every float constant of the module is a literal, the transpilation of a shot-count
  -- module returns an output, and each shot of the results has at least as many values as the
  -- output's program declares readout bits, then the debug format of the results with the
  -- recorded output is made without error and is the lines of the shots in order.
  pub shot_count_output-renders :
      (fuel : ℕ) (ctx : QcsCompilerContext P) (out : ShotCount.ProgramOutput P) (d : Declaration)
      (shots : List (List ℤ))
      → LiteralConstants ctx.llvm
      → ShotCount.transpile_module fuel ctx ≡ ok out
      → region out.program ro ≡ some d
      → All (λ (shot : List ℤ). d.size ≤ length shot) shots
      → try_new (i8_data shots) out.recorded_output ≡ ok (render_shots 0 shots out.recorded_output)
  shot_count_output-renders fuel ctx out d shots l e =
      recorded-renders out.program out.recorded_output d shots
        (transpile_module-IsSelfContained fuel ctx out l e)

  -- If every float constant of the module is a literal, the transpilation of a unitary module
  -- returns an output, and each shot of the results has at least as many values as the output's
  -- program declares readout bits, then the debug format of the results with the recorded
  -- output is made without error and is the lines of the shots in order.
  pub unitary_output-renders :
      (fuel : ℕ) (ctx : QcsCompilerContext P) (out : Unitary.ProgramOutput P) (d : Declaration)
      (shots : List (List ℤ))
      → LiteralConstants ctx.llvm
      → Unitary.transpile_module fuel ctx ≡ ok out
      → region out.program ro ≡ some d
      → All (λ (shot : List ℤ). d.size ≤ length shot) shots
      → try_new (i8_data shots) out.recorded_output ≡ ok (render_shots 0 shots out.recorded_output)
  unitary_output-renders fuel ctx out d shots l e =
      recorded-renders out.program out.recorded_output d shots
        (unitary_module-IsSelfContained fuel ctx out l e)
