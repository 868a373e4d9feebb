-- ===== src/Examples/Scans.antt =====
-- The theorems on scans at the two modules.
use qcs_sdk_qir.Base.{◌↔◌, ◌≡◌, ◌++◌, refl, true, false, some, List, [], ◌∷◌, arith, text}
use qcs_sdk_qir.Base.Outcome.{Result, Error, ok, err, Post, raises}
use qcs_sdk_qir.Llvm.{Instruction}
use qcs_sdk_qir.Llvm.Chain.{IsChain}
use qcs_sdk_qir.Quil.Program.{body}
use qcs_sdk_qir.Quil.Sample.{ListProgram, list_program}
use qcs_sdk_qir.Context.{ContextOptions}
use qcs_sdk_qir.Interop.Arguments.{qubit, parameter, OperationArgument}
use qcs_sdk_qir.Pattern.Context.{PatternContext, initial, lookup, entry_or_next, ReadoutMap}
use qcs_sdk_qir.Pattern.Gates.{GateSpec, add_gate_instruction}
use qcs_sdk_qir.Pattern.Gates.Meaning.{GateAdded, add_gate_instruction-GateAdded}
use qcs_sdk_qir.Pattern.Gates.Success.{Succeeds, Fits, add_gate_instruction-Succeeds}
use qcs_sdk_qir.Pattern.Record.{rt_record_instruction}
use qcs_sdk_qir.Pattern.Quantum.{quantum_instruction}
use qcs_sdk_qir.Pattern.Readout.{IsDense, IsAssigned, entry_or_next-IsAssigned}
use qcs_sdk_qir.Pattern.Bounds.{IsWellFormed, initial-IsWellFormed}
use qcs_sdk_qir.Pattern.Bounds.Steps.{MatchedWellFormed, quantum_instruction-IsWellFormed}
use qcs_sdk_qir.Pattern.Bounds.Output.{rt_record_instruction-IsWellFormed}
use qcs_sdk_qir.Pattern.Assemble.{assemble}
use qcs_sdk_qir.Pattern.Assemble.Regions.{rewiring_front, reset_front, body-assemble}
use qcs_sdk_qir.Pattern.Assemble.Safety.{
  LiteralConstants, IsSelfContained, assemble-IsSelfContained,
}
use qcs_sdk_qir.ShotCount.Loop.{ShotCountPatternMatchContext, start, shot_count_loop_end}
use qcs_sdk_qir.ShotCount.Loop.Count.{MatchedCount, shot_count_loop_end-Count}
use qcs_sdk_qir.ShotCount.Scan as ShotCount
use qcs_sdk_qir.ShotCount.Scan.Termination as Shots
use qcs_sdk_qir.ShotCount.Quil.{fail_on_nested_function_call}
use qcs_sdk_qir.Unitary.Scan as Unitary
use qcs_sdk_qir.Unitary.Scan.Termination as Units
use qcs_sdk_qir.Examples.{shots_module, unitary_module, context}

abbrev pub shots_block : List Instruction
shots_block = 0 ∷ 1 ∷ 2 ∷ 3 ∷ 4 ∷ 5 ∷ 6 ∷ 7 ∷ 8 ∷ []

pub shots_block-IsChain : IsChain shots_module (some 0) shots_block
shots_block-IsChain = (refl, (refl, (refl, (refl, (refl, (refl, (refl, (refl, (refl, refl)))))))))

fail-KeepsOrder : Shots.KeepsOrder {P = ListProgram} fail_on_nested_function_call
unfolding fail_on_nested_function_call
fail-KeepsOrder = record { keeps = λ ctx f visited. raises }

shot_count_scan-eq-walk_example :
    ShotCount.from_basic_block fail_on_nested_function_call [] 9 (context shots_module) 1
    ≡ Shots.walk fail_on_nested_function_call [] shots_block (context shots_module) start
shot_count_scan-eq-walk_example =
    Shots.shot_count_scan-eq-walk fail_on_nested_function_call fail-KeepsOrder []
      (context shots_module) 1 shots_block 9 shots_block-IsChain (omega arith)

abbrev pub unitary_block : List Instruction
unitary_block = 1 ∷ 2 ∷ 3 ∷ 4 ∷ 5 ∷ 9 ∷ []

pub unitary_block-IsChain : IsChain unitary_module (some 1) unitary_block
unitary_block-IsChain = (refl, (refl, (refl, (refl, (refl, (refl, refl))))))

unitary_scan-eq-walk_example :
    Unitary.from_basic_block unitary_module 6 0
    ≡ Units.walk {P = ListProgram} unitary_module unitary_block initial
unitary_scan-eq-walk_example =
    Units.unitary_scan-eq-walk unitary_module 0 unitary_block 6 unitary_block-IsChain (omega arith)

quantum_instruction-IsWellFormed_example :
    Post
      (MatchedWellFormed {P = ListProgram} unitary_module)
      (quantum_instruction unitary_module initial 2)
quantum_instruction-IsWellFormed_example =
    quantum_instruction-IsWellFormed unitary_module initial 2 (initial-IsWellFormed unitary_module)

rt_record_instruction-IsWellFormed_example :
    Post
      (MatchedWellFormed {P = ListProgram} unitary_module)
      (rt_record_instruction unitary_module initial 5)
rt_record_instruction-IsWellFormed_example =
    rt_record_instruction-IsWellFormed unitary_module initial 5
      (initial-IsWellFormed unitary_module)

-- The scan after the start of the loop.
abbrev in_loop : ShotCountPatternMatchContext ListProgram
in_loop = record start { initial_instruction = some 0 }

shot_count_loop_end-Count_example :
    Post (MatchedCount shots_module in_loop 6) (shot_count_loop_end shots_module in_loop 6)
shot_count_loop_end-Count_example = shot_count_loop_end-Count shots_module in_loop 6

abbrev readouts : ReadoutMap
readouts = (4, 0) ∷ (9, 1) ∷ []

readouts-IsDense : IsDense readouts
unfolding lookup
readouts-IsDense = record { counts = (refl, (refl, tt)); distinct = (refl, (refl, tt)) }

entry_or_next-IsAssigned_example : IsAssigned 7 readouts (entry_or_next 7 readouts)
entry_or_next-IsAssigned_example = entry_or_next-IsAssigned 7 readouts readouts-IsDense

abbrev rx : GateSpec
rx = record { gate_name = text "RX"; parameter_count = 1; qubit_count = 1 }

abbrev rx_arguments : List OperationArgument
rx_arguments = parameter 7 ∷ qubit 0 ∷ []

abbrev or_initial : Result Error (PatternContext ListProgram) → PatternContext ListProgram
or_initial (ok c) = c
or_initial (err e) = initial

abbrev after_rx : PatternContext ListProgram
after_rx = or_initial (add_gate_instruction unitary_module initial rx_arguments rx true false)

after_rx-eq : add_gate_instruction unitary_module initial rx_arguments rx true false ≡ ok after_rx
unfolding add_gate_instruction
after_rx-eq = refl

add_gate_instruction-GateAdded_example :
    GateAdded unitary_module rx_arguments rx true false initial after_rx
add_gate_instruction-GateAdded_example =
    add_gate_instruction-GateAdded unitary_module initial after_rx rx_arguments rx true false
      after_rx-eq

add_gate_instruction-Succeeds_example :
    Succeeds
      (add_gate_instruction {P = ListProgram} unitary_module initial rx_arguments rx true false)
    ↔ Fits rx_arguments rx
add_gate_instruction-Succeeds_example =
    add_gate_instruction-Succeeds unitary_module initial rx_arguments rx true false

abbrev rewired : ContextOptions
rewired = record { cache_executables = false; rewiring_pragma = some (text "NAIVE") }

abbrev resetting : PatternContext ListProgram
resetting = record initial { use_active_reset = true }

resetting-IsWellFormed : IsWellFormed unitary_module resetting
resetting-IsWellFormed =
    let w = initial-IsWellFormed {P = ListProgram} unitary_module in
    record {
      dense = w.dense;
      program = w.program;
      outputs = w.outputs;
      readouts = w.readouts;
      dynamic = w.dynamic;
    }

unitary-literals : LiteralConstants unitary_module
unitary-literals = record { literal = λ v h. ground arith }

assemble-IsSelfContained_example :
    IsSelfContained (assemble unitary_module rewired resetting resetting.quil_program) []
assemble-IsSelfContained_example =
    assemble-IsSelfContained unitary_module rewired resetting unitary-literals
      resetting-IsWellFormed

body-assemble_example :
    body (assemble unitary_module rewired after_rx after_rx.quil_program)
    ≡ rewiring_front (some (text "NAIVE")) ++ (reset_front false ++ body after_rx.quil_program)
unfolding add_gate_instruction
body-assemble_example = body-assemble unitary_module rewired after_rx after_rx.quil_program
