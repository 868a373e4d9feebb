-- ===== src/Lib.antt =====
-- Verification of qcs-sdk-qir, the compiler that turns QIR programs (LLVM modules that call quantum
-- intrinsics) into Quil for Rigetti QCS.
--
-- The program's parts and how they interact. A command (src/main.rs) loads a module and asks for Quil
-- or for rewritten LLVM, by the functions of src/lib.rs, which make a context (src/context) with the
-- functions of the QCS runtime declared in the module. transpile_module of one of two formats finds
-- the entry function (src/interop/entrypoint.rs) and scans its blocks with a pattern context
-- (src/transform/shot_count_block/pattern.rs, src/transform/unitary/pattern.rs), reading callees and
-- arguments of calls (src/interop/instruction.rs). For Quil, quil.rs of the transform builds the
-- program that declares the memory that the scanned instructions refer to. For LLVM, qir.rs of the
-- transform puts the execution of that program in place of the scanned instructions, by calls of the
-- runtime (src/interop/call.rs). The recorded output tells src/output/debug.rs how to show the
-- results of an execution.
--
-- The files.
-- - Base and its children: names passed on, tests, lists, texts as lists of code points, and
--   results with one error for each place that raises one.
-- - Llvm, Llvm/Chain: inkwell's view of a module. inkwell and LLVM are not in the repository: a
--   module is a record of the observations that the program makes, a parameter of every definition.
--   Handles are numbers. A change of a module is another record.
-- - Quil, Quil/Program, Quil/Sample: the instructions of the quil_rs crate, and its programs behind
--   an interface with what the crate documents; Sample meets the interface by two lists.
-- - Interop/Arguments, Interop/Entrypoint: src/interop/instruction.rs and
--   src/interop/entrypoint.rs, with theorems in Interop/Collected; Interop/Removal is
--   remove_instructions_in_safe_order, over any store of uses, which is LLVM's.
-- - Intrinsics: the two regular expressions of pattern.rs as matchers; Intrinsics/Qis and
--   Intrinsics/Record relate them to what the expressions say.
-- - Llvm/Builder: the changes that the program makes to a module, as commands. What LLVM answers to a
--   command, and what the module looks like afterwards, are parameters that may depend on all the
--   commands before; the commands and their answers are kept as a history. Llvm/Builder/Runs has the
--   rules for what a piece of such work leaves.
-- - Context: src/context/context.rs; Context/Target, Context/Structs and Context/Externals are
--   src/context/target.rs, src/context/types.rs and src/context/values.rs. Context/Externals/Declared
--   describes the runtime's functions by name and parameters, apart from the code.
-- - Interop/Call is src/interop/call.rs; Interop/Branches is the replacement of branch targets and phi
--   clauses of src/interop/instruction.rs; Interop/MainEntrypoint is add_main_entrypoint of
--   src/interop/entrypoint.rs.
-- - Rewriting: what qir.rs of both transforms repeat: Rewriting/Launch, and Rewriting/Cache for the
--   populating function. Rewriting/Protocol is a specification of how the QCS runtime is to be used,
--   a step relation on histories that does not mention the code, and Rewriting/Cache/Populating is
--   one of how the populating function is to be built and called; Rewriting/Jobs and Rewriting/Whole
--   say the same of a sequence of executions and of a whole module.
-- - Pattern: the functions that the two pattern.rs files repeat word for word over their two
--   contexts (quantum_instruction, rt_record_instruction, add_gate_instruction, the parameter list
--   and the readout map), once, over the fields that the contexts share. Pattern/Context is the
--   state, Pattern/Gates, Pattern/Quantum and Pattern/Record the operations, Pattern/Assemble what
--   both build_quil_program do; the other children hold theorems: Pattern/Readout on the readout
--   map, Pattern/Bounds the invariant, Pattern/Progress the instruction that follows a match,
--   Pattern/Growth what a match adds.
-- - ShotCount: src/transform/shot_count_block; Loop is the two ends of the loop, Scan is
--   from_basic_block, Quil is quil.rs, Insert and Qir are qir.rs; their children hold theorems.
-- - Unitary: src/transform/unitary, in the same way.
-- - Library and CommandLine: src/lib.rs and src/main.rs.
-- - Output: src/output; Debug is the debug format, Render says what it shows, Reading reads it back,
--   Transpiled ties it to the transpilers.
-- - Examples: two small modules, the tests and the instances of the theorems; Examples/Surprises tests
--   behaviour that the comments of the code do not suggest.
--
-- Bounds and fuel. The two scans are loops over get_next_instruction, which is a parameter, so they
-- take fuel, one unit for each round; the number of the block's instructions is enough, since a
-- match always goes on with the instruction that follows. Decimal printing takes a fuel of the
-- number plus one, which is shown to be enough. The removal of instructions takes one unit for each
-- round, and a round that is not the last removes an instruction. u64 and u32 appear where the
-- source converts: negative constants are refused, and the count of operands less one is an error
-- at 0, as an overflow is. Lengths are not bounded. Nested calls of functions
-- take one unit for each level, of which the names of the module's functions and one are enough, since
-- no name is visited twice; the loop over a block's phi instructions takes one for each instruction.
-- With too little the rewriting is an error of the model's own. A constant that is passed to LLVM is
-- kept as it is given, with the type whose width LLVM cuts it to.
--
-- What is not modelled, and why. Logging, and the texts of errors: they decide nothing. Inside LLVM,
-- inkwell, clap, quil_rs and the file system nothing is modelled: src/interop/load.rs is a parameter,
-- as are the text of a program and the reading of a file, and the parsing of arguments and the
-- printing of an output in src/main.rs are left out. The serde implementations, and print_all_operands,
-- which prints. initial_instruction_hash, a field that nothing reads. An error drops the module that
-- was under construction, as the callers do.
mod Base
pub mod Llvm
pub mod Quil
pub mod Interop
pub mod Intrinsics
pub mod Pattern
pub mod Context
pub mod Rewriting
pub mod ShotCount
pub mod Unitary
pub mod Library
pub mod CommandLine
pub mod Output
mod Examples
