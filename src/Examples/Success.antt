-- ===== src/Examples/Success.antt =====
-- A block of three gates and a return.
use qcs_sdk_qir.Base.{◌==◌, ◌+◌, some, none, if◌then◌else◌}
use qcs_sdk_qir.Llvm.{Module}
use qcs_sdk_qir.Quil.Sample.{list_program}
use qcs_sdk_qir.Examples.{unitary_module}

abbrev gates_module : Module
gates_module = record unitary_module {
  get_next_instruction = λ i. if i == 3 then some 9 else if i == 9 then none else some (i + 1);
}
