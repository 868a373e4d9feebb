-- ===== src/Quil.antt =====
-- The part of the `quil_rs` crate that the program uses: Quil instructions as data, and programs
-- behind an interface, since the crate is not part of the repository.
pub mod Program
pub mod Sample
use qcs_sdk_qir.Base.{ℕ, Option, List, Text, text}
use qcs_sdk_qir.Llvm.{Double}

pub record MemoryReference : Type 0 where
  pub name : Text
  pub index : ℕ

pub data Expression : Type 0 where
  number : Double → Expression
  address : MemoryReference → Expression

-- `Qubit::Fixed`, the only one that the program makes
pub data Qubit : Type 0 where
  fixed : ℕ → Qubit

pub data GateModifier : Type 0 where
  dagger controlled : GateModifier

pub record Gate : Type 0 where
  pub name : Text
  pub parameters : List Expression
  pub qubits : List Qubit
  pub modifiers : List GateModifier

pub record Measurement : Type 0 where
  pub target : Option MemoryReference
  pub qubit : Qubit

pub data ScalarType : Type 0 where
  bit real : ScalarType

-- `Declaration` with its `Vector`; the program never shares a region.
pub record Declaration : Type 0 where
  pub name : Text
  pub data_type : ScalarType
  pub size : ℕ

pub record Pragma : Type 0 where
  pub name : Text
  pub arguments : List Text

pub data Instruction : Type 0 where
  gate : Gate → Instruction
  measurement : Measurement → Instruction
  declaration : Declaration → Instruction
  -- `Reset { qubit: None }`
  reset : Instruction
  pragma : Pragma → Instruction

-- transform/mod.rs: PARAMETER_MEMORY_REGION_NAME
abbrev pub parameter_region : Text
parameter_region = text "__qir_param"

-- the readout region
abbrev pub ro : Text
ro = text "ro"
