-- ===== src/Pattern/Context.antt =====
-- The state of a scan, and its parameter list.
use qcs_sdk_qir.Base.{
  ℕ, ◌-◌, ◌==◌, if◌then◌else◌, Bool, false, not, Option, none, some, List, [], ◌∷◌, ◌++◌, length,
  position, retain,
}
use qcs_sdk_qir.Llvm.{Module, Instruction, FloatValue}
use qcs_sdk_qir.Quil.{Expression, number, address, parameter_region}
use qcs_sdk_qir.Quil.Program.{QuilProgram}

-- lib.rs: RecordedOutput
pub data RecordedOutput : Type 0 where
  shot_start shot_end tuple_start tuple_end array_start array_end : RecordedOutput
  result_readout_offset bool_readout_offset integer_readout_offset double_readout_offset :
      ℕ → RecordedOutput

-- `HashMap<u64, u64>`: the pairs in the order of insertion, one for each key.
abbrev pub ReadoutMap : Type 0
ReadoutMap = List (ℕ × ℕ)

-- The fields that the two pattern contexts share, which are all those of the unitary one.
pub record PatternContext (P : Type 0) : Type 0 where
  pub quil_program : P
  pub recorded_output : List RecordedOutput
  pub instructions_to_remove : List Instruction
  pub read_result_mapping : ReadoutMap
  pub readout_instruction_mapping : List (ℕ × Instruction)
  pub parameters : List FloatValue
  pub use_active_reset : Bool

-- `Default::default()`
abbrev pub initial : {P : Type 0} ⦃q : QuilProgram P⦄ → PatternContext P
initial ⦃q⦄ = record {
  quil_program = q.new;
  recorded_output = [];
  instructions_to_remove = [];
  read_result_mapping = [];
  readout_instruction_mapping = [];
  parameters = [];
  use_active_reset = false;
}

-- `HashMap::get`
unfoldable pub lookup : ℕ → ReadoutMap → Option ℕ
lookup k [] = none
lookup k ((j, v) ∷ m) = if j == k then some v else lookup k m

insert_at : ℕ → ReadoutMap → Option ℕ → ℕ × ReadoutMap
insert_at k m (some v) = (v, m)
insert_at k m none = (length m, m ++ (k, length m) ∷ [])

-- `entry(k).or_insert_with(|| next_ro_index)`, where the next index is the number of entries.
unfoldable pub entry_or_next : ℕ → ReadoutMap → ℕ × ReadoutMap
unfolding insert_at lookup
entry_or_next k m = insert_at k m (lookup k m)

module _ {P : Type 0} where
  -- The parameters that have no constant value.
  unfoldable pub get_dynamic_parameters : Module → PatternContext P → List FloatValue
  get_dynamic_parameters m c = retain (λ v. not (m.is_const v)) c.parameters

  parameter_index_at : PatternContext P → FloatValue → Option ℕ → ℕ × PatternContext P
  parameter_index_at c v (some index) = (index, c)
  parameter_index_at c v none =
      let pushed = c.parameters ++ v ∷ [] in (length pushed - 1, record c { parameters = pushed })

  -- The index of the value in the list of parameters, to which it is appended if it is new.
  unfoldable pub get_quil_parameter_index : PatternContext P → FloatValue → ℕ × PatternContext P
  unfolding parameter_index_at
  get_quil_parameter_index c v = parameter_index_at c v (position v c.parameters)

  unfoldable pub get_quil_parameter_expression :
      Module → PatternContext P → FloatValue → Expression × PatternContext P
  unfolding get_quil_parameter_index
  get_quil_parameter_expression m c v = elim (m.get_constant v) [
    | some constant ↦ (number constant, c)
    | none ↦
        let (index, c') = get_quil_parameter_index c v in
        (address (record { name = parameter_region; index = index }), c')
  ]

-- `PatternResult`: `none` if the instruction is no match, and else the next instruction; a match
-- comes with the context that it leaves.
abbrev pub Matched : Type 0 → Type 0
Matched C = Option (Option Instruction × C)
