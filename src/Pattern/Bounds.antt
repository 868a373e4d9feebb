-- ===== src/Pattern/Bounds.antt =====
-- The invariant of a scan: what the context refers to is in range.
pub mod Parameters
pub mod Steps
pub mod Output
use qcs_sdk_qir.Base.{ℕ, ◌≤◌, ◌<◌, ◌≡◌, Option, none, some, List, length, All, All-imp, arith}
use qcs_sdk_qir.Llvm.{Module}
use qcs_sdk_qir.Quil.{
  Instruction, gate, measurement, declaration, reset, pragma, Expression, number, address,
  MemoryReference, ro, parameter_region,
}
use qcs_sdk_qir.Quil.Program.{QuilProgram, body}
use qcs_sdk_qir.Pattern.Context.{
  RecordedOutput, result_readout_offset, bool_readout_offset, integer_readout_offset,
  double_readout_offset, PatternContext, initial,
}
use qcs_sdk_qir.Pattern.Readout.{IsDense}

-- The reference is to the region of that name, below `bound`.
pub record RefersTo (name : List ℕ) (bound : ℕ) (ref : MemoryReference) : Type 0 where
  pub region : ref.name ≡ name
  pub below : ref.index < bound

abbrev pub ExpressionInRange : ℕ → Expression → Type 0
ExpressionInRange p (number v) = Unit {0}
ExpressionInRange p (address ref) = RefersTo parameter_region p ref

abbrev pub TargetInRange : ℕ → Option MemoryReference → Type 0
TargetInRange r none = Unit {0}
TargetInRange r (some ref) = RefersTo ro r ref

-- With `r` readout bits and `p` parameters, the instruction refers to nothing else.
abbrev pub InRange : ℕ → ℕ → Instruction → Type 0
InRange r p (gate g) = All (ExpressionInRange p) g.parameters
InRange r p (measurement m) = TargetInRange r m.target
InRange r p (declaration d) = Unit {0}
InRange r p reset = Unit {0}
InRange r p (pragma g) = Unit {0}

-- The recorded output reads readout bits below `r`, and no other kind of value.
abbrev pub OutputInRange : ℕ → RecordedOutput → Type 0
OutputInRange r (result_readout_offset i) = i < r
OutputInRange r (bool_readout_offset i) = ⊥
OutputInRange r (integer_readout_offset i) = ⊥
OutputInRange r (double_readout_offset i) = ⊥
OutputInRange r _ = Unit {0}

RefersTo-mono :
    {name : List ℕ} {b b' : ℕ} (ref : MemoryReference)
    → b ≤ b'
    → RefersTo name b ref
    → RefersTo name b' ref
RefersTo-mono ref le h = record { region = h.region; below = omega arith }

pub ExpressionInRange-mono :
    {p p' : ℕ} (e : Expression) → p ≤ p' → ExpressionInRange p e → ExpressionInRange p' e
ExpressionInRange-mono (number v) le h = tt
ExpressionInRange-mono (address ref) le h = RefersTo-mono ref le h

TargetInRange-mono :
    {r r' : ℕ} (t : Option MemoryReference) → r ≤ r' → TargetInRange r t → TargetInRange r' t
TargetInRange-mono none le h = tt
TargetInRange-mono (some ref) le h = RefersTo-mono ref le h

pub InRange-mono :
    {r r' p p' : ℕ} (i : Instruction) → r ≤ r' → p ≤ p' → InRange r p i → InRange r' p' i
InRange-mono (gate g) a b h = All-imp g.parameters (λ e. ExpressionInRange-mono e b) h
InRange-mono (measurement m) a b h = TargetInRange-mono m.target a h
InRange-mono (declaration d) a b h = tt
InRange-mono reset a b h = tt
InRange-mono (pragma g) a b h = tt

pub OutputInRange-mono :
    {r r' : ℕ} (o : RecordedOutput) → r ≤ r' → OutputInRange r o → OutputInRange r' o
OutputInRange-mono (result_readout_offset i) le h = omega arith
OutputInRange-mono (bool_readout_offset i) le h = h
OutputInRange-mono (integer_readout_offset i) le h = h
OutputInRange-mono (double_readout_offset i) le h = h
OutputInRange-mono _ le h = tt

module _ {P : Type 0} ⦃q : QuilProgram P⦄ where
  -- What holds of the context at every point of a scan of the module `m`.
  pub record IsWellFormed (m : Module) (c : PatternContext P) : Type 0 where
    -- readout offsets are dense
    pub dense : IsDense c.read_result_mapping
    -- every reference of the Quil program is to an offset that is in use
    pub program :
        All (InRange (length c.read_result_mapping) (length c.parameters)) (body c.quil_program)
    pub outputs : All (OutputInRange (length c.read_result_mapping)) c.recorded_output
    pub readouts : All (λ r. r.0 < length c.read_result_mapping) c.readout_instruction_mapping
    -- only values that are no constants are parameters
    pub dynamic : All (λ v. m.get_constant v ≡ none) c.parameters

module _ {P : Type 0} ⦃q : QuilProgram P⦄ where
  pub initial-IsWellFormed : (m : Module) → IsWellFormed m (initial {P = P})
  initial-IsWellFormed m = record {
    dense = record { counts = tt; distinct = tt };
    program = rw q.body-new tt;
    outputs = tt;
    readouts = tt;
    dynamic = tt;
  }
