-- ===== src/Pattern/Assemble/Safety.antt =====
-- The memory that an assembled program refers to (build_quil_program of quil.rs).
use mathlib.Core.List.{append_assoc}
use qcs_sdk_qir.Base.{
  ℕ, ◌<◌, ◌≡◌, refl, ap, Bool, true, false, Option, none, some, List, [], ◌∷◌, ◌++◌, Text, length,
  is_empty, All, All-imp, All-append, arith, not, retain,
}
use qcs_sdk_qir.Llvm.{Module, FloatValue}
use qcs_sdk_qir.Quil.{
  Instruction, gate, measurement, Declaration, ro, parameter_region, Expression, number, address,
  MemoryReference,
}
use qcs_sdk_qir.Quil.Program.{QuilProgram, body, region}
use qcs_sdk_qir.Context.{ContextOptions}
use qcs_sdk_qir.Pattern.Context.{RecordedOutput, PatternContext, get_dynamic_parameters}
use qcs_sdk_qir.Pattern.Bounds.{
  IsWellFormed, InRange, ExpressionInRange, TargetInRange, RefersTo, OutputInRange,
}
use qcs_sdk_qir.Pattern.Assemble.{assemble}
use qcs_sdk_qir.Pattern.Assemble.Regions.{
  rewiring_front, reset_front, readout_declaration, parameter_declaration, body-assemble,
  region-assemble-ro, region-assemble-parameters,
}

-- A float that LLVM calls constant is a literal, whose value inkwell returns. (Constant expressions
-- and `undef` are constant, too, and have no value: they are what this leaves out.)
pub record LiteralConstants (m : Module) : Type 0 where
  pub literal : (v : FloatValue) → m.get_constant v ≡ none → m.is_const v ≡ false

module _ {P : Type 0} ⦃q : QuilProgram P⦄ where
  -- The program declares the region, and the reference is inside.
  pub record IsDeclared (program : P) (ref : MemoryReference) : Type 0 where
    pub by : Declaration
    pub found : region program ref.name ≡ some by
    pub inside : ref.index < by.size

  abbrev pub ExpressionDeclared : P → Expression → Type 0
  ExpressionDeclared program (number v) = Unit {0}
  ExpressionDeclared program (address ref) = IsDeclared program ref

  abbrev pub TargetDeclared : P → Option MemoryReference → Type 0
  TargetDeclared program none = Unit {0}
  TargetDeclared program (some ref) = IsDeclared program ref

  abbrev pub ReferencesDeclared : P → Instruction → Type 0
  ReferencesDeclared program (gate g) = All (ExpressionDeclared program) g.parameters
  ReferencesDeclared program (measurement m) = TargetDeclared program m.target
  ReferencesDeclared program _ = Unit {0}

  -- Every gate parameter and measurement target is declared, and so is every readout bit that the
  -- recorded output reads; it reads nothing else.
  pub record IsSelfContained (program : P) (outputs : List RecordedOutput) : Type 0 where
    pub references : All (ReferencesDeclared program) (body program)
    pub readout : Declaration
    pub readout_found : region program ro ≡ some readout
    pub recorded : All (OutputInRange readout.size) outputs

retain_all :
    (m : Module) (vs : List FloatValue)
    → LiteralConstants m
    → All (λ v. m.get_constant v ≡ none) vs
    → retain (λ v. not (m.is_const v)) vs ≡ vs
retain_all m [] l h = refl
retain_all m (v ∷ vs) l h =
    rw (l.literal v h.0) (ap (λ (t : List FloatValue). v ∷ t) (retain_all m vs l h.1))

-- Where constants are literals every parameter is dynamic.
pub get_dynamic_parameters-eq :
    {P : Type 0} ⦃q : QuilProgram P⦄ (m : Module) (c : PatternContext P)
    → LiteralConstants m
    → IsWellFormed m c
    → get_dynamic_parameters m c ≡ c.parameters
unfolding get_dynamic_parameters
get_dynamic_parameters-eq m c l w = retain_all m c.parameters l w.dynamic

not-is_empty : {A : Type 0} (xs : List A) {k : ℕ} → k < length xs → is_empty xs ≡ false
not-is_empty [] h = absurd (omega arith)
not-is_empty (x ∷ xs) h = refl

module _ {P : Type 0} ⦃q : QuilProgram P⦄ (m : Module) (options : ContextOptions)
    (c : PatternContext P) (l : LiteralConstants m) (w : IsWellFormed m c) where
  abbrev assembled : P
  assembled = assemble m options c c.quil_program

  readout-IsDeclared :
      (ref : MemoryReference)
      → RefersTo ro (length c.read_result_mapping) ref
      → IsDeclared assembled ref
  readout-IsDeclared ref h = record {
    by = readout_declaration c;
    found = rw h.region (region-assemble-ro m options c c.quil_program);
    inside = h.below;
  }

  parameter-IsDeclared :
      (ref : MemoryReference)
      → RefersTo parameter_region (length c.parameters) ref
      → IsDeclared assembled ref
  parameter-IsDeclared ref h =
      let same = get_dynamic_parameters-eq m c l w in
      record {
        by = parameter_declaration m c;
        found =
            rw (h.region, region-assemble-parameters m options c c.quil_program, same)
              (rw (not-is_empty c.parameters h.below));
        inside = rw same h.below;
      }

  TargetInRange-TargetDeclared :
      (t : Option MemoryReference)
      → TargetInRange (length c.read_result_mapping) t
      → TargetDeclared assembled t
  TargetInRange-TargetDeclared none h = tt
  TargetInRange-TargetDeclared (some ref) h = readout-IsDeclared ref h

  ExpressionInRange-ExpressionDeclared :
      (e : Expression) → ExpressionInRange (length c.parameters) e → ExpressionDeclared assembled e
  ExpressionInRange-ExpressionDeclared (number v) h = tt
  ExpressionInRange-ExpressionDeclared (address ref) h = parameter-IsDeclared ref h

  InRange-ReferencesDeclared :
      (i : Instruction)
      → InRange (length c.read_result_mapping) (length c.parameters) i
      → ReferencesDeclared assembled i
  InRange-ReferencesDeclared (gate g) h =
      All-imp g.parameters ExpressionInRange-ExpressionDeclared h
  InRange-ReferencesDeclared (measurement t) h = TargetInRange-TargetDeclared t.target h
  InRange-ReferencesDeclared _ h = tt

  front_declared :
      (o : Option Text) (active : Bool)
      → All (ReferencesDeclared assembled) (rewiring_front o ++ reset_front active)
  front_declared none true = (tt, tt)
  front_declared none false = tt
  front_declared (some rewiring) true = (tt, (tt, tt))
  front_declared (some rewiring) false = (tt, tt)

  -- If the module's float constants are literals and the context is well formed, the program
  -- assembled from the context declares every region that it refers to, with every reference
  -- below the declared size, and its recorded output reads only declared readout bits.
  pub assemble-IsSelfContained : IsSelfContained assembled c.recorded_output
  assemble-IsSelfContained = record {
    references =
        rw (body-assemble m options c c.quil_program, ← append_assoc)
          (All-append _ (rewiring_front options.rewiring_pragma ++ reset_front c.use_active_reset)
            (body c.quil_program) (front_declared options.rewiring_pragma c.use_active_reset)
            (All-imp (body c.quil_program) InRange-ReferencesDeclared w.program));
    readout = readout_declaration c;
    readout_found = region-assemble-ro m options c c.quil_program;
    recorded = w.outputs;
  }
