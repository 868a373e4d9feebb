-- ===== src/ShotCount/Scan/Depth.antt =====
-- Callbacks that agree on the functions that a scan can call: those whose names it has not visited.
use qcs_sdk_qir.Base.{
  ℕ, zero, suc, ◌≡◌, refl, false, Option, none, some, List, [], ◌∷◌, ◌++◌, Text, Bool-cases, inl,
  inr,
}
use qcs_sdk_qir.Base.Outcome.{Result, ◌>>=◌, Post-self, bind_congr}
use qcs_sdk_qir.Llvm.{Instruction, BasicBlock, Function, Opcode, call, Operand, left, pointer_value}
use qcs_sdk_qir.Quil.Program.{QuilProgram}
use qcs_sdk_qir.Context.{QcsCompilerContext}
use qcs_sdk_qir.Pattern.Context.{PatternContext, Matched}
use qcs_sdk_qir.ShotCount.Loop.{ShotCountPatternMatchContext, start}
use qcs_sdk_qir.ShotCount.Scan.{
  Callback, Round, go_on, broken, contains, call_known, call_named, call_operand, other_instruction,
  after_record, after_quantum, in_loop, scan_round, visit, resume, scan, from_basic_block,
}
use qcs_sdk_qir.ShotCount.Scan.Callbacks.{Keeps, RoundKeeps, going, done, visit-Keeps}

-- On the contexts with `J`.
pub record Agree {P : Type 0} (J : QcsCompilerContext P → Type 0) (visited : List Text)
    (callback callback' : Callback P) : Type 0 where
  pub agrees :
      (ctx : QcsCompilerContext P) (f : Function) (name : Text)
      → J ctx
      → ctx.llvm.get_function name ≡ some f
      → contains visited name ≡ false
      → callback ctx f (visited ++ name ∷ []) ≡ callback' ctx f (visited ++ name ∷ [])

module _ {E A B : Type 0} where
  same_bind :
      (m : Result E A) {f g : A → Result E B} → ((a : A) → f a ≡ g a) → (m >>= f) ≡ (m >>= g)
  same_bind m k = bind_congr (Post-self m) λ a e. k a

module _ {P : Type 0} ⦃q : QuilProgram P⦄ (J : QcsCompilerContext P → Type 0) (visited : List Text)
    (callback callback' : Callback P) (agree : Agree J visited callback callback') where
  module _ (ctx : QcsCompilerContext P) (pc : ShotCountPatternMatchContext P) (i : Instruction)
      (j : J ctx) where
    call_known-Agree :
        (name : Text) (o : Option Function)
        → ctx.llvm.get_function name ≡ o
        → contains visited name ≡ false
        → call_known callback visited ctx pc i name o ≡ call_known callback' visited ctx pc i name o
    unfolding call_known
    call_known-Agree name none known new = refl
    call_known-Agree name (some f) known new = rw (agree.agrees ctx f name j known new)

    call_named-Agree :
        (name : Text)
        → call_named callback visited ctx pc i name ≡ call_named callback' visited ctx pc i name
    unfolding call_named
    call_named-Agree name = elim (Bool-cases (contains visited name)) [
      | inl e ↦ rw e
      | inr e ↦ rw e (call_known-Agree name (ctx.llvm.get_function name) refl e)
    ]

    call_operand-Agree :
        (o : Option Operand)
        → call_operand callback visited ctx pc i o ≡ call_operand callback' visited ctx pc i o
    unfolding call_operand
    call_operand-Agree (some (left (pointer_value p))) = same_bind _ call_named-Agree
    call_operand-Agree _ = refl

    other_instruction-Agree :
        (op : Opcode)
        → other_instruction callback visited ctx pc i op
          ≡ other_instruction callback' visited ctx pc i op
    unfolding other_instruction
    other_instruction-Agree call = call_operand-Agree (ctx.llvm.get_operand i 0)
    other_instruction-Agree _ = refl

    after_record-Agree :
        (o : Matched (ShotCountPatternMatchContext P))
        → after_record callback visited ctx pc i o ≡ after_record callback' visited ctx pc i o
    unfolding after_record
    after_record-Agree none = other_instruction-Agree (ctx.llvm.get_opcode i)
    after_record-Agree (some (next, pc')) = refl

    after_quantum-Agree :
        (o : Matched (PatternContext P))
        → after_quantum callback visited ctx pc i o ≡ after_quantum callback' visited ctx pc i o
    unfolding after_quantum
    after_quantum-Agree (some (next, c)) = refl
    after_quantum-Agree none = same_bind _ after_record-Agree

    in_loop-Agree :
        (o : Matched (PatternContext P))
        → in_loop callback visited ctx pc i o ≡ in_loop callback' visited ctx pc i o
    unfolding in_loop
    in_loop-Agree (some (next, c)) = refl
    in_loop-Agree none = same_bind _ after_quantum-Agree

    scan_round-Agree :
        (o : Option Instruction)
        → scan_round callback visited ctx pc i o ≡ scan_round callback' visited ctx pc i o
    unfolding scan_round
    scan_round-Agree none = refl
    scan_round-Agree (some first) = same_bind _ in_loop-Agree

    visit-Agree : visit callback visited ctx pc i ≡ visit callback' visited ctx pc i
    unfolding visit
    visit-Agree = scan_round-Agree pc.initial_instruction

  module _ (k : Keeps J callback) where
    abbrev ScansAgree : ℕ → Type 0
    ScansAgree fuel =
        (next : Option Instruction) (ctx : QcsCompilerContext P)
        (pc : ShotCountPatternMatchContext P)
        → J ctx
        → scan callback visited fuel next ctx pc ≡ scan callback' visited fuel next ctx pc

    resume-Agree :
        (fuel : ℕ)
        → ScansAgree fuel
        → (r : Round P) → RoundKeeps J r
        → resume (scan callback visited fuel) r ≡ resume (scan callback' visited fuel) r
    resume-Agree fuel ih (go_on next ctx pc) (going j) = ih next ctx pc j
    resume-Agree fuel ih (broken ctx pc) (done j) = refl

    scan-Agree : (fuel : ℕ) → ScansAgree fuel
    unfolding scan
    scan-Agree fuel none ctx pc j = refl
    scan-Agree zero (some i) ctx pc j = refl
    scan-Agree (suc fuel) (some i) ctx pc j = rw (← visit-Agree ctx pc i j) (
        bind_congr (visit-Keeps J callback k visited ctx pc i j)
          (resume-Agree fuel (scan-Agree fuel)))

    pub from_basic_block-Agree :
        (fuel : ℕ) (ctx : QcsCompilerContext P) (block : BasicBlock)
        → J ctx
        → from_basic_block callback visited fuel ctx block
          ≡ from_basic_block callback' visited fuel ctx block
    unfolding from_basic_block
    from_basic_block-Agree fuel ctx block j =
        scan-Agree fuel (ctx.llvm.get_first_instruction block) ctx start j
