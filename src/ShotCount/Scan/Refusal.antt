-- ===== src/ShotCount/Scan/Refusal.antt =====
-- A scan that succeeds although nested calls are refused does not depend on the callback.
use qcs_sdk_qir.Base.{
  ℕ, zero, suc, ◌≡◌, refl, Option, none, some, List, [], ◌∷◌, ◌++◌, Text, Bool-cases, inl, inr,
}
use qcs_sdk_qir.Base.Outcome.{Error, Result, ok, err, ◌>>=◌, Post, returns, raises, Post-self}
use qcs_sdk_qir.Llvm.{Instruction, BasicBlock, Function, Opcode, call, Operand, left, pointer_value}
use qcs_sdk_qir.Quil.Program.{QuilProgram}
use qcs_sdk_qir.Context.{QcsCompilerContext}
use qcs_sdk_qir.Pattern.Context.{PatternContext, Matched}
use qcs_sdk_qir.ShotCount.Loop.{ShotCountPatternMatchContext, start}
use qcs_sdk_qir.ShotCount.Scan.{
  Callback, Round, go_on, broken, contains, call_known, call_named, call_operand, other_instruction,
  after_record, after_quantum, in_loop, scan_round, visit, resume, scan, from_basic_block,
}
use qcs_sdk_qir.ShotCount.Scan.Callbacks.{Keeps}

-- What the first result returns, the second returns.
abbrev pub AlsoReturns : {A : Type 0} → Result Error A → Result Error A → Type 0
AlsoReturns m n = Post (λ a. n ≡ ok a) m

bind-AlsoReturns :
    {A B : Type 0} {m n : Result Error A} {f g : A → Result Error B}
    → AlsoReturns m n
    → ((a : A) → AlsoReturns (f a) (g a))
    → AlsoReturns (m >>= f) (n >>= g)
bind-AlsoReturns (returns e) k = rw e (k _)
bind-AlsoReturns raises k = raises

-- The callback never returns.
pub record Refuses {P : Type 0} (refusal : Callback P) : Type 0 where
  pub refuses :
      (ctx : QcsCompilerContext P) (f : Function) (visited : List Text)
      → (e : Error) × (refusal ctx f visited ≡ err e)

module _ {P : Type 0} ⦃q : QuilProgram P⦄ (refusal : Callback P) (refuses : Refuses refusal)
    (callback : Callback P) (visited : List Text) where
  module _ (ctx : QcsCompilerContext P) (pc : ShotCountPatternMatchContext P)
      (i : Instruction) where
    call_known-AlsoReturns :
        (name : Text) (o : Option Function)
        → AlsoReturns
            (call_known refusal visited ctx pc i name o)
            (call_known callback visited ctx pc i name o)
    unfolding call_known
    call_known-AlsoReturns name none = returns refl
    call_known-AlsoReturns name (some f) =
        let (e, h) = refuses.refuses ctx f (visited ++ name ∷ []) in rw h raises

    call_named-AlsoReturns :
        (name : Text)
        → AlsoReturns
            (call_named refusal visited ctx pc i name)
            (call_named callback visited ctx pc i name)
    unfolding call_named
    call_named-AlsoReturns name = elim (Bool-cases (contains visited name)) [
      | inl e ↦ rw e (returns refl)
      | inr e ↦ rw e (call_known-AlsoReturns name (ctx.llvm.get_function name))
    ]

    call_operand-AlsoReturns :
        (o : Option Operand)
        → AlsoReturns
            (call_operand refusal visited ctx pc i o)
            (call_operand callback visited ctx pc i o)
    unfolding call_operand
    call_operand-AlsoReturns (some (left (pointer_value p))) =
        bind-AlsoReturns (Post-self _) call_named-AlsoReturns
    call_operand-AlsoReturns _ = returns refl

    other_instruction-AlsoReturns :
        (op : Opcode)
        → AlsoReturns
            (other_instruction refusal visited ctx pc i op)
            (other_instruction callback visited ctx pc i op)
    unfolding other_instruction
    other_instruction-AlsoReturns call = call_operand-AlsoReturns (ctx.llvm.get_operand i 0)
    other_instruction-AlsoReturns _ = returns refl

    after_record-AlsoReturns :
        (o : Matched (ShotCountPatternMatchContext P))
        → AlsoReturns
            (after_record refusal visited ctx pc i o)
            (after_record callback visited ctx pc i o)
    unfolding after_record
    after_record-AlsoReturns none = other_instruction-AlsoReturns (ctx.llvm.get_opcode i)
    after_record-AlsoReturns (some (next, pc')) = returns refl

    after_quantum-AlsoReturns :
        (o : Matched (PatternContext P))
        → AlsoReturns
            (after_quantum refusal visited ctx pc i o)
            (after_quantum callback visited ctx pc i o)
    unfolding after_quantum
    after_quantum-AlsoReturns (some (next, c)) = returns refl
    after_quantum-AlsoReturns none = bind-AlsoReturns (Post-self _) after_record-AlsoReturns

    in_loop-AlsoReturns :
        (o : Matched (PatternContext P))
        → AlsoReturns (in_loop refusal visited ctx pc i o) (in_loop callback visited ctx pc i o)
    unfolding in_loop
    in_loop-AlsoReturns (some (next, c)) = returns refl
    in_loop-AlsoReturns none = bind-AlsoReturns (Post-self _) after_quantum-AlsoReturns

    scan_round-AlsoReturns :
        (o : Option Instruction)
        → AlsoReturns
            (scan_round refusal visited ctx pc i o)
            (scan_round callback visited ctx pc i o)
    unfolding scan_round
    scan_round-AlsoReturns none = returns refl
    scan_round-AlsoReturns (some first) = bind-AlsoReturns (Post-self _) in_loop-AlsoReturns

    visit-AlsoReturns :
        AlsoReturns (visit refusal visited ctx pc i) (visit callback visited ctx pc i)
    unfolding visit
    visit-AlsoReturns = scan_round-AlsoReturns pc.initial_instruction

  scan-AlsoReturns :
      (fuel : ℕ) (next : Option Instruction) (ctx : QcsCompilerContext P)
      (pc : ShotCountPatternMatchContext P)
      → AlsoReturns (scan refusal visited fuel next ctx pc) (scan callback visited fuel next ctx pc)
  unfolding scan
  scan-AlsoReturns fuel none ctx pc = returns refl
  scan-AlsoReturns zero (some i) ctx pc = raises
  scan-AlsoReturns (suc fuel) (some i) ctx pc =
      bind-AlsoReturns (visit-AlsoReturns ctx pc i) (resumed (scan-AlsoReturns fuel))
    where
      resumed :
          ((next : Option Instruction) (ctx : QcsCompilerContext P)
              (pc : ShotCountPatternMatchContext P)
            → AlsoReturns
                (scan refusal visited fuel next ctx pc)
                (scan callback visited fuel next ctx pc))
          → (r : Round P)
          → AlsoReturns
              (resume (scan refusal visited fuel) r)
              (resume (scan callback visited fuel) r)
      resumed ih (go_on next ctx pc) = ih next ctx pc
      resumed ih (broken ctx pc) = returns refl

  pub from_basic_block-AlsoReturns :
      (fuel : ℕ) (ctx : QcsCompilerContext P) (block : BasicBlock)
      → AlsoReturns
          (from_basic_block refusal visited fuel ctx block)
          (from_basic_block callback visited fuel ctx block)
  unfolding from_basic_block
  from_basic_block-AlsoReturns fuel ctx block =
      scan-AlsoReturns fuel (ctx.llvm.get_first_instruction block) ctx start

-- A refusal keeps everything, since it returns nothing.
pub Refuses-Keeps :
    {P : Type 0} (J : QcsCompilerContext P → Type 0) (refusal : Callback P)
    → Refuses refusal
    → Keeps J refusal
Refuses-Keeps J refusal r = record {
  keeps = λ ctx f visited j. let (e, h) = r.refuses ctx f visited in rw h raises;
}
