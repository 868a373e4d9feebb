-- ===== src/ShotCount/Scan/Count.antt =====
-- The shot count and the loop variable during a scan (shot_count_block/pattern.rs).
use qcs_sdk_qir.Base.{
  ℕ, zero, suc, ◌≡◌, refl, ◌∙◌, Option, none, some, List, [], ◌∷◌, ◌++◌, Text, arith,
}
use qcs_sdk_qir.Base.Outcome.{ok_or, Post, returns, raises, Post-then, Post-bind, Post-if}
use qcs_sdk_qir.Llvm.{
  Module, Instruction, BasicBlock, Function, Opcode, phi, call, Operand, left, pointer_value,
}
use qcs_sdk_qir.Quil.Program.{QuilProgram}
use qcs_sdk_qir.Context.{QcsCompilerContext}
use qcs_sdk_qir.Interop.Arguments.{to_str}
use qcs_sdk_qir.Pattern.Context.{PatternContext, Matched}
use qcs_sdk_qir.Pattern.Record.{rt_record_instruction}
use qcs_sdk_qir.Pattern.Quantum.{quantum_instruction}
use qcs_sdk_qir.ShotCount.Loop.{ShotCountPatternMatchContext, start}
use qcs_sdk_qir.ShotCount.Loop.Count.{
  IsLoopEnd, CountRead, kept, read, MatchedCount, shot_count_loop_end-Count,
}
use qcs_sdk_qir.ShotCount.Loop.Phi.{MatchedPhi, shot_count_loop_start-Phi}
use qcs_sdk_qir.ShotCount.Scan.{
  Callback, Round, go_on, broken, seek_start, contains, call_known, call_named, call_operand,
  other_instruction, after_record, after_quantum, in_loop, scan_round, visit, resume, scan,
  from_basic_block,
}

-- A loop of the module whose variable counts up to `shots`: a phi instruction, and the end of the
-- loop behind it.
pub record IsLoop (m : Module) (shots : ℕ) : Type 0 where
  pub variable : Instruction
  pub is_phi : m.get_opcode variable ≡ phi
  pub increment : Instruction
  pub ends : IsLoopEnd m variable increment shots

module _ {P : Type 0} where
  -- What the scan has found so far is there.
  pub record CountFound (m : Module) (pc : ShotCountPatternMatchContext P) : Type 0 where
    pub start_phi : (i : Instruction) → pc.initial_instruction ≡ some i → m.get_opcode i ≡ phi
    pub found : (n : ℕ) → pc.shot_count ≡ some n → IsLoop m n

  -- A callback that leaves the module alone.
  pub record KeepsModule (callback : Callback P) : Type 0 where
    pub keeps :
        (ctx : QcsCompilerContext P) (f : Function) (visited : List Text)
        → Post (λ ctx'. ctx'.llvm ≡ ctx.llvm) (callback ctx f visited)

  pub data RoundFound (m : Module) : Round P → Type 0 where
    going :
        {next : Option Instruction} {ctx : QcsCompilerContext P}
        {pc : ShotCountPatternMatchContext P}
        → ctx.llvm ≡ m
        → CountFound m pc
        → RoundFound m (go_on next ctx pc)
    done :
        {ctx : QcsCompilerContext P} {pc : ShotCountPatternMatchContext P}
        → ctx.llvm ≡ m
        → CountFound m pc
        → RoundFound m (broken ctx pc)

  -- Only the two fields count.
  same_fields :
      {m : Module} {pc : ShotCountPatternMatchContext P} (pc' : ShotCountPatternMatchContext P)
      → CountFound m pc
      → pc'.initial_instruction ≡ pc.initial_instruction
      → pc'.shot_count ≡ pc.shot_count
      → CountFound m pc'
  same_fields pc' f i s = record {
    start_phi = λ j e. f.start_phi j (rw i at e);
    found = λ n e. f.found n (rw s at e);
  }

module _ {P : Type 0} (callback : Callback P) (k : KeepsModule callback) (visited : List Text)
    (m : Module) (ctx : QcsCompilerContext P) (pc : ShotCountPatternMatchContext P)
    (i : Instruction) (l : ctx.llvm ≡ m) (f : CountFound m pc) where
  call_known-Found :
      (name : Text) (o : Option Function)
      → Post (RoundFound m) (call_known callback visited ctx pc i name o)
  unfolding call_known
  call_known-Found name none = returns (going l f)
  call_known-Found name (some g) =
      Post-bind (k.keeps ctx g (visited ++ name ∷ [])) λ ctx' same. returns (going (same ∙ l) f)

  call_operand-Found :
      (o : Option Operand) → Post (RoundFound m) (call_operand callback visited ctx pc i o)
  unfolding call_operand call_named
  call_operand-Found (some (left (pointer_value p))) =
      Post-then (ok_or (to_str (ctx.llvm.get_pointer_name p)) _) λ name.
        Post-if (contains visited name) (returns (going l f))
          (call_known-Found name (ctx.llvm.get_function name))
  call_operand-Found _ = returns (going l f)

  other_instruction-Found :
      (op : Opcode) → Post (RoundFound m) (other_instruction callback visited ctx pc i op)
  unfolding other_instruction
  other_instruction-Found call = call_operand-Found (ctx.llvm.get_operand i 0)
  other_instruction-Found _ = returns (going l f)

  read-Found :
      (pc' : ShotCountPatternMatchContext P) → CountRead ctx.llvm pc i pc' → CountFound m pc'
  read-Found pc' (kept same e) = same_fields pc' f same e
  read-Found pc' (read s n at_start same e end) = record {
    start_phi = λ j h. f.start_phi j (rw same at h);
    found = λ n' h.
        let n≡ : n ≡ n' = ground (arith, e, h) in
        record {
          variable = s;
          is_phi = f.start_phi s at_start;
          increment = i;
          ends = rw (← l, ← n≡) end;
        };
  }

  after_quantum-Found :
      (o : Matched (PatternContext P))
      → Post (RoundFound m) (after_quantum callback visited ctx pc i o)
  unfolding after_quantum after_record
  after_quantum-Found (some (next, c)) = returns (going l (same_fields _ f refl refl))
  after_quantum-Found none = Post-bind (shot_count_loop_end-Count ctx.llvm pc i) ended
    where
      ended :
          (o : Matched (ShotCountPatternMatchContext P))
          → MatchedCount ctx.llvm pc i o
          → Post (RoundFound m) (after_record callback visited ctx pc i o)
      ended none h = other_instruction-Found (ctx.llvm.get_opcode i)
      ended (some (next, pc')) h = returns (done l (same_fields _ (read-Found pc' h) refl refl))

  seek_start-Found :
      (o : Matched (ShotCountPatternMatchContext P))
      → MatchedPhi ctx.llvm pc i o
      → RoundFound m (seek_start ctx pc i o)
  seek_start-Found none h = going l f
  seek_start-Found (some (next, pc')) h = going l (record {
    start_phi = λ j e. let same : i ≡ j = ground (arith, h.1, e) in rw (← l, ← same) h.0;
    found = λ n e. f.found n (rw h.2 at e);
  })

module _ {P : Type 0} ⦃q : QuilProgram P⦄ (callback : Callback P) (k : KeepsModule callback)
    (visited : List Text) (m : Module) where
  in_loop-Found :
      (ctx : QcsCompilerContext P) (pc : ShotCountPatternMatchContext P) (i : Instruction)
      → ctx.llvm ≡ m
      → CountFound m pc
      → (o : Matched (PatternContext P)) → Post (RoundFound m) (in_loop callback visited ctx pc i o)
  unfolding in_loop
  in_loop-Found ctx pc i l f (some (next, c)) = returns (going l (same_fields _ f refl refl))
  in_loop-Found ctx pc i l f none =
      Post-then (rt_record_instruction ctx.llvm pc.common i)
        (after_quantum-Found callback k visited m ctx pc i l f)

  scan_round-Found :
      (ctx : QcsCompilerContext P) (pc : ShotCountPatternMatchContext P) (i : Instruction)
      → ctx.llvm ≡ m
      → CountFound m pc
      → (o : Option Instruction) → Post (RoundFound m) (scan_round callback visited ctx pc i o)
  unfolding scan_round
  scan_round-Found ctx pc i l f none = returns (
      seek_start-Found callback k visited m ctx pc i l f _
        (shot_count_loop_start-Phi ctx.llvm pc i))
  scan_round-Found ctx pc i l f (some first) =
      Post-then (quantum_instruction ctx.llvm pc.common i) (in_loop-Found ctx pc i l f)

  abbrev ResultFound : QcsCompilerContext P × ShotCountPatternMatchContext P → Type 0
  ResultFound r = (r.0.llvm ≡ m) × CountFound m r.1

  abbrev ScanFinds : ℕ → Type 0
  ScanFinds fuel =
      (next : Option Instruction) (ctx : QcsCompilerContext P) (pc : ShotCountPatternMatchContext P)
      → ctx.llvm ≡ m
      → CountFound m pc
      → Post ResultFound (scan callback visited fuel next ctx pc)

  resume-Found :
      (fuel : ℕ)
      → ScanFinds fuel
      → (r : Round P) → RoundFound m r
      → Post ResultFound (resume (scan callback visited fuel) r)
  resume-Found fuel ih (go_on next ctx pc) (going l f) = ih next ctx pc l f
  resume-Found fuel ih (broken ctx pc) (done l f) = returns (l, f)

  scan-Found : (fuel : ℕ) → ScanFinds fuel
  unfolding scan visit
  scan-Found fuel none ctx pc l f = returns (l, f)
  scan-Found zero (some i) ctx pc l f = raises
  scan-Found (suc fuel) (some i) ctx pc l f =
      Post-bind (scan_round-Found ctx pc i l f pc.initial_instruction)
        (resume-Found fuel (scan-Found fuel))

  pub from_basic_block-Found :
      (fuel : ℕ) (ctx : QcsCompilerContext P) (block : BasicBlock)
      → ctx.llvm ≡ m
      → Post ResultFound (from_basic_block callback visited fuel ctx block)
  unfolding from_basic_block
  from_basic_block-Found fuel ctx block l =
      scan-Found fuel _ ctx start l
        (record { start_phi = λ j e. ground arith; found = λ n e. ground arith })
