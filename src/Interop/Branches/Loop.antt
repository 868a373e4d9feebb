-- ===== src/Interop/Branches/Loop.antt =====
-- The loop of `replace_phi_clauses` and a walk over the block's instructions
-- (src/interop/instruction.rs).
use qcs_sdk_qir.Base.{
  ℕ, zero, suc, ◌≤◌, ◌≡◌, refl, ◌∙◌, Bool, true, false, Option, some, List, [], ◌∷◌, length, arith,
}
use qcs_sdk_qir.Base.Outcome.{ok, err, Result, Error, Post, returns, raises}
use qcs_sdk_qir.Llvm.{Module, Instruction, BasicBlock, PhiValue}
use qcs_sdk_qir.Llvm.Chain.{IsChain}
use qcs_sdk_qir.Llvm.Builder.{Llvm, State, Build, pure, module_now, ◌>>=◌, ◌>>◌}
use qcs_sdk_qir.Llvm.Builder.Runs.{Runs, required-Runs, now-Runs, now_at, pure-Runs, weaken-Runs}
use qcs_sdk_qir.Interop.Branches.{is_phi, replace_if_phi, replace_phis_from, replace_phi_clauses}
use qcs_sdk_qir.Interop.Branches.Phi.{Replaced, replaced}

-- The module is the one that LLVM has after the commands so far.
abbrev pub Observed : Llvm → State → Type 0
Observed L s = s.llvm ≡ L.observe s.history

module _ {A B : Type 0} {Q : A → State → Type 0} where
  same_rest :
      (n n' : Build B) (o : Result Error (A × State))
      → Post (λ r. Q r.0 r.1) o
      → ((a : A) (s' : State) → Q a s' → n s' ≡ n' s')
      → elim o as (λ _. Result Error (B × State)) [ err e ↦ err e | ok (a, s') ↦ n s' ]
        ≡ elim o as (λ _. Result Error (B × State)) [ err e ↦ err e | ok (a, s') ↦ n' s' ]
  same_rest n n' (ok (a, s')) (returns q) k = k a s' q
  same_rest n n' (err e) raises k = refl

  then_congr :
      {s : State} {m : Build A} {n n' : Build B}
      → Runs s m Q
      → ((a : A) (s' : State) → Q a s' → n s' ≡ n' s')
      → (m >> n) s ≡ (m >> n') s
  unfolding ◌>>◌
  then_congr {n = n} {n' = n'} h k = same_rest n n' _ h.post k

now_congr :
    {B : Type 0} (f g : Module → Build B) (s : State)
    → f s.llvm s ≡ g s.llvm s
    → (module_now >>= f) s ≡ (module_now >>= g) s
unfolding ◌>>=◌
now_congr f g s e = e

-- A phi instruction is replaced by one in front of its block, and what follows it stays.
pub record KeepsFollowing (L : Llvm) (old new : BasicBlock) : Type 0 where
  pub keeps :
      (s s' : State) (i : Instruction) (v : PhiValue) (is : List Instruction)
      → Observed L s
      → s.llvm.try_into_phi i ≡ some v
      → Replaced L v old new s s'
      → IsChain s.llvm (s.llvm.get_next_instruction i) is
      → IsChain s'.llvm (s.llvm.get_next_instruction i) is

module _ (L : Llvm) (old new : BasicBlock) where
  -- The body of the loop for each instruction of the list, with no fuel.
  pub replace_each : List Instruction → Build (Unit {0})
  replace_each [] = pure tt
  replace_each (i ∷ is) = do
    m ← module_now
    replace_if_phi L i old new true (is_phi (m.get_opcode i))
    replace_each is

  pub Replaced-Observed : (v : PhiValue) (s s' : State) → Replaced L v old new s s' → Observed L s'
  Replaced-Observed v s s' r = rw r.built

  module _ (k : KeepsFollowing L old new) where
    replace_if_phi-Following :
        (i : Instruction) (is : List Instruction) (s : State) (b : Bool)
        → Observed L s
        → IsChain s.llvm (s.llvm.get_next_instruction i) is
        → Runs s
            (replace_if_phi L i old new true b)
            (λ _ s'. Observed L s' × IsChain s'.llvm (s.llvm.get_next_instruction i) is)
    unfolding replace_if_phi
    replace_if_phi-Following i is s false o h = pure-Runs tt (o, h)
    replace_if_phi-Following i is s true o h = now-Runs _ (
        required-Runs _ _ λ v e.
          weaken-Runs (replaced L v old new s)
            λ _ s' r. (Replaced-Observed v s s' r, k.keeps s s' i v is o e r h))

    loop-eq-each :
        (is : List Instruction) (fuel : ℕ) (next : Option Instruction) (s : State)
        → length is ≤ fuel
        → Observed L s
        → IsChain s.llvm next is
        → replace_phis_from L fuel next old new true s ≡ replace_each is s
    unfolding replace_phis_from replace_each
    loop-eq-each [] fuel next s b o h = rw h
    loop-eq-each (i ∷ is) zero next s b o h = absurd (omega arith)
    loop-eq-each (i ∷ is) (suc fuel) next s b o h = rw h.0 (
        now_congr _ _ s (
          then_congr (replace_if_phi-Following i is s _ o h.1)
            λ _ s' f. loop-eq-each is fuel _ s' (omega arith) f.0 f.1))

    -- If the state shows the module that LLVM has after the commands so far, the replacement of
    -- a phi instruction leaves the instructions that follow it, the block's instructions are a
    -- list and the fuel is at least its length, then the replacement of the block's phi
    -- clauses, with reversed matching, is the loop's body for each instruction of that list in
    -- order, which takes no fuel: the loop ends, and it visits no phi that it has built.
    pub replace_phi_clauses-eq-each :
        (fuel : ℕ) (within : BasicBlock) (is : List Instruction) (s : State)
        → Observed L s
        → IsChain s.llvm (s.llvm.get_first_instruction within) is
        → length is ≤ fuel
        → replace_phi_clauses L fuel within old new true s ≡ replace_each is s
    unfolding replace_phi_clauses
    replace_phi_clauses-eq-each fuel within is s o h b = now_at _ s ∙ loop-eq-each is fuel _ s b o h
