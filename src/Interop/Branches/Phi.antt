-- ===== src/Interop/Branches/Phi.antt =====
-- What `replace_phi_clause` builds in place of a phi instruction.
use qcs_sdk_qir.Base.{
  ℕ, zero, suc, ◌+◌, ◌==◌, ◌≡◌, ◌<◌, refl, true, some, List, [], ◌∷◌, length, get_elem?, arith,
  if◌then◌else◌,
}
use qcs_sdk_qir.Base.Outcome.{ok, Post-eq_ok}
use qcs_sdk_qir.Llvm.{Module, Instruction, BasicBlock, BasicValue, PhiValue}
use qcs_sdk_qir.Llvm.Builder.{
  i64, Llvm, State, position_before, build_phi, add_incoming, replace_uses, remove_from_basic_block,
}
use qcs_sdk_qir.Interop.Branches.{redirect, new_incoming, replace_phi_clause}
use qcs_sdk_qir.Llvm.Builder.Runs.{
  Runs, after, bind-Runs, required-Runs, pure-Runs, now-Runs, perform-Runs, perform_then-Runs,
}

-- With the clauses reversed, the one from `old` stays and the others come from `new`.
abbrev pub unless_from : BasicBlock → BasicBlock → BasicBlock → BasicBlock
unless_from old new b = if b == old then old else new

zero_shift : (k : ℕ) → k + 0 ≡ k
zero_shift k = omega arith

shift : (k j : ℕ) → k + suc j ≡ suc k + j
shift k j = omega arith

module _ (L : Llvm) (i : PhiValue) (old new : BasicBlock) where
  -- The clauses from `k` on are those of the list.
  abbrev ClausesFrom : Module → ℕ → List (BasicValue × BasicBlock) → Type 0
  ClausesFrom m k incoming =
      (j : ℕ) (value : BasicValue) (b : BasicBlock)
      → m.get_incoming i (k + j) ≡ some (value, b)
      → j < length incoming
      → get_elem? incoming j ≡ some (value, unless_from old new b)

  redirect-unless : (b : BasicBlock) → redirect old new true b ≡ unless_from old new b
  unfolding redirect
  redirect-unless b = ground arith

  add_clause :
      (m : Module) (k : ℕ) (value : BasicValue) (b : BasicBlock)
      (rest : List (BasicValue × BasicBlock))
      → m.get_incoming i k ≡ some (value, b)
      → ClausesFrom m (suc k) rest
      → ClausesFrom m k ((value, redirect old new true b) ∷ rest)
  add_clause m k value b rest e h zero value' b' e' l =
      grind (arith, redirect-unless b, zero_shift k)
  add_clause m k value b rest e h (suc j) value' b' e' l =
      h j value' b' (rw (shift k j) at e') (omega arith)

  new_incoming-Clauses :
      (n k : ℕ) (s : State)
      → Runs s
          (new_incoming L i old new true k n)
          (λ incoming s'. (s' ≡ s) × (length incoming ≡ n) × ClausesFrom s.llvm k incoming)
  unfolding new_incoming
  new_incoming-Clauses zero k s = pure-Runs [] (refl, refl, λ j value b e l. absurd (omega arith))
  new_incoming-Clauses (suc n) k s = now-Runs _ (
      required-Runs _ _ λ clause e.
        bind-Runs (new_incoming-Clauses n (suc k) s)
          λ rest s' h. pure-Runs _ (h.0, omega (arith, h.1), add_clause s.llvm k _ _ rest e h.2))

  -- What stands in place of the phi `i`, in front of its block.
  pub record Replaced (s s' : State) : Type 0 where
    pub parent : BasicBlock
    pub first : Instruction
    pub new_phi : PhiValue
    pub incoming : List (BasicValue × BasicBlock)
    pub answers : ℕ × ℕ × ℕ × ℕ
    pub in_block : s.llvm.get_parent (s.llvm.phi_instruction i) ≡ some parent
    pub in_front : s.llvm.get_first_instruction parent ≡ some first
    pub built :
        let placed = after L (position_before first) answers.0 s in
        s'
        ≡ after L (remove_from_basic_block (placed.llvm.phi_instruction i)) answers.1 (
            after L (replace_uses (placed.llvm.phi_instruction i) new_phi) answers.2 (
              after L
                (add_incoming new_phi incoming)
                answers.3
                (after L (build_phi i64) new_phi placed)))
    pub all_clauses :
        length incoming ≡ (after L (position_before first) answers.0 s).llvm.count_incoming i
    pub clauses : ClausesFrom (after L (position_before first) answers.0 s).llvm 0 incoming

  pub replaced : (s : State) → Runs s (replace_phi_clause L i old new true) (λ _ s'. Replaced s s')
  unfolding replace_phi_clause
  replaced s = now-Runs _ (
      required-Runs _ _ λ parent ep. required-Runs _ _ λ first ef.
        perform_then-Runs L (position_before first) λ a. now-Runs _ (
          bind-Runs (new_incoming-Clauses _ 0 _) λ incoming s1 h. rw h.0 (
            perform-Runs L (build_phi i64) λ new_phi.
              perform_then-Runs L (add_incoming new_phi incoming) λ a3. perform_then-Runs L _ λ a2.
                perform_then-Runs L _ λ a1. pure-Runs tt (record {
                  parent = parent;
                  first = first;
                  new_phi = new_phi;
                  incoming = incoming;
                  answers = (a, a1, a2, a3);
                  in_block = ep;
                  in_front = ef;
                  built = refl;
                  all_clauses = h.1;
                  clauses = h.2;
                }))))

  -- If the replacement of a phi instruction with reversed matching succeeds, a new phi is built
  -- in front of the first instruction of the old one's block, its clauses are as many as the
  -- old one's, with the same values in the same order, a clause from the old block stays and
  -- every other clause comes from the new block, and the old phi is replaced in its uses and
  -- removed, in that order and with no other command.
  pub replace_phi_clause-Replaced :
      (s s' : State) → replace_phi_clause L i old new true s ≡ ok (tt, s') → Replaced s s'
  replace_phi_clause-Replaced s s' e = Post-eq_ok (replaced s).post e
