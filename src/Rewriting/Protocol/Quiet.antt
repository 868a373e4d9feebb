-- ===== src/Rewriting/Protocol/Quiet.antt =====
-- Work without a call, which leaves the protocol where it is.
use qcs_sdk_qir.Base.{ℕ, zero, suc, Bool, true, false, Option, none, some, List, []}
use qcs_sdk_qir.Base.Outcome.{Error, Result, ok, err, Post, returns, raises}
use qcs_sdk_qir.Llvm.{Instruction, BasicBlock, PhiValue}
use qcs_sdk_qir.Llvm.Builder.{Llvm, State, perform, History}
use qcs_sdk_qir.Context.Structs.{Types}
use qcs_sdk_qir.Context.Externals.{Values}
use qcs_sdk_qir.Interop.Branches.{
  replace_conditional_branch_target, new_incoming, replace_phi_clause, replace_if_phi,
  replace_phis_from, replace_phi_clauses,
}
use qcs_sdk_qir.Interop.Removal.{UseStore, remove_instructions_in_safe_order}
use qcs_sdk_qir.Interop.Removal.Order.{
  Removes, none_removed, then_remove, RemovalOutcome, all_removed, still_in_use,
  remove_instructions_in_safe_order-Outcome,
}
use qcs_sdk_qir.Rewriting.Launch.{module_uses, remove_instructions}
use qcs_sdk_qir.Rewriting.Protocol.{Job, Phase, quiet}
use qcs_sdk_qir.Rewriting.Protocol.Triples.{
  Leads, At, next-At, pure-Leads, bind-Leads, then-Leads, required-Leads, now-Leads, quiet-Leads,
}

module _ {S : Type 0} (u : UseStore S) (Q : S → Type 0)
    (keeps : (s : S) (i : Instruction) → Q s → Q (u.remove_from_basic_block s i)) where
  Removes-keeps : {s s' : S} {order : List Instruction} → Removes u s order s' → Q s → Q s'
  Removes-keeps none_removed h = h
  Removes-keeps (then_remove i e r) h = Removes-keeps r (keeps _ i h)

  -- What every removal keeps, the removal of a list keeps.
  outcome_keeps :
      {s : S} {is : List Instruction} {o : Result Error S}
      → RemovalOutcome u s is o
      → Q s
      → Post Q o
  outcome_keeps (all_removed order r perm) h = returns (Removes-keeps r h)
  outcome_keeps (still_in_use order kept r perm e f) h = raises

  pub removal_keeps :
      (s : S) (is : List Instruction) → Q s → Post Q (remove_instructions_in_safe_order u s is)
  removal_keeps s is h = outcome_keeps (remove_instructions_in_safe_order-Outcome u s is) h

module _ {L : Llvm} {t : Types} {v : Values} {job : Job} {old : History} {p : Phase} where
  pub replace_branch-Leads :
      (i : Instruction) (then_block else_block : Option BasicBlock)
      → Leads L t v job old p (replace_conditional_branch_target L i then_block else_block) (λ _. p)
  unfolding replace_conditional_branch_target
  replace_branch-Leads i then_block else_block = bind-Leads now-Leads λ m.
      bind-Leads (required-Leads _ _) λ parent. then-Leads (quiet-Leads _ tt) (
        bind-Leads now-Leads λ m'. bind-Leads (required-Leads _ _) λ b.
          bind-Leads (required-Leads _ _) λ b'. bind-Leads (required-Leads _ _) λ c.
            bind-Leads (quiet-Leads _ tt) λ new.
              then-Leads (quiet-Leads _ tt)
                (then-Leads (quiet-Leads _ tt) (pure-Leads tt (λ _. _))))

  new_incoming-Leads :
      (i : PhiValue) (b b' : BasicBlock) (r : Bool) (k n : ℕ)
      → Leads L t v job old p (new_incoming L i b b' r k n) (λ _. p)
  unfolding new_incoming
  new_incoming-Leads i b b' r k zero = pure-Leads [] (λ _. _)
  new_incoming-Leads i b b' r k (suc n) = bind-Leads now-Leads λ m.
      bind-Leads (required-Leads _ _)
        λ x. bind-Leads (new_incoming-Leads i b b' r (suc k) n) λ rest. pure-Leads _ (λ _. _)

  replace_phi-Leads :
      (i : PhiValue) (b b' : BasicBlock) (r : Bool)
      → Leads L t v job old p (replace_phi_clause L i b b' r) (λ _. p)
  unfolding replace_phi_clause
  replace_phi-Leads i b b' r = bind-Leads now-Leads λ m. bind-Leads (required-Leads _ _) λ parent.
      bind-Leads (required-Leads _ _) λ first. then-Leads (quiet-Leads _ tt) (
        bind-Leads now-Leads λ m'. bind-Leads (new_incoming-Leads i b b' r 0 _) λ incoming.
          bind-Leads (quiet-Leads _ tt) λ new. then-Leads (quiet-Leads _ tt) (
            then-Leads (quiet-Leads _ tt) (then-Leads (quiet-Leads _ tt) (pure-Leads tt (λ _. _)))))

  replace_if_phi-Leads :
      (i : Instruction) (b b' : BasicBlock) (r is_one : Bool)
      → Leads L t v job old p (replace_if_phi L i b b' r is_one) (λ _. p)
  unfolding replace_if_phi
  replace_if_phi-Leads i b b' r false = pure-Leads tt (λ _. _)
  replace_if_phi-Leads i b b' r true =
      bind-Leads now-Leads λ m. bind-Leads (required-Leads _ _) λ phi. replace_phi-Leads phi b b' r

  replace_phis-Leads :
      (fuel : ℕ) (i : Option Instruction) (b b' : BasicBlock) (r : Bool)
      → Leads L t v job old p (replace_phis_from L fuel i b b' r) (λ _. p)
  unfolding replace_phis_from
  replace_phis-Leads fuel none b b' r = pure-Leads tt (λ _. _)
  replace_phis-Leads zero (some i) b b' r = required-Leads none _
  replace_phis-Leads (suc fuel) (some i) b b' r = bind-Leads now-Leads λ m.
      then-Leads (replace_if_phi-Leads i b b' r _)
        (replace_phis-Leads fuel (m.get_next_instruction i) b b' r)

  pub replace_phi_clauses-Leads :
      (fuel : ℕ) (within b b' : BasicBlock) (r : Bool)
      → Leads L t v job old p (replace_phi_clauses L fuel within b b' r) (λ _. p)
  unfolding replace_phi_clauses
  replace_phi_clauses-Leads fuel within b b' r =
      bind-Leads now-Leads λ m. replace_phis-Leads fuel (m.get_first_instruction within) b b' r

  pub remove_instructions-Leads :
      (is : List Instruction) → Leads L t v job old p (remove_instructions L is) (λ _. p)
  unfolding remove_instructions module_uses perform
  remove_instructions-Leads is = record {
    ends = λ s h. removed (
        removal_keeps (module_uses L) (λ s'. At L t v job old s' p) (λ s' i k. next-At k (quiet tt))
          s is h);
  }
    where
      removed :
          {o : Result Error State}
          → Post (λ s'. At L t v job old s' p) o
          → Post {A = Unit {0} × State}
              (λ r. At L t v job old r.1 p)
              (elim o as (λ _. Result Error (Unit {0} × State)) [
                | err e ↦ err e
                | ok s' ↦ ok (tt {0}, s')
              ])
      removed (returns k) = returns k
      removed raises = raises
