-- ===== src/Rewriting/Protocol/Functions.antt =====
-- The protocol adds no function to the module.
use qcs_sdk_qir.Base.{ℕ, ◌∷◌}
use qcs_sdk_qir.Llvm.Builder.{Llvm, Command, add_function, History, Event}
use qcs_sdk_qir.Context.Target.{ExecutionTarget}
use qcs_sdk_qir.Context.Structs.{Types}
use qcs_sdk_qir.Context.Externals.{Values}
use qcs_sdk_qir.Rewriting.Protocol.{
  Job, Phase, IsQuiet, Step, quiet, make, read, wrap, set, run, check, bit, free, Executes, on_qvm,
  on_qpu, Follows, here, next,
}

abbrev pub AddsNothing : Command → Type 0
AddsNothing (add_function name type linkage) = ⊥
AddsNothing _ = Unit {0}

-- Since the history `old`, no function has been added.
pub data AddsNone (old : History) : History → Type 0 where
  as_before : AddsNone old old
  then_no_more :
      {h : History} {e : Event} → AddsNone old h → AddsNothing e.command → AddsNone old (e ∷ h)

pub AddsNone-trans : {old h h' : History} → AddsNone old h → AddsNone h h' → AddsNone old h'
AddsNone-trans a as_before = a
AddsNone-trans a (then_no_more b n) = then_no_more (AddsNone-trans a b) n

quiet_adds : (c : Command) → IsQuiet c → AddsNothing c
quiet_adds (add_function name type linkage) h = absurd h
quiet_adds _ h = tt

Executes-Adds :
    {v : Values} {e : ℕ} {target : ExecutionTarget} {c : Command}
    → Executes v e target c
    → AddsNothing c
Executes-Adds on_qvm = tt
Executes-Adds (on_qpu i) = tt

module _ {L : Llvm} {t : Types} {v : Values} {job : Job} where
  Step-Adds :
      {h : History} {p p' : Phase} {e : Event} → Step L t v job h p e p' → AddsNothing e.command
  Step-Adds (quiet {c = c} q) = quiet_adds c q
  Step-Adds (make s e g) = tt
  Step-Adds (read s e g) = tt
  Step-Adds (wrap s) = tt
  Step-Adds set = tt
  Step-Adds (run x g) = Executes-Adds x
  Step-Adds check = tt
  Step-Adds bit = tt
  Step-Adds free = tt

  pub Follows-AddsNone : {old h : History} {p : Phase} → Follows L t v job old h p → AddsNone old h
  Follows-AddsNone here = as_before
  Follows-AddsNone (next f s) = then_no_more (Follows-AddsNone f) (Step-Adds s)
