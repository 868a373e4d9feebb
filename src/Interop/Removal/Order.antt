-- ===== src/Interop/Removal/Order.antt =====
-- The order in which `remove_instructions_in_safe_order` removes, and how it ends.
use mathlib.Core.List.{append_assoc, append-nil, perm_middle, Perm}
use mathlib.Core.List.Perm
use qcs_sdk_qir.Base.{
  ℕ, zero, suc, ◌≤◌, ◌<◌, ◌≡◌, ◌≢◌, refl, true, false, List, [], ◌∷◌, ◌++◌, length, is_empty, All,
  arith, Bool-cases, inl, inr,
}
use qcs_sdk_qir.Base.Outcome.{Error, Result, ok, err, removal_stuck}
use qcs_sdk_qir.Llvm.{Instruction}
use qcs_sdk_qir.Interop.Removal.{
  UseStore, Round, retain_used, after_round, removal_rounds, remove_instructions_in_safe_order,
}

module _ {S : Type 0} (u : UseStore S) where
  -- The instructions are removed one after the other, each while it is not in use.
  pub data Removes : S → List Instruction → S → Type 0 where
    none_removed : {s : S} → Removes s [] s
    then_remove :
        {s s' : S} {order : List Instruction} (i : Instruction)
        → u.in_use s i ≡ false
        → Removes (u.remove_from_basic_block s i) order s'
        → Removes s (i ∷ order) s'

  Removes-append :
      {s s' s'' : S} {order order' : List Instruction}
      → Removes s order s'
      → Removes s' order' s''
      → Removes s (order ++ order') s''
  Removes-append none_removed k = k
  Removes-append (then_remove i e h) k = then_remove i e (Removes-append h k)

  nothing_removed : {s s' : S} {order : List Instruction} → Removes s order s' → order ≡ [] → s ≡ s'
  nothing_removed none_removed e = refl
  nothing_removed (then_remove i f h) e = ground arith

  abbrev AllUsed : S → List Instruction → Type 0
  AllUsed s is = All (λ i. u.in_use s i ≡ true) is

  -- What a round over `is` leaves.
  record RoundDone (s : S) (is : List Instruction) (r : Round S) : Type 0 where
    order : List Instruction
    removes : Removes s order r.store
    all : Perm (order ++ r.kept) is
    shrinks : length r.kept ≤ length is
    progress : r.removed_in_round ≡ true → length r.kept < length is
    none_free : r.removed_in_round ≡ false → (order ≡ []) × AllUsed r.store r.kept

  retain_used-RoundDone : (s : S) (is : List Instruction) → RoundDone s is (retain_used u s is)
  unfolding retain_used
  retain_used-RoundDone s [] = record {
    order = [];
    removes = none_removed;
    all = Perm.refl [];
    shrinks = omega arith;
    progress = λ e. ground arith;
    none_free = λ e. (refl, tt);
  }
  retain_used-RoundDone s (i ∷ is) = elim (Bool-cases (u.in_use s i)) [
    | inl e ↦
        let h = retain_used-RoundDone s is in
        rw (e, retain_used)
          (record {
            order = h.order;
            removes = h.removes;
            all = Perm.trans (perm_middle h.order _) (Perm.cons i h.all);
            shrinks = omega (arith, h.shrinks);
            progress = λ f. omega (arith, h.progress f);
            none_free = λ f. ((h.none_free f).0, (still_used h f e, (h.none_free f).1));
          })
    | inr e ↦
        let h = retain_used-RoundDone (u.remove_from_basic_block s i) is in
        rw (e, retain_used)
          (record {
            order = i ∷ h.order;
            removes = then_remove i e h.removes;
            all = Perm.cons i h.all;
            shrinks = omega (arith, h.shrinks);
            progress = λ f. omega (arith, h.shrinks);
            none_free = λ f. ground arith;
          })
  ]
    where
      -- Where nothing was removed, the module is the one at the start.
      still_used :
          (h : RoundDone s is (retain_used u s is))
          → (retain_used u s is).removed_in_round ≡ false
          → u.in_use s i ≡ true
          → u.in_use (retain_used u s is).store i ≡ true
      still_used h f e = rw (← nothing_removed h.removes (h.none_free f).0) e

  -- The two ends of the removal: all instructions are removed, or each that is left is in use.
  pub data RemovalOutcome (s : S) (is : List Instruction) : Result Error S → Type 0 where
    all_removed :
        {s' : S} (order : List Instruction)
        → Removes s order s'
        → Perm order is
        → RemovalOutcome s is (ok s')
    still_in_use :
        {s' : S} (order kept : List Instruction)
        → Removes s order s'
        → Perm (order ++ kept) is
        → kept ≢ []
        → AllUsed s' kept
        → RemovalOutcome s is (err removal_stuck)

  -- A round in front of the others.
  RemovalOutcome-round :
      {s : S} {is : List Instruction} {r : Round S} {res : Result Error S}
      → RoundDone s is r
      → RemovalOutcome r.store r.kept res
      → RemovalOutcome s is res
  RemovalOutcome-round h (all_removed order k p) =
      all_removed (h.order ++ order) (Removes-append h.removes k)
        (Perm.trans (Perm.append_left h.order p) h.all)
  RemovalOutcome-round h (still_in_use order kept k p n a) =
      still_in_use (h.order ++ order) kept (Removes-append h.removes k)
        (rw (append_assoc h.order order kept) (Perm.trans (Perm.append_left h.order p) h.all)) n a

  is_empty-eq_nil : (is : List Instruction) → is_empty is ≡ true → is ≡ []
  is_empty-eq_nil [] e = refl
  is_empty-eq_nil (i ∷ is) e = ground arith

  not-is_empty-nil : (is : List Instruction) → is_empty is ≡ false → is ≢ []
  not-is_empty-nil [] e f = ground arith
  not-is_empty-nil (i ∷ is) e f = ground arith

  after_round-Outcome :
      (again : S → List Instruction → Result Error S) {s : S} {is : List Instruction} (r : Round S)
      → RoundDone s is r
      → (length r.kept < length is → RemovalOutcome r.store r.kept (again r.store r.kept))
      → RemovalOutcome s is (after_round u again r)
  after_round-Outcome again {is} r h ih = elim (Bool-cases (is_empty r.kept)) [
    | inl e ↦
        let all : Perm (h.order ++ []) is = rw (← is_empty-eq_nil r.kept e) h.all in
        rw e (all_removed h.order h.removes (rw (append-nil h.order) at all))
    | inr e ↦ elim (Bool-cases r.removed_in_round) [
      | inl f ↦ rw (e, f) (RemovalOutcome-round h (ih (h.progress f)))
      | inr f ↦
          rw (e, f)
            (still_in_use h.order r.kept h.removes h.all (not-is_empty-nil r.kept e)
              (h.none_free f).1)
    ]
  ]

  removal_rounds-Outcome :
      (fuel : ℕ) (s : S) (is : List Instruction)
      → length is < fuel
      → RemovalOutcome s is (removal_rounds u fuel s is)
  unfolding removal_rounds
  removal_rounds-Outcome zero s is b = absurd (omega arith)
  removal_rounds-Outcome (suc fuel) s is b =
      after_round-Outcome (removal_rounds u fuel) (retain_used u s is) (retain_used-RoundDone s is)
        λ shorter. removal_rounds-Outcome fuel _ _ (omega arith)

  -- The removal of instructions ends, however use and removal behave, in one of two ways: it
  -- succeeds, and every instruction was removed once, each at a moment when it was not in use;
  -- or it fails as stuck, after some of them were removed in that way, and every one that is
  -- left is in use.
  pub remove_instructions_in_safe_order-Outcome :
      (s : S) (is : List Instruction)
      → RemovalOutcome s is (remove_instructions_in_safe_order u s is)
  unfolding remove_instructions_in_safe_order
  remove_instructions_in_safe_order-Outcome s is =
      removal_rounds-Outcome (suc (length is)) s is (omega arith)
