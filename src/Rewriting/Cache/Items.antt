-- ===== src/Rewriting/Cache/Items.antt =====
-- Which programs the populating function puts into the cache, and under which indices.
use mathlib.Core.List.{append-nil}
use qcs_sdk_qir.Base.{
  ℕ, zero, suc, ◌+◌, ◌≡◌, refl, ap, ◌∙◌, ◌++◌, Option, none, some, List, [], ◌∷◌, Text, length,
  get_elem?, arith,
}
use qcs_sdk_qir.Llvm.{Function, Pointer, BasicBlock, Instruction}
use qcs_sdk_qir.Llvm.Builder.{Llvm, State, History, build_call}
use qcs_sdk_qir.Llvm.Builder.Runs.{
  Runs, after, weaken-Runs, bind-Runs, then-Runs, required-Runs, pure-Runs, now-Runs, perform-Runs,
  perform_then-Runs, perform_last-Runs,
}
use qcs_sdk_qir.Context.Structs.{Types}
use qcs_sdk_qir.Context.Externals.{Values}
use qcs_sdk_qir.Interop.Call.Runs.{call_only-Runs, call_for_pointer-Runs}
use qcs_sdk_qir.Rewriting.Cache.{
  add_cache_item, add_cache_items, new_populate_function, existing_or_new, populate_name,
  build_populate_executable_cache_function, position_at_start, populate_at_entry,
}
use qcs_sdk_qir.Rewriting.Cache.Populating.{
  Adds, now, earlier, Creates, created, before, Filling, opened, filled, returned, Populates,
  HasPopulate, had, new, start_of, PopulatesAtEntry,
}

zero_shift : (k : ℕ) → k + 0 ≡ k
zero_shift k = omega arith

zero_plus : (k : ℕ) → 0 + k ≡ k
zero_plus k = omega arith

shift : (k j : ℕ) → k + suc j ≡ suc k + j
shift k j = omega arith

some-injective : {A : Type 0} {a b : A} → some a ≡ some b → a ≡ b
some-injective e = cc

module _ {P : Type 0} (to_string : P → Text) (types : Types) (values : Values) where
  module _ (L : Llvm) where
    -- What was in the history stays there.
    record Keeps (s s' : State) : Type 0 where
      kept :
          {c : Pointer} {j : ℕ} {p : P}
          → Adds to_string types values c j p s.history
          → Adds to_string types values c j p s'.history
      kept_creation :
          {c : Pointer} {n : ℕ}
          → Creates to_string types values L c n s.history
          → Creates to_string types values L c n s'.history

    Keeps-trans : {s s1 s2 : State} → Keeps s s1 → Keeps s1 s2 → Keeps s s2
    Keeps-trans g g' = record {
      kept = λ a. g'.kept (g.kept a);
      kept_creation = λ c. g'.kept_creation (g.kept_creation c);
    }

    -- The items from an index to another are added, whatever else the populating function is.
    record Fills (cache : Pointer) (k j : ℕ) (done : List P) (s s' : State) : Type 0 where
      fills :
          {old : History} {n : ℕ} {all left : List P} {f : Function}
          → Filling to_string types values L old n all f cache k (done ++ left) s.history
          → Filling to_string types values L old n all f cache j left s'.history

    -- The programs are added from the index on.
    abbrev AddsFrom : Pointer → ℕ → List P → History → Type 0
    AddsFrom cache k programs h =
        (j : ℕ) (program : P)
        → get_elem? programs j ≡ some program
        → Adds to_string types values cache (k + j) program h

    AddsFrom-cons :
        (cache : Pointer) (k : ℕ) (program : P) (programs : List P) (h : History)
        → Adds to_string types values cache k program h
        → AddsFrom cache (suc k) programs h
        → AddsFrom cache k (program ∷ programs) h
    AddsFrom-cons cache k program programs h first rest zero p e =
        rw (zero_shift k, ← some-injective e) first
    AddsFrom-cons cache k program programs h first rest (suc j) p e = rw (shift k j) (rest j p e)

    item-Runs :
        (cache : Pointer) (k : ℕ) (program : P) (s : State)
        → Runs s (add_cache_item to_string L types values cache k program) (λ _ s'.
          Keeps s s'
          × Adds to_string types values cache k program s'.history
          × Fills cache k (suc k) (program ∷ []) s s')
    unfolding add_cache_item
    item-Runs cache k program s = perform-Runs L _ λ string.
        weaken-Runs (call_only-Runs L _ _ _) λ _ s' h. rw h.1 (
          record { kept = λ a. earlier (earlier a); kept_creation = λ c. before (before c) },
          now,
          record { fills = λ g. filled g },
        )

    add_items-Runs :
        (cache : Pointer) (k : ℕ) (programs : List P) (s : State)
        → Runs s (add_cache_items to_string L types values cache k programs) (λ _ s'.
          Keeps s s'
          × AddsFrom cache k programs s'.history
          × Fills cache k (k + length programs) programs s s')
    unfolding add_cache_items
    add_items-Runs cache k [] s = pure-Runs tt (
      record { kept = λ a. a; kept_creation = λ a. a },
      (λ j program e. ground arith),
      record { fills = λ g. rw (zero_shift k) g },
    )
    add_items-Runs cache k (program ∷ programs) s =
        then-Runs (item-Runs cache k program s) λ _ s1 g.
          weaken-Runs (add_items-Runs cache (suc k) programs s1) λ _ s2 g'. (
            Keeps-trans g.0 g'.0,
            AddsFrom-cons cache k program programs s2.history (g'.0.kept g.1) g'.1,
            record { fills = λ x. rw (shift k (length programs)) (g'.2.fills (g.2.fills x)) },
          )

    new_populate-Runs :
        (programs : List P) (s : State)
        → Runs s
            (new_populate_function to_string L types values programs)
            (λ f s'. Populates to_string types values L s.history programs f s'.history)
    unfolding new_populate_function
    new_populate-Runs programs s = perform-Runs L _ λ f. perform-Runs L _ λ block.
        perform_then-Runs L _ λ a. bind-Runs (call_for_pointer-Runs L _ _ _) λ cache s1 c.
          perform_then-Runs L _ λ stored. then-Runs (add_items-Runs cache 0 programs _) λ _ s2 g.
            perform_then-Runs L _ λ r. pure-Runs f (record {
              cache = cache;
              builds =
                  returned
                    (g.2.fills (rw (append-nil programs, c.1) (opened (created (rw c.1 at c.2)))));
              creates = before (g.0.kept_creation (rw c.1 (created (rw c.1 at c.2))));
              adds = λ k p e. earlier (rw (zero_plus k) at (g.1 k p e));
            })

    existing_or_new-Runs :
        (programs : List P) (s : State) (o : Option Function)
        → s.llvm.get_function populate_name ≡ o
        → Runs s
            (existing_or_new to_string L types values programs o)
            (λ f s'. HasPopulate to_string types values L s programs f s')
    unfolding existing_or_new
    existing_or_new-Runs programs s (some f) e = pure-Runs f (had e)
    existing_or_new-Runs programs s none e =
        weaken-Runs (new_populate-Runs programs s) λ f s' h. new e h

    position-Runs :
        (s : State) (b : BasicBlock) (i : Option Instruction)
        → Runs s
            (position_at_start to_string L types values b i)
            (λ a s'. s' ≡ after L (start_of b i) a s)
    unfolding position_at_start
    position-Runs s b none = perform_last-Runs L _ λ a. refl
    position-Runs s b (some i) = perform_last-Runs L _ λ a. refl

    pub populate_at_entry-Runs :
        (entrypoint : Function) (programs : List P) (s : State)
        → Runs s
            (populate_at_entry to_string L types values entrypoint programs)
            (λ _ s'. PopulatesAtEntry to_string types values L s entrypoint programs s')
    unfolding populate_at_entry build_populate_executable_cache_function
    populate_at_entry-Runs entrypoint programs s =
        bind-Runs (now-Runs _ (existing_or_new-Runs programs s _ refl)) λ f s1 h. now-Runs _ (
          required-Runs _ _ λ block e. then-Runs (position-Runs s1 block _) λ a s2 p.
            weaken-Runs (call_only-Runs L f [] s2) λ _ s3 c. record {
              populate = f;
              in_between = s1;
              has = h;
              calls = record {
                block = block;
                first_block = e;
                answers = (c.0, a);
                called = c.1 ∙ ap (after L (build_call f []) c.0) p;
              };
            })
