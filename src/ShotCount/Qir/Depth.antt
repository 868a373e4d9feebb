-- ===== src/ShotCount/Qir/Depth.antt =====
-- How deep the nested calls of a function go that shot_count_block/qir.rs transpiles: each goes to a
-- name that is not visited yet.
use qcs_sdk_qir.Base.{
  ℕ, zero, suc, ◌≤◌, ◌<◌, ◌≡◌, refl, Bool, true, false, ◌||◌, some, List, [], ◌∷◌, ◌++◌, ◌⊎◌, Text,
  text_eq, text_eq_iff, arith, if◌then◌else◌, Bool-cases, inl, inr,
}
use qcs_sdk_qir.Base.Outcome.{Post, Post-bind, Post-imp, bind_congr}
use qcs_sdk_qir.Llvm.{Module, BasicBlock, Function}
use qcs_sdk_qir.Llvm.Builder.{Llvm, History}
use qcs_sdk_qir.Quil.Program.{QuilProgram}
use qcs_sdk_qir.Context.{QcsCompilerContext}
use qcs_sdk_qir.Rewriting.Jobs.{Insertion, Rewrites, untouched, inserts}
use qcs_sdk_qir.Rewriting.Protocol.Functions.{AddsNone, AddsNone-trans, Follows-AddsNone}
use qcs_sdk_qir.ShotCount.Loop.{ShotCountPatternMatchContext}
use qcs_sdk_qir.ShotCount.Scan.{Callback, contains}
use qcs_sdk_qir.ShotCount.Scan.Callbacks.{Keeps, from_basic_block-Keeps}
use qcs_sdk_qir.ShotCount.Scan.Depth.{Agree, from_basic_block-Agree}
use qcs_sdk_qir.ShotCount.Qir.{transpile_basic_block, transpile_blocks, transpile_function}
use qcs_sdk_qir.ShotCount.Qir.Refinement.{
  BlockOutcome, nothing_to_do, executes, insert_quil_program-Post, transpile_function-Keeps,
}

-- How many of the names are not visited.
unfoldable pub unvisited : List Text → List Text → ℕ
unfolding contains
unvisited visited [] = 0
unvisited visited (n ∷ ns) =
    let rest = unvisited visited ns in if contains visited n then rest else suc rest

or_assoc : (a b c : Bool) → a || (b || c) ≡ (a || b) || c
or_assoc true b c = refl
or_assoc false b c = refl

contains-snoc :
    (visited : List Text) (name t : Text)
    → contains (visited ++ name ∷ []) t ≡ contains visited t || text_eq name t
unfolding contains
contains-snoc [] name t = ground arith
contains-snoc (x ∷ xs) name t = rw (contains-snoc xs name t) (or_assoc (text_eq x t) _ _)

abbrev counted : Bool → ℕ → ℕ
counted b n = if b then n else suc n

counted-le : (b c : Bool) (m n : ℕ) → m ≤ n → counted (b || c) m ≤ counted b n
counted-le true c m n h = h
counted-le false true m n h = omega arith
counted-le false false m n h = omega arith

counted-lt : (b c : Bool) (m n : ℕ) → m < n → counted (b || c) m < counted b n
counted-lt true c m n h = h
counted-lt false true m n h = omega arith
counted-lt false false m n h = omega arith

module _ (visited : List Text) (name : Text) where
  unvisited-le :
      (names : List Text) → unvisited (visited ++ name ∷ []) names ≤ unvisited visited names
  unfolding unvisited
  unvisited-le [] = omega arith
  unvisited-le (n ∷ ns) =
      rw (contains-snoc visited name n) (counted-le (contains visited n) _ _ _ (unvisited-le ns))

  -- The first of the names is the new one, or it is among the others.
  unvisited-cons :
      (n : Text) (ns : List Text)
      → contains visited name ≡ false
      → (text_eq n name ≡ true) ⊎ (unvisited (visited ++ name ∷ []) ns < unvisited visited ns)
      → unvisited (visited ++ name ∷ []) (n ∷ ns) < unvisited visited (n ∷ ns)
  unfolding unvisited
  unvisited-cons n ns new (inr h) =
      rw (contains-snoc visited name n) (counted-lt (contains visited n) _ _ _ h)
  unvisited-cons n ns new (inl e) =
      let same = (text_eq_iff n name).0 e in
      let le = unvisited-le ns in
      rw (same, contains-snoc visited name name, new, (text_eq_iff name name).1 refl) (omega arith)

  unvisited-lt :
      (names : List Text)
      → contains names name ≡ true
      → contains visited name ≡ false
      → unvisited (visited ++ name ∷ []) names < unvisited visited names
  unfolding contains
  unvisited-lt [] h new = ground arith
  unvisited-lt (n ∷ ns) h new = elim (Bool-cases (text_eq n name)) [
    | inl e ↦ unvisited-cons n ns new (inl e)
    | inr e ↦ unvisited-cons n ns new (inr (unvisited-lt ns (rw e at h) new))
  ]

-- The functions of the module have names among these.
abbrev pub Names : List Text → Module → Type 0
Names names m =
    (name : Text) (f : Function) → m.get_function name ≡ some f → contains names name ≡ true

-- As long as no function is added, they have, whatever else LLVM is told to do.
abbrev pub KeepsNames : Llvm → List Text → History → Type 0
KeepsNames L names old = (h : History) → AddsNone old h → Names names (L.observe h)

module _ {P : Type 0} ⦃q : QuilProgram P⦄ (to_string : P → Text) (L : Llvm) (fuel : ℕ) where
  -- The rewriting of a function with any callback in place of the calls that are too deep.
  unfoldable pub nested : Callback P → ℕ → Callback P
  nested base zero ctx function visited = base ctx function visited
  nested base (suc depth) ctx function visited =
      transpile_blocks to_string L fuel (nested base depth) visited
        (ctx.llvm.get_basic_blocks function) ctx

  module _ (names : List Text) (old : History) (keeps_names : KeepsNames L names old) where
    abbrev Bounded : QcsCompilerContext P → Type 0
    Bounded ctx = Names names ctx.llvm × AddsNone old ctx.history

    Insertion-Bounded :
        {ctx ctx' : QcsCompilerContext P} {job : _} {program : P}
        → Insertion to_string L ctx ctx' job program
        → Bounded ctx
        → Bounded ctx'
    Insertion-Bounded i b =
        let adds = AddsNone-trans b.1 (Follows-AddsNone i.follows) in
        (rw i.shown (keeps_names _ adds), adds)

    Rewrites-Bounded :
        {first ctx : QcsCompilerContext P} {jobs : List _}
        → Rewrites to_string L first jobs ctx
        → Bounded first
        → Bounded ctx
    Rewrites-Bounded untouched b = b
    Rewrites-Bounded (inserts r i) b = Insertion-Bounded i (Rewrites-Bounded r b)

    BlockOutcome-Bounded :
        {ctx ctx' : QcsCompilerContext P} {pc : ShotCountPatternMatchContext P}
        → BlockOutcome to_string L ctx pc ctx'
        → Bounded ctx
        → Bounded ctx'
    BlockOutcome-Bounded (nothing_to_do e) b = b
    BlockOutcome-Bounded (executes e i) b = Insertion-Bounded i b

    transpile_function-Bounded :
        (depth : ℕ) → Keeps Bounded (transpile_function to_string L fuel depth)
    transpile_function-Bounded depth = record {
      keeps = λ ctx f visited b.
          Post-imp
            ((transpile_function-Keeps to_string L fuel ctx depth).keeps ctx f visited
              ([], untouched))
            λ ctx' r. Rewrites-Bounded r.1 b;
    }

    module _ (callback callback' : Callback P) (k : Keeps Bounded callback) (visited : List Text)
        (agree : Agree Bounded visited callback callback') where
      block-Agree :
          (ctx : QcsCompilerContext P) (block : BasicBlock)
          → Bounded ctx
          → transpile_basic_block to_string L fuel callback ctx block visited
            ≡ transpile_basic_block to_string L fuel callback' ctx block visited
      unfolding transpile_basic_block
      block-Agree ctx block b =
          rw (from_basic_block-Agree Bounded visited callback callback' agree k fuel ctx block b)

      block-Bounded :
          (ctx : QcsCompilerContext P) (block : BasicBlock)
          → Bounded ctx
          → Post Bounded (transpile_basic_block to_string L fuel callback ctx block visited)
      unfolding transpile_basic_block
      block-Bounded ctx block b =
          Post-bind (from_basic_block-Keeps Bounded callback k visited fuel ctx block b) λ p b'.
            Post-imp (insert_quil_program-Post to_string L fuel p.0 p.1 block)
              λ ctx' o. BlockOutcome-Bounded o b'

      blocks-Agree :
          (blocks : List BasicBlock) (ctx : QcsCompilerContext P)
          → Bounded ctx
          → transpile_blocks to_string L fuel callback visited blocks ctx
            ≡ transpile_blocks to_string L fuel callback' visited blocks ctx
      unfolding transpile_blocks
      blocks-Agree [] ctx b = refl
      blocks-Agree (block ∷ blocks) ctx b =
          rw (← block-Agree ctx block b)
            (bind_congr (block-Bounded ctx block b) (blocks-Agree blocks))

    -- If the context's module and every module that LLVM shows after commands that add no
    -- function know functions only by the names of a list, and the depth is greater than the
    -- number of those names that are not visited yet, then the rewriting of a function, with
    -- the functions that it calls, is the same at any other such depth and with any callback in
    -- place of the error for calls that are too deep: the nesting of calls ends, recursive
    -- functions included.
    pub transpile_function-eq-nested :
        (base : Callback P) (depth depth' : ℕ) (ctx : QcsCompilerContext P) (function : Function)
        (visited : List Text)
        → Names names ctx.llvm
        → AddsNone old ctx.history
        → unvisited visited names < depth
        → unvisited visited names < depth'
        → transpile_function to_string L fuel depth ctx function visited
          ≡ nested base depth' ctx function visited
    unfolding transpile_function nested
    transpile_function-eq-nested base zero depth' ctx function visited n a l l' =
        absurd (omega arith)
    transpile_function-eq-nested base (suc depth) zero ctx function visited n a l l' =
        absurd (omega arith)
    transpile_function-eq-nested base (suc depth) (suc depth') ctx function visited n a l l' =
        blocks-Agree (transpile_function to_string L fuel depth) (nested base depth')
          (transpile_function-Bounded depth) visited
          (record {
            agrees = λ ctx f name b known new.
                let less = unvisited-lt visited name names (b.0 name f known) new in
                transpile_function-eq-nested base depth depth' ctx f (visited ++ name ∷ []) b.0 b.1
                  (omega (arith, less, l)) (omega (arith, less, l'));
          })
          (ctx.llvm.get_basic_blocks function) ctx (n, a)
