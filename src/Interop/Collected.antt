-- ===== src/Interop/Collected.antt =====
-- What `get_qis_function_arguments` and `get_entry_function` return (src/interop).
use qcs_sdk_qir.Base.{
  ℕ, zero, suc, ◌+◌, ◌≡◌, refl, ap, ◌∙◌, true, false, none, some, List, [], ◌∷◌, length, Bool-cases,
  Option-cases, inl, inr, arith, ◌↔◌, ◌⊎◌, ◌≢◌, text,
}
use qcs_sdk_qir.Base.Outcome.{
  ok, no_operand, ◌>>=◌, >>=-eq-ok, Post, returns, Post-bind, Post-ok_or, Post-eq_ok,
}
use qcs_sdk_qir.Llvm.{Module, Instruction, Function, Operand}
use qcs_sdk_qir.Interop.Arguments.Operands.{
  StandsFor, operand_argument-StandsFor, operand_argument_complete,
}
use qcs_sdk_qir.Interop.Arguments.{
  OperationArgument, argument_count, collect_arguments, get_qis_function_arguments,
}
use qcs_sdk_qir.Interop.Entrypoint.{
  is_entry_point, find_entry_point, get_entrypoint_function, get_entry_function,
}

-- The arguments stand for the operands from `k` on, one for one.
abbrev pub StandFor : Module → Instruction → ℕ → List OperationArgument → Type 0
StandFor m i k [] = Unit {0}
StandFor m i k (a ∷ args) =
    ((o : Operand) × (m.get_operand i k ≡ some o) × StandsFor m o a) × StandFor m i (k + 1) args

module _ (m : Module) (i : Instruction) where
  collect_arguments-StandFor :
      (k n : ℕ) → Post (λ args. (length args ≡ n) × StandFor m i k args) (collect_arguments m i k n)
  unfolding collect_arguments
  collect_arguments-StandFor k zero = returns (refl, tt)
  collect_arguments-StandFor k (suc n) =
      Post-bind
        (Post-ok_or {P = λ o. m.get_operand i k ≡ some o} (m.get_operand i k) no_operand (λ o e. e))
        λ o e. Post-bind (operand_argument-StandsFor m o) λ a f.
          Post-bind (collect_arguments-StandFor (k + 1) n)
            λ args h. returns (ap suc h.0, ((o, e, f), h.1))

  collect_arguments_complete :
      (k : ℕ) (args : List OperationArgument)
      → StandFor m i k args
      → collect_arguments m i k (length args) ≡ ok args
  unfolding collect_arguments
  collect_arguments_complete k [] h = refl
  collect_arguments_complete k (a ∷ args) h =
      let (o, e, f) = h.0 in
      rw (e, operand_argument_complete m f, collect_arguments_complete (k + 1) args h.1) refl

argument_count-eq :
    (m : Module) (i : Instruction) (n : ℕ)
    → (argument_count m i ≡ ok n) ↔ (m.get_num_operands i ≡ suc n)
unfolding argument_count
argument_count-eq m i n = ground arith

-- The arguments of a call are a list exactly if the call has one operand more than the list is
-- long and each argument of the list is what the operand in its place stands for: a qubit or a
-- result whose index is the constant of a pointer to a struct named Qubit or Result, the float
-- that is the operand, or the instruction whose value is a pointer to no struct.
pub get_qis_function_arguments_iff :
    (m : Module) (i : Instruction) (args : List OperationArgument)
    → (get_qis_function_arguments m i ≡ ok args)
      ↔ ((m.get_num_operands i ≡ suc (length args)) × StandFor m i 0 args)
unfolding get_qis_function_arguments
get_qis_function_arguments_iff m i args = (collected, complete)
  where
    collected :
        (argument_count m i >>= collect_arguments m i 0) ≡ ok args
        → (m.get_num_operands i ≡ suc (length args)) × StandFor m i 0 args
    collected e =
        let (n, count, rest) = >>=-eq-ok (argument_count m i) (collect_arguments m i 0) e in
        let h = Post-eq_ok (collect_arguments-StandFor m i 0 n) rest in
        (rw h.0 ((argument_count-eq m i n).0 count), h.1)

    complete :
        (m.get_num_operands i ≡ suc (length args)) × StandFor m i 0 args
        → (argument_count m i >>= collect_arguments m i 0) ≡ ok args
    complete h =
        rw ((argument_count-eq m i (length args)).1 h.0) (collect_arguments_complete m i 0 args h.1)

-- The function has attributes, and that of an entry point among them.
abbrev pub HasEntryAttribute : Module → Function → Type 0
HasEntryAttribute m f =
    (m.count_attributes f ≢ 0) × (m.has_string_attribute f (text "EntryPoint") ≡ true)

-- The first function of a list with the attribute, and none before it has it.
abbrev pub IsFirst : Module → List Function → Function → Type 0
IsFirst m [] f = ⊥
IsFirst m (g ∷ gs) f =
    (HasEntryAttribute m g × (g ≡ f)) ⊎ ((¬ HasEntryAttribute m g) × IsFirst m gs f)

abbrev pub NoEntryPoint : Module → List Function → Type 0
NoEntryPoint m [] = Unit {0}
NoEntryPoint m (g ∷ gs) = (¬ HasEntryAttribute m g) × NoEntryPoint m gs

-- The entry function: the first with the attribute or, if none has it, the one with the fixed name.
abbrev pub IsEntryFunction : Module → Function → Type 0
IsEntryFunction m f =
    IsFirst m m.get_functions f
    ⊎ (NoEntryPoint m m.get_functions
        × (m.get_function (text "QuantumApplication__Run__body") ≡ some f))

has_attribute : (m : Module) (f : Function) → is_entry_point m f ≡ true → HasEntryAttribute m f
has_attribute m f h = ground arith

has_no_attribute :
    (m : Module) (f : Function) → is_entry_point m f ≡ false → ¬ HasEntryAttribute m f
has_no_attribute m f h = λ (c, a). ground (arith, h, c, a)

find_entry_point-some :
    (m : Module) (fs : List Function) (f : Function)
    → (find_entry_point m fs ≡ some f) ↔ IsFirst m fs f
unfolding find_entry_point
find_entry_point-some m [] f = ground arith
find_entry_point-some m (g ∷ gs) f = elim (Bool-cases (is_entry_point m g)) [
  | inl e ↦ rw e (ground (arith, has_attribute m g e))
  | inr e ↦ rw e (ground (arith, has_no_attribute m g e, find_entry_point-some m gs f))
]

find_entry_point-none :
    (m : Module) (fs : List Function) → (find_entry_point m fs ≡ none) ↔ NoEntryPoint m fs
unfolding find_entry_point
find_entry_point-none m [] = ground arith
find_entry_point-none m (g ∷ gs) = elim (Bool-cases (is_entry_point m g)) [
  | inl e ↦ rw e (ground (arith, has_attribute m g e))
  | inr e ↦ rw e (ground (arith, has_no_attribute m g e, find_entry_point-none m gs))
]

-- The entry function of a module is the first of its functions that has attributes and among
-- them the one named EntryPoint, or, if none has it, the function named
-- QuantumApplication__Run__body.
pub get_entry_function_iff :
    (m : Module) (f : Function) → (get_entry_function m ≡ some f) ↔ IsEntryFunction m f
unfolding get_entry_function get_entrypoint_function
get_entry_function_iff m f = elim (Option-cases (find_entry_point m m.get_functions)) [
  | inl e ↦ (
    (λ h. inr ((find_entry_point-none m m.get_functions).0 e, rw e at h)),
    λ h. elim h [
      | inl first ↦ absurd (ground (arith, e, (find_entry_point-some m m.get_functions f).1 first))
      | inr named ↦ rw e named.1
    ],
  )
  | inr (g, e) ↦ (
    (λ h.
        let same : some g ≡ some f = rw e at h in
        inl ((find_entry_point-some m m.get_functions f).0 (e ∙ same))),
    λ h. elim h [
      | inl first ↦ rw ((find_entry_point-some m m.get_functions f).1 first) refl
      | inr named ↦ absurd (ground (arith, e, (find_entry_point-none m m.get_functions).1 named.0))
    ],
  )
]
