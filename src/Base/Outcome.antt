-- ===== src/Base/Outcome.antt =====
-- `eyre::Result`, with one error constructor for each place of the source that raises one.
use Prim.Native.Nat.{ℕ}
use mathlib.Core.Path.{◌≡◌, refl}
use mathlib.Core.Option.{Option, none, some}
use native.Mathlib.Omega.{arith}
use mathlib.Core.Bool.{Bool, true, false}
use qcs_sdk_qir.Base.Tests.{if◌then◌else◌}
use qcs_sdk_qir.Base.Texts.{Text}

pub data Error : Type 0 where
  -- interop/instruction.rs
  operand_count_underflow no_final_operand block_call_target no_operand unnamed_struct not_utf8
        bad_qubit_index bad_result_index unexpected_pointer unexpected_argument :
      Error
  unexpected_struct : Text → Error
  removal_stuck no_parent no_block_target no_comparison no_first_instruction no_incoming not_a_phi :
      Error
  -- interop/call.rs
  no_call_value no_quantum_processor_id : Error
  -- a panic of inkwell: the value is of another kind
  not_a_pointer not_an_int not_an_instruction : Error
  -- qir.rs
  no_entry_block no_initial_instruction no_terminator no_else_target no_last_instruction : Error
  -- pattern.rs
  bad_argument : ℕ → Error
  malformed_record malformed_read_result : Error
  unimplemented_record : Text → Error
  never_measured : ℕ → Error
  no_operand_use not_basic_value no_constant negative_shot_count not_loop_variable no_branch
        not_branch bad_shot_operand :
      Error
  disallowed_instruction : ℕ → Error
  -- quil.rs
  entrypoint_missing body_missing pattern_missing not_void : Error
  block_count : ℕ → Error
  nested_call : ℕ → Error
  -- interop/load.rs and main.rs
  parse_failed read_failed unrecognized_format : Error
  -- the model's own: a loop has used up its fuel
  out_of_fuel : Error

pub data Result {ℓ} (E : Type 0) (A : Type ℓ) : Type ℓ where
  err : E → Result E A
  ok : A → Result E A

infixl 5 ◌>>=◌
abbrev pub ◌>>=◌ {ℓ κ} :
    {E : Type 0} {A : Type ℓ} {B : Type κ} → Result E A → (A → Result E B) → Result E B
err e >>= k = err e
ok x >>= k = k x

abbrev pub ok_or {ℓ} : {E : Type 0} {A : Type ℓ} → Option A → E → Result E A
ok_or none e = err e
ok_or (some a) e = ok a

-- A postcondition of a result: `P` holds of a value, and nothing is asked of an error.
pub data Post {ℓ} {E : Type 0} {A : Type ℓ} (P : A → Type 0) : Result E A → Type ℓ where
  returns : {a : A} → P a → Post P (ok a)
  raises : {e : E} → Post P (err e)

module _ {ℓ} {E : Type 0} {A : Type ℓ} where
  -- The two parts of a chain that succeeds.
  pub >>=-eq-ok {κ} :
      {B : Type κ} (r : Result E A) (k : A → Result E B) {y : B}
      → (r >>= k) ≡ ok y
      → (x : A) × (r ≡ ok x) × (k x ≡ ok y)
  >>=-eq-ok (err e) k h = ground arith
  >>=-eq-ok (ok x) k h = (x, refl, h)

  pub Post-bind {κ} :
      {B : Type κ} {P : A → Type 0} {Q : B → Type 0} {m : Result E A} {f : A → Result E B}
      → Post P m
      → ((a : A) → P a → Post Q (f a))
      → Post Q (m >>= f)
  Post-bind (returns h) k = k _ h
  Post-bind raises k = raises

  pub Post-ok : {P : A → Type 0} {a : A} → Post {E = E} P (ok a) → P a
  Post-ok (returns h) = h

  pub Post-eq_ok : {P : A → Type 0} {m : Result E A} {a : A} → Post P m → m ≡ ok a → P a
  Post-eq_ok h e = Post-ok (rw e at h)

  -- What is asked of the value of `ok_or` may use the option's equation.
  pub Post-ok_or :
      {P : A → Type 0} (o : Option A) (e : E) → ((a : A) → o ≡ some a → P a) → Post P (ok_or o e)
  Post-ok_or none e h = raises
  Post-ok_or (some a) e h = returns (h a refl)

  -- With nothing asked of the first part.
  pub Post-then {κ} :
      {B : Type κ} {Q : B → Type 0} (m : Result E A) {f : A → Result E B}
      → ((a : A) → Post Q (f a))
      → Post Q (m >>= f)
  Post-then (ok a) k = k a
  Post-then (err e) k = raises

  pub Post-imp : {P Q : A → Type 0} {m : Result E A} → Post P m → ((a : A) → P a → Q a) → Post Q m
  Post-imp (returns h) k = returns (k _ h)
  Post-imp raises k = raises

  pub Post-if :
      {P : A → Type 0} (b : Bool) {m n : Result E A}
      → Post P m
      → Post P n
      → Post P (if b then m else n)
  Post-if true hm hn = hm
  Post-if false hm hn = hn

  -- Two continuations that agree on what the first part can return.
  pub bind_congr {κ} :
      {B : Type κ} {P : A → Type 0} {m : Result E A} {f g : A → Result E B}
      → Post P m
      → ((a : A) → P a → f a ≡ g a)
      → (m >>= f) ≡ (m >>= g)
  bind_congr (returns h) k = k _ h
  bind_congr raises k = refl

-- What is known of any value that is returned: where it comes from.
pub Post-self : {E A : Type 0} (m : Result E A) → Post (λ a. m ≡ ok a) m
Post-self (ok a) = returns refl
Post-self (err e) = raises
