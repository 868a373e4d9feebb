-- ===== src/Interop/Arguments/Operands.antt =====
-- What `operand_argument` returns (src/interop/instruction.rs).
use qcs_sdk_qir.Base.{
  ℕ, ◌≡◌, refl, Option, none, some, Bool-cases, inl, inr, text, text_eq, text_eq_iff,
}
use qcs_sdk_qir.Base.Int.{ℤ, pos, negsuc, try_from}
use qcs_sdk_qir.Base.Outcome.{Error, ok, ok_or, Post, returns, raises, Post-bind}
use qcs_sdk_qir.Llvm.{
  Module, Instruction, Operand, left, float_value, pointer_value, CStr, utf8, malformed,
  ElementType, struct_type, other_type,
}
use qcs_sdk_qir.Interop.Arguments.{
  OperationArgument, qubit, result, parameter, instruction, and_then_u64, pointer_value_to_u64,
  struct_argument, plain_pointer_argument, pointer_argument, operand_argument,
}

-- What an operand stands for: a qubit or a result by the name of the struct that it points to and
-- the constant that it is, a float, or the instruction whose value it is.
pub data StandsFor (m : Module) : Operand → OperationArgument → Type 0 where
  a_qubit :
      {p n : ℕ}
      → m.get_element_type p ≡ struct_type (some (utf8 (text "Qubit")))
      → m.pointer_constant p ≡ some (pos n)
      → StandsFor m (left (pointer_value p)) (qubit n)
  a_result :
      {p n : ℕ}
      → m.get_element_type p ≡ struct_type (some (utf8 (text "Result")))
      → m.pointer_constant p ≡ some (pos n)
      → StandsFor m (left (pointer_value p)) (result n)
  a_parameter : {f : ℕ} → StandsFor m (left (float_value f)) (parameter f)
  an_instruction :
      {p i : ℕ}
      → m.get_element_type p ≡ other_type
      → m.as_instruction (pointer_value p) ≡ some i
      → StandsFor m (left (pointer_value p)) (instruction i)

module _ (m : Module) where
  index_known :
      (p : ℕ) (e : Error) (z : Option ℤ)
      → m.pointer_constant p ≡ z
      → Post (λ n. m.pointer_constant p ≡ some (pos n)) (ok_or (and_then_u64 z) e)
  unfolding try_from
  index_known p e (some (pos n)) h = returns h
  index_known p e (some (negsuc n)) h = raises
  index_known p e none h = raises

  struct_argument-StandsFor :
      (p : ℕ) (o : Option CStr)
      → m.get_element_type p ≡ struct_type o
      → Post (StandsFor m (left (pointer_value p))) (struct_argument m p o)
  unfolding struct_argument pointer_value_to_u64
  struct_argument-StandsFor p none h = raises
  struct_argument-StandsFor p (some malformed) h = raises
  struct_argument-StandsFor p (some (utf8 name)) h =
      elim (Bool-cases (text_eq name (text "Qubit"))) [
        | inl q ↦
            let known = rw ((text_eq_iff name (text "Qubit")).0 q) at h in
            rw q (Post-bind (index_known p _ _ refl) λ n e. returns (a_qubit known e))
        | inr q ↦ elim (Bool-cases (text_eq name (text "Result"))) [
          | inl r ↦
              let known = rw ((text_eq_iff name (text "Result")).0 r) at h in
              rw (q, r) (Post-bind (index_known p _ _ refl) λ n e. returns (a_result known e))
          | inr r ↦ rw (q, r) raises
        ]
      ]

  plain_pointer-StandsFor :
      (p : ℕ) (o : Option Instruction)
      → m.get_element_type p ≡ other_type
      → m.as_instruction (pointer_value p) ≡ o
      → Post (StandsFor m (left (pointer_value p))) (plain_pointer_argument o)
  unfolding plain_pointer_argument
  plain_pointer-StandsFor p none h e = raises
  plain_pointer-StandsFor p (some i) h e = returns (an_instruction h e)

  pointer_argument-StandsFor :
      (p : ℕ) (t : ElementType)
      → m.get_element_type p ≡ t
      → Post (StandsFor m (left (pointer_value p))) (pointer_argument m p t)
  unfolding pointer_argument
  pointer_argument-StandsFor p (struct_type o) h = struct_argument-StandsFor p o h
  pointer_argument-StandsFor p other_type h = plain_pointer-StandsFor p _ h refl

  pub operand_argument-StandsFor : (o : Operand) → Post (StandsFor m o) (operand_argument m o)
  unfolding operand_argument
  operand_argument-StandsFor (left (pointer_value p)) = pointer_argument-StandsFor p _ refl
  operand_argument-StandsFor (left (float_value f)) = returns a_parameter
  operand_argument-StandsFor _ = raises

  pub operand_argument_complete :
      {o : Operand} {a : OperationArgument} → StandsFor m o a → operand_argument m o ≡ ok a
  unfolding operand_argument pointer_argument struct_argument plain_pointer_argument
      pointer_value_to_u64 text_eq try_from
  operand_argument_complete (a_qubit t c) = rw (t, c)
  operand_argument_complete (a_result t c) = rw (t, c)
  operand_argument_complete a_parameter = refl
  operand_argument_complete (an_instruction t c) = rw (t, c)
