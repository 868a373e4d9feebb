-- ===== src/ShotCount/Loop/Conditions.antt =====
-- What the addition and the comparison at the end of a shot-count loop are asked for.
use qcs_sdk_qir.Base.{◌≡◌, refl, true, Option, none, some, arith, ==_iff, and_then}
use qcs_sdk_qir.Base.Int.{ℤ, pos, negsuc, try_from}
use qcs_sdk_qir.Base.Outcome.{ok, ok_or, no_operand_use, ◌>>=◌}
use qcs_sdk_qir.Llvm.{
  Module, Instruction, IntValue, BasicValue, Use, Operand, left, right, int_value,
}
use qcs_sdk_qir.Interop.Arguments.{operand_to_integer, integer_value_to_u64, and_then_u64}
use qcs_sdk_qir.ShotCount.Loop.{is_one, basic_value, compared_instruction, increment_is_one}

-- The second operand is the constant 1.
pub record ByOne (m : Module) (i : Instruction) : Type 0 where
  pub increment : IntValue
  pub addend : m.get_operand i 1 ≡ some (left (int_value increment))
  pub by_one : m.get_sign_extended_constant increment ≡ some (pos 1)

-- The value in the first operand is that of the instruction.
pub record Compares (m : Module) (next start : Instruction) : Type 0 where
  pub use_of_first : Use
  pub used : m.get_operand_use next 0 ≡ some use_of_first
  pub value : BasicValue
  pub of_value : m.get_used_value use_of_first ≡ left value
  pub variable : m.as_instruction value ≡ some start

pub increment-ByOne : (m : Module) (i : Instruction) → increment_is_one m i ≡ true → ByOne m i
unfolding increment_is_one operand_to_integer integer_value_to_u64 try_from
increment-ByOne m i = of_operand (m.get_operand i 1) refl
  where
    of_constant :
        (v : IntValue) (z : Option ℤ)
        → m.get_operand i 1 ≡ some (left (int_value v))
        → m.get_sign_extended_constant v ≡ z
        → is_one (and_then_u64 z) ≡ true
        → ByOne m i
    of_constant v (some (pos n)) o e h = record {
      increment = v;
      addend = o;
      by_one = rw (← (==_iff n 1).0 h) e;
    }
    of_constant v (some (negsuc n)) o e h = ground arith
    of_constant v none o e h = ground arith

    of_operand :
        (o : Option Operand)
        → m.get_operand i 1 ≡ o
        → is_one (and_then (and_then o operand_to_integer) (integer_value_to_u64 m)) ≡ true
        → ByOne m i
    of_operand (some (left (int_value v))) o h =
        of_constant v (m.get_sign_extended_constant v) o refl h
    of_operand none o h = ground arith
    of_operand (some _) o h = ground arith

pub compared-Compares :
    (m : Module) (next start : Instruction)
    → compared_instruction m next ≡ ok (some start)
    → Compares m next start
unfolding compared_instruction
compared-Compares m next start = of_use (m.get_operand_use next 0) refl
  where
    of_value_used :
        (u : Use) (o : Operand)
        → m.get_operand_use next 0 ≡ some u
        → m.get_used_value u ≡ o
        → (basic_value o >>= λ v. ok (m.as_instruction v)) ≡ ok (some start)
        → Compares m next start
    of_value_used u (left v) e g h = record {
      use_of_first = u;
      used = e;
      value = v;
      of_value = g;
      variable = ground (arith, h);
    }
    of_value_used u (right b) e g h = ground arith

    of_use :
        (u : Option Use)
        → m.get_operand_use next 0 ≡ u
        → (ok_or u no_operand_use >>= λ w.
            basic_value (m.get_used_value w) >>= λ v. ok (m.as_instruction v))
          ≡ ok (some start)
        → Compares m next start
    of_use (some u) e h = of_value_used u (m.get_used_value u) e refl h
    of_use none e h = ground arith
