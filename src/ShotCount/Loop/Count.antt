-- ===== src/ShotCount/Loop/Count.antt =====
-- Where a shot count comes from: the instructions that the end of the loop is recognized by.
use qcs_sdk_qir.Base.{
  ℕ, ◌≡◌, refl, Bool, true, false, Option, none, some, option_eq, option_eq_iff, arith, Bool-cases,
  inl, inr,
}
use qcs_sdk_qir.Base.Int.{ℤ, pos, negsuc, try_from}
use qcs_sdk_qir.Base.Outcome.{
  Error, Result, ok, err, ok_or, no_constant, negative_shot_count, no_branch, ◌>>=◌, Post, returns,
  raises, Post-then, Post-bind, Post-ok_or,
}
use qcs_sdk_qir.Llvm.{
  Module, Instruction, IntValue, Opcode, phi, add, icmp, br, Operand, left, int_value,
}
use qcs_sdk_qir.Pattern.Context.{Matched}
use qcs_sdk_qir.ShotCount.Loop.Conditions.{ByOne, increment-ByOne, Compares, compared-Compares}
use qcs_sdk_qir.ShotCount.Loop.{
  ShotCountPatternMatchContext, is_br, shots_of, compared_instruction, matches_loop_start,
  increment_is_one, loop_branch, loop_limit, loop_compare, loop_icmp, loop_after, loop_next,
  loop_end_by_opcode, shot_count_loop_end,
}

-- `i` adds 1, the next instruction compares the loop variable `start` with the constant `shots`, and
-- a branch on that comparison follows.
pub record IsLoopEnd (m : Module) (start i : Instruction) (shots : ℕ) : Type 0 where
  pub adds : m.get_opcode i ≡ add
  pub by_one : ByOne m i
  pub comparison : Instruction
  pub compares : m.get_next_instruction i ≡ some comparison
  pub is_comparison : m.get_opcode comparison ≡ icmp
  pub compared : IntValue
  pub first : m.get_operand comparison 0 ≡ some (left (int_value compared))
  pub variable : Compares m comparison start
  pub limit : IntValue
  pub second : m.get_operand comparison 1 ≡ some (left (int_value limit))
  pub constant : m.get_sign_extended_constant limit ≡ some (pos shots)
  pub branch : Instruction
  pub branches : m.get_next_instruction comparison ≡ some branch
  pub is_branch : m.get_opcode branch ≡ br
  pub condition : m.get_first_use comparison ≡ m.get_operand_use branch 0

-- A match has left the shot count as it was, or has read it off the end of the loop.
pub data CountRead {P : Type 0} (m : Module) (c : ShotCountPatternMatchContext P) (i : Instruction)
    (c' : ShotCountPatternMatchContext P) : Type 0 where
  kept :
      c'.initial_instruction ≡ c.initial_instruction
      → c'.shot_count ≡ c.shot_count
      → CountRead m c i c'
  read :
      (start : Instruction) (shots : ℕ)
      → c.initial_instruction ≡ some start
      → c'.initial_instruction ≡ c.initial_instruction
      → c'.shot_count ≡ some shots
      → IsLoopEnd m start i shots
      → CountRead m c i c'

abbrev pub MatchedCount :
    {P : Type 0}
    → Module
    → ShotCountPatternMatchContext P
    → Instruction
    → Matched (ShotCountPatternMatchContext P)
    → Type 0
MatchedCount m c i none = Unit {0}
MatchedCount m c i (some (next, c')) = CountRead m c i c'

is_br-eq : (op : Opcode) → is_br op ≡ true → op ≡ br
is_br-eq br h = refl
is_br-eq phi h = ground arith
is_br-eq _ h = ground arith

shots_of-constant :
    (m : Module) (v : IntValue)
    → Post (λ n. m.get_sign_extended_constant v ≡ some (pos n)) (shots_of m v)
unfolding shots_of try_from
shots_of-constant m v = read_constant (m.get_sign_extended_constant v) refl
  where
    natural :
        (z : ℤ)
        → m.get_sign_extended_constant v ≡ some z
        → Post
            (λ n. m.get_sign_extended_constant v ≡ some (pos n))
            (ok_or (try_from z) negative_shot_count)
    natural (pos n) e = returns e
    natural (negsuc n) e = raises

    read_constant :
        (o : Option ℤ)
        → m.get_sign_extended_constant v ≡ o
        → Post
            (λ n. m.get_sign_extended_constant v ≡ some (pos n))
            (ok_or o no_constant >>= λ z. ok_or (try_from z) negative_shot_count)
    read_constant none e = raises
    read_constant (some z) e = natural z e

-- The comparison is with the value of the start of the loop.
abbrev pub StartCompared : Module → Option Instruction → Instruction → Bool → Type 0
StartCompared m o next false = Unit {0}
StartCompared m o next true =
    (start : Instruction) × (o ≡ some start) × (compared_instruction m next ≡ ok (some start))

matches_loop_start-Compared :
    (m : Module) (o : Option Instruction) (next : Instruction)
    → Post (StartCompared m o next) (matches_loop_start m o next)
unfolding matches_loop_start
matches_loop_start-Compared m none next = returns tt
matches_loop_start-Compared m (some s) next = compared (compared_instruction m next) refl
  where
    same :
        (o : Option Instruction) (b : Bool)
        → compared_instruction m next ≡ ok o
        → option_eq o (some s) ≡ b
        → StartCompared m (some s) next b
    same o false e h = tt
    same o true e h = (s, refl, rw (← (option_eq_iff o (some s)).0 h) e)

    compared :
        (r : Result Error (Option Instruction))
        → compared_instruction m next ≡ r
        → Post (StartCompared m (some s) next) (r >>= λ o. ok (option_eq o (some s)))
    compared (ok o) e = returns (same o (option_eq o (some s)) e refl)
    compared (err x) e = raises

module _ {P : Type 0} (m : Module) (c : ShotCountPatternMatchContext P) (i next : Instruction)
    (a : m.get_opcode i ≡ add) (o : increment_is_one m i ≡ true)
    (n : m.get_next_instruction i ≡ some next) where
  module _ (x : m.get_opcode next ≡ icmp) (w : IntValue)
      (f : m.get_operand next 0 ≡ some (left (int_value w))) where
    loop_branch-Count :
        (s : Instruction)
        → c.initial_instruction ≡ some s
        → compared_instruction m next ≡ ok (some s)
        → (v : IntValue) → m.get_operand next 1 ≡ some (left (int_value v))
        → (shots : ℕ) → m.get_sign_extended_constant v ≡ some (pos shots)
        → (final : Instruction) → m.get_next_instruction next ≡ some final
        → Post (CountRead m c i) (loop_branch m c next shots final)
    unfolding loop_branch
    loop_branch-Count s start same v l shots k final b =
        elim (Bool-cases (is_br (m.get_opcode final))) [
          | inr e ↦ rw e raises
          | inl e ↦
              elim (Bool-cases (option_eq (m.get_first_use next) (m.get_operand_use final 0))) [
                | inr g ↦ rw (e, g) raises
                | inl g ↦
                    rw (e, g)
                      (returns (
                        read s shots start refl refl (record {
                          adds = a;
                          by_one = increment-ByOne m i o;
                          comparison = next;
                          compares = n;
                          is_comparison = x;
                          compared = w;
                          first = f;
                          variable = compared-Compares m next s same;
                          limit = v;
                          second = l;
                          constant = k;
                          branch = final;
                          branches = b;
                          is_branch = is_br-eq (m.get_opcode final) e;
                          condition =
                              (option_eq_iff (m.get_first_use next) (m.get_operand_use final 0)).0
                                g;
                        })))
              ]
        ]

    loop_limit-Count :
        (s : Instruction)
        → c.initial_instruction ≡ some s
        → compared_instruction m next ≡ ok (some s)
        → (p : Option Operand) → m.get_operand next 1 ≡ p
        → Post (CountRead m c i) (loop_limit m c next p)
    unfolding loop_limit
    loop_limit-Count s start same (some (left (int_value v))) l =
        Post-bind (shots_of-constant m v) λ shots k.
          Post-bind
            (Post-ok_or {P = λ final. m.get_next_instruction next ≡ some final}
              (m.get_next_instruction next) no_branch (λ final e. e))
            (loop_branch-Count s start same v l shots k)
    loop_limit-Count s start same _ l = raises

    loop_compare-Count :
        (b : Bool)
        → StartCompared m c.initial_instruction next b
        → Post (CountRead m c i) (loop_compare m c next b)
    unfolding loop_compare
    loop_compare-Count true h = loop_limit-Count h.0 h.1 h.2 (m.get_operand next 1) refl
    loop_compare-Count false h = Post-then (compared_instruction m next) λ _. raises

  loop_icmp-Count :
      m.get_opcode next ≡ icmp
      → (p : Option Operand) → m.get_operand next 0 ≡ p
      → Post (CountRead m c i) (loop_icmp m c next p)
  unfolding loop_icmp
  loop_icmp-Count x (some (left (int_value w))) f =
      Post-bind (matches_loop_start-Compared m c.initial_instruction next)
        (loop_compare-Count x w f)
  loop_icmp-Count x _ f = returns (kept refl refl)

  loop_after-Count :
      (op : Opcode) → m.get_opcode next ≡ op → Post (CountRead m c i) (loop_after m c next op)
  unfolding loop_after
  loop_after-Count icmp x = loop_icmp-Count x (m.get_operand next 0) refl
  loop_after-Count _ x = returns (kept refl refl)

module _ {P : Type 0} (m : Module) (c : ShotCountPatternMatchContext P) (i : Instruction) where
  loop_next-Count :
      m.get_opcode i ≡ add
      → increment_is_one m i ≡ true
      → (p : Option Instruction) → m.get_next_instruction i ≡ p
      → Post (MatchedCount m c i) (loop_next m c p)
  unfolding loop_next
  loop_next-Count a o none n = returns tt
  loop_next-Count a o (some next) n =
      Post-bind (loop_after-Count m c i next a o n (m.get_opcode next) refl) λ c' h. returns h

  loop_end_by_opcode-Count :
      (op : Opcode) → m.get_opcode i ≡ op → Post (MatchedCount m c i) (loop_end_by_opcode m c i op)
  unfolding loop_end_by_opcode
  loop_end_by_opcode-Count add a = elim (Bool-cases (increment_is_one m i)) [
    | inl o ↦ rw o (loop_next-Count a o (m.get_next_instruction i) refl)
    | inr o ↦ rw o (returns tt)
  ]
  loop_end_by_opcode-Count _ a = returns tt

  -- A match of the end of a loop keeps the loop variable, and either keeps the shot count or
  -- sets it to the limit of a loop on that variable that ends at the instruction: an addition
  -- of the constant 1, then an integer comparison of the variable with the constant that is the
  -- limit, and a branch on that comparison.
  pub shot_count_loop_end-Count : Post (MatchedCount m c i) (shot_count_loop_end m c i)
  unfolding shot_count_loop_end
  shot_count_loop_end-Count = loop_end_by_opcode-Count (m.get_opcode i) refl
