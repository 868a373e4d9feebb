-- ===== src/Quil/Program.antt =====
-- `quil_rs::Program`: its operations that the program calls, and what the crate documents of them.
-- Declarations go to the memory regions, one for each name, and every other instruction to the end
-- of the body; `to_instructions(true)` lists the regions in front of the body. Of the headers that
-- the crate knows (frames, waveforms, calibrations) the program adds none.
use mathlib.Core.List.{append-nil, append_assoc}
use qcs_sdk_qir.Base.{
  ◌≡◌, refl, Bool, true, false, Option, none, some, List, [], ◌∷◌, ◌++◌, map, Text, text_eq,
  text_eq_iff, All, sym, ap, ◌∙◌, if◌then◌else◌,
}
use qcs_sdk_qir.Quil.{Instruction, declaration, Declaration}

unfoldable pub find_region : Text → List Declaration → Option Declaration
find_region n [] = none
find_region n (d ∷ ds) = if text_eq d.name n then some d else find_region n ds

abbrev or_else {ℓ} : {A : Type ℓ} → Option A → Option A → Option A
or_else none o = o
or_else (some a) o = some a

or_else-none {ℓ} : {A : Type ℓ} (o : Option A) → or_else o none ≡ o
or_else-none none = refl
or_else-none (some a) = refl

-- No two declarations share a name.
abbrev pub IsDistinct : List Declaration → Type 0
IsDistinct [] = Unit {0}
IsDistinct (d ∷ ds) = (find_region d.name ds ≡ none) × IsDistinct ds

-- What goes to the body of a program.
abbrev pub IsBody : Instruction → Type 0
IsBody (declaration d) = ⊥
IsBody _ = Unit {0}

pub record QuilProgram (P : Type 0) : Type 0 where
  pub new : P
  pub add_instruction : P → Instruction → P
  pub to_instructions : P → Bool → List Instruction
  -- the declarations behind the public field `memory_regions`, in the order of the map
  pub regions : P → List Declaration
  pub body-new : to_instructions new false ≡ []
  pub regions-new : regions new ≡ []
  pub body-declaration :
      (p : P) (d : Declaration)
      → to_instructions (add_instruction p (declaration d)) false ≡ to_instructions p false
  pub body-add :
      (p : P) (i : Instruction)
      → IsBody i
      → to_instructions (add_instruction p i) false ≡ to_instructions p false ++ i ∷ []
  pub regions-declaration :
      (p : P) (d : Declaration) (n : Text)
      → find_region n (regions (add_instruction p (declaration d)))
        ≡ (if text_eq d.name n then some d else find_region n (regions p))
  pub regions-add : (p : P) (i : Instruction) → IsBody i → regions (add_instruction p i) ≡ regions p
  pub regions-IsDistinct : (p : P) → IsDistinct (regions p)
  pub headers :
      (p : P) → to_instructions p true ≡ map declaration (regions p) ++ to_instructions p false
  pub body-IsBody : (p : P) → All IsBody (to_instructions p false)

module _ {P : Type 0} ⦃q : QuilProgram P⦄ where
  abbrev pub body : P → List Instruction
  body p = q.to_instructions p false

  abbrev pub region : P → Text → Option Declaration
  region p n = find_region n (q.regions p)

  -- `for instruction in instructions { program.add_instruction(instruction) }`
  unfoldable pub extend : P → List Instruction → P
  extend p [] = p
  extend p (i ∷ is) = extend (q.add_instruction p i) is

  -- The copy behind a first instruction, `Program::new()` filled again from `to_instructions(true)`.
  unfoldable pub prepend : Instruction → P → P
  unfolding extend
  prepend i p = extend (q.add_instruction q.new i) (q.to_instructions p true)

module _ {P : Type 0} ⦃q : QuilProgram P⦄ where
  body-extend-body :
      (p : P) (is : List Instruction) → All IsBody is → body (extend p is) ≡ body p ++ is
  unfolding extend
  body-extend-body p [] h = sym (append-nil (body p))
  body-extend-body p (i ∷ is) h =
      body-extend-body (q.add_instruction p i) is h.1 ∙ rw (q.body-add p i h.0, append_assoc)

  regions-extend-body :
      (p : P) (is : List Instruction) → All IsBody is → q.regions (extend p is) ≡ q.regions p
  unfolding extend
  regions-extend-body p [] h = refl
  regions-extend-body p (i ∷ is) h =
      regions-extend-body (q.add_instruction p i) is h.1 ∙ q.regions-add p i h.0

  body-extend :
      (p : P) (ds : List Declaration) (is : List Instruction)
      → All IsBody is
      → body (extend p (map declaration ds ++ is)) ≡ body p ++ is
  unfolding extend
  body-extend p [] is h = body-extend-body p is h
  body-extend p (d ∷ ds) is h =
      body-extend (q.add_instruction p (declaration d)) ds is h ∙ rw (q.body-declaration p d)

  region-extend :
      (p : P) (ds : List Declaration) (is : List Instruction) (n : Text)
      → IsDistinct ds
      → All IsBody is
      → region (extend p (map declaration ds ++ is)) n ≡ or_else (find_region n ds) (region p n)
  unfolding extend find_region
  region-extend p [] is n d h = ap (find_region n) (regions-extend-body p is h)
  region-extend p (e ∷ ds) is n d h =
      region-extend (q.add_instruction p (declaration e)) ds is n d.1 h
      ∙ declared (text_eq e.name n) refl
    where
      declared :
          (b : Bool)
          → text_eq e.name n ≡ b
          → or_else (find_region n ds) (region (q.add_instruction p (declaration e)) n)
            ≡ or_else (if text_eq e.name n then some e else find_region n ds) (region p n)
      declared true t = rw (q.regions-declaration p e n, t, ← (text_eq_iff e.name n).0 t, d.0)
      declared false t = rw (q.regions-declaration p e n, t)

  -- The copy of a program behind a new first instruction that goes to the body has that
  -- instruction in front of the old body.
  pub body-prepend : (i : Instruction) (p : P) → IsBody i → body (prepend i p) ≡ i ∷ body p
  unfolding prepend
  body-prepend i p h = rw (
    q.headers p,
    body-extend _ (q.regions p) (body p) (q.body-IsBody p),
    q.body-add q.new i h,
    q.body-new,
  )

  -- The copy declares the same regions.
  pub region-prepend :
      (i : Instruction) (p : P) (n : Text) → IsBody i → region (prepend i p) n ≡ region p n
  unfolding prepend find_region
  region-prepend i p n h = rw (q.headers p) (
      region-extend _ (q.regions p) (body p) n (q.regions-IsDistinct p) (q.body-IsBody p)
      ∙ rw (q.regions-add q.new i h, q.regions-new) (or_else-none (region p n)))
