-- ===== src/Quil/Sample.antt =====
-- A `quil_rs::Program` as two lists: what the interface asks can be met.
use qcs_sdk_qir.Base.{
  ◌≡◌, refl, Bool, true, false, some, List, [], ◌∷◌, ◌++◌, map, Text, text_eq, text_eq_iff, All,
  All-snoc, arith, if◌then◌else◌,
}
use qcs_sdk_qir.Quil.{Instruction, gate, measurement, declaration, reset, pragma, Declaration}
use qcs_sdk_qir.Quil.Program.{QuilProgram, find_region, IsBody, IsDistinct}

pub record ListProgram : Type 0 where
  pub declarations : List Declaration
  pub instructions : List Instruction
  pub clean : All IsBody instructions
  pub distinct : IsDistinct declarations

pub declare : Declaration → List Declaration → List Declaration
declare d [] = d ∷ []
declare d (e ∷ ds) = if text_eq e.name d.name then d ∷ ds else e ∷ declare d ds

find_region-declare :
    (d : Declaration) (ds : List Declaration) (n : Text)
    → find_region n (declare d ds) ≡ (if text_eq d.name n then some d else find_region n ds)
unfolding declare find_region
find_region-declare d [] n = refl
find_region-declare d (e ∷ ds) n = ground (
  arith,
  text_eq_iff e.name d.name,
  text_eq_iff e.name n,
  text_eq_iff d.name n,
  find_region-declare d ds n,
)

pub declare-IsDistinct :
    (d : Declaration) (ds : List Declaration) → IsDistinct ds → IsDistinct (declare d ds)
unfolding declare find_region
declare-IsDistinct d [] h = (refl, tt)
declare-IsDistinct d (e ∷ ds) h = ground (
  arith,
  text_eq_iff e.name d.name,
  text_eq_iff d.name e.name,
  find_region-declare d ds e.name,
  declare-IsDistinct d ds h.1,
)

pub add : ListProgram → Instruction → ListProgram
add p (declaration d) = record p {
  declarations = declare d p.declarations;
  distinct = declare-IsDistinct d p.declarations p.distinct;
}
add p (gate g) = record p {
  instructions = p.instructions ++ gate g ∷ [];
  clean = All-snoc IsBody p.instructions (gate g) p.clean tt;
}
add p (measurement g) = record p {
  instructions = p.instructions ++ measurement g ∷ [];
  clean = All-snoc IsBody p.instructions (measurement g) p.clean tt;
}
add p (pragma g) = record p {
  instructions = p.instructions ++ pragma g ∷ [];
  clean = All-snoc IsBody p.instructions (pragma g) p.clean tt;
}
add p reset = record p {
  instructions = p.instructions ++ reset ∷ [];
  clean = All-snoc IsBody p.instructions reset p.clean tt;
}

pub listing : ListProgram → Bool → List Instruction
listing p true = map declaration p.declarations ++ p.instructions
listing p false = p.instructions

abbrev pub empty : ListProgram
empty = record { declarations = []; instructions = []; clean = tt; distinct = tt }

pub body-add :
    (p : ListProgram) (i : Instruction)
    → IsBody i
    → listing (add p i) false ≡ listing p false ++ i ∷ []
unfolding add listing
body-add p (declaration d) h = absurd h
body-add p _ h = refl

pub regions-add :
    (p : ListProgram) (i : Instruction) → IsBody i → (add p i).declarations ≡ p.declarations
unfolding add
regions-add p (declaration d) h = absurd h
regions-add p _ h = refl

pub body-declaration :
    (p : ListProgram) (d : Declaration) → listing (add p (declaration d)) false ≡ listing p false
unfolding add listing
body-declaration p d = refl

pub regions-declaration :
    (p : ListProgram) (d : Declaration) (n : Text)
    → find_region n (add p (declaration d)).declarations
      ≡ (if text_eq d.name n then some d else find_region n p.declarations)
unfolding add
regions-declaration p d n = find_region-declare d p.declarations n

pub body-empty : listing empty false ≡ []
unfolding listing
body-empty = refl

pub headers : (p : ListProgram) → listing p true ≡ map declaration p.declarations ++ listing p false
unfolding listing
headers p = refl

pub listing-IsBody : (p : ListProgram) → All IsBody (listing p false)
unfolding listing
listing-IsBody p = p.clean

instance unfoldable pub list_program : QuilProgram ListProgram
unfolding add listing declare
list_program = record {
  new = empty;
  add_instruction = add;
  to_instructions = listing;
  regions = λ p. p.declarations;
  body-new = body-empty;
  regions-new = refl;
  body-declaration = body-declaration;
  body-add = body-add;
  regions-declaration = regions-declaration;
  regions-add = regions-add;
  regions-IsDistinct = λ p. p.distinct;
  headers = headers;
  body-IsBody = listing-IsBody;
}
