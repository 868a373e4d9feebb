-- ===== src/Pattern/Assemble/Regions.antt =====
-- What an assembled program declares, and what its body is.
use qcs_sdk_qir.Base.{
  ◌≡◌, refl, ◌∙◌, Bool, true, false, Option, none, some, List, [], ◌∷◌, ◌++◌, Text, text, text_eq,
  length, is_empty, if◌then◌else◌, Bool-cases, inl, inr,
}
use qcs_sdk_qir.Llvm.{Module}
use qcs_sdk_qir.Quil.{Instruction, reset, pragma, Declaration, bit, real, ro, parameter_region}
use qcs_sdk_qir.Quil.Program.{QuilProgram, body, region, body-prepend, region-prepend}
use qcs_sdk_qir.Context.{ContextOptions}
use qcs_sdk_qir.Pattern.Context.{PatternContext, get_dynamic_parameters}
use qcs_sdk_qir.Pattern.Assemble.{
  quoted, declare_readout, declare_parameters, with_active_reset, with_rewiring, assemble,
}

-- The instructions in front of the scanned ones.
abbrev pub rewiring_front : Option Text → List Instruction
rewiring_front none = []
rewiring_front (some rewiring) =
    pragma (record { name = text "INITIAL_REWIRING"; arguments = quoted rewiring ∷ [] }) ∷ []

abbrev pub reset_front : Bool → List Instruction
reset_front active = if active then reset ∷ [] else []

abbrev pub readout_declaration : {P : Type 0} → PatternContext P → Declaration
readout_declaration c = record { name = ro; data_type = bit; size = length c.read_result_mapping }

abbrev pub parameter_declaration : {P : Type 0} → Module → PatternContext P → Declaration
parameter_declaration m c = record {
  name = parameter_region;
  data_type = real;
  size = length (get_dynamic_parameters m c);
}

if_same {ℓ} : {A : Type ℓ} (b : Bool) (a : A) → (if b then a else a) ≡ a
if_same true a = refl
if_same false a = refl

module _ {P : Type 0} ⦃q : QuilProgram P⦄ where
  body-with_rewiring :
      (o : Option Text) (p : P) → body (with_rewiring o p) ≡ rewiring_front o ++ body p
  body-with_rewiring none p = refl
  body-with_rewiring (some rewiring) p = body-prepend _ p tt

  body-with_active_reset :
      (active : Bool) (p : P) → body (with_active_reset active p) ≡ reset_front active ++ body p
  body-with_active_reset true p = body-prepend reset p tt
  body-with_active_reset false p = refl

  body-declare_parameters :
      (m : Module) (c : PatternContext P) (p : P) → body (declare_parameters m c p) ≡ body p
  body-declare_parameters m c p = elim (Bool-cases (is_empty (get_dynamic_parameters m c))) [
    | inl e ↦ rw e
    | inr e ↦ rw e (q.body-declaration p (parameter_declaration m c))
  ]

  -- The body of an assembled program is the rewiring pragma if there is one, then the reset if
  -- active reset was asked for, then the scanned instructions in their order: the copies of the
  -- program lose nothing and move nothing.
  pub body-assemble :
      (m : Module) (options : ContextOptions) (c : PatternContext P) (p : P)
      → body (assemble m options c p)
        ≡ rewiring_front options.rewiring_pragma ++ (reset_front c.use_active_reset ++ body p)
  unfolding assemble
  body-assemble m options c p =
      rw (body-with_rewiring, body-with_active_reset, body-declare_parameters)
        (rw (q.body-declaration p (readout_declaration c)))

  region-with_rewiring :
      (o : Option Text) (p : P) (n : Text) → region (with_rewiring o p) n ≡ region p n
  region-with_rewiring none p n = refl
  region-with_rewiring (some rewiring) p n = region-prepend _ p n tt

  region-with_active_reset :
      (active : Bool) (p : P) (n : Text) → region (with_active_reset active p) n ≡ region p n
  region-with_active_reset true p n = region-prepend reset p n tt
  region-with_active_reset false p n = refl

  region-assemble :
      (m : Module) (options : ContextOptions) (c : PatternContext P) (p : P) (n : Text)
      → region (assemble m options c p) n ≡ region (declare_parameters m c (declare_readout c p)) n
  unfolding assemble
  region-assemble m options c p n = rw (region-with_rewiring, region-with_active_reset)

  region-declare_parameters :
      (m : Module) (c : PatternContext P) (p : P) (n : Text)
      → region (declare_parameters m c p) n ≡ (
          if is_empty (get_dynamic_parameters m c)
          then region p n
          else if text_eq parameter_region n
          then some (parameter_declaration m c)
          else region p n)
  region-declare_parameters m c p n = elim (Bool-cases (is_empty (get_dynamic_parameters m c))) [
    | inl e ↦ rw e
    | inr e ↦ rw e (q.regions-declaration p (parameter_declaration m c) n)
  ]

  region-declare_readout :
      (c : PatternContext P) (p : P) (n : Text)
      → region (declare_readout c p) n
        ≡ (if text_eq ro n then some (readout_declaration c) else region p n)
  region-declare_readout c p n = q.regions-declaration p (readout_declaration c) n

  -- An assembled program declares the readout region with one bit for each result that has an
  -- offset.
  pub region-assemble-ro :
      (m : Module) (options : ContextOptions) (c : PatternContext P) (p : P)
      → region (assemble m options c p) ro ≡ some (readout_declaration c)
  unfolding text_eq
  region-assemble-ro m options c p =
      region-assemble m options c p ro
      ∙ region-declare_parameters m c (declare_readout c p) ro
      ∙ rw (region-declare_readout c p ro) (if_same _ _)

  -- The parameter region, where it is declared, has one real for each parameter that is no constant.
  pub region-assemble-parameters :
      (m : Module) (options : ContextOptions) (c : PatternContext P) (p : P)
      → region (assemble m options c p) parameter_region ≡ (
          if is_empty (get_dynamic_parameters m c)
          then region p parameter_region
          else some (parameter_declaration m c))
  unfolding text_eq
  region-assemble-parameters m options c p =
      region-assemble m options c p parameter_region
      ∙ region-declare_parameters m c (declare_readout c p) parameter_region
      ∙ rw (region-declare_readout c p parameter_region)
