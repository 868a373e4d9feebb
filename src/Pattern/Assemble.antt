-- ===== src/Pattern/Assemble.antt =====
-- The Quil program of a scanned block: the declarations, and the instructions in front. The same
-- lines stand in quil.rs and qir.rs of both transforms.
pub mod Regions
pub mod Safety
use qcs_sdk_qir.Base.{
  Bool, Option, none, some, [], ◌∷◌, ◌++◌, Text, text, length, is_empty, if◌then◌else◌,
}
use qcs_sdk_qir.Llvm.{Module}
use qcs_sdk_qir.Quil.{declaration, reset, pragma, bit, real, ro, parameter_region}
use qcs_sdk_qir.Quil.Program.{QuilProgram, prepend}
use qcs_sdk_qir.Context.{ContextOptions}
use qcs_sdk_qir.Pattern.Context.{PatternContext, get_dynamic_parameters}

-- `format!("\"{}\"", rewiring_pragma)`
abbrev pub quoted : Text → Text
quoted t = b'"' ∷ (t ++ b'"' ∷ [])

module _ {P : Type 0} ⦃q : QuilProgram P⦄ where
  abbrev pub declare_readout : PatternContext P → P → P
  declare_readout c p =
      q.add_instruction p
        (declaration (record { name = ro; data_type = bit; size = length c.read_result_mapping }))

  abbrev pub declare_parameters : Module → PatternContext P → P → P
  declare_parameters m c p =
      if is_empty (get_dynamic_parameters m c)
      then p
      else q.add_instruction p (
          declaration (record {
            name = parameter_region;
            data_type = real;
            size = length (get_dynamic_parameters m c);
          }))

  abbrev pub with_active_reset : Bool → P → P
  with_active_reset active p = if active then prepend reset p else p

  abbrev pub with_rewiring : Option Text → P → P
  with_rewiring none p = p
  with_rewiring (some rewiring) p =
      prepend (pragma (record { name = text "INITIAL_REWIRING"; arguments = quoted rewiring ∷ [] }))
        p

  unfoldable pub assemble : Module → ContextOptions → PatternContext P → P → P
  unfolding get_dynamic_parameters prepend
  assemble m options c p =
      with_rewiring options.rewiring_pragma
        (with_active_reset c.use_active_reset (declare_parameters m c (declare_readout c p)))
