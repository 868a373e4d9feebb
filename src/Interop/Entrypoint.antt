-- ===== src/Interop/Entrypoint.antt =====
-- src/interop/entrypoint.rs: where a module starts.
use qcs_sdk_qir.Base.{
  Bool, not, ◌==◌, ◌&&◌, Option, none, some, List, [], ◌∷◌, Text, text, if◌then◌else◌,
}
use qcs_sdk_qir.Llvm.{Module, Function}

abbrev pub entry_point_attribute : Text
entry_point_attribute = text "EntryPoint"

-- `format!("{}__{}__body", "QuantumApplication", "Run")`
abbrev pub entrypoint_name : Text
entrypoint_name = text "QuantumApplication__Run__body"

abbrev pub is_entry_point : Module → Function → Bool
is_entry_point m f =
    not (m.count_attributes f == 0) && m.has_string_attribute f entry_point_attribute

-- `filter(…).find(…)`: the first function that passes both tests.
unfoldable pub find_entry_point : Module → List Function → Option Function
find_entry_point m [] = none
find_entry_point m (f ∷ fs) = if is_entry_point m f then some f else find_entry_point m fs

unfoldable pub get_entrypoint_function : Module → Option Function
unfolding find_entry_point
get_entrypoint_function m = find_entry_point m m.get_functions

abbrev or_named : Module → Option Function → Option Function
or_named m (some f) = some f
or_named m none = m.get_function entrypoint_name

unfoldable pub get_entry_function : Module → Option Function
unfolding get_entrypoint_function
get_entry_function m = or_named m (get_entrypoint_function m)
