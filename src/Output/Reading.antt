-- ===== src/Output/Reading.antt =====
-- How a reader finds the results in the lines of the debug format (src/output/debug.rs).
use mathlib.Core.List.{map-append}
use qcs_sdk_qir.Base.{
  ℕ, zero, suc, ◌+◌, ◌-◌, ◌/◌, ◌%◌, ◌≤◌, ◌<◌, ◌==◌, ◌≡◌, refl, sym, ap, ◌∙◌, Bool, true, false,
  Option, none, some, List, [], ◌∷◌, ◌++◌, map, Text, text, get_elem?, get_elem?-lt, length, All,
  arith, if◌then◌else◌,
}
use qcs_sdk_qir.Base.Int.{ℤ, pos, negsuc}
use qcs_sdk_qir.Base.Outcome.{ok}
use qcs_sdk_qir.Pattern.Context.{
  RecordedOutput, shot_start, shot_end, tuple_start, tuple_end, array_start, array_end,
  result_readout_offset, bool_readout_offset, integer_readout_offset, double_readout_offset,
}
use qcs_sdk_qir.Pattern.Bounds.{OutputInRange}
use qcs_sdk_qir.Output.{RegisterData, i8_data}
use qcs_sdk_qir.Output.Decimal.{decimal, decimal_int, decimal_onto, read_onto, read_onto-decimal}
use qcs_sdk_qir.Output.Debug.{shot_line, result_line, try_new}
use qcs_sdk_qir.Output.Render.{through_end, render, render_shots, ShotSupports, lines_of-try_new}

-- The text in front of the first `c`.
unfoldable until : ℕ → Text → Text
until c [] = []
until c (d ∷ t) = let rest = until c t in if d == c then [] else d ∷ rest

-- The text behind the first `c`.
unfoldable past : ℕ → Text → Text
past c [] = []
past c (d ∷ t) = let rest = past c t in if d == c then t else rest

abbrev starts_with : ℕ → Text → Bool
starts_with c [] = false
starts_with c (d ∷ t) = d == c

unfoldable read_int : Text → ℤ
unfolding past read_onto
read_int t =
    if starts_with b'-' t then negsuc (read_onto 0 (past b'-' t) - 1) else pos (read_onto 0 t)

abbrev read_shown : Text → Option ℤ
read_shown [] = none
read_shown (c ∷ t) = some (read_int (until b']' (c ∷ t)))

-- The number of the shot, and the result, if the line shows one.
unfoldable pub read_line : Text → ℕ × Option ℤ
unfolding until past read_onto read_int
read_line line =
    (read_onto 0 (until b' ' (past b':' line)), read_shown (past b' ' (past b' ' line)))

-- What an output of a shot shows.
abbrev shown : List ℤ → RecordedOutput → Option ℤ
shown shot (result_readout_offset i) = get_elem? shot i
shown shot _ = none

-- What the shots show, with their numbers from `n + 1` on.
pub results_from : ℕ → List (List ℤ) → List RecordedOutput → List (ℕ × Option ℤ)
results_from n [] mapping = []
results_from n (shot ∷ shots) mapping =
    map (λ r. (n + 1, shown shot r)) (through_end mapping) ++ results_from (n + 1) shots mapping

abbrev IsDigit : ℕ → Type 0
IsDigit d = (48 ≤ d) × (d < 58)

decimal_onto-Digits :
    (fuel n : ℕ) (acc : Text) → All IsDigit acc → All IsDigit (decimal_onto fuel n acc)
unfolding decimal_onto
decimal_onto-Digits zero n acc h = h
decimal_onto-Digits (suc fuel) n acc h =
    let digits : All IsDigit ((48 + n % 10) ∷ acc) = ((omega arith, omega arith), h) in
    let more = decimal_onto-Digits fuel (n / 10) ((48 + n % 10) ∷ acc) digits in
    elim (n / 10 == 0)
      as (λ b.
        All IsDigit
          (if b then (48 + n % 10) ∷ acc else decimal_onto fuel (n / 10) ((48 + n % 10) ∷ acc))) [
            | true ↦ digits
            | false ↦ more
          ]

decimal-Digits : (n : ℕ) → All IsDigit (decimal n)
unfolding decimal
decimal-Digits n = decimal_onto-Digits (suc n) n [] tt

-- Where `c` is no digit, digits end at it.
abbrev EndsDigits : ℕ → Type 0
EndsDigits c = (d : ℕ) → IsDigit d → (d == c) ≡ false

same_char : (c : ℕ) → (c == c) ≡ true
same_char c = ground arith

module _ (c : ℕ) (ends : EndsDigits c) where
  until-digits : (t rest : Text) → All IsDigit t → until c (t ++ c ∷ rest) ≡ t
  unfolding until
  until-digits [] rest h = rw (same_char c)
  until-digits (d ∷ t) rest h = rw (ends d h.0, until-digits t rest h.1)

  past-digits : (t rest : Text) → All IsDigit t → past c (t ++ c ∷ rest) ≡ rest
  unfolding past
  past-digits [] rest h = rw (same_char c)
  past-digits (d ∷ t) rest h = rw (ends d h.0) (past-digits t rest h.1)

space-Ends : EndsDigits b' '
space-Ends d h = ground arith

bracket-Ends : EndsDigits b']'
bracket-Ends d h = ground arith

minus-Ends : (t : Text) → All IsDigit t → starts_with b'-' t ≡ false
minus-Ends [] h = refl
minus-Ends (d ∷ t) h = ground arith

read_int-decimal : (z : ℤ) → read_int (decimal_int z) ≡ z
unfolding read_int decimal_int past
read_int-decimal (pos n) =
    rw (minus-Ends (decimal n) (decimal-Digits n)) (ap pos (read_onto-decimal n))
read_int-decimal (negsuc n) = rw (read_onto-decimal (suc n)) (ap negsuc (omega arith))

until-decimal_int : (z : ℤ) → until b']' (decimal_int z ++ b']' ∷ []) ≡ decimal_int z
unfolding until decimal_int
until-decimal_int (pos n) = until-digits b']' bracket-Ends (decimal n) [] (decimal-Digits n)
until-decimal_int (negsuc n) =
    rw (until-digits b']' bracket-Ends (decimal (suc n)) [] (decimal-Digits (suc n)))

-- A text with an end shows a number.
read_shown-end :
    (t : Text) → read_shown (t ++ b']' ∷ []) ≡ some (read_int (until b']' (t ++ b']' ∷ [])))
read_shown-end [] = refl
read_shown-end (c ∷ t) = refl

past_id : (id : ℕ) (what : Text) → past b' ' (shot_line id what) ≡ what ++ text "]"
unfolding shot_line past
past_id id what = past-digits b' ' space-Ends (decimal id) _ (decimal-Digits id)

read_id : (id : ℕ) (what : Text) → read_onto 0 (until b' ' (past b':' (shot_line id what))) ≡ id
unfolding shot_line past
read_id id what =
    rw (until-digits b' ' space-Ends (decimal id) (what ++ text "]") (decimal-Digits id))
      (read_onto-decimal id)

read_line-shot_line :
    (id : ℕ) (what : Text)
    → read_line (shot_line id what) ≡ (id, read_shown (past b' ' (what ++ text "]")))
unfolding read_line
read_line-shot_line id what = rw (read_id id what, past_id id what)

past_result : (t : Text) → past b' ' (text "result " ++ t) ≡ t
unfolding past
past_result t = refl

read_line-result_line : (id : ℕ) (z : ℤ) → read_line (result_line id z) ≡ (id, some z)
unfolding result_line
read_line-result_line id z = rw (
  read_line-shot_line id (text "result " ++ decimal_int z),
  past_result (decimal_int z ++ text "]"),
  read_shown-end (decimal_int z),
  until-decimal_int z,
  read_int-decimal z,
)

module _ (id : ℕ) (shot : List ℤ) where
  read_marker :
      (what : Text) → past b' ' (what ++ text "]") ≡ [] → read_line (shot_line id what) ≡ (id, none)
  read_marker what e = rw (read_line-shot_line id what, e)

  read_render :
      (r : RecordedOutput)
      → OutputInRange (length shot) r
      → read_line (render id shot r) ≡ (id, shown shot r)
  unfolding render past
  read_render shot_start h = read_marker (text "start") refl
  read_render shot_end h = read_marker (text "end") refl
  read_render tuple_start h = read_marker (text "tuple_start") refl
  read_render tuple_end h = read_marker (text "tuple_end") refl
  read_render array_start h = read_marker (text "array_start") refl
  read_render array_end h = read_marker (text "array_end") refl
  read_render (result_readout_offset i) h =
      let (z, e) = get_elem?-lt shot i h in rw e (read_line-result_line id z)
  read_render (bool_readout_offset i) h = absurd h
  read_render (integer_readout_offset i) h = absurd h
  read_render (double_readout_offset i) h = absurd h

  read_shot :
      (rs : List RecordedOutput)
      → All (OutputInRange (length shot)) rs
      → map read_line (map (render id shot) rs) ≡ map (λ r. (id, shown shot r)) rs
  read_shot [] h = refl
  read_shot (r ∷ rs) h = rw (read_render r h.0, read_shot rs h.1)

read_shots :
    (n : ℕ) (shots : List (List ℤ)) (mapping : List RecordedOutput)
    → All (ShotSupports mapping) shots
    → map read_line (render_shots n shots mapping) ≡ results_from n shots mapping
unfolding render_shots results_from
read_shots n [] mapping h = refl
read_shots n (shot ∷ shots) mapping h = rw (
  map-append read_line (map (render (n + 1) shot) (through_end mapping))
      (render_shots (n + 1) shots mapping),
  read_shot (n + 1) shot (through_end mapping) h.0,
  read_shots (n + 1) shots mapping h.1,
)

-- If the debug format is made, the results are of the supported type and reading its lines
-- gives back, for each shot in order with its number from 1 on and for each output up to the
-- first end of a shot, the value of the shot at the output's offset where the output is a
-- result, and no value where it is not.
pub read-try_new :
    (result : RegisterData) (mapping : List RecordedOutput) (lines : List Text)
    → try_new result mapping ≡ ok lines
    → (shots : List (List ℤ)) × (result ≡ i8_data shots)
      × (map read_line lines ≡ results_from 0 shots mapping)
read-try_new result mapping lines e =
    let (shots, same, supports, known) = lines_of-try_new result mapping lines e in
    (shots, same, ap (map read_line) (sym known) ∙ read_shots 0 shots mapping supports)
