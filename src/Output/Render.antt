-- ===== src/Output/Render.antt =====
-- What the debug format shows, line by line (src/output/debug.rs).
use mathlib.Core.List.{append_assoc, append-nil}
use qcs_sdk_qir.Base.{
  ℕ, zero, suc, ◌+◌, ◌*◌, ◌<◌, ◌≡◌, refl, sym, ap, ◌∙◌, Option, none, some, List, [], ◌∷◌, ◌++◌,
  map, Text, text, get_elem?, get_elem?-lt, length, length-map, length-append, All, arith,
}
use qcs_sdk_qir.Base.Int.{ℤ, pos}
use qcs_sdk_qir.Base.Outcome.{ok, Post, returns, raises, Post-bind, Post-imp, Post-eq_ok}
use qcs_sdk_qir.Pattern.Context.{
  RecordedOutput, shot_start, shot_end, tuple_start, tuple_end, array_start, array_end,
  result_readout_offset, bool_readout_offset, integer_readout_offset, double_readout_offset,
}
use qcs_sdk_qir.Pattern.Bounds.{OutputInRange}
use qcs_sdk_qir.Output.{RegisterData, i8_data, i16_data, f64_data, complex32_data}
use qcs_sdk_qir.Output.Debug.{
  shot_line, result_line, push_result, format_shot, format_shots, try_new,
}

-- The outputs that a shot shows: those up to its end.
abbrev pub through_end : List RecordedOutput → List RecordedOutput
through_end [] = []
through_end (shot_end ∷ mapping) = shot_end ∷ []
through_end (r ∷ mapping) = r ∷ through_end mapping

abbrev or_zero : Option ℤ → ℤ
or_zero none = pos 0
or_zero (some z) = z

-- The line of one output, where there is data for it.
unfoldable pub render : ℕ → List ℤ → RecordedOutput → Text
render id shot shot_start = shot_line id (text "start")
render id shot shot_end = shot_line id (text "end")
render id shot tuple_start = shot_line id (text "tuple_start")
render id shot tuple_end = shot_line id (text "tuple_end")
render id shot array_start = shot_line id (text "array_start")
render id shot array_end = shot_line id (text "array_end")
render id shot (result_readout_offset i) = result_line id (or_zero (get_elem? shot i))
render id shot _ = []

-- The lines of all shots, counted from `n + 1`.
unfoldable pub render_shots : ℕ → List (List ℤ) → List RecordedOutput → List Text
render_shots n [] mapping = []
render_shots n (shot ∷ shots) mapping =
    map (render (n + 1) shot) (through_end mapping) ++ render_shots (n + 1) shots mapping

-- Every output that a shot shows is a marker or a result that the shot has data for.
abbrev pub ShotSupports : List RecordedOutput → List ℤ → Type 0
ShotSupports mapping shot = All (OutputInRange (length shot)) (through_end mapping)

get_elem?-eq-lt : (xs : List ℤ) (i : ℕ) {z : ℤ} → get_elem? xs i ≡ some z → i < length xs
get_elem?-eq-lt [] i h = ground arith
get_elem?-eq-lt (x ∷ xs) zero h = omega arith
get_elem?-eq-lt (x ∷ xs) (suc i) {z} h = omega (arith, get_elem?-eq-lt xs i {z = z} h)

module _ (id : ℕ) (shot : List ℤ) where
  abbrev Renders : List RecordedOutput → Type 0
  Renders mapping =
      (output : List Text)
      → format_shot id shot mapping output
        ≡ ok (output ++ map (render id shot) (through_end mapping))

  -- One more line in front of those of the rest.
  format-cons :
      (mapping : List RecordedOutput) (line : Text) (output : List Text)
      → Renders mapping
      → format_shot id shot mapping (output ++ line ∷ [])
        ≡ ok (output ++ line ∷ map (render id shot) (through_end mapping))
  format-cons mapping line output h =
      h (output ++ line ∷ []) ∙ ap ok (append_assoc output (line ∷ []) _)

  format_shot-eq : (mapping : List RecordedOutput) → ShotSupports mapping shot → Renders mapping
  unfolding format_shot render push_result
  format_shot-eq [] h output = ap ok (sym (append-nil output))
  format_shot-eq (shot_start ∷ mapping) h output =
      format-cons mapping _ output (format_shot-eq mapping h.1)
  format_shot-eq (shot_end ∷ mapping) h output = refl
  format_shot-eq (tuple_start ∷ mapping) h output =
      format-cons mapping _ output (format_shot-eq mapping h.1)
  format_shot-eq (tuple_end ∷ mapping) h output =
      format-cons mapping _ output (format_shot-eq mapping h.1)
  format_shot-eq (array_start ∷ mapping) h output =
      format-cons mapping _ output (format_shot-eq mapping h.1)
  format_shot-eq (array_end ∷ mapping) h output =
      format-cons mapping _ output (format_shot-eq mapping h.1)
  format_shot-eq (result_readout_offset i ∷ mapping) h output =
      let (z, e) = get_elem?-lt shot i h.0 in
      rw e (format-cons mapping _ output (format_shot-eq mapping h.1))
  format_shot-eq (bool_readout_offset i ∷ mapping) h output = absurd h.0
  format_shot-eq (integer_readout_offset i ∷ mapping) h output = absurd h.0
  format_shot-eq (double_readout_offset i ∷ mapping) h output = absurd h.0

  push_result-lt :
      (i : ℕ) (output : List Text) (o : Option ℤ)
      → get_elem? shot i ≡ o
      → Post (λ _. i < length shot) (push_result id i output o)
  unfolding push_result
  push_result-lt i output none e = raises
  push_result-lt i output (some z) e = returns (get_elem?-eq-lt shot i e)

  format_shot-Supports :
      (mapping : List RecordedOutput) (output : List Text)
      → Post (λ _. ShotSupports mapping shot) (format_shot id shot mapping output)
  unfolding format_shot
  format_shot-Supports [] output = returns tt
  format_shot-Supports (shot_end ∷ mapping) output = returns (tt, tt)
  format_shot-Supports (result_readout_offset i ∷ mapping) output =
      Post-bind (push_result-lt i output (get_elem? shot i) refl)
        λ output' lt. Post-imp (format_shot-Supports mapping output') λ _ s. (lt, s)
  format_shot-Supports (bool_readout_offset i ∷ mapping) output = raises
  format_shot-Supports (integer_readout_offset i ∷ mapping) output = raises
  format_shot-Supports (double_readout_offset i ∷ mapping) output = raises
  format_shot-Supports (shot_start ∷ mapping) output =
      Post-imp (format_shot-Supports mapping _) λ _ s. (tt, s)
  format_shot-Supports (tuple_start ∷ mapping) output =
      Post-imp (format_shot-Supports mapping _) λ _ s. (tt, s)
  format_shot-Supports (tuple_end ∷ mapping) output =
      Post-imp (format_shot-Supports mapping _) λ _ s. (tt, s)
  format_shot-Supports (array_start ∷ mapping) output =
      Post-imp (format_shot-Supports mapping _) λ _ s. (tt, s)
  format_shot-Supports (array_end ∷ mapping) output =
      Post-imp (format_shot-Supports mapping _) λ _ s. (tt, s)

format_shots-eq :
    (n : ℕ) (shots : List (List ℤ)) (mapping : List RecordedOutput) (output : List Text)
    → All (ShotSupports mapping) shots
    → format_shots n shots mapping output ≡ ok (output ++ render_shots n shots mapping)
unfolding format_shots render_shots
format_shots-eq n [] mapping output h = ap ok (sym (append-nil output))
format_shots-eq n (shot ∷ shots) mapping output h =
    rw (format_shot-eq (n + 1) shot mapping h.0 output)
      (format_shots-eq (n + 1) shots mapping _ h.1 ∙ ap ok (append_assoc output _ _))

format_shots-Supports :
    (n : ℕ) (shots : List (List ℤ)) (mapping : List RecordedOutput) (output : List Text)
    → Post (λ _. All (ShotSupports mapping) shots) (format_shots n shots mapping output)
unfolding format_shots
format_shots-Supports n [] mapping output = returns tt
format_shots-Supports n (shot ∷ shots) mapping output =
    Post-bind (format_shot-Supports (n + 1) shot mapping output)
      λ output' s. Post-imp (format_shots-Supports (n + 1) shots mapping output') λ _ r. (s, r)

-- Where every shot has data for what it shows, the debug format is the lines of the shots in
-- order, counted from 1, each cut behind the first end of a shot.
pub try_new-eq-render :
    (shots : List (List ℤ)) (mapping : List RecordedOutput)
    → All (ShotSupports mapping) shots
    → try_new (i8_data shots) mapping ≡ ok (render_shots 0 shots mapping)
unfolding try_new
try_new-eq-render shots mapping h = format_shots-eq 0 shots mapping [] h

-- If the debug format is made, the results are of the supported type and every shot has data
-- for each result that it shows, and shows no output of an unsupported type: otherwise an error
-- is returned.
pub try_new-Supports :
    (result : RegisterData) (mapping : List RecordedOutput) (lines : List Text)
    → try_new result mapping ≡ ok lines
    → (shots : List (List ℤ)) × (result ≡ i8_data shots) × All (ShotSupports mapping) shots
unfolding try_new
try_new-Supports (i8_data shots) mapping lines e =
    (shots, refl, Post-eq_ok (format_shots-Supports 0 shots mapping []) e)
try_new-Supports (i16_data debug) mapping lines e = ground arith
try_new-Supports (f64_data debug) mapping lines e = ground arith
try_new-Supports (complex32_data debug) mapping lines e = ground arith

length-render_shots :
    (n : ℕ) (shots : List (List ℤ)) (mapping : List RecordedOutput)
    → length (render_shots n shots mapping) ≡ length shots * length (through_end mapping)
unfolding render_shots
length-render_shots n [] mapping = omega arith
length-render_shots n (shot ∷ shots) mapping =
    rw
      (
        length-append (map (render (n + 1) shot) (through_end mapping)),
        length-map,
        length-render_shots (n + 1) shots mapping,
      )
      (omega arith)

-- The lines of the debug format, where it is made.
pub lines_of-try_new :
    (result : RegisterData) (mapping : List RecordedOutput) (lines : List Text)
    → try_new result mapping ≡ ok lines
    → (shots : List (List ℤ)) × (result ≡ i8_data shots)
      × All (ShotSupports mapping) shots
      × (render_shots 0 shots mapping ≡ lines)
lines_of-try_new result mapping lines e =
    let (shots, same, supports) = try_new-Supports result mapping lines e in
    let known : ok (render_shots 0 shots mapping) ≡ ok lines =
      sym (try_new-eq-render shots mapping supports) ∙ rw (← same) e in
    (shots, same, supports, ground (arith, known))

-- If the debug format is made, it has, for each shot, one line for each output up to the first
-- end of a shot.
length-try_new :
    (result : RegisterData) (mapping : List RecordedOutput) (lines : List Text)
    → try_new result mapping ≡ ok lines
    → (shots : List (List ℤ)) × (result ≡ i8_data shots)
      × (length lines ≡ length shots * length (through_end mapping))
length-try_new result mapping lines e =
    let (shots, same, supports, known) = lines_of-try_new result mapping lines e in
    (shots, same, ap length (sym known) ∙ length-render_shots 0 shots mapping)
