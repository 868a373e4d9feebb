-- ===== src/Pattern/Readout.antt =====
-- The map from result indices to offsets of the readout region (read_result_mapping of pattern.rs).
use mathlib.Core.Path.{subst}
use qcs_sdk_qir.Base.{
  ℕ, suc, ◌+◌, ◌≤◌, ◌<◌, ◌==◌, ◌≡◌, refl, none, some, [], ◌∷◌, ◌++◌, length, length-append,
  Option-cases, inl, inr, arith, if◌then◌else◌,
}
use qcs_sdk_qir.Pattern.Context.{ReadoutMap, lookup, entry_or_next}

-- The values count up from `n`.
abbrev pub CountsFrom : ℕ → ReadoutMap → Type 0
CountsFrom n [] = Unit {0}
CountsFrom n ((k, v) ∷ m) = (v ≡ n) × CountsFrom (suc n) m

abbrev pub KeysDistinct : ReadoutMap → Type 0
KeysDistinct [] = Unit {0}
KeysDistinct ((k, v) ∷ m) = (lookup k m ≡ none) × KeysDistinct m

pub record IsDense (m : ReadoutMap) : Type 0 where
  pub counts : CountsFrom 0 m
  pub distinct : KeysDistinct m

lookup-append :
    (k j v : ℕ) (m : ReadoutMap)
    → lookup j (m ++ (k, v) ∷ [])
      ≡ elim (lookup j m) [ some w ↦ some w | none ↦ if k == j then some v else none ]
unfolding lookup
lookup-append k j v [] = refl
lookup-append k j v ((i, w) ∷ m) = ground (arith, lookup-append k j v m)

lookup_bounds :
    (n k : ℕ) (m : ReadoutMap) {v : ℕ}
    → CountsFrom n m
    → lookup k m ≡ some v
    → (n ≤ v) × (v < n + length m)
unfolding lookup
lookup_bounds n k [] h e = absurd (ground arith)
lookup_bounds n k ((j, w) ∷ m) {v} h e = ground (arith, lookup_bounds (suc n) k m {v = v} h.1)

-- A stored offset is below the number of entries.
pub lookup-lt : (k : ℕ) (m : ReadoutMap) {v : ℕ} → IsDense m → lookup k m ≡ some v → v < length m
lookup-lt k m {v} h e = omega (arith, (lookup_bounds 0 k m {v = v} h.counts e).1)

CountsFrom-append :
    (n k : ℕ) (m : ReadoutMap) → CountsFrom n m → CountsFrom n (m ++ (k, n + length m) ∷ [])
CountsFrom-append n k [] h = (omega arith, tt)
CountsFrom-append n k ((j, w) ∷ m) h =
    let shifted : n + suc (length m) ≡ suc n + length m = omega arith in
    (h.0, rw shifted (CountsFrom-append (suc n) k m h.1))

KeysDistinct-append :
    (k v : ℕ) (m : ReadoutMap)
    → KeysDistinct m
    → lookup k m ≡ none
    → KeysDistinct (m ++ (k, v) ∷ [])
unfolding lookup
KeysDistinct-append k v [] h e = (refl, tt)
KeysDistinct-append k v ((j, w) ∷ m) h e =
    (ground (arith, lookup-append k j v m), KeysDistinct-append k v m h.1 (ground arith))

module _ (k : ℕ) (m : ReadoutMap) where
  pub entry_or_next-IsDense : IsDense m → IsDense (entry_or_next k m).1
  unfolding entry_or_next
  entry_or_next-IsDense h = elim (Option-cases (lookup k m)) [
    | inr (v, e) ↦ rw e h
    | inl e ↦ rw e (record {
      counts =
          subst (λ (t : ℕ). CountsFrom 0 (m ++ (k, t) ∷ [])) (omega arith)
            (CountsFrom-append 0 k m h.counts);
      distinct = KeysDistinct-append k (length m) m h.distinct e;
    })
  ]

  -- The entry is there afterwards, under the index that was returned.
  pub lookup-entry_or_next : lookup k (entry_or_next k m).1 ≡ some (entry_or_next k m).0
  unfolding entry_or_next
  lookup-entry_or_next = ground (arith, lookup-append k k (length m) m)

  -- Earlier entries keep their offsets.
  pub lookup-entry_or_next_old :
      (j : ℕ) {v : ℕ} → lookup j m ≡ some v → lookup j (entry_or_next k m).1 ≡ some v
  unfolding entry_or_next
  lookup-entry_or_next_old j e = ground (arith, lookup-append k j (length m) m)

  pub length-entry_or_next : length m ≤ length (entry_or_next k m).1
  unfolding entry_or_next
  length-entry_or_next = ground (arith, length-append {0} m ((k, length m) ∷ []))

  -- The index that was returned is below the number of entries afterwards.
  pub entry_or_next-lt : IsDense m → (entry_or_next k m).0 < length (entry_or_next k m).1
  entry_or_next-lt h =
      lookup-lt k (entry_or_next k m).1 (entry_or_next-IsDense h) lookup-entry_or_next

  -- What the offset of a result and the map that is left are.
  pub record IsAssigned (r : ℕ × ReadoutMap) : Type 0 where
    pub dense : IsDense r.1
    pub found : lookup k r.1 ≡ some r.0
    pub kept : (j v : ℕ) → lookup j m ≡ some v → lookup j r.1 ≡ some v
    pub below : r.0 < length r.1

  -- From a dense map, asking for the offset of a result leaves a dense map that holds the
  -- returned offset for the result, keeps the offset of every other result, and has more
  -- entries than the offset.
  pub entry_or_next-IsAssigned : IsDense m → IsAssigned (entry_or_next k m)
  entry_or_next-IsAssigned h = record {
    dense = entry_or_next-IsDense h;
    found = lookup-entry_or_next;
    kept = λ j v e. lookup-entry_or_next_old j {v = v} e;
    below = entry_or_next-lt h;
  }
