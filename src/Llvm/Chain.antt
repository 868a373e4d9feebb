-- ===== src/Llvm/Chain.antt =====
-- A block's instructions in order: what `get_next_instruction` walks through.
use qcs_sdk_qir.Base.{◌≡◌, Option, none, some, List, [], ◌∷◌}
use qcs_sdk_qir.Llvm.{Module, Instruction}

-- From `o` on, the instructions are those of the list, and no more follow.
abbrev pub IsChain : Module → Option Instruction → List Instruction → Type 0
IsChain m o [] = o ≡ none
IsChain m o (i ∷ is) = (o ≡ some i) × IsChain m (m.get_next_instruction i) is
