-- ===== src/Context/Target.antt =====
-- src/context/target.rs: where programs are executed.
use qcs_sdk_qir.Base.{Text, text, text_eq, if◌then◌else◌}

pub data ExecutionTarget : Type 0 where
  qpu : Text → ExecutionTarget
  qvm : ExecutionTarget

-- `ExecutionTarget::from_str`, which never fails. What `str::to_lowercase` does beyond ASCII is
-- Unicode's tables: it is an argument.
unfoldable pub target_from_str : (Text → Text) → Text → ExecutionTarget
unfolding text_eq
target_from_str to_lowercase s = if text_eq (to_lowercase s) (text "qvm") then qvm else qpu s
