-- ===== src/Examples/Names.antt =====
-- The matchers' theorems at names of the fixtures.
use qcs_sdk_qir.Base.{◌≡◌, ◌≢◌, ◌↔◌, sym, ◌∙◌, true, none, some, text, arith}
use qcs_sdk_qir.Intrinsics.{QisCaptures, qis_captures, record_captures}
use qcs_sdk_qir.Intrinsics.Qis.{QisMatches, qis_captures_iff, QisEngine}
use qcs_sdk_qir.Intrinsics.Record.{RecordMatches, record_captures_iff}

some≢none : {A : Type 0} {a : A} → some a ≢ none
some≢none {a} e = ground arith

abbrev s_ctl_adj : QisCaptures
s_ctl_adj = record { operation = text "s"; controlled = true; adjoint = true }

qis_captures_iff_example :
    (qis_captures (text "__quantum__qis__s__ctl__adj") ≡ some s_ctl_adj)
    ↔ QisMatches (text "__quantum__qis__s__ctl__adj") s_ctl_adj
qis_captures_iff_example = qis_captures_iff (text "__quantum__qis__s__ctl__adj") s_ctl_adj

matcher_engine : QisEngine qis_captures
matcher_engine = record {
  sound = λ e. (qis_captures_iff _ _).0 e;
  total = λ h e. some≢none (sym ((qis_captures_iff _ _).1 h) ∙ e);
}

record_captures_iff_example :
    (record_captures (text "__quantum__rt__result_record_output") ≡ some (text "result"))
    ↔ RecordMatches (text "__quantum__rt__result_record_output") (text "result")
record_captures_iff_example =
    record_captures_iff (text "__quantum__rt__result_record_output") (text "result")
