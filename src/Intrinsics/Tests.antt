-- ===== src/Intrinsics/Tests.antt =====
-- The matchers at names of the fixtures.
use qcs_sdk_qir.Base.{◌≡◌, refl, true, false, none, some, text}
use qcs_sdk_qir.Intrinsics.{qis_captures, record_captures}

qis_captures-body :
    qis_captures (text "__quantum__qis__cnot__body")
    ≡ some (record { operation = text "cnot"; controlled = false; adjoint = false })
unfolding qis_captures
qis_captures-body = refl

qis_captures-ctl_adj :
    qis_captures (text "__quantum__qis__s__ctl__adj")
    ≡ some (record { operation = text "s"; controlled = true; adjoint = true })
unfolding qis_captures
qis_captures-ctl_adj = refl

qis_captures-adj_ctl : qis_captures (text "__quantum__qis__s__adj__ctl") ≡ none
unfolding qis_captures
qis_captures-adj_ctl = refl

qis_captures-read_result : qis_captures (text "__quantum__qis__read_result__body") ≡ none
unfolding qis_captures
qis_captures-read_result = refl

record_captures-result :
    record_captures (text "__quantum__rt__result_record_output") ≡ some (text "result")
unfolding record_captures
record_captures-result = refl

record_captures-empty : record_captures (text "__quantum__rt___record_output") ≡ none
unfolding record_captures
record_captures-empty = refl
