-- ===== src/Core/Json/Ascii.antt =====
-- Tests of `dumps`.
use async_job_processing_pip.Prelude.{◌≡◌, refl}
use async_job_processing_pip.Prelude.Int.{negsuc}
use async_job_processing_pip.Core.Json.{obj, field, empty, int, str, codes, dump}

t1 :
    dump (obj (field "a" (int (negsuc 41)) (field "b\"" (str "x") empty)))
    ≡ codes "{\"a\":-42,\"b\\\"\":\"x\"}"
unfolding dump
t1 = refl
