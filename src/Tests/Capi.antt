-- ===== src/Tests/Capi.antt =====
-- The C interface at concrete calls.
use spore_client_libs.Base.{List, [], ◌∷◌, none, some, ◌≡◌, refl}
use spore_client_libs.Base.Text.{codes, c_str, equal}
use spore_client_libs.Capi.Texts.{sv}
use spore_client_libs.Capi.ArgApi.{Call, arg, flag, run, view, replay, nothing}
use spore_client_libs.Capi.Kinds.{
  request_api, response_api, response_error_api, witness_api, publish_api, run-all_refine,
}

abbrev some_calls : List Call
some_calls =
    arg (some (codes "n")) (some (codes "1"))
    ∷ flag none
    ∷ arg (some (codes "n")) none
    ∷ flag (some (codes "fast"))
    ∷ arg (some (codes "n")) (some (codes "2"))
    ∷ []

run-all_refine_example :
    (view request_api (run request_api some_calls request_api.create) ≡ replay some_calls nothing)
    × (view response_api (run response_api some_calls response_api.create)
        ≡ replay some_calls nothing)
    × (view response_error_api (run response_error_api some_calls response_error_api.create)
        ≡ replay some_calls nothing)
    × (view witness_api (run witness_api some_calls witness_api.create) ≡ replay some_calls nothing)
    × (view publish_api (run publish_api some_calls publish_api.create) ≡ replay some_calls nothing)
run-all_refine_example = run-all_refine some_calls

replayed : (replay some_calls nothing).0 (codes "n") ≡ some (codes "2")
unfolding equal c_str sv
replayed = refl
