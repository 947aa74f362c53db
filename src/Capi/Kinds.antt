-- ===== src/Capi/Kinds.antt =====
-- spore_c/source/spore_c.cpp: the interface of arguments and flags, filled by each of the five kinds of
-- messages.
use spore_client_libs.Base.{List, ◌≡◌, refl}
use spore_client_libs.Base.Text.{c_str}
use spore_client_libs.Wire.Message.{Message, ResponseError, Witness, Publish, get_arg, has_flag}
use spore_client_libs.Capi.Texts.{sv}
use spore_client_libs.Capi.ArgApi.{
  ArgApi, get_arg-add_arg, has_flag-add_flag, Call, run, view, replay, nothing, run-create_refines,
}
use spore_client_libs.Capi.Request.{
  spore_request_create, spore_request_add_arg, spore_request_add_flag, spore_request_get_arg,
  spore_request_has_flag,
}
use spore_client_libs.Capi.Response.{
  spore_response_create, spore_response_add_arg, spore_response_add_flag, spore_response_get_arg,
  spore_response_has_flag,
}
use spore_client_libs.Capi.ResponseError.{
  spore_response_error_create, spore_response_error_add_arg, spore_response_error_add_flag,
  spore_response_error_get_arg, spore_response_error_has_flag,
}
use spore_client_libs.Capi.Witness.{
  spore_witness_create, spore_witness_add_arg, spore_witness_add_flag, spore_witness_get_arg,
  spore_witness_has_flag,
}
use spore_client_libs.Capi.Publish.{
  spore_publish_create, spore_publish_add_arg, spore_publish_add_flag, spore_publish_get_arg,
  spore_publish_has_flag,
}

abbrev pub request_api : ArgApi Message
unfolding spore_request_add_arg spore_request_add_flag spore_request_get_arg spore_request_has_flag
    get_arg has_flag sv
request_api = record {
  create = spore_request_create;
  put_arg = spore_request_add_arg;
  put_flag = spore_request_add_flag;
  read_arg = spore_request_get_arg;
  read_flag = spore_request_has_flag;
  is_null-create = refl;
  read_arg-create = λ q. refl;
  read_flag-create = λ q. refl;
  is_null-put_arg = λ h k v. refl;
  is_null-put_flag = λ h f. refl;
  put_arg-null_key = λ h v. refl;
  put_arg-null_value = λ h k. refl;
  put_flag-null = λ h. refl;
  read_arg-put_arg = λ h k v q. get_arg-add_arg h (c_str k) (c_str v) (c_str q);
  read_flag-put_arg = λ h k v q. refl;
  read_arg-put_flag = λ h f q. refl;
  read_flag-put_flag = λ h f q. has_flag-add_flag h (c_str f) (c_str q);
}

abbrev pub response_api : ArgApi Message
unfolding spore_response_add_arg spore_response_add_flag spore_response_get_arg
    spore_response_has_flag get_arg has_flag sv
response_api = record {
  create = spore_response_create;
  put_arg = spore_response_add_arg;
  put_flag = spore_response_add_flag;
  read_arg = spore_response_get_arg;
  read_flag = spore_response_has_flag;
  is_null-create = refl;
  read_arg-create = λ q. refl;
  read_flag-create = λ q. refl;
  is_null-put_arg = λ h k v. refl;
  is_null-put_flag = λ h f. refl;
  put_arg-null_key = λ h v. refl;
  put_arg-null_value = λ h k. refl;
  put_flag-null = λ h. refl;
  read_arg-put_arg = λ h k v q. get_arg-add_arg h (c_str k) (c_str v) (c_str q);
  read_flag-put_arg = λ h k v q. refl;
  read_arg-put_flag = λ h f q. refl;
  read_flag-put_flag = λ h f q. has_flag-add_flag h (c_str f) (c_str q);
}

abbrev pub response_error_api : ArgApi ResponseError
unfolding spore_response_error_add_arg spore_response_error_add_flag spore_response_error_get_arg
    spore_response_error_has_flag get_arg has_flag sv
response_error_api = record {
  create = spore_response_error_create;
  put_arg = spore_response_error_add_arg;
  put_flag = spore_response_error_add_flag;
  read_arg = spore_response_error_get_arg;
  read_flag = spore_response_error_has_flag;
  is_null-create = refl;
  read_arg-create = λ q. refl;
  read_flag-create = λ q. refl;
  is_null-put_arg = λ h k v. refl;
  is_null-put_flag = λ h f. refl;
  put_arg-null_key = λ h v. refl;
  put_arg-null_value = λ h k. refl;
  put_flag-null = λ h. refl;
  read_arg-put_arg = λ h k v q. get_arg-add_arg h.message (c_str k) (c_str v) (c_str q);
  read_flag-put_arg = λ h k v q. refl;
  read_arg-put_flag = λ h f q. refl;
  read_flag-put_flag = λ h f q. has_flag-add_flag h.message (c_str f) (c_str q);
}

abbrev pub witness_api : ArgApi Witness
unfolding spore_witness_add_arg spore_witness_add_flag spore_witness_get_arg spore_witness_has_flag
    get_arg has_flag sv
witness_api = record {
  create = spore_witness_create;
  put_arg = spore_witness_add_arg;
  put_flag = spore_witness_add_flag;
  read_arg = spore_witness_get_arg;
  read_flag = spore_witness_has_flag;
  is_null-create = refl;
  read_arg-create = λ q. refl;
  read_flag-create = λ q. refl;
  is_null-put_arg = λ h k v. refl;
  is_null-put_flag = λ h f. refl;
  put_arg-null_key = λ h v. refl;
  put_arg-null_value = λ h k. refl;
  put_flag-null = λ h. refl;
  read_arg-put_arg = λ h k v q. get_arg-add_arg h.message (c_str k) (c_str v) (c_str q);
  read_flag-put_arg = λ h k v q. refl;
  read_arg-put_flag = λ h f q. refl;
  read_flag-put_flag = λ h f q. has_flag-add_flag h.message (c_str f) (c_str q);
}

abbrev pub publish_api : ArgApi Publish
unfolding spore_publish_add_arg spore_publish_add_flag spore_publish_get_arg spore_publish_has_flag
    get_arg has_flag sv
publish_api = record {
  create = spore_publish_create;
  put_arg = spore_publish_add_arg;
  put_flag = spore_publish_add_flag;
  read_arg = spore_publish_get_arg;
  read_flag = spore_publish_has_flag;
  is_null-create = refl;
  read_arg-create = λ q. refl;
  read_flag-create = λ q. refl;
  is_null-put_arg = λ h k v. refl;
  is_null-put_flag = λ h f. refl;
  put_arg-null_key = λ h v. refl;
  put_arg-null_value = λ h k. refl;
  put_flag-null = λ h. refl;
  read_arg-put_arg = λ h k v q. get_arg-add_arg h.message (c_str k) (c_str v) (c_str q);
  read_flag-put_arg = λ h k v q. refl;
  read_arg-put_flag = λ h f q. refl;
  read_flag-put_flag = λ h f q. has_flag-add_flag h.message (c_str f) (c_str q);
}

-- Of each of the five kinds: whatever calls that add arguments and flags are made on a new message,
-- with null texts among them, the getters then give exactly what the same calls make of the empty
-- functions from names to values and from flags to truth values.
pub run-all_refine :
    (calls : List Call)
    → (view request_api (run request_api calls request_api.create) ≡ replay calls nothing)
      × (view response_api (run response_api calls response_api.create) ≡ replay calls nothing)
      × (view response_error_api (run response_error_api calls response_error_api.create)
          ≡ replay calls nothing)
      × (view witness_api (run witness_api calls witness_api.create) ≡ replay calls nothing)
      × (view publish_api (run publish_api calls publish_api.create) ≡ replay calls nothing)
run-all_refine calls = (
  run-create_refines request_api calls,
  run-create_refines response_api calls,
  run-create_refines response_error_api calls,
  run-create_refines witness_api calls,
  run-create_refines publish_api calls,
)
