-- ===== src/Errors.antt =====
-- app/util/exceptions.py, the exception classes of app/master/slave.py and the others that the
-- modelled code raises: a method that may raise returns a `Result`.
pub data Error : Type 0 where
  -- Exception, RuntimeError and ValueError of Python itself, and the errors of its queues and dicts
  exception runtime_error value_error zero_division key_error index_error queue_full : Error
  type_error attribute_error : Error
  -- app/util/exceptions.py, app/util/network.py, app/util/secret.py
  bad_request item_not_found item_not_ready authentication_error precondition_failed : Error
  request_failed : Error
  insecure_secret : Error
  -- app/client/build_runner.py, app/client/cluster_api_client.py
  build_runner cluster_api_validation : Error
  -- app/master/slave.py
  dead_slave slave_marked_for_shutdown slave_communication : Error
  -- app/master/build.py, app/master/time_based_atom_grouper.py,
  -- app/project_type/project_type.py, app/master/atomizer.py
  build_project_error atom_timing_data setup_failure teardown_failure atomizer_error : Error
  -- app/util/conf/base_config_loader.py, app/master/job_config.py, app/master/cluster_runner_config.py
  invalid_config config_validation config_parse job_not_found job_not_specified : Error

pub data Result {ℓ} (A : Type ℓ) : Type ℓ where
  ok : A → Result A
  err : Error → Result A

infixl 5 ◌>>=◌ ◌>>◌
abbrev pub ◌>>=◌ {ℓ κ} : {A : Type ℓ} {B : Type κ} → Result A → (A → Result B) → Result B
ok a >>= f = f a
err e >>= f = err e

abbrev pub ◌>>◌ {ℓ κ} : {A : Type ℓ} {B : Type κ} → Result A → Result B → Result B
m >> k = m >>= λ _. k
