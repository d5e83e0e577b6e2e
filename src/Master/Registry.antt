-- ===== src/Master/Registry.antt =====
-- app/master/slave.py, SlaveRegistry, and app/master/build_store.py. Slaves are objects of a store,
-- and stand in the registry's dictionaries by their ids.
pub mod Agreement
mod Examples
use cluster_runner_jie.Prelude.{ℕ, ◌-◌, Option, none, some, String, List, [], length, take, drop}
use cluster_runner_jie.Prelude.Dict.{Dict, lookup, insert, remove, values, ℕ_eq, String_eq}
use cluster_runner_jie.Errors.{value_error, item_not_found, Result, ok, err}
use cluster_runner_jie.Master.Build.{Build}
use cluster_runner_jie.Master.Slave.{Slave}

pub record SlaveRegistry : Type 0 where
  pub all_slaves_by_url : Dict String ℕ
  pub all_slaves_by_id : Dict ℕ ℕ

abbrev pub no_slaves : SlaveRegistry
no_slaves = record { all_slaves_by_url = []; all_slaves_by_id = [] }

unfoldable pub add_slave : Slave → SlaveRegistry → SlaveRegistry
add_slave sl g = record {
  all_slaves_by_url = insert sl.url sl.slave_id g.all_slaves_by_url;
  all_slaves_by_id = insert sl.slave_id sl.slave_id g.all_slaves_by_id;
}

abbrev pub found {ℓ} : {A : Type ℓ} → Option A → Result A
found none = err item_not_found
found (some a) = ok a

unfoldable pub get_slave : Option ℕ → Option String → SlaveRegistry → Result ℕ
get_slave none none g = err value_error
get_slave (some i) none g = found (lookup i g.all_slaves_by_id)
get_slave none (some url) g = found (lookup url g.all_slaves_by_url)
get_slave (some i) (some url) g = err value_error

-- The two `del` statements: a KeyError of the first one skips the second.
unfoldable pub delete : Slave → SlaveRegistry → SlaveRegistry
delete sl g = elim (lookup sl.url g.all_slaves_by_url) [
  | none ↦ g
  | some i ↦ record {
    all_slaves_by_url = remove sl.url g.all_slaves_by_url;
    all_slaves_by_id = remove sl.slave_id g.all_slaves_by_id;
  }
]

-- Called with a slave, or with the URL of one; `slaves` has the objects.
unfoldable pub remove_slave :
    Dict ℕ Slave → Option Slave → Option String → SlaveRegistry → Result SlaveRegistry
unfolding get_slave delete
remove_slave slaves none none g = err value_error
remove_slave slaves (some sl) (some url) g = err value_error
remove_slave slaves (some sl) none g = ok (delete sl g)
remove_slave slaves none (some url) g = elim (get_slave none (some url) g) [
  | err e ↦ ok g
  | ok i ↦ elim (lookup i slaves) [ none ↦ ok g | some sl ↦ ok (delete sl g) ]
]

-- `BuildStore`: an ordered dictionary of the builds.
abbrev pub BuildStore : Type 0
BuildStore = Dict ℕ Build

unfoldable pub get : ℕ → BuildStore → Result Build
get build_id builds = found (lookup build_id builds)

unfoldable pub get_range : ℕ → ℕ → BuildStore → List Build
get_range start end builds = take (end - start) (drop start (values builds))

unfoldable pub add : Build → BuildStore → BuildStore
add b builds = insert b.build_id b builds

unfoldable pub size : BuildStore → ℕ
size builds = length builds
