-- ===== src/Master/ClusterMaster/Shutdown.antt =====
-- `set_shutdown_mode_on_slaves` of app/master/cluster_master.py: all of the slaves, or none.
use cluster_runner_jie.Prelude.{
  ℕ, Bool, true, false, ◌||◌, Option, none, some, List, [], ◌∷◌, ◌++◌, ◌⊎◌, ◌==◌, ◌≡◌, ◌≢◌, refl,
  ap, subst, ◌∙◌, arith, inl, inr, if◌then◌else◌,
}
use native.Mathlib.Decide.{ℕ_discrete}
use cluster_runner_jie.Prelude.Dict.{Dict, lookup, insert, lookup-insert, ℕ_eq, String_eq}
use cluster_runner_jie.Errors.{Error, item_not_found, Result, ok, err, ◌>>=◌}
use cluster_runner_jie.Master.Fsm.Fysom.{Fysom}
use cluster_runner_jie.Master.Slave.{Slave, Reply, set_shutdown_mode}
use cluster_runner_jie.Master.Registry.{SlaveRegistry, get_slave, found}
use cluster_runner_jie.Master.ClusterMaster.{
  ClusterMaster, graceful_shutdown_slave, write_slave, removed_if,
}

abbrev pub is_in : ℕ → List ℕ → Bool
is_in i [] = false
is_in i (j ∷ js) = (j == i) || is_in i js

-- The slaves are looked up first.
unfoldable pub find_slaves : List ℕ → SlaveRegistry → Result (List ℕ)
find_slaves [] g = ok []
find_slaves (i ∷ is') g = get_slave (some i) none g >>= λ j. find_slaves is' g >>= λ js. ok (j ∷ js)

removed_if-slaves :
    (b : Bool) (sl : Slave) (m : ClusterMaster) → (removed_if b sl m).slaves ≡ m.slaves
removed_if-slaves false sl m = refl
removed_if-slaves true sl m = ground arith

unknown_after :
    (r : Result ℕ) (f : ℕ → Result (List ℕ))
    → ((e : Error) → r ≡ err e → e ≡ item_not_found)
    → ((j : ℕ) → f j ≡ err item_not_found)
    → (r >>= f) ≡ err item_not_found
unknown_after (ok j) f only fails = fails j
unknown_after (err e) f only fails = ap err (only e refl)

find_slaves-unknown :
    (before after : List ℕ) (i : ℕ) (g : SlaveRegistry)
    → lookup i g.all_slaves_by_id ≡ none
    → find_slaves (before ++ i ∷ after) g ≡ err item_not_found
unfolding find_slaves get_slave
find_slaves-unknown [] after i g n = rw n refl
find_slaves-unknown (k ∷ before) after i g n =
    unknown_after (found (lookup k g.all_slaves_by_id))
      (λ j. find_slaves (before ++ i ∷ after) g >>= λ js. ok (j ∷ js)) (λ e q. ground (arith, q))
      (λ j. ap (λ r. r >>= λ js. ok (j ∷ js)) (find_slaves-unknown before after i g n))

module _ (fysom : Fysom) (now : ℕ) (replies : ℕ → Reply) where
  -- `replies` is what each slave's service answers.
  abbrev pub shutdown_found : ℕ → Option Slave → ClusterMaster → ClusterMaster
  shutdown_found i none m = m
  shutdown_found i (some sl) m = graceful_shutdown_slave fysom now (replies i) sl m

  unfoldable pub shutdown_each : List ℕ → ClusterMaster → ClusterMaster
  shutdown_each [] m = m
  shutdown_each (i ∷ is') m = shutdown_each is' (shutdown_found i (lookup i m.slaves) m)

  abbrev pub shutdown_all : Result (List ℕ) → ClusterMaster → ClusterMaster × Option Error
  shutdown_all (err e) m = (m, some e)
  shutdown_all (ok js) m = (shutdown_each js m, none)

  unfoldable pub set_shutdown_mode_on_slaves : List ℕ → ClusterMaster → ClusterMaster × Option Error
  unfolding find_slaves shutdown_each
  set_shutdown_mode_on_slaves slave_ids m = shutdown_all (find_slaves slave_ids m.slave_registry) m

  -- Slaves stand in the store under their ids.
  abbrev pub IsStore : Dict ℕ Slave → Type 0
  IsStore slaves = (i : ℕ) (sl : Slave) → lookup i slaves ≡ some sl → sl.slave_id ≡ i

  downed : ℕ → Slave → Slave
  downed i sl = (set_shutdown_mode (replies i) sl).slave

  downed-IsDown : (i : ℕ) (sl : Slave) → (downed i sl).is_in_shutdown_mode ≡ true
  unfolding downed set_shutdown_mode
  downed-IsDown i sl = ground arith

  downed-id : (i : ℕ) (sl : Slave) → (downed i sl).slave_id ≡ sl.slave_id
  unfolding downed set_shutdown_mode
  downed-id i sl = ground arith

  shutdown-slaves :
      (i : ℕ) (sl : Slave) (m : ClusterMaster)
      → (graceful_shutdown_slave fysom now (replies i) sl m).slaves
        ≡ insert (downed i sl).slave_id (downed i sl) m.slaves
  unfolding graceful_shutdown_slave downed
  shutdown-slaves i sl m =
      let s = set_shutdown_mode (replies i) sl in
      removed_if-slaves s.is_removed s.slave (write_slave s.slave m)

  lookup-shutdown :
      (i j : ℕ) (sl : Slave) (m : ClusterMaster)
      → sl.slave_id ≡ i
      → lookup j (graceful_shutdown_slave fysom now (replies i) sl m).slaves
        ≡ (if i == j then some (downed i sl) else lookup j m.slaves)
  lookup-shutdown i j sl m e =
      ap (lookup j) (shutdown-slaves i sl m)
      ∙ lookup-insert (downed i sl).slave_id j (downed i sl) m.slaves
      ∙ ap (λ k. if k == j then some (downed i sl) else lookup j m.slaves) (downed-id i sl ∙ e)

  -- One slave of the list: the others stay, what is down stays down, and the store is a store.
  record IsShut (i : ℕ) (m m' : ClusterMaster) : Type 0 where
    store : IsStore m'.slaves
    other : (j : ℕ) → i ≢ j → lookup j m'.slaves ≡ lookup j m.slaves
    this : (sl : Slave) → lookup i m.slaves ≡ some sl → lookup i m'.slaves ≡ some (downed i sl)

  shutdown_found-IsShut :
      (i : ℕ) (m : ClusterMaster) (o : Option Slave)
      → IsStore m.slaves
      → lookup i m.slaves ≡ o
      → IsShut i m (shutdown_found i o m)
  shutdown_found-IsShut i m none h e = record {
    store = h;
    other = λ j n. refl;
    this = λ sl q. absurd (ground (arith, e, q));
  }
  shutdown_found-IsShut i m (some sl) h e = record {
    store = λ j t q.
        ground (arith, lookup-shutdown i j sl m (h i sl e), q, downed-id i sl, h i sl e, h j t);
    other = λ j n. lookup-shutdown i j sl m (h i sl e) ∙ ground arith;
    this = λ t q. lookup-shutdown i i sl m (h i sl e) ∙ ground (arith, e, q);
  }

  abbrev IsDown : ℕ → ClusterMaster → Type 0
  IsDown j m = (sl : Slave) × (lookup j m.slaves ≡ some sl) × (sl.is_in_shutdown_mode ≡ true)

  shutdown_each-lem :
      (js : List ℕ) (m : ClusterMaster) (j : ℕ) (sl : Slave)
      → IsStore m.slaves
      → lookup j m.slaves ≡ some sl
      → (is_in j js ≡ false → lookup j (shutdown_each js m).slaves ≡ some sl)
        × ((is_in j js ≡ true) ⊎ (sl.is_in_shutdown_mode ≡ true) → IsDown j (shutdown_each js m))
  unfolding shutdown_each
  shutdown_each-lem [] m j sl h e = (λ _. e, λ d. (sl, e, ground arith))
  shutdown_each-lem (i ∷ js) m j sl h e =
      let m' = shutdown_found i (lookup i m.slaves) m in
      let s = shutdown_found-IsShut i m (lookup i m.slaves) h refl in
      elim (ℕ_discrete i j) [
        | yes q ↦
            let e' : lookup j m'.slaves ≡ some (downed j sl) =
              subst (λ k. lookup k m.slaves ≡ some sl → lookup k m'.slaves ≡ some (downed k sl)) q
                (s.this sl) e in
            let rest = shutdown_each-lem js m' j (downed j sl) s.store e' in
            (λ f. absurd (ground (arith, q, f)), λ _. rest.1 (inr (downed-IsDown j sl)))
        | no n ↦
            let rest = shutdown_each-lem js m' j sl s.store (s.other j n ∙ e) in
            (λ f. rest.0 (ground (arith, f)), λ d. rest.1 (ground (arith, d, n)))
      ]

  -- If one of the ids is not registered, no slave is changed and the call raises. Otherwise each of
  -- the slaves that are registered under the ids is in shutdown mode afterwards, and every other
  -- slave is as it was.
  pub set_shutdown_mode_lem :
      (slave_ids : List ℕ) (m : ClusterMaster)
      → IsStore m.slaves
      → let r = set_shutdown_mode_on_slaves slave_ids m in
        ((before after : List ℕ) (i : ℕ)
          → slave_ids ≡ before ++ i ∷ after
          → lookup i m.slave_registry.all_slaves_by_id ≡ none
          → r ≡ (m, some item_not_found))
        × ((js : List ℕ)
            → find_slaves slave_ids m.slave_registry ≡ ok js
            → (r.1 ≡ none)
              × ((j : ℕ) (sl : Slave)
                  → lookup j m.slaves ≡ some sl
                  → (is_in j js ≡ true → IsDown j r.0)
                    × (is_in j js ≡ false → lookup j r.0.slaves ≡ some sl)))
  unfolding set_shutdown_mode_on_slaves
  set_shutdown_mode_lem slave_ids m h = (
    λ before after i q n.
        ap (λ r. shutdown_all r m)
          (ap (λ is'. find_slaves is' m.slave_registry) q
            ∙ find_slaves-unknown before after i m.slave_registry n),
    λ js q. rw q (
      refl,
      λ j sl e. let (same, down) = shutdown_each-lem js m j sl h e in (λ t. down (inl t), same),
    ),
  )
