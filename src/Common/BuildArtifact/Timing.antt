-- ===== src/Common/BuildArtifact/Timing.antt =====
-- Which times of atoms are kept from build to build.
use cluster_runner_jie.Prelude.{
  false, Option, none, some, String, List, [], ◌∷◌, All, ◌≡◌, ◌≢◌, refl, sym, ap, subst, ◌∙◌,
  Bool-cases, inl, inr,
}
use cluster_runner_jie.Prelude.Dict.{Dict, lookup, insert, lookup-insert, keys, String_eq}
use cluster_runner_jie.Errors.{Error, value_error, Result, ok, err, ◌>>=◌}
use cluster_runner_jie.Util.OrderedSet.Links.{Distinct}
use cluster_runner_jie.Common.BuildArtifact.{
  Names, Directory, get_failed_artifact_directories, update, update_timing_file, if_passed,
  write_timing_data,
}

abbrev pub or_else : {V : Type 0} → Option V → Option V → Option V
or_else none o = o
or_else (some v) o = some v

module _ {V : Type 0} where
  pub lookup-fresh :
      (k : String) (d : Dict String V) → All (λ j. k ≢ j) (keys d) → lookup k d ≡ none
  unfolding lookup
  lookup-fresh k [] n = refl
  lookup-fresh k ((j, v) ∷ d) n = elim (Bool-cases (String_eq.beq j k)) [
    | inl q ↦ absurd (n.0 (sym ((String_eq.beq_iff j k).0 q)))
    | inr q ↦ rw q (lookup-fresh k d n.1)
  ]

  pub lookup-insert_other :
      (j k : String) (v : V) (d : Dict String V)
      → String_eq.beq j k ≡ false
      → lookup k (insert j v d) ≡ lookup k d
  lookup-insert_other j k v d q = lookup-insert j k v d ∙ rw q refl

  lookup-update :
      (k : String) (old new : Dict String V)
      → Distinct (keys new)
      → lookup k (update old new) ≡ or_else (lookup k new) (lookup k old)
  unfolding update lookup
  lookup-update k old [] d = refl
  lookup-update k old ((j, v) ∷ new) d = elim (Bool-cases (String_eq.beq j k)) [
    | inl q ↦
        lookup-update k (insert j v old) new d.1
        ∙ ap (λ o. or_else o (lookup k (insert j v old)))
            (lookup-fresh k new
              (subst (λ i. All (λ l. i ≢ l) (keys new)) ((String_eq.beq_iff j k).0 q) d.0))
        ∙ lookup-insert j k v old
        ∙ rw q refl
    | inr q ↦
        lookup-update k (insert j v old) new d.1
        ∙ ap (or_else (lookup k new)) (lookup-insert_other j k v old q)
        ∙ rw q refl
  ]

  by_failures :
      (names : Names) (ds : Option Directory) (old : Option (Dict String V)) (new : Dict String V)
      (failed : Result (List String))
      → new ≢ []
      → get_failed_artifact_directories names ds ≡ failed
      → write_timing_data names ds (some old) new ≡ failed >>= if_passed old new
  unfolding write_timing_data
  by_failures names ds old [] failed n e = absurd (n refl)
  by_failures names ds old (t ∷ ts) failed n e = ap (λ r. r >>= if_passed old (t ∷ ts)) e

  -- If there are times, the first ones make the file. A file that is there gets the times of a build
  -- in which no atom failed, each in place of the atom's older one, and keeps those of the other
  -- atoms; if it cannot be read, this raises. After a build with failures it is as it was, readable
  -- or not. If the failures cannot be found out, the exception for that is raised.
  pub write_timing_data_lem :
      (names : Names) (ds : Option Directory) (old new : Dict String V)
      (file : Option (Dict String V))
      → Distinct (keys new)
      → new ≢ []
      → let failed = get_failed_artifact_directories names ds in
        (write_timing_data names ds none new ≡ ok (some (some new)))
        × (failed ≡ ok []
            → (t : Dict String V) × (write_timing_data names ds (some (some old)) new
                ≡ ok (some (some t)))
              × ((k : String) → lookup k t ≡ or_else (lookup k new) (lookup k old)))
        × (failed ≡ ok [] → write_timing_data names ds (some none) new ≡ err value_error)
        × ((d : String) (more : List String)
            → failed ≡ ok (d ∷ more)
            → write_timing_data names ds (some file) new ≡ ok (some file))
        × ((e : Error) → failed ≡ err e → write_timing_data names ds (some file) new ≡ err e)
  unfolding update_timing_file
  write_timing_data_lem names ds old new file d n = (
    first new n,
    λ f. (
      update old new,
      by_failures names ds (some old) new (ok []) n f,
      λ k. lookup-update k old new d,
    ),
    λ f. by_failures names ds none new (ok []) n f,
    λ x more f. by_failures names ds file new (ok (x ∷ more)) n f,
    λ e f. by_failures names ds file new (err e) n f,
  )
    where
      first :
          (new : Dict String V)
          → new ≢ []
          → write_timing_data names ds none new ≡ ok (some (some new))
      first [] n = absurd (n refl)
      first (t ∷ ts) n = unfold write_timing_data in refl
