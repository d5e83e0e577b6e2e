-- ===== src/Util/Network/Hosts.antt =====
-- When two names are those of one host.
use cluster_runner_jie.Prelude.{
  true, Option, none, some, String, ◌≡◌, refl, sym, ap, arith, ◌⊎◌, ◌↔◌, inl, inr, Bool-cases,
}
use cluster_runner_jie.Prelude.Dict.{String_eq}
use cluster_runner_jie.Util.Network.{get_host_id, same_ids, are_hosts_same}

module _ (lookup : String → Option String) (own_name : String) where
  same_ids_iff :
      (a b : Option String)
      → (same_ids lookup own_name a b ≡ true) ↔ ((i : String) × (a ≡ some i) × (b ≡ some i))
  same_ids_iff none b = (λ e. absurd (ground (arith, e)), λ h. ground (arith, h.1))
  same_ids_iff (some a) none = (λ e. absurd (ground (arith, e)), λ h. ground (arith, h.2))
  same_ids_iff (some a) (some b) = (
    λ e. (a, refl, ap some (sym ((String_eq.beq_iff a b).0 e))),
    λ h. ground (arith, (String_eq.beq_iff a b).1, h.1, h.2),
  )

  -- Two names are of the same host exactly if they are equal or both resolve to one address.
  are_hosts_same_iff :
      (host_a host_b : String)
      → (are_hosts_same lookup own_name host_a host_b ≡ true) ↔ (
          (host_a ≡ host_b)
          ⊎ ((i : String) × (get_host_id lookup own_name host_a ≡ some i)
              × (get_host_id lookup own_name host_b ≡ some i)))
  unfolding are_hosts_same
  are_hosts_same_iff host_a host_b = elim (Bool-cases (String_eq.beq host_a host_b)) [
    | inl q ↦ (λ _. inl ((String_eq.beq_iff host_a host_b).0 q), λ _. rw q refl)
    | inr q ↦ (
      λ e. inr ((same_ids_iff _ _).0 (rw q at e)),
      λ h. elim h [
        | inl e ↦ absurd (ground (arith, q, (String_eq.beq_iff host_a host_b).1 e))
        | inr w ↦ rw q ((same_ids_iff _ _).1 w)
      ],
    )
  ]
