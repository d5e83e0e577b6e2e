-- ===== src/Master/Registry/Agreement.antt =====
-- The two dictionaries of the registry have the same slaves.
use cluster_runner_jie.Prelude.{
  ℕ, ◌≡◌, refl, sym, ap, ◌∙◌, inl, inr, true, false, none, some, String, arith, Bool-cases, ◌==◌,
  ==_iff,
}
use cluster_runner_jie.Prelude.Dict.{
  Dict, Eq, lookup, insert, remove, lookup-insert, lookup-remove, ℕ_eq, String_eq,
}
use cluster_runner_jie.Master.Slave.{Slave}
use cluster_runner_jie.Master.Registry.{SlaveRegistry, add_slave, delete}

-- Every entry is one slave, which stands under its URL and under its id.
pub record Agree (slaves : Dict ℕ Slave) (g : SlaveRegistry) : Type 0 where
  pub by_url :
      (url : String) (i : ℕ)
      → lookup url g.all_slaves_by_url ≡ some i
      → (sl : Slave) × (lookup i slaves ≡ some sl)
        × (sl.url ≡ url)
        × (sl.slave_id ≡ i)
        × (lookup i g.all_slaves_by_id ≡ some i)
  pub by_id :
      (i j : ℕ)
      → lookup i g.all_slaves_by_id ≡ some j
      → (sl : Slave) × (lookup i slaves ≡ some sl)
        × (sl.slave_id ≡ i)
        × (j ≡ i)
        × (lookup sl.url g.all_slaves_by_url ≡ some i)

inner : {A : Type 0} {a b : A} → some a ≡ some b → a ≡ b
inner h = cc

none-some : {A X : Type 0} {a : A} → none ≡ some a → X
none-some h = absurd (ground arith)

true-false : {X : Type 0} → true ≡ false → X
true-false h = absurd (ground arith)

module _ {K V : Type 0} ⦃e : Eq K⦄ where
  insert-other :
      (k j : K) (v : V) (d : Dict K V) → e.beq k j ≡ false → lookup j (insert k v d) ≡ lookup j d
  insert-other k j v d h = rw (lookup-insert k j v d, h) refl

  insert-same :
      (k j : K) (v : V) (d : Dict K V) → e.beq k j ≡ true → lookup j (insert k v d) ≡ some v
  insert-same k j v d h = rw (lookup-insert k j v d, h) refl

  remove-other : (k j : K) (d : Dict K V) → e.beq k j ≡ false → lookup j (remove k d) ≡ lookup j d
  remove-other k j d h = rw (lookup-remove k j d, h) refl

  remove-same : (k j : K) (d : Dict K V) → e.beq k j ≡ true → lookup j (remove k d) ≡ none
  remove-same k j d h = rw (lookup-remove k j d, h) refl

  -- A key that is missing differs from one that is there.
  differs :
      {v : V} (k j : K) (d : Dict K V) → lookup k d ≡ none → lookup j d ≡ some v → e.beq k j ≡ false
  differs k j d missing there = elim (Bool-cases (e.beq k j)) [
    | inl s ↦ (none-some (sym missing ∙ ap (λ x. lookup x d) ((e.beq_iff k j).0 s) ∙ there))
    | inr s ↦ s
  ]

-- Adding a slave, whose id and URL are new, keeps the dictionaries in agreement.
pub add_slave-Agree :
    (slaves : Dict ℕ Slave) (g : SlaveRegistry) (sl : Slave)
    → Agree slaves g
    → lookup sl.slave_id slaves ≡ none
    → lookup sl.url g.all_slaves_by_url ≡ none
    → Agree (insert sl.slave_id sl slaves) (add_slave sl g)
unfolding add_slave
add_slave-Agree slaves g sl a new_id new_url = record {
  by_url = λ url i h. elim (Bool-cases (String_eq.beq sl.url url)) [
    | inl s ↦
        let n = inner (sym (insert-same sl.url url sl.slave_id g.all_slaves_by_url s) ∙ h) in
        let o : (sl.slave_id == i) ≡ true = (==_iff sl.slave_id i).1 n in
        (
          sl,
          insert-same sl.slave_id i sl slaves o,
          (String_eq.beq_iff sl.url url).0 s,
          n,
          insert-same sl.slave_id i sl.slave_id g.all_slaves_by_id o ∙ ap some n,
        )
    | inr s ↦
        let (t, there, u, n, d) =
          a.by_url url i (sym (insert-other sl.url url sl.slave_id g.all_slaves_by_url s) ∙ h) in
        let o : (sl.slave_id == i) ≡ false = differs sl.slave_id i slaves new_id there in
        (
          t,
          insert-other sl.slave_id i sl slaves o ∙ there,
          u,
          n,
          insert-other sl.slave_id i sl.slave_id g.all_slaves_by_id o ∙ d,
        )
  ];
  by_id = λ i j h. elim (Bool-cases (sl.slave_id == i)) [
    | inl s ↦
        let n = (==_iff sl.slave_id i).0 s in
        let k = inner (sym (insert-same sl.slave_id i sl.slave_id g.all_slaves_by_id s) ∙ h) in
        (
          sl,
          insert-same sl.slave_id i sl slaves s,
          n,
          sym k ∙ n,
          insert-same sl.url sl.url sl.slave_id g.all_slaves_by_url
                ((String_eq.beq_iff sl.url sl.url).1 refl)
              ∙ ap some n,
        )
    | inr s ↦
        let (t, there, n, k, d) =
          a.by_id i j (sym (insert-other sl.slave_id i sl.slave_id g.all_slaves_by_id s) ∙ h) in
        let o : String_eq.beq sl.url t.url ≡ false =
          differs sl.url t.url g.all_slaves_by_url new_url d in
        (
          t,
          insert-other sl.slave_id i sl slaves s ∙ there,
          n,
          k,
          insert-other sl.url t.url sl.slave_id g.all_slaves_by_url o ∙ d,
        )
  ];
}

-- Deleting a slave that is registered keeps them in agreement, and it is in neither of them then.
pub delete-Agree :
    (slaves : Dict ℕ Slave) (g : SlaveRegistry) (sl : Slave)
    → Agree slaves g
    → lookup sl.slave_id slaves ≡ some sl
    → lookup sl.url g.all_slaves_by_url ≡ some sl.slave_id
    → Agree slaves (delete sl g)
      × (lookup sl.url (delete sl g).all_slaves_by_url ≡ none)
      × (lookup sl.slave_id (delete sl g).all_slaves_by_id ≡ none)
unfolding delete
delete-Agree slaves g sl a known here =
    rw (delete, here)
      (
        record {
          by_url = λ url i h. elim (Bool-cases (String_eq.beq sl.url url)) [
            | inl s ↦ (none-some (sym (remove-same sl.url url g.all_slaves_by_url s) ∙ h))
            | inr s ↦
                let (t, there, u, n, d) =
                  a.by_url url i (sym (remove-other sl.url url g.all_slaves_by_url s) ∙ h) in
                let o : (sl.slave_id == i) ≡ false = other_id t url i s there u in
                (t, there, u, n, remove-other sl.slave_id i g.all_slaves_by_id o ∙ d)
          ];
          by_id = λ i j h. elim (Bool-cases (sl.slave_id == i)) [
            | inl s ↦ (none-some (sym (remove-same sl.slave_id i g.all_slaves_by_id s) ∙ h))
            | inr s ↦
                let (t, there, n, k, d) =
                  a.by_id i j (sym (remove-other sl.slave_id i g.all_slaves_by_id s) ∙ h) in
                let o : String_eq.beq sl.url t.url ≡ false = other_url t i s d in
                (t, there, n, k, remove-other sl.url t.url g.all_slaves_by_url o ∙ d)
          ];
        },
        remove-same sl.url sl.url g.all_slaves_by_url ((String_eq.beq_iff sl.url sl.url).1 refl),
        remove-same sl.slave_id sl.slave_id g.all_slaves_by_id
            ((==_iff sl.slave_id sl.slave_id).1 refl),
      )
  where
    other_id :
        (t : Slave) (url : String) (i : ℕ)
        → String_eq.beq sl.url url ≡ false
        → lookup i slaves ≡ some t
        → t.url ≡ url
        → (sl.slave_id == i) ≡ false
    other_id t url i s there u = elim (Bool-cases (sl.slave_id == i)) [
      | inl e ↦
          let same =
            inner (sym known ∙ ap (λ x. lookup x slaves) ((==_iff sl.slave_id i).0 e) ∙ there) in
          true-false ((sym ((String_eq.beq_iff sl.url url).1 (ap (λ x. x.url) same ∙ u)) ∙ s))
      | inr e ↦ e
    ]

    other_url :
        (t : Slave) (i : ℕ)
        → (sl.slave_id == i) ≡ false
        → lookup t.url g.all_slaves_by_url ≡ some i
        → String_eq.beq sl.url t.url ≡ false
    other_url t i s d = elim (Bool-cases (String_eq.beq sl.url t.url)) [
      | inl e ↦
          let same = inner (
            sym here
            ∙ ap (λ x. lookup x g.all_slaves_by_url) ((String_eq.beq_iff sl.url t.url).0 e)
            ∙ d) in
          true-false (sym ((==_iff sl.slave_id i).1 same) ∙ s)
      | inr e ↦ e
    ]
