-- ===== src/Util/Configuration/Types.antt =====
-- The types of the values that come from a file.
use cluster_runner_jie.Prelude.{
  true, false, Option, none, some, String, List, [], ◌∷◌, ◌≡◌, ◌≢◌, ◌⊎◌, refl, sym, ap, subst, ◌∙◌,
  arith, Bool-cases, Option-cases, inl, inr,
}
use cluster_runner_jie.Prelude.Dict.{Dict, lookup, insert, lookup-insert, String_eq}
use cluster_runner_jie.Errors.{Error, Result, ok, err}
use cluster_runner_jie.Util.Configuration.{
  Value, is_none, bool, int, str, list, Entry, Configuration, Texts, set, get, cast_bool, cast_int,
  cast_list, cast_str, cast, cast_and_set, is_in, load_keys, load_section, load_from_config_file,
}

pub data Kind : Type 0 where
  a_none a_bool an_int a_str a_list : Kind

abbrev pub kind : Value → Kind
kind is_none = a_none
kind (bool b) = a_bool
kind (int n) = an_int
kind (str x) = a_str
kind (list xs) = a_list

-- What may take the place of a default value: a value of its type, or a text for `None`.
abbrev pub Fits : Value → Value → Type 0
Fits v w = (kind w ≡ kind v) ⊎ ((kind v ≡ a_none) × (kind w ≡ a_str))

abbrev pub Takes : Option Value → Option Value → Type 0
Takes none none = Unit
Takes (some v) (some w) = Fits v w
Takes _ _ = ⊥

Fits-trans : (u v w : Value) → Fits u v → Fits v w → Fits u w
Fits-trans u v w f g = ground arith

Takes-refl : (o : Option Value) → Takes o o
Takes-refl none = tt
Takes-refl (some v) = inl refl

Takes-trans : (o p q : Option Value) → Takes o p → Takes p q → Takes o q
Takes-trans none none none f g = tt
Takes-trans none none (some w) f g = elim g [ ]
Takes-trans none (some v) q f g = elim f [ ]
Takes-trans (some u) none q f g = elim f [ ]
Takes-trans (some u) (some v) none f g = elim g [ ]
Takes-trans (some u) (some v) (some w) f g = Fits-trans u v w f g

cast-Fits : (t : Texts) (v w : Value) (e : Entry) → cast t v e ≡ ok w → Fits v w
unfolding cast cast_bool cast_int cast_list cast_str
cast-Fits t is_none w e h = ground arith
cast-Fits t (bool b) w e h = ground arith
cast-Fits t (int n) w e h = ground arith
cast-Fits t (str x) w e h = ground arith
cast-Fits t (list xs) w e h = ground arith

-- A configuration `d` after `c`: no key comes or goes, the types are kept, and so are the values of
-- the keys that are not on the list.
abbrev pub Keeps : List String → Configuration → Configuration → Type 0
Keeps whitelist c d =
    (j : String)
    → Takes (lookup j c) (lookup j d) × (is_in j whitelist ≡ false → lookup j d ≡ lookup j c)

set-Keeps :
    (whitelist : List String) (key : String) (v w : Value) (c : Configuration)
    → is_in key whitelist ≡ true
    → lookup key c ≡ some v
    → Fits v w
    → Keeps whitelist c (set key w c)
unfolding set
set-Keeps whitelist key v w c l h f j = elim (Bool-cases (String_eq.beq key j)) [
  | inl q ↦ (
    subst (λ k. Takes (lookup k c) (lookup k (insert key w c))) ((String_eq.beq_iff key j).0 q)
        (there ((String_eq.beq_iff key key).1 refl)),
    λ n. absurd (ground (arith, ap (λ k. is_in k whitelist) ((String_eq.beq_iff key j).0 q))),
  )
  | inr q ↦ (subst (Takes (lookup j c)) (sym (other q)) (Takes-refl (lookup j c)), λ _. other q)
]
  where
    other : String_eq.beq key j ≡ false → lookup j (insert key w c) ≡ lookup j c
    other q = lookup-insert key j w c ∙ rw q refl

    there : String_eq.beq key key ≡ true → Takes (lookup key c) (lookup key (insert key w c))
    there q = rw (h, lookup-insert key key w c, q) f

module _ (t : Texts) (whitelist : List String) where
  Keeps-refl : (c : Configuration) → Keeps whitelist c c
  Keeps-refl c j = (Takes-refl (lookup j c), λ _. refl)

  Keeps-trans :
      (b c d : Configuration) → Keeps whitelist b c → Keeps whitelist c d → Keeps whitelist b d
  Keeps-trans b c d f g j = (
    Takes-trans (lookup j b) (lookup j c) (lookup j d) (f j).0 (g j).0,
    λ n. (g j).1 n ∙ (f j).1 n,
  )

  cast_and_set-fails :
      (key : String) (e : Entry) (c : Configuration) (x : Error)
      → (cast_and_set t key e c).1 ≡ some x
      → (cast_and_set t key e c).0 ≡ c
  unfolding cast_and_set get
  cast_and_set-fails key e c x h = ground arith

  cast_and_set-sets :
      (key : String) (e : Entry) (c : Configuration)
      → (cast_and_set t key e c).1 ≡ none
      → (v : Value) × (w : Value) × (lookup key c ≡ some v)
        × (cast t v e ≡ ok w)
        × (cast_and_set t key e c).0 ≡ set key w c
  unfolding cast_and_set get
  cast_and_set-sets key e c h = elim (Option-cases (lookup key c)) [
    | inl q ↦ absurd (ground arith)
    | inr q ↦ sets q.0 q.1 (cast t q.0 e) refl
  ]
    where
      sets :
          (v : Value)
          → lookup key c ≡ some v
          → (r : Result Value) → cast t v e ≡ r
          → (v : Value) × (w : Value) × (lookup key c ≡ some v)
            × (cast t v e ≡ ok w)
            × (cast_and_set t key e c).0 ≡ set key w c
      sets v q (ok w) r = (v, w, q, r, ground arith)
      sets v q (err x) r = absurd (ground arith)

  cast_and_set-Keeps :
      (key : String) (e : Entry) (c : Configuration)
      → is_in key whitelist ≡ true
      → Keeps whitelist c (cast_and_set t key e c).0
  cast_and_set-Keeps key e c l = elim (Option-cases (cast_and_set t key e c).1) [
    | inl h ↦
        let (v, w, q, r, s) = cast_and_set-sets key e c h in
        subst (Keeps whitelist c) (sym s) (set-Keeps whitelist key v w c l q (cast-Fits t v w e r))
    | inr h ↦ subst (Keeps whitelist c) (sym (cast_and_set-fails key e c h.0 h.1)) (Keeps-refl c)
  ]

  module _ (key : String) (e : Entry) (es : List (String × Entry)) (c : Configuration) where
    load_keys-stops : is_in key whitelist ≡ false → (load_keys t whitelist ((key, e) ∷ es) c).0 ≡ c
    unfolding load_keys
    load_keys-stops l = ground arith

    load_keys-raises :
        (x : Error)
        → is_in key whitelist ≡ true
        → (cast_and_set t key e c).1 ≡ some x
        → (load_keys t whitelist ((key, e) ∷ es) c).0 ≡ (cast_and_set t key e c).0
    unfolding load_keys
    load_keys-raises x l h = ground arith

    load_keys-next :
        is_in key whitelist ≡ true
        → (cast_and_set t key e c).1 ≡ none
        → load_keys t whitelist ((key, e) ∷ es) c
          ≡ load_keys t whitelist es (cast_and_set t key e c).0
    unfolding load_keys
    load_keys-next l h = ground arith

  load_keys-Keeps :
      (es : List (String × Entry)) (c : Configuration)
      → Keeps whitelist c (load_keys t whitelist es c).0
  load_keys-Keeps [] c = unfold load_keys in Keeps-refl c
  load_keys-Keeps ((key, e) ∷ es) c = elim (Bool-cases (is_in key whitelist)) [
    | inr l ↦ subst (Keeps whitelist c) (sym (load_keys-stops key e es c l)) (Keeps-refl c)
    | inl l ↦ elim (Option-cases (cast_and_set t key e c).1) [
      | inl h ↦
          subst (λ r. Keeps whitelist c r.0) (sym (load_keys-next key e es c l h))
            (Keeps-trans c (cast_and_set t key e c).0 _ (cast_and_set-Keeps key e c l)
              (load_keys-Keeps es (cast_and_set t key e c).0))
      | inr h ↦
          subst (Keeps whitelist c) (sym (load_keys-raises key e es c h.0 l h.1))
            (cast_and_set-Keeps key e c l)
    ]
  ]

  module _ (parsed : Dict String (List (String × Entry))) where
    load_section-missing :
        (section : String) (c : Configuration)
        → lookup section parsed ≡ none
        → (load_section t whitelist parsed section c).0 ≡ c
    unfolding load_section
    load_section-missing section c h = ground arith

    load_section-there :
        (section : String) (c : Configuration) (es : List (String × Entry))
        → lookup section parsed ≡ some es
        → (load_section t whitelist parsed section c).0 ≡ (load_keys t whitelist es c).0
    unfolding load_section
    load_section-there section c es h = ground arith

    load_section-Keeps :
        (section : String) (c : Configuration)
        → Keeps whitelist c (load_section t whitelist parsed section c).0
    load_section-Keeps section c = elim (Option-cases (lookup section parsed)) [
      | inl h ↦ subst (Keeps whitelist c) (sym (load_section-missing section c h)) (Keeps-refl c)
      | inr h ↦
          subst (Keeps whitelist c) (sym (load_section-there section c h.0 h.1))
            (load_keys-Keeps h.0 c)
    ]

    load-first :
        (section : Option String) (c : Configuration)
        → ((load_section t whitelist parsed "general" c).1 ≢ none) ⊎ (section ≡ none)
        → (load_from_config_file t whitelist parsed section c).0
          ≡ (load_section t whitelist parsed "general" c).0
    unfolding load_from_config_file
    load-first section c h = ground arith

    load-second :
        (section : String) (c : Configuration)
        → (load_section t whitelist parsed "general" c).1 ≡ none
        → (load_from_config_file t whitelist parsed (some section) c).0
          ≡ (load_section t whitelist parsed section
              (load_section t whitelist parsed "general" c).0).0
    unfolding load_from_config_file
    load-second section c h = ground arith

    -- Whatever a file holds, and whether or not loading it raises: no key comes to the
    -- configuration or leaves it, every value has the type of its default or is a text in place of
    -- `None`, and the keys that are not on the list have their default values.
    pub load_from_config_file-Keeps :
        (section : Option String) (c : Configuration)
        → Keeps whitelist c (load_from_config_file t whitelist parsed section c).0
    load_from_config_file-Keeps none c =
        subst (Keeps whitelist c) (sym (load-first none c (inr refl)))
          (load_section-Keeps "general" c)
    load_from_config_file-Keeps (some section) c =
        elim (Option-cases (load_section t whitelist parsed "general" c).1) [
          | inl h ↦ subst (Keeps whitelist c) (sym (load-second section c h)) (
              Keeps-trans c (load_section t whitelist parsed "general" c).0 _
                (load_section-Keeps "general" c)
                (load_section-Keeps section (load_section t whitelist parsed "general" c).0))
          | inr h ↦
              subst (Keeps whitelist c)
                (sym (load-first (some section) c (inl (λ q. absurd (ground (arith, h.1, q))))))
                (load_section-Keeps "general" c)
        ]
