-- ===== src/Master/JobConfig/Validation.antt =====
-- Which configurations make jobs.
use cluster_runner_jie.Prelude.{
  true, Option, none, some, String, List, [], ◌∷◌, All, ◌≡◌, refl, ap, subst, ◌∙◌, arith,
  Bool-cases, inl, inr,
}
use cluster_runner_jie.Prelude.Dict.{Dict, lookup, String_eq}
use cluster_runner_jie.Errors.{Result, ok, err, ◌>>=◌}
use cluster_runner_jie.Master.JobConfig.{
  Item, no_item, item_text, item_dict, Section, number, items, other_section, other_item,
  SectionType, int, list_str, list_dict, JobConfig, Texts, expected_type, type_of, check_section,
  check_sections, has, validate, sanitized, shell_command_list_to_single_command, unpack, unpacked,
  construct_from_dict,
}

abbrev pub IsText : Item → Type 0
IsText (item_text x) = Unit
IsText no_item = Unit
IsText _ = ⊥

-- A list of texts may hold `None` behind the first one; of dictionaries only the first is looked at.
abbrev pub IsTyped : SectionType → Section → Type 0
IsTyped t (number n) = t ≡ int
IsTyped t (items []) = ⊥
IsTyped t (items (item_text x ∷ xs)) = (t ≡ list_str) × All IsText xs
IsTyped t (items (item_dict d ∷ xs)) = t ≡ list_dict
IsTyped t (items (no_item ∷ xs)) = ⊥
IsTyped t (items (other_item ∷ xs)) = ⊥
IsTyped t other_section = ⊥

abbrev pub IsAllowed : String → Section → Type 0
IsAllowed k v = (t : SectionType) × (expected_type k ≡ some t) × IsTyped t v

-- A job has its commands and atomizers, and each section is one that is known and of its type.
pub record IsJob (d : Dict String Section) : Type 0 where
  pub allowed : All (λ p. IsAllowed p.0 p.1) d
  pub has_commands : has "commands" d ≡ true
  pub has_atomizers : has "atomizers" d ≡ true

check_section-typed :
    (k : String) (v : Section) (t : SectionType)
    → expected_type k ≡ some t
    → IsTyped t v
    → check_section k v ≡ none
unfolding check_section type_of
check_section-typed k (number n) t e h = ground (arith, e, h)
check_section-typed k (items (item_text x ∷ xs)) t e h = ground (arith, e, h.0)
check_section-typed k (items (item_dict d ∷ xs)) t e h = ground (arith, e, h)
check_section-typed k (items []) t e h = absurd h
check_section-typed k (items (no_item ∷ xs)) t e h = absurd h
check_section-typed k (items (other_item ∷ xs)) t e h = absurd h
check_section-typed k other_section t e h = absurd h

check_sections-typed :
    (d : Dict String Section) → All (λ p. IsAllowed p.0 p.1) d → check_sections d ≡ none
unfolding check_sections
check_sections-typed [] h = refl
check_sections-typed ((k, v) ∷ d) h =
    ground (arith, check_section-typed k v h.0.0 h.0.1 h.0.2, check_sections-typed d h.1)

abbrev IsOk : {A : Type 0} → Result A → Type 0
IsOk (ok a) = Unit
IsOk (err e) = ⊥

IsOk-bind :
    {A B : Type 0} (r : Result A) (f : A → Result B)
    → IsOk r
    → ((a : A) → IsOk (f a))
    → IsOk (r >>= f)
IsOk-bind (ok a) f h g = g a
IsOk-bind (err e) f h g = absurd h

answer : {A : Type 0} (r : Result A) → IsOk r → (a : A) × (r ≡ ok a)
answer (ok a) h = (a, refl)
answer (err e) h = absurd h

sanitized-IsOk : (t : Texts) (xs : List Item) → All IsText xs → IsOk (sanitized t xs)
unfolding sanitized
sanitized-IsOk t [] h = tt
sanitized-IsOk t (no_item ∷ xs) h = sanitized-IsOk t xs h.1
sanitized-IsOk t (item_text x ∷ xs) h =
    IsOk-bind (sanitized t xs) _ (sanitized-IsOk t xs h.1) (λ a. tt)
sanitized-IsOk t (item_dict d ∷ xs) h = absurd h.0
sanitized-IsOk t (other_item ∷ xs) h = absurd h.0

module _ (t : Texts) (name : String) (d : Dict String Section) (h : IsJob d) where
  lookup-IsAllowed :
      (k : String) (v : Section) (d : Dict String Section)
      → All (λ p. IsAllowed p.0 p.1) d
      → lookup k d ≡ some v
      → IsAllowed k v
  unfolding lookup
  lookup-IsAllowed k v [] a q = absurd (ground arith)
  lookup-IsAllowed k v ((j, w) ∷ d) a q = elim (Bool-cases (String_eq.beq j k)) [
    | inl r ↦
        subst (λ i. IsAllowed i v) ((String_eq.beq_iff j k).0 r)
          (subst (IsAllowed j) (ground arith) a.0)
    | inr r ↦ lookup-IsAllowed k v d a.1 (ground arith)
  ]

  command-IsOk :
      (o : Option Section)
      → ((v : Section) → o ≡ some v → IsTyped list_str v)
      → IsOk (shell_command_list_to_single_command t o)
  unfolding shell_command_list_to_single_command
  command-IsOk none a = tt
  command-IsOk (some (number n)) a = tt
  command-IsOk (some other_section) a = tt
  command-IsOk (some (items [])) a = absurd (a (items []) refl)
  command-IsOk (some (items (no_item ∷ xs))) a = absurd (a (items (no_item ∷ xs)) refl)
  command-IsOk (some (items (item_dict e ∷ xs))) a =
      absurd (ground (arith, a (items (item_dict e ∷ xs)) refl))
  command-IsOk (some (items (other_item ∷ xs))) a = absurd (a (items (other_item ∷ xs)) refl)
  command-IsOk (some (items (item_text x ∷ xs))) a =
      IsOk-bind (sanitized t (item_text x ∷ xs)) _
        (sanitized-IsOk t (item_text x ∷ xs) (tt, (a (items (item_text x ∷ xs)) refl).1)) (λ j. tt)

  section-IsOk :
      (k : String)
      → expected_type k ≡ some list_str
      → IsOk (shell_command_list_to_single_command t (lookup k d))
  section-IsOk k e = command-IsOk (lookup k d) (λ v q. typed v (lookup-IsAllowed k v d h.allowed q))
    where
      typed : (v : Section) → IsAllowed k v → IsTyped list_str v
      typed v (s, f, g) = subst (λ r. IsTyped r v) (ground (arith, f, e)) g

  validates : validate (some d) ≡ none
  unfolding validate
  validates = rw (h.has_commands, h.has_atomizers) (check_sections-typed d h.allowed)

  unpack-IsOk : IsOk (unpack t name d)
  unfolding unpack expected_type
  unpack-IsOk =
      IsOk-bind (shell_command_list_to_single_command t (lookup "setup_build" d)) _
        (section-IsOk "setup_build" refl)
        (λ setup.
          IsOk-bind (shell_command_list_to_single_command t (lookup "teardown_build" d)) _
            (section-IsOk "teardown_build" refl)
            (λ teardown.
              IsOk-bind (shell_command_list_to_single_command t (lookup "commands" d)) _
                (section-IsOk "commands" refl) (λ command. tt)))

  pub constructed : (job : JobConfig) × (construct_from_dict t name (some d) ≡ ok job)
  unfolding construct_from_dict
  constructed =
      let (job, q) = answer (unpack t name d) unpack-IsOk in
      (job, ap (unpacked t name (some d)) validates ∙ q)
