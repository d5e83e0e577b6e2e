-- ===== src/Util/Configuration/Examples.antt =====
-- The defaults of a slave, and a file with a section for all services and one for slaves.
use cluster_runner_jie.Prelude.{String, false, some, List, [], ◌∷◌}
use cluster_runner_jie.Prelude.Int.{pos}
use cluster_runner_jie.Prelude.Dict.{Dict, String_eq}
use cluster_runner_jie.Util.Configuration.{
  Configuration, Texts, Entry, text, is_none, bool, int, list, load_from_config_file,
}
use cluster_runner_jie.Util.Configuration.Types.{Keeps, load_from_config_file-Keeps}

abbrev reads : Texts
reads = record {
  lower = λ x. x;
  parse_int = λ x. some (pos 43001);
  starts_with_tilde = λ x. false;
  expanduser = λ x. x;
}

abbrev defaults : Configuration
defaults =
    ("secret", is_none)
    ∷ ("port", int (pos 43000))
    ∷ ("slaves", list ("localhost" ∷ []))
    ∷ ("shallow_clones", bool false)
    ∷ []

abbrev file : Dict String (List (String × Entry))
file =
    ("general", ("secret", text "0123456789") ∷ ("slaves", text "host") ∷ [])
    ∷ ("slave", ("port", text "43001") ∷ [])
    ∷ []

abbrev whitelist : List String
whitelist = "secret" ∷ "slaves" ∷ "port" ∷ []

load_from_config_file-Keeps_example :
    Keeps whitelist defaults (load_from_config_file reads whitelist file (some "slave") defaults).0
load_from_config_file-Keeps_example =
    load_from_config_file-Keeps reads whitelist file (some "slave") defaults
