-- ===== src/Util/Network.antt =====
-- app/util/network.py: requests, and whether two names are of one host. What the library requests
-- and the resolver of names answer is given.
mod Hosts
use cluster_runner_jie.Prelude.{
  Bool, true, false, not, ◌&&◌, Option, none, some, String, [], ◌∷◌, if◌then◌else◌,
}
use cluster_runner_jie.Prelude.Dict.{Dict, String_eq}
use cluster_runner_jie.Errors.{Error, request_failed, Result, ok, err}

-- The data of a request: none, a text, or a dictionary.
pub data Data : Type 0 where
  nothing : Data
  text : String → Data
  dict : Dict String String → Data

pub record Reply : Type 0 where
  pub is_ok : Bool
  pub content : String

-- A dictionary is sent as a text within a dictionary.
unfoldable pub data_to_send : (Dict String String → String) → Bool → Data → Data
data_to_send encode should_encode_body (dict d) =
    if should_encode_body then dict (("__encoded_body__", encode d) ∷ []) else dict d
data_to_send encode should_encode_body other = other

unfoldable pub request :
    (Dict String String → String) → (Data → Reply) → Bool → Bool → Data → Result Reply
unfolding data_to_send
request encode send should_encode_body error_on_failure d =
    let resp = send (data_to_send encode should_encode_body d) in
    if not resp.is_ok && error_on_failure then err request_failed else ok resp

-- `lookup` is `gethostbyname`, where `none` stands for `gaierror`; `own_name` is `gethostname`.
module _ (lookup : String → Option String) (own_name : String) where
  unfoldable pub get_host_id : String → Option String
  get_host_id host = if String_eq.beq host "localhost" then lookup own_name else lookup host

  abbrev pub same_ids : Option String → Option String → Bool
  same_ids none b = false
  same_ids (some a) none = false
  same_ids (some a) (some b) = String_eq.beq a b

  unfoldable pub are_hosts_same : String → String → Bool
  unfolding get_host_id
  are_hosts_same host_a host_b =
      if String_eq.beq host_a host_b
      then true
      else same_ids (get_host_id host_a) (get_host_id host_b)
