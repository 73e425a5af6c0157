-- ===== src/Configs/Watcher.antt =====
-- configmap_watcher.go. Nothing creates the watcher at present. `unmarshal` is json.Unmarshal into
-- a fresh configuration.
use dr.Base.{
  String, ◌==◌, ◌&&◌, Bool, Option, none, some, List, [], ◌∷◌, ◌++◌, Result, ok, is_some, ◌>>=◌,
  if◌then◌else◌, length, replicate,
}
use dr.Base.Dict.{Dict, lookup}
use dr.Api.{DrFilterConfig, ObjectKey}
use dr.Configs.Container.{DrConfig, update_filter_config_to_container}

pub record ConfigMap : Type 0 where
  pub namespace : String
  pub name : String
  pub content : Dict String

abbrev pub dr_filter_key_name : String
dr_filter_key_name = "drFilters"

unfoldable pub is_dr_related_cm : ConfigMap → Bool
is_dr_related_cm cm = is_some (lookup dr_filter_key_name cm.content)

-- onAdd, and onUpdate for the new object. `none` is an object of another type.
unfoldable pub on_config_map :
    (String → Result DrFilterConfig) → Option ConfigMap → DrConfig → DrConfig
on_config_map unmarshal none drc = drc
on_config_map unmarshal (some cm) drc = elim (lookup dr_filter_key_name cm.content) [
  | none ↦ drc
  | some raw ↦ elim (unmarshal raw) [
    | ok config ↦ update_filter_config_to_container cm.namespace (some config) drc
    | _ ↦ drc
  ]
]

unfoldable pub key_eq : ObjectKey → ObjectKey → Bool
key_eq a b = a.namespace == b.namespace && a.name == b.name

unfoldable pub register_cm : ObjectKey → List ObjectKey → List ObjectKey
register_cm key keys = keys ++ (key ∷ [])

unfoldable pub without : ObjectKey → List ObjectKey → List ObjectKey
unfolding key_eq
without key [] = []
without key (k ∷ ks) = let rest = without key ks in if key_eq key k then rest else k ∷ rest

abbrev pub zero_key : ObjectKey
zero_key = record { namespace = ""; name = "" }

-- `make` gives the new slice a length, and `append` goes behind it.
unfoldable pub unregister_cm : ObjectKey → List ObjectKey → List ObjectKey
unfolding without
unregister_cm key keys = replicate (length keys) zero_key ++ without key keys

-- The watcher, with a client of type `K`; its informer factory is made of the client alone.
pub record BaseConfigWatcher {κ} (K : Type κ) : Type κ where
  pub client : K
  pub object_keys : List ObjectKey

-- NewBaseConfigWatcher, over GetConfig and NewForConfig of the client library.
unfoldable pub new_base_config_watcher {ℓ κ} :
    {C : Type ℓ} {K : Type κ} → Result C → (C → Result K) → Result (BaseConfigWatcher K)
new_base_config_watcher get_config new_for_config = do
  config ← get_config
  client ← new_for_config config
  ok (record { client = client; object_keys = [] })

-- What the informer of `Run` tells its handlers, in order: an object, the old and the new one, or the
-- one that is gone.
pub data ConfigMapEvent : Type 0 where
  added : Option ConfigMap → ConfigMapEvent
  updated : Option ConfigMap → Option ConfigMap → ConfigMapEvent
  deleted : Option ConfigMap → ConfigMapEvent

-- The handlers that `Run` adds.
unfoldable pub handle : (String → Result DrFilterConfig) → ConfigMapEvent → DrConfig → DrConfig
handle unmarshal (added cm) drc = on_config_map unmarshal cm drc
handle unmarshal (updated _ cm) drc = on_config_map unmarshal cm drc
handle unmarshal (deleted _) drc = drc

unfoldable pub handle_all :
    (String → Result DrFilterConfig) → List ConfigMapEvent → DrConfig → DrConfig
unfolding handle
handle_all unmarshal [] drc = drc
handle_all unmarshal (event ∷ events) drc = handle_all unmarshal events (handle unmarshal event drc)
