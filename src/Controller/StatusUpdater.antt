-- ===== src/Controller/StatusUpdater.antt =====
-- updater.go. The API server is a parameter over its state. A round takes the item that `Get` of
-- the work queue gave; a shut queue ends the process and is left out.
use dr.Base.{String, Option, none, some, List, [], ◌∷◌, ◌++◌, Result, Error, ok}
use dr.Base.Dict.{Dict, insert}
use dr.Base.Text.{join}
use dr.Api.{DrNamespace, DrNamespaceStatus, SyncedCondition}

-- The client of the controller runtime, for DRNamespace objects. `get` takes a namespace and a
-- name; `update_status` writes the status of the object and nothing else.
pub record StatusClient {ℓ} (S : Type ℓ) : Type ℓ where
  pub get : String → String → S → Result DrNamespace
  pub update_status : DrNamespace → S → S × Option Error

pub record StatusToUpdate : Type 0 where
  pub namespace : String
  pub name : String
  pub status : DrNamespaceStatus

-- GetConditionName
unfoldable pub get_condition_name : List String → String
get_condition_name pieces = join "-" pieces

unfoldable pub condition_key : SyncedCondition → String
unfolding get_condition_name
condition_key c = get_condition_name (
    c.group_version_kind_object.gvk.kind ∷ c.group_version_kind_object.object_key.namespace
    ∷ c.group_version_kind_object.object_key.name ∷ [])

abbrev pub conditions_or_empty : DrNamespaceStatus → Dict SyncedCondition
conditions_or_empty s = elim s.synced_conditions [ none ↦ [] | some m ↦ m ]

unfoldable pub with_condition : SyncedCondition → DrNamespaceStatus → DrNamespaceStatus
with_condition c s = record s {
  synced_conditions = some (insert (condition_key c) c (conditions_or_empty s));
}

-- UpdateStatus, on the queue.
unfoldable pub update_status : StatusToUpdate → List StatusToUpdate → List StatusToUpdate
update_status item queue = queue ++ (item ∷ [])

module _ {ℓ} {S : Type ℓ} (client : StatusClient S) where
  -- UpdateCondition: what it adds to the queue, if the object can be read.
  unfoldable pub update_condition : String → String → SyncedCondition → S → Option StatusToUpdate
  update_condition namespace name c s = elim (client.get namespace name s) [
    | ok inst ↦
        some (record { namespace = namespace; name = name; status = with_condition c inst.status })
    | _ ↦ none
  ]

  -- run: the object is read again, and its status is replaced by the one of the item.
  unfoldable pub update_round : StatusToUpdate → S → S
  update_round item s = elim (client.get item.namespace item.name s) [
    | ok inst ↦ (client.update_status (record inst { status = item.status }) s).0
    | _ ↦ s
  ]

  -- UpdateCondition, on the queue.
  unfoldable pub take_condition :
      String → String → SyncedCondition → S → List StatusToUpdate → List StatusToUpdate
  unfolding update_condition update_status
  take_condition namespace name c s queue = elim (update_condition namespace name c s) [
    | none ↦ queue
    | some item ↦ update_status item queue
  ]

  -- The loop that `Run` starts, over what is on the queue.
  unfoldable pub run_updates : List StatusToUpdate → S → S
  unfolding update_round
  run_updates [] s = s
  run_updates (item ∷ queue) s = run_updates queue (update_round item s)
