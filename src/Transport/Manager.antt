-- ===== src/Transport/Manager.antt =====
-- transportmanager.go. The work queue and the status function are the environment: a round of
-- `transport` takes what `Get` gave, and lists what it adds to the queue and what it reports.
use dr.Base.{
  String, Bool, true, false, none, some, List, [], ◌∷◌, Result, ok, err, panic, message,
  if◌then◌else◌,
}
use dr.Base.Dict.{Dict, lookup, insert}
use dr.Base.Int.{ltℤ}
use dr.Base.Text.{atoi, contains}
use dr.Api.{UnstructuredApi, ObjResource, SyncedCondition, GroupVersionKindObject}

-- What `Get` of a work queue gives: the queue is shut down, an object, or a value of another type.
pub data Item : Type 0 where
  closed : Item
  object : ObjResource → Item
  foreign : Item

-- The interface Transporter over the state `R` of the other side.
pub record Transporter {ℓ} (R : Type ℓ) : Type ℓ where
  pub transport : ObjResource → R → R × Result (Unit {0})

pub record Round {ℓ} (R : Type ℓ) : Type ℓ where
  pub versions : Dict String
  pub remote : R
  pub requeued : List ObjResource
  pub conditions : List SyncedCondition
  pub fault : Bool

module _ (u : UnstructuredApi) where
  unfoldable pub is_resource_transported : Dict String → ObjResource → Bool
  is_resource_transported versions objr = elim (lookup (u.get_uid objr.unstructured) versions) [
    | none ↦ false
    | some _ ↦ true
  ]

  -- isNewVersion: the errors of Atoi are dropped, its numbers are used.
  unfoldable pub is_new_version : Dict String → ObjResource → Bool
  is_new_version versions objr = elim (lookup (u.get_uid objr.unstructured) versions) [
    | none ↦ true
    | some marked ↦ ltℤ (atoi marked).0 (atoi (u.get_resource_version objr.unstructured)).0
  ]

  unfoldable pub mark_as_successed : ObjResource → Dict String → Dict String
  mark_as_successed objr =
      insert (u.get_uid objr.unstructured) (u.get_resource_version objr.unstructured)

  key_object : ObjResource → GroupVersionKindObject
  key_object objr = record {
    gvk = record { group = objr.gvr.group; version = objr.gvr.version; kind = objr.gvr.resource };
    object_key = record {
      namespace = u.get_namespace objr.unstructured;
      name = u.get_name objr.unstructured;
    };
  }

  unfoldable pub generate_synced_condition : ObjResource → SyncedCondition
  unfolding key_object
  generate_synced_condition objr = record {
    group_version_kind_object = key_object objr;
    last_synced_resource_version = u.get_resource_version objr.unstructured;
    last_synced_status = "success";
  }

  module _ {ℓ} {R : Type ℓ} (t : Transporter R) where
    -- A new version is sent; what follows depends on the answer.
    unfoldable pub settle : ObjResource → Dict String → R × Result (Unit {0}) → Round R
    settle objr versions (remote, r) =
        let condition = generate_synced_condition objr in
        let failed = record condition { last_synced_status = "fail" } in
        elim r [
          | ok _ ↦ record {
            versions = mark_as_successed objr versions;
            remote = remote;
            requeued = [];
            conditions = condition ∷ [];
            fault = false;
          }
          | err e ↦
              if contains (message e) "already exists"
              then record {
                versions = mark_as_successed objr versions;
                remote = remote;
                requeued = [];
                conditions = failed ∷ [];
                fault = false;
              }
              else record {
                versions = versions;
                remote = remote;
                requeued = objr ∷ [];
                conditions = failed ∷ [];
                fault = false;
              }
          | panic ↦ record {
            versions = versions;
            remote = remote;
            requeued = [];
            conditions = [];
            fault = true;
          }
        ]

    abbrev pub idle : Dict String → R → Round R
    idle versions remote = record {
      versions = versions;
      remote = remote;
      requeued = [];
      conditions = [];
      fault = false;
    }

    unfoldable pub transport_round : Item → Dict String → R → Round R
    unfolding settle
    transport_round closed versions remote = idle versions remote
    transport_round foreign versions remote = idle versions remote
    transport_round (object objr) versions remote =
        if is_new_version versions objr
        then settle objr versions (t.transport objr remote)
        else idle versions remote
