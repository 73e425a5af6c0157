-- ===== src/Api/Types.antt =====
-- types.go and gvr.go: identifiers of objects, actions, and what the collectors hand on.
use dr.Base.{String, Bool, true, ◌&&◌, ◌==◌, ◌≡◌, ◌↔◌, arith, eq_iff}
use dr.Api.Content.{Fields}

pub record GroupVersionKind : Type 0 where
  pub group : String
  pub version : String
  pub kind : String

pub record GroupVersionResource : Type 0 where
  pub group : String
  pub version : String
  pub resource : String

pub record ObjectKey : Type 0 where
  pub namespace : String
  pub name : String

pub record GroupVersionKindObject : Type 0 where
  pub gvk : GroupVersionKind
  pub object_key : ObjectKey

-- Go compares structs field by field.
unfoldable pub gvk_eq : GroupVersionKind → GroupVersionKind → Bool
gvk_eq a b = a.group == b.group && (a.version == b.version && a.kind == b.kind)

unfoldable pub gvr_eq : GroupVersionResource → GroupVersionResource → Bool
gvr_eq a b = a.group == b.group && (a.version == b.version && a.resource == b.resource)

pub gvk_eq_iff : (a b : GroupVersionKind) → (gvk_eq a b ≡ true) ↔ (a ≡ b)
unfolding gvk_eq
gvk_eq_iff a b =
    ground (arith, eq_iff a.group b.group, eq_iff a.version b.version, eq_iff a.kind b.kind)

pub gvr_eq_iff : (a b : GroupVersionResource) → (gvr_eq a b ≡ true) ↔ (a ≡ b)
unfolding gvr_eq
gvr_eq_iff a b =
    ground (arith, eq_iff a.group b.group, eq_iff a.version b.version, eq_iff a.resource b.resource)

abbrev pub persistent_volume_gvr : GroupVersionResource
persistent_volume_gvr = record { group = ""; version = "v1"; resource = "persistentvolumes" }

abbrev pub persistent_volume_claim_gvr : GroupVersionResource
persistent_volume_claim_gvr = record {
  group = "";
  version = "v1";
  resource = "persistentvolumeclaims";
}

abbrev pub pod_gvr : GroupVersionResource
pod_gvr = record { group = ""; version = "v1"; resource = "pods" }

abbrev pub stateful_set_gvr : GroupVersionResource
stateful_set_gvr = record { group = "apps"; version = "v1"; resource = "statefulsets" }

-- utils.GVK2GVR
unfoldable pub gvk_to_gvr : GroupVersionKind → GroupVersionResource
gvk_to_gvr k = record { group = k.group; version = k.version; resource = k.kind }

-- A Go string type with named constants: a value of it is one of those, or any other text.
pub data ObjectAction : Type 0 where
  create update delete : ObjectAction
  other_action : String → ObjectAction

-- The namespace that stands for the cluster-scoped resources.
abbrev pub cluster_resource_delegator : String
cluster_resource_delegator = "kube-system"

-- An object on its way. The Go value holds pointers to its content and to its resource.
pub record ObjResource : Type 0 where
  pub unstructured : Fields
  pub gvr : GroupVersionResource
  pub namespaced : Bool
  pub action : ObjectAction
