-- ===== src/Transport/Remote.antt =====
-- What the transporter for API servers does to the other cluster.
use dr.Base.{
  ◌≡◌, arith, String, Bool, true, false, List, [], ◌∷◌, Result, Error, err, if◌then◌else◌,
}
use dr.Api.{
  UnstructuredApi, ObjResource, Fields, create, update, gvr_eq, persistent_volume_gvr,
  persistent_volume_claim_gvr,
}
use dr.Transport.KubeApiserver.{DynamicClient, send, remove_all, prepare_transport_when_creating}

abbrev pub uid_path : List String
uid_path = "metadata" ∷ "uid" ∷ []

abbrev pub version_path : List String
version_path = "metadata" ∷ "resourceVersion" ∷ []

abbrev pub claim_version : List String
claim_version = "spec" ∷ "claimRef" ∷ "resourceVersion" ∷ []

abbrev pub claim_uid : List String
claim_uid = "spec" ∷ "claimRef" ∷ "uid" ∷ []

abbrev pub bind_completed : List String
bind_completed = "metadata" ∷ "annotations" ∷ "pv.kubernetes.io/bind-completed" ∷ []

abbrev pub bound_by_controller : List String
bound_by_controller = "metadata" ∷ "annotations" ∷ "pv.kubernetes.io/bound-by-controller" ∷ []

-- RemoveNestedField and the getters, as documented: a removed identifier reads as "", and the
-- removal of another field brings none back.
pub record RemovesIdentity (u : UnstructuredApi) : Type 0 where
  pub uid_removed : (m : Fields) → u.get_uid (u.remove_nested_field m uid_path) ≡ ""
  pub version_removed :
      (m : Fields) → u.get_resource_version (u.remove_nested_field m version_path) ≡ ""
  pub uid_kept :
      (m : Fields) (path : List String)
      → u.get_uid m ≡ ""
      → u.get_uid (u.remove_nested_field m path) ≡ ""
  pub version_kept :
      (m : Fields) (path : List String)
      → u.get_resource_version m ≡ ""
      → u.get_resource_version (u.remove_nested_field m path) ≡ ""

abbrev pub HasNoIdentity : UnstructuredApi → Fields → Type 0
HasNoIdentity u m = (u.get_uid m ≡ "") × (u.get_resource_version m ≡ "")

module _ (u : UnstructuredApi) (L : RemovesIdentity u) where
  remove_all-HasNoIdentity :
      (paths : List (List String)) (m : Fields)
      → HasNoIdentity u m
      → HasNoIdentity u (remove_all u paths m)
  unfolding remove_all
  remove_all-HasNoIdentity [] m h = h
  remove_all-HasNoIdentity (path ∷ paths) m (i, v) =
      remove_all-HasNoIdentity paths (u.remove_nested_field m path)
        (L.uid_kept m path i, L.version_kept m path v)

  kept_if :
      (b : Bool) (paths : List (List String)) (m : Fields)
      → HasNoIdentity u m
      → HasNoIdentity u (if b then remove_all u paths m else m)
  kept_if true paths m h = remove_all-HasNoIdentity paths m h
  kept_if false paths m h = h

  -- With an API that removes fields as documented, an object that is prepared to be created carries
  -- neither a UID nor a resource version, whatever its resource.
  pub prepare_transport_when_creating-HasNoIdentity :
      (objr : ObjResource) → HasNoIdentity u (prepare_transport_when_creating u objr).unstructured
  unfolding prepare_transport_when_creating
  prepare_transport_when_creating-HasNoIdentity objr =
      let m = u.remove_nested_field objr.unstructured version_path in
      kept_if (gvr_eq objr.gvr persistent_volume_claim_gvr)
        (bind_completed ∷ bound_by_controller ∷ []) _
        (kept_if (gvr_eq objr.gvr persistent_volume_gvr)
          (claim_version ∷ claim_uid ∷ bind_completed ∷ []) _
          (L.uid_removed m, L.version_kept m uid_path (L.version_removed objr.unstructured)))

module _ {ℓ} (u : UnstructuredApi) {R : Type ℓ} (client : DynamicClient R) where
  abbrev pub lookup_remote : ObjResource → R → Result Fields
  lookup_remote objr remote =
      client.get objr.gvr (u.get_namespace objr.unstructured) (u.get_name objr.unstructured) remote

  -- An update of an object that the other cluster does not have is its creation: the same state
  -- of the other cluster, and the same answer.
  pub send_update_missing :
      (objr : ObjResource) (remote : R) (e : Error)
      → objr.action ≡ update
      → lookup_remote objr remote ≡ err e
      → client.is_not_found e ≡ true
      → send u client objr remote ≡ send u client (record objr { action = create }) remote
  unfolding send prepare_transport_when_creating
  send_update_missing objr remote e act missing nf = ground arith
