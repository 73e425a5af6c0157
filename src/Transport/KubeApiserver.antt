-- ===== src/Transport/KubeApiserver.antt =====
-- kubeapiserver/transporter.go. The dynamic client of the other cluster is a parameter over that
-- cluster's state.
use dr.Base.Int.{ℤ}
use dr.Base.{
  String, Bool, true, Option, none, some, List, [], ◌∷◌, Result, Error, ok, err, panic, failure,
  if◌then◌else◌,
}
use dr.Api.{
  UnstructuredApi, ObjResource, PairClusterSettings, KubeApiServerSettings, GroupVersionResource,
  Fields, str, gvr_eq, persistent_volume_gvr, persistent_volume_claim_gvr, create, update, delete,
  other_action,
}
use dr.Transport.Manager.{Transporter}

-- k8s.io/client-go/dynamic with its `errors.IsNotFound`, and MergeFrom of the controller runtime:
-- `patch_data` is the patch from the original to the object.
pub record DynamicClient {ℓ} (R : Type ℓ) : Type ℓ where
  pub create : GroupVersionResource → String → Fields → R → R × Option Error
  pub get : GroupVersionResource → String → String → R → Result Fields
  pub patch : GroupVersionResource → String → String → String → R → R × Option Error
  pub delete : GroupVersionResource → String → String → R → R × Option Error
  pub patch_data : Fields → Fields → Result String
  pub is_not_found : Error → Bool

-- `float32` of a Go integer, known by the integer.
pub data Float32 : Type 0 where
  float32 : ℤ → Float32

-- The fields of rest.Config that the transporter sets.
pub record RestConfig : Type 0 where
  pub host : String
  pub insecure : Bool
  pub key_data : String
  pub cert_data : String
  pub qps : Float32
  pub burst : ℤ

unfoldable pub client_config : KubeApiServerSettings → RestConfig
client_config s = record {
  host = s.kube_api_server_host;
  insecure = true;
  key_data = s.key_data;
  cert_data = s.cert_data;
  qps = float32 s.qps;
  burst = s.burst;
}

abbrev pub returned {ℓ} : {R : Type ℓ} → R × Option Error → R × Result (Unit {0})
returned (r, none) = (r, ok tt)
returned (r, some e) = (r, err e)

module _ (u : UnstructuredApi) where
  unfoldable pub remove_all : List (List String) → Fields → Fields
  remove_all [] m = m
  remove_all (path ∷ paths) m = remove_all paths (u.remove_nested_field m path)

  unfoldable pub prepare_transport_when_creating : ObjResource → ObjResource
  unfolding remove_all
  prepare_transport_when_creating objr =
      let m0 =
        remove_all (("metadata" ∷ "resourceVersion" ∷ []) ∷ ("metadata" ∷ "uid" ∷ []) ∷ [])
          objr.unstructured in
      let m1 =
        if gvr_eq objr.gvr persistent_volume_gvr
        then remove_all
            (("spec" ∷ "claimRef" ∷ "resourceVersion" ∷ [])
              ∷ ("spec" ∷ "claimRef" ∷ "uid" ∷ [])
              ∷ ("metadata" ∷ "annotations" ∷ "pv.kubernetes.io/bind-completed" ∷ [])
              ∷ [])
            m0
        else m0 in
      let m2 =
        if gvr_eq objr.gvr persistent_volume_claim_gvr
        then remove_all
            (("metadata" ∷ "annotations" ∷ "pv.kubernetes.io/bind-completed" ∷ [])
              ∷ ("metadata" ∷ "annotations" ∷ "pv.kubernetes.io/bound-by-controller" ∷ [])
              ∷ [])
            m1
        else m1 in
      record objr { unstructured = m2 }

  -- The error of SetNestedField is dropped.
  copy_string : List String → Fields → Fields → Fields
  copy_string path original m =
      (u.set_nested_field m (str (u.nested_string original path).value) path).0

  unfoldable pub prepare_transport_when_updating : ObjResource → Fields → ObjResource
  unfolding copy_string
  prepare_transport_when_updating objr original =
      let m0 = u.set_resource_version objr.unstructured (u.get_resource_version original) in
      let m1 = u.set_uid m0 (u.get_uid original) in
      let m2 = copy_string ("spec" ∷ "claimRef" ∷ "resourceVersion" ∷ []) original m1 in
      let m3 = copy_string ("spec" ∷ "claimRef" ∷ "uid" ∷ []) original m2 in
      record objr { unstructured = if gvr_eq objr.gvr persistent_volume_gvr then m3 else m1 }

  -- prepareTransport, which nothing calls.
  unfoldable pub prepare_transport : ObjResource → Fields → ObjResource
  unfolding remove_all copy_string
  prepare_transport objr original =
      let is_volume = gvr_eq objr.gvr persistent_volume_gvr in
      elim objr.action [
        | create ↦
            let m =
              remove_all (("metadata" ∷ "resourceVersion" ∷ []) ∷ ("metadata" ∷ "uid" ∷ []) ∷ [])
                objr.unstructured in
            let volume =
              remove_all
                (("spec" ∷ "claimRef" ∷ "resourceVersion" ∷ [])
                  ∷ ("spec" ∷ "claimRef" ∷ "uid" ∷ [])
                  ∷ [])
                m in
            record objr { unstructured = if is_volume then volume else m }
        | update ↦
            let m0 = u.set_resource_version objr.unstructured (u.get_resource_version original) in
            let m1 = u.set_uid m0 (u.get_uid original) in
            let m2 = copy_string ("spec" ∷ "claimRef" ∷ "resourceVersion" ∷ []) original m1 in
            let m3 = copy_string ("spec" ∷ "claimRef" ∷ "uid" ∷ []) original m2 in
            record objr { unstructured = if is_volume then m3 else m1 }
        | delete ↦ objr
        | other_action _ ↦ objr
      ]

  module _ {ℓ} {R : Type ℓ} (client : DynamicClient R) where
    unfoldable pub send_create : ObjResource → R → R × Result (Unit {0})
    send_create objr remote =
        let prepared = prepare_transport_when_creating objr in
        returned (
          client.create prepared.gvr (u.get_namespace prepared.unstructured) prepared.unstructured
            remote)

    -- A patch that cannot be built ends in `return err`, where `err` is still nil.
    unfoldable pub send_patch : ObjResource → Fields → R → R × Result (Unit {0})
    send_patch objr original remote =
        let prepared = prepare_transport_when_updating objr original in
        let m = prepared.unstructured in
        elim (client.patch_data original m) [
          | ok bytes ↦
              returned (client.patch prepared.gvr (u.get_namespace m) (u.get_name m) bytes remote)
          | err _ ↦ (remote, ok tt)
          | panic ↦ (remote, panic)
        ]

    -- Only a missing object is told apart. On any other error the original is a nil pointer, and
    -- prepareTransportWhenUpdating reads through it.
    unfoldable pub send_update : ObjResource → R → R × Result (Unit {0})
    send_update objr remote =
        let m = objr.unstructured in
        elim (client.get objr.gvr (u.get_namespace m) (u.get_name m) remote) [
          | ok original ↦ send_patch objr original remote
          | err e ↦ if client.is_not_found e then send_create objr remote else (remote, panic)
          | panic ↦ (remote, panic)
        ]

    unfoldable pub send_delete : ObjResource → R → R × Result (Unit {0})
    send_delete objr remote =
        let m = objr.unstructured in
        returned (client.delete objr.gvr (u.get_namespace m) (u.get_name m) remote)

    unfoldable pub send : ObjResource → R → R × Result (Unit {0})
    unfolding send_create send_patch send_update send_delete
    send objr remote = elim objr.action [
      | create ↦ send_create objr remote
      | update ↦ send_update objr remote
      | delete ↦ send_delete objr remote
      | other_action _ ↦ (remote, ok tt)
    ]

-- Transport. `new_for_config` is dynamic.NewForConfig: the client for a configuration, or an error.
module _ {ℓ} (u : UnstructuredApi) {R : Type ℓ}
    (new_for_config : RestConfig → Result (DynamicClient R)) where
  unfoldable pub kube_transport :
      Option PairClusterSettings → ObjResource → R → R × Result (Unit {0})
  kube_transport settings objr remote = elim settings [
    | none ↦ (remote, err (failure "PairClusterSettings not set"))
    | some s ↦ elim s.kube_apiserver_transportor_setting [
      | none ↦ (remote, panic)
      | some k ↦ elim (new_for_config (client_config k)) [
        | ok client ↦ send u client objr remote
        | err e ↦ (remote, err e)
        | panic ↦ (remote, panic)
      ]
    ]
  ]

  -- The transporter with the settings that SetConfig stored last.
  abbrev pub kube_transporter : Option PairClusterSettings → Transporter R
  kube_transporter settings = record { transport = kube_transport settings }
