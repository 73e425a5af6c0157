-- ===== src/Transport/Stores.antt =====
-- What a send of kubeapiserver/transporter.go does to the objects that the other cluster holds.
use dr.Base.{
  ◌≡◌, ◌≢◌, refl, ◌∙◌, String, Bool, true, false, List, [], ◌∷◌, Option, none, some, All, Any,
  Error, ok, err, message, if◌then◌else◌,
}
use dr.Base.Text.{contains}
use dr.Api.{
  UnstructuredApi, ObjResource, Fields, Value, str, GroupVersionResource, gvr_eq,
  persistent_volume_gvr, persistent_volume_claim_gvr,
}
use dr.Transport.KubeApiserver.{
  DynamicClient, remove_all, prepare_transport_when_creating, prepare_transport_when_updating,
}
use dr.Transport.Remote.{
  uid_path, version_path, claim_version, claim_uid, bind_completed, bound_by_controller,
}
use dr.Transport.Patience.{IsRetried}

-- Where a cluster keeps an object.
pub record Place : Type 0 where
  pub gvr : GroupVersionResource
  pub namespace : String
  pub name : String

-- The fields that the transporter takes from an object, or overwrites with those of the other side.
abbrev pub identity_paths : List (List String)
identity_paths =
    version_path ∷ uid_path ∷ claim_version ∷ claim_uid ∷ bind_completed ∷ bound_by_controller ∷ []

abbrev pub IsIdentity : List String → Type 0
IsIdentity path = Any (λ p. p ≡ path) identity_paths

-- What is read of an object does not depend on those fields.
pub record IgnoresIdentity {κ} (u : UnstructuredApi) {V : Type κ} (read : Fields → V) : Type κ where
  pub removed :
      (m : Fields) (path : List String)
      → IsIdentity path
      → read (u.remove_nested_field m path) ≡ read m
  pub overwritten :
      (m : Fields) (v : Value) (path : List String)
      → IsIdentity path
      → read (u.set_nested_field m v path).0 ≡ read m
  pub versioned : (m : Fields) (s : String) → read (u.set_resource_version m s) ≡ read m
  pub identified : (m : Fields) (s : String) → read (u.set_uid m s) ≡ read m

version-IsIdentity : IsIdentity version_path
version-IsIdentity = Any.here refl

uid-IsIdentity : IsIdentity uid_path
uid-IsIdentity = Any.there (Any.here refl)

claim_version-IsIdentity : IsIdentity claim_version
claim_version-IsIdentity = Any.there (Any.there (Any.here refl))

claim_uid-IsIdentity : IsIdentity claim_uid
claim_uid-IsIdentity = Any.there (Any.there (Any.there (Any.here refl)))

completed-IsIdentity : IsIdentity bind_completed
completed-IsIdentity = Any.there (Any.there (Any.there (Any.there (Any.here refl))))

bound-IsIdentity : IsIdentity bound_by_controller
bound-IsIdentity = Any.there (Any.there (Any.there (Any.there (Any.there (Any.here refl)))))

module _ {κ} (u : UnstructuredApi) {V : Type κ} (read : Fields → V)
    (L : IgnoresIdentity u read) where
  read_if : (b : Bool) (m m' : Fields) → read m' ≡ read m → read (if b then m' else m) ≡ read m
  read_if true m m' e = e
  read_if false m m' e = refl

  read-remove_all :
      (paths : List (List String)) (m : Fields)
      → All IsIdentity paths
      → read (remove_all u paths m) ≡ read m
  unfolding remove_all
  read-remove_all [] m h = refl
  read-remove_all (path ∷ paths) m (i, h) =
      read-remove_all paths (u.remove_nested_field m path) h ∙ L.removed m path i

  pub read-prepare_transport_when_creating :
      (objr : ObjResource)
      → read (prepare_transport_when_creating u objr).unstructured ≡ read objr.unstructured
  unfolding prepare_transport_when_creating
  read-prepare_transport_when_creating objr =
      let m0 = remove_all u (version_path ∷ uid_path ∷ []) objr.unstructured in
      let volume = claim_version ∷ claim_uid ∷ bind_completed ∷ [] in
      let m1 = if gvr_eq objr.gvr persistent_volume_gvr then remove_all u volume m0 else m0 in
      let claim = bind_completed ∷ bound_by_controller ∷ [] in
      read_if (gvr_eq objr.gvr persistent_volume_claim_gvr) m1 (remove_all u claim m1)
        (read-remove_all claim m1 (completed-IsIdentity, (bound-IsIdentity, tt)))
      ∙ (read_if (gvr_eq objr.gvr persistent_volume_gvr) m0 (remove_all u volume m0) (
            read-remove_all volume m0
              (claim_version-IsIdentity, (claim_uid-IsIdentity, (completed-IsIdentity, tt))))
          ∙ read-remove_all (version_path ∷ uid_path ∷ []) objr.unstructured
              (version-IsIdentity, (uid-IsIdentity, tt)))

  pub read-prepare_transport_when_updating :
      (objr : ObjResource) (original : Fields)
      → read (prepare_transport_when_updating u objr original).unstructured ≡ read objr.unstructured
  unfolding prepare_transport_when_updating
  read-prepare_transport_when_updating objr original =
      let m0 = u.set_resource_version objr.unstructured (u.get_resource_version original) in
      let m1 = u.set_uid m0 (u.get_uid original) in
      let m2 =
        (u.set_nested_field m1 (str (u.nested_string original claim_version).value)
          claim_version).0 in
      let m3 =
        (u.set_nested_field m2 (str (u.nested_string original claim_uid).value) claim_uid).0 in
      read_if (gvr_eq objr.gvr persistent_volume_gvr) m1 m3 (
        L.overwritten m2 _ claim_uid claim_uid-IsIdentity
        ∙ L.overwritten m1 _ claim_version claim_version-IsIdentity)
      ∙ (L.identified m0 _ ∙ L.versioned objr.unstructured _)

-- The other cluster seen as a map from places to contents, and what is documented of its API server
-- and of merge patches: a request that succeeds changes one place, one that fails changes none,
-- only a creation is refused because the object exists, and a patch makes the object it was made for.
module _ {ℓ κ} {R : Type ℓ} {C : Type κ} (view : R → Place → Option C) where
  abbrev pub Keeps : R → R → Type κ
  Keeps remote after = (q : Place) → view after q ≡ view remote q

  pub record Sets (p : Place) (c : Option C) (remote after : R) : Type κ where
    pub there : view after p ≡ c
    pub elsewhere : (q : Place) → q ≢ p → view after q ≡ view remote q

  pub record StoresContent (u : UnstructuredApi) (client : DynamicClient R) (content : Fields → C)
      : Type (ℓ ⊔ κ) where
    pub found :
        (p : Place) (remote : R) (m : Fields)
        → client.get p.gvr p.namespace p.name remote ≡ ok m
        → view remote p ≡ some (content m)
    pub missing :
        (p : Place) (remote : R) (e : Error)
        → client.get p.gvr p.namespace p.name remote ≡ err e
        → client.is_not_found e ≡ true
        → view remote p ≡ none
    pub created :
        (gvr : GroupVersionResource) (m : Fields) (remote : R)
        → (client.create gvr (u.get_namespace m) m remote).1 ≡ none
        → Sets
            (record { gvr = gvr; namespace = u.get_namespace m; name = u.get_name m })
            (some (content m))
            remote
            (client.create gvr (u.get_namespace m) m remote).0
    pub not_created :
        (gvr : GroupVersionResource) (m : Fields) (remote : R) (e : Error)
        → (client.create gvr (u.get_namespace m) m remote).1 ≡ some e
        → Keeps remote (client.create gvr (u.get_namespace m) m remote).0
    pub exists :
        (gvr : GroupVersionResource) (m : Fields) (remote : R) (e : Error)
        → (client.create gvr (u.get_namespace m) m remote).1 ≡ some e
        → contains (message e) "already exists" ≡ true
        → view remote (record { gvr = gvr; namespace = u.get_namespace m; name = u.get_name m })
          ≢ none
    pub patched :
        (p : Place) (original m : Fields) (bytes : String) (remote : R)
        → client.get p.gvr p.namespace p.name remote ≡ ok original
        → client.patch_data original m ≡ ok bytes
        → (client.patch p.gvr p.namespace p.name bytes remote).1 ≡ none
        → Sets p (some (content m)) remote (client.patch p.gvr p.namespace p.name bytes remote).0
    pub not_patched :
        (p : Place) (bytes : String) (remote : R) (e : Error)
        → (client.patch p.gvr p.namespace p.name bytes remote).1 ≡ some e
        → IsRetried e × Keeps remote (client.patch p.gvr p.namespace p.name bytes remote).0
    pub deleted :
        (p : Place) (remote : R)
        → (client.delete p.gvr p.namespace p.name remote).1 ≡ none
        → Sets p none remote (client.delete p.gvr p.namespace p.name remote).0
    pub not_deleted :
        (p : Place) (remote : R) (e : Error)
        → (client.delete p.gvr p.namespace p.name remote).1 ≡ some e
        → IsRetried e × Keeps remote (client.delete p.gvr p.namespace p.name remote).0
    pub computed : (original m : Fields) (e : Error) → client.patch_data original m ≢ err e
