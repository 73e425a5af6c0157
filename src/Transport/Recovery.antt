-- ===== src/Transport/Recovery.antt =====
-- The transport manager and its transporter for API servers bring the other cluster to the newest
-- state of each object.
use dr.Base.{
  ◌≡◌, ℕ, ◌+◌, ◌≤◌, String, List, [], Option, none, some, Result, ok, Option-cases, inl, inr,
  length, All, Any, All-Any, All-self,
}
use dr.Base.Dict.{lookup}
use dr.Api.{
  UnstructuredApi, ObjResource, create, Fields, PairClusterSettings, KubeApiServerSettings,
}
use dr.Transport.KubeApiserver.{DynamicClient, RestConfig, client_config, kube_transporter}
use dr.Transport.Versions.{NotBelow}
use dr.Transport.Stores.{Place, IgnoresIdentity, StoresContent}
use dr.Transport.Effects.{place_of, Holds, kube_transport-Effect}
use dr.Transport.Replica.{IsHistory, Replicates, drain-Replicates}
use dr.Transport.Highest.{drain-IsHighest}
use dr.Transport.Patience.{AnswersReads, kube_transporter-RefusesAtMost}
use dr.Transport.Drain.{drain, IsSent, drain-IsDelivered}

abbrev pub Queued : List ObjResource → ObjResource → Type 0
Queued queue o = Any (λ q. q ≡ o) queue

module _ {ℓ κ} (u : UnstructuredApi) {R : Type ℓ} {C : Type κ} (view : R → Place → Option C)
    (content : Fields → C) where
  -- The newest of the queued objects with the UID of `o` is what the other cluster holds.
  pub record IsRecovered (queue : List ObjResource) (remote : R) (o : ObjResource) : Type κ where
    pub newest : ObjResource
    pub queued : Queued queue newest
    pub same : u.get_uid newest.unstructured ≡ u.get_uid o.unstructured
    pub highest :
        All
          (λ q.
            u.get_uid q.unstructured ≡ u.get_uid o.unstructured
            → NotBelow
                (some (u.get_resource_version q.unstructured))
                (some (u.get_resource_version newest.unstructured)))
          queue
    pub held : Holds u view content remote newest

  -- What is assumed of the settings, the client and the objects.
  pub record IsConnected (new_for_config : RestConfig → Result (DynamicClient R))
      (s : PairClusterSettings) (client : DynamicClient R) : Type (ℓ ⊔ κ) where
    pub settings : KubeApiServerSettings
    pub has : s.kube_apiserver_transportor_setting ≡ some settings
    pub made : new_for_config (client_config settings) ≡ ok client
    pub stores : StoresContent view u client content
    pub name_ignores : IgnoresIdentity u u.get_name
    pub namespace_ignores : IgnoresIdentity u u.get_namespace
    pub content_ignores : IgnoresIdentity u content

  module _ (new_for_config : RestConfig → Result (DynamicClient R)) (s : PairClusterSettings)
      (client : DynamicClient R) (K : IsConnected new_for_config s client)
      (queue : List ObjResource) (H : IsHistory u (Queued queue)) (remote : R)
      (absent : (o : ObjResource)
        → Queued queue o
        → o.action ≡ create
        → view remote (place_of u o) ≡ none) where
    drained-Replicates :
        (n : ℕ)
        → let d = drain u (kube_transporter u new_for_config (some s)) n queue [] remote in
          Replicates u view content
            (Queued queue)
            H
            (λ _ _. Unit {0})
            (λ versions objr o h. h)
            d.versions
            d.remote
    unfolding lookup
    drained-Replicates n =
        drain-Replicates u view content (Queued queue) H (λ _ _. Unit {0}) (λ versions objr o h. h)
          (kube_transporter u new_for_config (some s))
          (kube_transport-Effect u view content K.name_ignores K.namespace_ignores K.content_ignores
            client K.stores new_for_config s K.settings K.has K.made)
          n queue [] remote (λ seen o. tt) (All-self queue)
          (record { unsent = λ o m e act. absent o m act; sent = λ uid v e. absurd (cc e) })

    -- With a server that stores what it accepts, and a queue of one UID for each place in which no
    -- object is created with a version above another of its UID, where nothing is marked and what
    -- is to be created is not there yet: after any number of rounds, whatever is refused or read in
    -- vain, each version that is marked is that of a queued object which the other cluster holds,
    -- or does not hold any more if the object was deleted.
    pub drain_marked-Holds :
        (n : ℕ) (uid v : String)
        → let d = drain u (kube_transporter u new_for_config (some s)) n queue [] remote in
          lookup uid d.versions ≡ some v
          → (o : ObjResource) × Queued queue o
            × (u.get_uid o.unstructured ≡ uid)
            × (u.get_resource_version o.unstructured ≡ v)
            × Holds u view content d.remote o
    drain_marked-Holds n uid v marked =
        let (o, m, same, mine, _, holds) = (drained-Replicates n).sent uid v marked in
        (o, m, same, mine, holds)

    -- With such a server and queue, where the server also answers each read of an object with the
    -- object or with the error that it is not there, where it answers the deletions of sendable
    -- objects and the queue has no others, and where `budget` bounds how often it still refuses
    -- with an error that the manager tries again after, also the deletion of what is not there:
    -- after as many rounds as there are queued objects and refusals the other cluster holds for
    -- each queued object the newest of those with its UID, or does not hold it any more if that is
    -- a deletion.
    pub drain-IsRecovered :
        {Sendable : ObjResource → Type 0} (budget : R → ℕ)
        → AnswersReads u client Sendable budget
        → (n : ℕ) (o : ObjResource) → length queue + budget remote ≤ n
        → All Sendable queue
        → Queued queue o
        → IsRecovered queue
            (drain u (kube_transporter u new_for_config (some s)) n queue [] remote).remote
            o
    drain-IsRecovered budget L n o enough all m =
        let t = kube_transporter u new_for_config (some s) in
        let d = drain u t n queue [] remote in
        let F =
          kube_transporter-RefusesAtMost u new_for_config s K.settings client budget K.has K.made
            L in
        let sent =
          All-Any (IsSent u t d.versions) queue o
            (drain-IsDelivered u t budget F n queue [] remote enough all).delivered m in
        elim (Option-cases (lookup (u.get_uid o.unstructured) d.versions)) [
          | inl none_yet ↦ absurd (rw none_yet at sent)
          | inr (v, e) ↦
              let (p, k, same, mine, _, held) =
                (drained-Replicates n).sent (u.get_uid o.unstructured) v e in
              let h =
                drain-IsHighest u t budget F n queue remote (u.get_uid o.unstructured) v enough all
                  e in
              record {
                newest = p;
                queued = k;
                same = same;
                highest = rw mine h.highest;
                held = held;
              }
        ]
