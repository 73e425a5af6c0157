-- ===== src/Tests/RecoveryTests.antt =====
-- One run of each theorem on what a cluster of one text for each object ends with.
use dr.Base.{
  ◌∙◌, All-Any, ◌≡◌, refl, sym, arith, ℕ, String, false, List, [], ◌∷◌, none, some, failure, Any,
  All,
}
use mathlib.Core.Path.{subst}
use dr.Base.Dict.{lookup, insert}
use dr.Base.Int.{ltℤ}
use dr.Base.Text.{contains, atoi, join}
use dr.Api.{create, update, delete, ObjResource, Fields, field, str, get, put}
use dr.Transport.{
  is_new_version, mark_as_successed, settle, transport_round, kube_transporter, kube_transport,
  send, send_create, prepare_transport_when_creating, remove_all,
}
use dr.Transport.Drain.{drain}
use dr.Transport.Effects.{Holds, place_of}
use dr.Transport.Replica.{IsHistory}
use dr.Transport.Recreated.{drain_recreated}
use dr.Transport.Recovery.{Queued, IsRecovered, drain_marked-Holds, drain-IsRecovered}
use dr.Tests.Fixtures.{docs, drop, text_at, document, resource_of}
use dr.Tests.TransportTests.{api_settings, pair_settings}
use dr.Tests.Clusters.{
  Cluster, holding, view, content, cluster, connect, cluster-IsConnected, cluster-StoresContent,
  cluster-AnswersReads,
}

abbrev colour : String → String → Fields
colour s version = field "data" (str s) (document "ConfigMap" "shop" "settings" "u1" version)

abbrev made_red : ObjResource
made_red = resource_of (colour "red" "7") "configmaps" create

abbrev now_blue : ObjResource
now_blue = resource_of (colour "blue" "9") "configmaps" update

abbrev gone : ObjResource
gone = resource_of (colour "blue" "11") "configmaps" delete

abbrev changes : List ObjResource
changes = now_blue ∷ made_red ∷ []

-- Each queued object has the one UID, only version 7 is a creation, and none is below it.
abbrev IsChange : ObjResource → Type 0
IsChange o =
    (docs.get_uid o.unstructured ≡ "u1")
    × (o.action ≡ create → docs.get_resource_version o.unstructured ≡ "7")
    × (ltℤ (atoi (docs.get_resource_version o.unstructured)).0 (atoi "7").0 ≡ false)

-- With a deletion of the object as its newest state.
abbrev until_gone : List ObjResource
until_gone = gone ∷ changes

changes-IsChange : All IsChange changes
unfolding text_at get atoi
changes-IsChange = ((refl, λ e. absurd (cc e), refl), ((refl, λ e. refl, refl), tt))

history : (queue : List ObjResource) → All IsChange queue → IsHistory docs (Queued queue)
history queue all =
    let change = λ (o : ObjResource) (m : Queued queue o). All-Any IsChange queue o all m in
    record {
      owned = λ o p m k e. (change o m).0 ∙ sym (change p k).0;
      created_first = λ o p m k act same.
          subst (λ v. ltℤ (atoi (docs.get_resource_version p.unstructured)).0 (atoi v).0 ≡ false)
            (sym ((change o m).1 act)) (change p k).2;
    }

until_gone-IsChange : All IsChange until_gone
unfolding text_at get atoi
until_gone-IsChange = ((refl, λ e. absurd (cc e), refl), changes-IsChange)

abbrev empty : Cluster
empty = record { busy = 2; texts = λ p. none }

drain_marked-Holds_example :
    (o : ObjResource) × Queued changes o
    × (docs.get_uid o.unstructured ≡ "u1")
    × (docs.get_resource_version o.unstructured ≡ "9")
    × Holds docs view content
        (drain docs (kube_transporter docs connect (some pair_settings)) 3 changes [] empty).remote
        o
unfolding drain transport_round is_new_version mark_as_successed settle lookup insert contains atoi
    text_at get drop put join kube_transport send
drain_marked-Holds_example =
    drain_marked-Holds docs view content connect pair_settings cluster cluster-IsConnected changes
      (history changes changes-IsChange) empty (λ o m act. refl) 3 "u1" "9" refl

drain-IsRecovered_example :
    IsRecovered docs view content until_gone
      (drain docs (kube_transporter docs connect (some pair_settings)) 5 until_gone [] empty).remote
      made_red
drain-IsRecovered_example =
    drain-IsRecovered docs view content connect pair_settings cluster cluster-IsConnected until_gone
      (history until_gone until_gone-IsChange) empty (λ o m act. refl) (λ d. d.busy)
      cluster-AnswersReads 5 made_red (omega arith) (tt, (tt, (tt, tt)))
      (Any.there (Any.there (Any.here refl)))

abbrev removed_old : ObjResource
removed_old = resource_of (document "ConfigMap" "shop" "settings" "u0" "8") "configmaps" delete

abbrev full : ℕ → Cluster
full n = record { busy = n; texts = λ p. some "red" }

drain_recreated_example :
    let d =
      drain docs
        (kube_transporter docs connect (some pair_settings))
        3
        (removed_old ∷ made_red ∷ [])
        []
        (full 1) in
    (d.queue ≡ [])
    × (lookup "u1" d.versions ≡ some "7")
    × (view d.remote (place_of docs made_red) ≡ none)
unfolding is_new_version lookup contains send_create prepare_transport_when_creating text_at get
    drop join remove_all
drain_recreated_example =
    drain_recreated docs view content cluster cluster-StoresContent connect pair_settings
      api_settings refl refl removed_old made_red [] (full 1) (full 0) (full 0)
      (holding (full 0) (place_of docs removed_old) none) (failure "busy")
      (failure "already exists") refl refl refl refl refl refl refl refl refl refl refl 0
