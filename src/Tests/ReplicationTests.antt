-- ===== src/Tests/ReplicationTests.antt =====
-- A run of a worker, its transport manager and a cluster that stores one text of each object: a claim
-- waits for its volume, and both are sent.
use mathlib.Core.Bool.{false≢true}
use dr.Base.{
  ok, err, failure, if◌then◌else◌, eq_iff, String, ◌≡◌, ◌≢◌, sym, refl, false, List, [], ◌∷◌, none,
  some, All, All-Any, Any,
}
use dr.Base.Int.{ltℤ}
use dr.Base.Dict.{lookup, insert}
use dr.Base.Text.{atoi, join}
use dr.Api.{persistent_volume_gvr, ObjResource, get, gvr_eq, create}
use dr.Filter.{out}
use dr.Transport.{
  Transporter, object, is_new_version, mark_as_successed, settle, transport_round, kube_transporter,
  kube_transport, send, is_resource_transported, prepare_transport_when_creating,
}
use dr.Transport.Effects.{place_of}
use dr.Transport.Replica.{IsHistory}
use dr.Transport.Recovery.{Queued}
use dr.Worker.{
  ClusterReader, run_round, filter, concerns, get_dependencies, get_object_namespace,
  get_not_transported_dependencies, pvc_dependency_check, await,
}
use dr.Worker.System.{HandedBy, IsReady, Run-IsReady, System, Step, Run, worked, sent}
use dr.Transport.Drain.{RefusesAtMost}
use dr.Transport.Patience.{kube_transporter-RefusesAtMost}
use dr.Worker.Delivery.{DependsOn}
use dr.Worker.Depth.{ReadsClaims, get_dependencies_twice}
use dr.Worker.Clearing.{Passes, IsCleared, Run-clears}
use dr.Worker.Replication.{Handles, IsCarried, Run-IsCarried}
use dr.Tests.Fixtures.{docs, text_at, drop, config_map}
use dr.Tests.TransportTests.{pair_settings, api_settings}
use dr.Tests.WorkerTests.{only_pvc, claim, volume_resource, cluster as reader}
use dr.Tests.Clusters.{
  Cluster, view, content, cluster, connect, cluster-IsConnected, IsAny, cluster-AnswersReads,
}

abbrev to_cluster : Transporter Cluster
to_cluster = kube_transporter docs connect (some pair_settings)

abbrev quiet : System Cluster
quiet = record {
  queue = [];
  outgoing = [];
  waited = [];
  versions = [];
  remote = record { busy = 0; texts = λ p. none };
}

abbrev with_event : System Cluster
with_event = record quiet { queue = claim ∷ [] }

abbrev waiting : System Cluster
waiting =
    worked docs "shop" only_pvc to_cluster with_event []
      (run_round docs reader "shop" only_pvc (object claim) [] [])

abbrev volume_out : System Cluster
volume_out =
    worked docs "shop" only_pvc to_cluster waiting (claim ∷ []) (
      run_round docs reader "shop" only_pvc (object volume_resource) waiting.versions
        waiting.waited)

abbrev volume_sent : System Cluster
volume_sent =
    sent docs "shop" only_pvc to_cluster volume_out [] (
      transport_round docs to_cluster (object volume_resource) volume_out.versions
        volume_out.remote)

abbrev claim_out : System Cluster
claim_out =
    worked docs "shop" only_pvc to_cluster volume_sent []
      (run_round docs reader "shop" only_pvc (object claim) volume_sent.versions volume_sent.waited)

abbrev claim_sent : System Cluster
claim_sent =
    sent docs "shop" only_pvc to_cluster claim_out []
      (transport_round docs to_cluster (object claim) claim_out.versions claim_out.remote)

handed_over : Run docs "shop" only_pvc to_cluster quiet claim_out
unfolding run_round filter out get_dependencies get_object_namespace text_at get gvr_eq lookup
    get_not_transported_dependencies concerns pvc_dependency_check is_resource_transported join
    await insert transport_round settle is_new_version mark_as_successed kube_transport send drop
    atoi
handed_over =
    let s1 : Run docs "shop" only_pvc to_cluster quiet with_event =
      Run.next Run.here (Step.event claim) in
    let s2 : Run docs "shop" only_pvc to_cluster quiet waiting =
      Run.next s1 (Step.work reader [] [] claim refl) in
    let s3 : Run docs "shop" only_pvc to_cluster quiet volume_out =
      Run.next s2 (Step.work reader (claim ∷ []) [] volume_resource refl) in
    let s4 : Run docs "shop" only_pvc to_cluster quiet volume_sent =
      Run.next s3 (Step.send [] [] volume_resource refl) in
    Run.next s4 (Step.work reader [] [] claim refl)

carried : Run docs "shop" only_pvc to_cluster quiet claim_sent
unfolding run_round filter out get_dependencies get_object_namespace text_at get gvr_eq lookup
    get_not_transported_dependencies concerns pvc_dependency_check is_resource_transported join
    await insert transport_round settle is_new_version mark_as_successed kube_transport send drop
    atoi
carried = Run.next handed_over (Step.send [] [] claim refl)

Run-IsReady_example :
    All
      (IsReady docs "shop" only_pvc to_cluster
        (HandedBy docs "shop" only_pvc to_cluster handed_over)
        claim_out.versions)
      claim_out.outgoing
Run-IsReady_example = Run-IsReady docs "shop" only_pvc to_cluster handed_over refl

abbrev handed : List ObjResource
handed = claim ∷ volume_resource ∷ []

-- What a history asks of a pair of objects.
abbrev Agree : ObjResource → ObjResource → Type 0
Agree o p =
    (place_of docs o ≡ place_of docs p → docs.get_uid o.unstructured ≡ docs.get_uid p.unstructured)
    × (docs.get_uid p.unstructured ≡ docs.get_uid o.unstructured
        → ltℤ (atoi (docs.get_resource_version p.unstructured)).0
            (atoi (docs.get_resource_version o.unstructured)).0
          ≡ false)

uids_apart : ◌≢◌ {A = String} "u3" "u2"
uids_apart e = false≢true ((eq_iff "u3" "u2").1 e)

handed-Agree : All (λ o. All (Agree o) handed) handed
unfolding text_at get atoi
handed-Agree = (
  ((λ e. refl, λ e. refl), ((λ e. absurd (cc e), λ e. absurd (uids_apart e)), tt)),
  (((λ e. absurd (cc e), λ e. absurd (uids_apart (sym e))), ((λ e. refl, λ e. refl), tt)), tt),
)

agree : (o p : ObjResource) → Queued handed o → Queued handed p → Agree o p
agree o p m k =
    All-Any (Agree o) handed p (All-Any (λ x. All (Agree x) handed) handed o handed-Agree m) k

handed-IsHistory : IsHistory docs (Queued handed)
handed-IsHistory = record {
  owned = λ o p m k e. (agree o p m k).0 e;
  created_first = λ o p m k act e. (agree o p m k).1 e;
}

handles :
    Handles docs "shop" only_pvc to_cluster view content (Queued handed) handed-IsHistory carried
unfolding carried handed_over run_round filter out get_dependencies get_object_namespace text_at get
    gvr_eq lookup get_not_transported_dependencies concerns pvc_dependency_check
    is_resource_transported join await insert transport_round settle is_new_version
    mark_as_successed kube_transport send drop atoi
handles = (((tt, tt), (Any.there (Any.here refl), tt)), (Any.here refl, tt))

Run-IsCarried_example :
    IsCarried docs "shop" only_pvc view content
      (Queued handed)
      (HandedBy docs "shop" only_pvc to_cluster carried)
      claim_sent.remote
      "u2"
      "3"
unfolding lookup transport_round is_new_version kube_transport send mark_as_successed insert text_at
    get gvr_eq prepare_transport_when_creating
Run-IsCarried_example =
    Run-IsCarried docs "shop" only_pvc view content (Queued handed) handed-IsHistory connect
      pair_settings cluster cluster-IsConnected carried refl refl (λ o m act. refl) handles "u2" "3"
      refl

abbrev settings_map : ObjResource
settings_map = config_map "u1" "7" create

-- A cluster that refuses once, and a claim behind another object.
abbrev crowded : System Cluster
crowded = record quiet {
  queue = settings_map ∷ claim ∷ [];
  remote = record { busy = 1; texts = λ p. none };
}

patient : RefusesAtMost docs to_cluster IsAny (λ d. d.busy)
patient =
    kube_transporter-RefusesAtMost docs connect pair_settings api_settings cluster (λ d. d.busy)
      refl refl cluster-AnswersReads

-- A cluster that has the volume alone.
abbrev one_volume : ClusterReader
one_volume = record {
  get = λ gvr ns name.
      if gvr_eq gvr persistent_volume_gvr
      then ok volume_resource.unstructured
      else err (failure "not found");
  list = λ gvr. ok [];
}

one_volume-ReadsClaims : ReadsClaims docs one_volume
unfolding gvr_eq
one_volume-ReadsClaims ns name m e = absurd (cc e)

get_dependencies_twice_example :
    All
      (λ d. get_dependencies docs one_volume (filter docs only_pvc d).0 ≡ ok [])
      (volume_resource ∷ [])
unfolding get_dependencies pvc_dependency_check gvr_eq text_at get join
get_dependencies_twice_example =
    get_dependencies_twice docs one_volume one_volume-ReadsClaims only_pvc claim
      (volume_resource ∷ []) refl

claim-DependsOn :
    DependsOn docs one_volume "shop" only_pvc to_cluster
      (λ d. d.busy)
      patient
      claim
      claim
      (volume_resource ∷ [])
unfolding filter out get_dependencies get_object_namespace text_at get gvr_eq pvc_dependency_check
    join
claim-DependsOn = record {
  ours = refl;
  ours_still = refl;
  passes = refl;
  passes_still = refl;
  written = tt;
  found = refl;
  sendable = tt;
}

volume-Passes :
    Passes docs one_volume one_volume-ReadsClaims "shop" only_pvc to_cluster
      (λ d. d.busy)
      patient
      volume_resource
unfolding filter out gvr_eq
volume-Passes = record {
  out = volume_resource;
  passes = refl;
  written = tt;
  same = refl;
  sendable = tt;
}

settings-DependsOn :
    DependsOn docs one_volume "shop" only_pvc to_cluster
      (λ d. d.busy)
      patient
      settings_map
      settings_map
      []
unfolding filter out get_dependencies get_object_namespace text_at get gvr_eq
settings-DependsOn = record {
  ours = refl;
  ours_still = refl;
  passes = refl;
  passes_still = refl;
  written = tt;
  found = refl;
  sendable = tt;
}

Run-clears_example :
    IsCleared docs one_volume one_volume-ReadsClaims "shop" only_pvc to_cluster
      (λ d. d.busy)
      patient
      crowded
      (settings_map ∷ claim ∷ [])
Run-clears_example =
    Run-clears docs one_volume one_volume-ReadsClaims "shop" only_pvc to_cluster (λ d. d.busy)
      patient (settings_map ∷ claim ∷ []) crowded refl
      (
        record { final = settings_map; dependencies = []; depends = settings-DependsOn; pass = tt },
        (
          record {
            final = claim;
            dependencies = volume_resource ∷ [];
            depends = claim-DependsOn;
            pass = (volume-Passes, tt);
          },
          tt,
        ),
      )
