-- ===== src/Lifecycle/Started.antt =====
-- A started worker as the system of Worker/System: objEnqueue as events, and the first state.
use dr.Base.{◌≡◌, List, [], ◌∷◌, ◌++◌, Result, ok, err, panic}
use dr.Api.{UnstructuredApi, ObjResource}
use dr.Filter.{Filter}
use dr.Transport.{Transporter}
use dr.Worker.{ClusterReader}
use dr.Worker.System.{System, Step, Run}
use dr.Controller.{Worker}
use dr.Lifecycle.Parts.{DependencyWorker, new_dependency_worker, obj_enqueue}

-- What a worker and its transport manager hold when they start.
abbrev pub started {ℓ} : {R : Type ℓ} → DependencyWorker → R → System R
started dnw remote = record {
  queue = dnw.obj_queue;
  outgoing = [];
  waited = dnw.dependencies;
  versions = [];
  remote = remote;
}

module _ {ℓ} (u : UnstructuredApi) (filters : List Filter) {R : Type ℓ} (t : Transporter R)
    (dnw : DependencyWorker) where
  -- objEnqueue is a sequence of events, one for each object that it receives, in their order.
  pub Run-obj_enqueue :
      {a : System R} (events : List ObjResource) (s : System R)
      → Run u dnw.worker.namespace filters t a s
      → Run u dnw.worker.namespace filters t a (record s { queue = obj_enqueue events s.queue })
  unfolding obj_enqueue
  Run-obj_enqueue [] s r = r
  Run-obj_enqueue (objr ∷ events) s r =
      Run-obj_enqueue events (record s { queue = s.queue ++ (objr ∷ []) })
        (Run.next r (Step.event objr))

  started_empty :
      (connected : Result ClusterReader) (w : Worker)
      → new_dependency_worker connected w ≡ ok dnw
      → (dnw.obj_queue ≡ []) × (dnw.dependencies ≡ [])
  unfolding new_dependency_worker
  started_empty (ok client) w h = (cc h, cc h)
  started_empty (err e) w h = absurd (cc h)
  started_empty panic w h = absurd (cc h)
