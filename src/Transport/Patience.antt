-- ===== src/Transport/Patience.antt =====
-- The transporter for API servers, where the manager waits for the other side to accept an object.
use dr.Base.{
  All, ap, zero, List, [], ◌∷◌, length, ◌+◌, ◌≡◌, ◌≢◌, refl, arith, ℕ, suc, ◌≤◌, String, true,
  false, Option, none, some, Result, Error, ok, err, panic, message, Result-cases, inl, inr,
}
use dr.Base.Dict.{Dict}
use dr.Base.Text.{contains}
use dr.Api.{
  UnstructuredApi, ObjResource, ObjectAction, create, update, delete, other_action, Fields,
  GroupVersionResource, PairClusterSettings, KubeApiServerSettings,
}
use dr.Transport.Manager.{Transporter, is_new_version, transport_round, settle}
use dr.Transport.KubeApiserver.{
  DynamicClient, RestConfig, client_config, send, send_create, send_patch, send_update, send_delete,
  returned, kube_transport, kube_transporter, prepare_transport_when_updating,
}
use dr.Transport.Drain.{drain, IsDelivered, drain-IsDelivered, RefusesAtMost}

-- The error is one after which the manager tries again.
abbrev pub IsRetried : Error → Type 0
IsRetried e = contains (message e) "already exists" ≡ false

-- A request changes the state so that `budget` does not grow, and falls if it is refused.
abbrev pub Spends {ℓ} : {R : Type ℓ} → (R → ℕ) → R → R × Option Error → Type 0
Spends budget remote (after, answer) =
    (budget after ≤ budget remote)
    × ((e : Error) → answer ≡ some e → IsRetried e → suc (budget after) ≤ budget remote)

-- The API server can be read, its only error of a read is that the object is missing, and `budget`
-- bounds how often it still refuses a write, where a deletion is one of a sendable object. The
-- patch of two objects can be computed, or not.
pub record AnswersReads {ℓ} {R : Type ℓ} (u : UnstructuredApi) (client : DynamicClient R)
    (Sendable : ObjResource → Type 0) (budget : R → ℕ) : Type ℓ where
  pub creates :
      (gvr : GroupVersionResource) (ns : String) (m : Fields) (remote : R)
      → Spends budget remote (client.create gvr ns m remote)
  pub patches :
      (gvr : GroupVersionResource) (ns name bytes : String) (remote : R)
      → Spends budget remote (client.patch gvr ns name bytes remote)
  pub deletes :
      (objr : ObjResource) (remote : R)
      → Sendable objr
      → objr.action ≡ delete
      → Spends budget remote (
          client.delete objr.gvr
            (u.get_namespace objr.unstructured)
            (u.get_name objr.unstructured)
            remote)
  pub reads :
      (gvr : GroupVersionResource) (ns name : String) (remote : R)
      → client.get gvr ns name remote ≢ panic
  pub misses :
      (gvr : GroupVersionResource) (ns name : String) (remote : R) (e : Error)
      → client.get gvr ns name remote ≡ err e
      → client.is_not_found e ≡ true
  pub compares : (a b : Fields) → client.patch_data a b ≢ panic

-- What a transporter has to do with an object in a state.
pub record Answers {ℓ} {R : Type ℓ} (budget : R → ℕ) (remote : R) (a : R × Result (Unit {0}))
    : Type 0 where
  pub ends : a.1 ≢ panic
  pub kept : budget a.0 ≤ budget remote
  pub spent : (e : Error) → a.1 ≡ err e → IsRetried e → suc (budget a.0) ≤ budget remote

returned-Answers {ℓ} :
    {R : Type ℓ} (budget : R → ℕ) (remote : R) (op : R × Option Error)
    → Spends budget remote op
    → Answers budget remote (returned op)
returned-Answers budget remote (after, none) (k, _) = record {
  ends = λ e. cc e;
  kept = k;
  spent = λ e h. absurd (cc h);
}
returned-Answers budget remote (after, some x) (k, s) = record {
  ends = λ e. cc e;
  kept = k;
  spent = λ e h. s e (cc h);
}

module _ {ℓ} (u : UnstructuredApi) {R : Type ℓ} (client : DynamicClient R)
    {Sendable : ObjResource → Type 0} (budget : R → ℕ)
    (L : AnswersReads u client Sendable budget) where
  idle-Answers : (remote : R) → Answers budget remote (remote, ok tt)
  idle-Answers remote = record {
    ends = λ e. cc e;
    kept = omega arith;
    spent = λ e h. absurd (cc h);
  }

  create-Answers :
      (objr : ObjResource) (remote : R) → Answers budget remote (send_create u client objr remote)
  unfolding send_create
  create-Answers objr remote = returned-Answers budget remote _ (L.creates _ _ _ remote)

  delete-Answers :
      (objr : ObjResource) (remote : R)
      → Sendable objr
      → objr.action ≡ delete
      → Answers budget remote (send_delete u client objr remote)
  unfolding send_delete
  delete-Answers objr remote m e = returned-Answers budget remote _ (L.deletes objr remote m e)

  patch-Answers :
      (objr : ObjResource) (original : Fields) (remote : R)
      → Answers budget remote (send_patch u client objr original remote)
  unfolding send_patch
  patch-Answers objr original remote =
      let m = (prepare_transport_when_updating u objr original).unstructured in
      elim (Result-cases (client.patch_data original m)) [
        | inl (_, e) ↦
            rw (send_patch, e) (returned-Answers budget remote _ (L.patches _ _ _ _ remote))
        | inr (inl (_, e)) ↦ rw (send_patch, e) (idle-Answers remote)
        | inr (inr e) ↦ absurd (L.compares original m e)
      ]

  update-Answers :
      (objr : ObjResource) (remote : R) → Answers budget remote (send_update u client objr remote)
  unfolding send_update
  update-Answers objr remote =
      let m = objr.unstructured in
      elim (Result-cases (client.get objr.gvr (u.get_namespace m) (u.get_name m) remote)) [
        | inl (original, e) ↦ rw (send_update, e) (patch-Answers objr original remote)
        | inr (inl (x, e)) ↦
            rw (send_update, e, L.misses _ _ _ remote x e) (create-Answers objr remote)
        | inr (inr e) ↦ absurd (L.reads _ _ _ remote e)
      ]

  send-Answers :
      (objr : ObjResource) (remote : R)
      → Sendable objr
      → Answers budget remote (send u client objr remote)
  unfolding send
  send-Answers objr remote m = by_action objr.action refl
    where
      by_action :
          (a : ObjectAction) → objr.action ≡ a → Answers budget remote (send u client objr remote)
      by_action create e = rw (send, e) (create-Answers objr remote)
      by_action update e = rw (send, e) (update-Answers objr remote)
      by_action delete e = rw (send, e) (delete-Answers objr remote m e)
      by_action (other_action x) e = rw (send, e) (idle-Answers remote)

module _ {ℓ} (u : UnstructuredApi) {R : Type ℓ}
    (new_for_config : RestConfig → Result (DynamicClient R)) where
  kube_transport-Answers :
      (s : PairClusterSettings) (k : KubeApiServerSettings) (client : DynamicClient R)
      {Sendable : ObjResource → Type 0} (budget : R → ℕ)
      → s.kube_apiserver_transportor_setting ≡ some k
      → new_for_config (client_config k) ≡ ok client
      → AnswersReads u client Sendable budget
      → (objr : ObjResource) (remote : R) → Sendable objr
      → Answers budget remote (kube_transport u new_for_config (some s) objr remote)
  unfolding kube_transport
  kube_transport-Answers s k client budget has made L objr remote m =
      rw has (rw made (send-Answers u client budget L objr remote m))

  pub kube_transporter-RefusesAtMost :
      (s : PairClusterSettings) (k : KubeApiServerSettings) (client : DynamicClient R)
      {Sendable : ObjResource → Type 0} (budget : R → ℕ)
      → s.kube_apiserver_transportor_setting ≡ some k
      → new_for_config (client_config k) ≡ ok client
      → AnswersReads u client Sendable budget
      → RefusesAtMost u (kube_transporter u new_for_config (some s)) Sendable budget
  kube_transporter-RefusesAtMost s k client budget has made L =
      let all = kube_transport-Answers s k client budget has made L in
      record {
        answers = λ objr remote m. (all objr remote m).ends;
        kept = λ objr remote m. (all objr remote m).kept;
        spent = λ objr remote e m. (all objr remote m).spent e;
      }

  -- With settings that have a part for API servers, and from which a client is made that can be
  -- read and that refuses writes at most as often as `budget` says, where only the deletions of
  -- sendable objects count and the queue has no others: as many rounds as there are queued objects
  -- and refusals empty the queue of the manager with the transporter for API servers without a
  -- panic, and for every queued object a version not below its own is marked as sent.
  pub drain-kube_transporter-IsDelivered :
      (s : PairClusterSettings) (k : KubeApiServerSettings) (client : DynamicClient R)
      {Sendable : ObjResource → Type 0} (budget : R → ℕ)
      (has : s.kube_apiserver_transportor_setting ≡ some k)
      (made : new_for_config (client_config k) ≡ ok client)
      (L : AnswersReads u client Sendable budget) (n : ℕ) (queue : List ObjResource)
      (versions : Dict String) (remote : R)
      → length queue + budget remote ≤ n
      → All Sendable queue
      → IsDelivered u
          (kube_transporter u new_for_config (some s))
          budget
          (kube_transporter-RefusesAtMost s k client budget has made L)
          queue
          (drain u (kube_transporter u new_for_config (some s)) n queue versions remote)
  drain-kube_transporter-IsDelivered s k client budget has made L n queue versions remote enough
        all =
      drain-IsDelivered u (kube_transporter u new_for_config (some s)) budget
        (kube_transporter-RefusesAtMost s k client budget has made L) n queue versions remote enough
        all

  drain_refused :
      (t : Transporter R) (objr : ObjResource) (versions : Dict String) (remote : R) (e : Error)
      → is_new_version u versions objr ≡ true
      → t.transport objr remote ≡ (remote, err e)
      → IsRetried e
      → (n : ℕ) → (drain u t n (objr ∷ []) versions remote).queue ≡ objr ∷ []
  unfolding drain transport_round settle
  drain_refused t objr versions remote e new answer retried zero = refl
  drain_refused t objr versions remote e new answer retried (suc n) =
      let rest = drain_refused t objr versions remote e new answer retried n in
      rw (new, answer, settle, retried, ap (λ p. p.0) answer) rest

  -- Where the manager has not marked the version of a deletion, and the other cluster refuses it
  -- without a change and with an error that does not say that the object exists, as it does
  -- where the object is not there, a transport queue of this deletion alone is the same after
  -- any number of rounds.
  pub drain_missing :
      (s : PairClusterSettings) (k : KubeApiServerSettings) (client : DynamicClient R)
      (objr : ObjResource) (versions : Dict String) (remote : R) (e : Error)
      → s.kube_apiserver_transportor_setting ≡ some k
      → new_for_config (client_config k) ≡ ok client
      → objr.action ≡ delete
      → is_new_version u versions objr ≡ true
      → client.delete objr.gvr
          (u.get_namespace objr.unstructured)
          (u.get_name objr.unstructured)
          remote
        ≡ (remote, some e)
      → IsRetried e
      → (n : ℕ)
      → (drain u (kube_transporter u new_for_config (some s)) n (objr ∷ []) versions remote).queue
        ≡ objr ∷ []
  unfolding kube_transport send send_delete
  drain_missing s k client objr versions remote e has made is_delete new gone retried =
      drain_refused (kube_transporter u new_for_config (some s)) objr versions remote e new
        (rw (kube_transport, has, made, send, is_delete, send_delete, gone) refl) retried
