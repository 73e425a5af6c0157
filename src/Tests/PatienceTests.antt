-- ===== src/Tests/PatienceTests.antt =====
-- One run of each theorem on the transporter for API servers and a queue that it empties, or not.
use dr.Base.{
  ◌≡◌, refl, arith, ℕ, zero, suc, List, [], ◌∷◌, Option, none, some, true, ok, err, Result, failure,
  Error,
}
use dr.Base.Dict.{lookup}
use dr.Base.Text.{contains}
use dr.Api.{create, update, delete, ObjResource}
use dr.Transport.{is_new_version, DynamicClient, RestConfig, kube_transporter}
use dr.Transport.Drain.{drain, IsDelivered}
use dr.Transport.Patience.{
  Spends, AnswersReads, kube_transporter-RefusesAtMost, drain-kube_transporter-IsDelivered,
  drain_missing,
}
use dr.Tests.Fixtures.{docs, config_map}
use dr.Tests.TransportTests.{api_settings, pair_settings}

-- The cluster has no object, and refuses as many writes as its number says.
abbrev refuse : ℕ → ℕ × Option Error
refuse zero = (0, none)
refuse (suc n) = (n, some (failure "busy"))

abbrev hesitant : DynamicClient ℕ
hesitant = record {
  create = λ gvr ns m n. refuse n;
  get = λ gvr ns name n. err (failure "not found");
  patch = λ gvr ns name bytes n. refuse n;
  delete = λ gvr ns name n. refuse n;
  patch_data = λ a b. err (failure "no patch");
  is_not_found = λ e. true;
}

abbrev connect_hesitant : RestConfig → Result (DynamicClient ℕ)
connect_hesitant c = ok hesitant

refuse-Spends : (n : ℕ) → Spends (λ m. m) n (refuse n)
refuse-Spends zero = (omega arith, λ e h retried. absurd (cc h))
refuse-Spends (suc n) = (omega arith, λ e h retried. omega arith)

hesitant-AnswersReads : AnswersReads docs hesitant (λ _. Unit {0}) (λ n. n)
hesitant-AnswersReads = record {
  creates = λ gvr ns m remote. refuse-Spends remote;
  patches = λ gvr ns name bytes remote. refuse-Spends remote;
  deletes = λ objr remote m e. refuse-Spends remote;
  reads = λ gvr ns name remote e. cc e;
  misses = λ gvr ns name remote e h. refl;
  compares = λ a b e. cc e;
}

abbrev queued : List ObjResource
queued = config_map "u1" "7" create ∷ config_map "u2" "3" update ∷ config_map "u1" "9" delete ∷ []

drain-kube_transporter-IsDelivered_example :
    IsDelivered docs
      (kube_transporter docs connect_hesitant (some pair_settings))
      (λ n. n)
      (kube_transporter-RefusesAtMost docs connect_hesitant pair_settings api_settings hesitant
        (λ n. n)
        refl
        refl
        hesitant-AnswersReads)
      queued
      (drain docs (kube_transporter docs connect_hesitant (some pair_settings)) 5 queued [] 2)
drain-kube_transporter-IsDelivered_example =
    drain-kube_transporter-IsDelivered docs connect_hesitant pair_settings api_settings hesitant
      (λ n. n) refl refl hesitant-AnswersReads 5 queued [] 2 (omega arith) (tt, (tt, (tt, tt)))

-- The cluster has no object, and does not delete what it does not have.
abbrev empty_cluster : DynamicClient ℕ
empty_cluster = record {
  create = λ gvr ns m n. (n, none);
  get = λ gvr ns name n. err (failure "not found");
  patch = λ gvr ns name bytes n. (n, some (failure "not found"));
  delete = λ gvr ns name n. (n, some (failure "not found"));
  patch_data = λ a b. ok "patch";
  is_not_found = λ e. true;
}

abbrev connect_empty : RestConfig → Result (DynamicClient ℕ)
connect_empty c = ok empty_cluster

drain_missing_example :
    (drain docs
      (kube_transporter docs connect_empty (some pair_settings))
      9
      (config_map "u1" "9" delete ∷ [])
      []
      0).queue
    ≡ config_map "u1" "9" delete ∷ []
unfolding is_new_version lookup contains
drain_missing_example =
    drain_missing docs connect_empty pair_settings api_settings empty_cluster
      (config_map "u1" "9" delete) [] 0 (failure "not found") refl refl refl refl refl refl 9
