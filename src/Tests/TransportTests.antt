-- ===== src/Tests/TransportTests.antt =====
-- One run of each theorem on the transport.
use dr.Base.Int.{pos}
use dr.Base.{
  ◌≡◌, refl, true, ℕ, suc, Bool, false, none, some, List, [], ◌∷◌, ok, err, Result, failure,
}
use dr.Base.Dict.{lookup}
use dr.Api.{Fields, create, update, ObjResource, KubeApiServerSettings, PairClusterSettings}
use dr.Transport.{
  kube_transporter, transport_round, is_new_version, Item, closed, object, foreign, Transporter,
  DynamicClient, RestConfig, prepare_transport_when_creating,
}
use dr.Transport.Versions.{NotBelow, transport_run, transport_run-NotBelow}
use dr.Transport.Faults.{Answers, IsUnreadable, transport_round_panics_iff}
use dr.Transport.Remote.{HasNoIdentity, prepare_transport_when_creating-HasNoIdentity}
use dr.Tests.Fixtures.{docs, docs-RemovesIdentity, config_map}

-- The other side is the list of what it has accepted.
abbrev accepting : Transporter (List ObjResource)
accepting = record { transport = λ objr sent. (objr ∷ sent, ok tt) }

abbrev two_items : List Item
two_items =
    object (config_map "u1" "7" create)
    ∷ foreign
    ∷ object (config_map "u1" "9" update)
    ∷ closed
    ∷ []

transport_run-NotBelow_example :
    NotBelow
      (lookup "u1" (("u1", "5") ∷ []))
      (lookup "u1" (transport_run docs accepting two_items (("u1", "5") ∷ []) []).0)
transport_run-NotBelow_example =
    transport_run-NotBelow docs accepting two_items (("u1", "5") ∷ []) [] "u1"

-- A client of a cluster that answers every read with the given answer and has no patches.
abbrev client_of : Result Fields → Bool → DynamicClient ℕ
client_of answer missing = record {
  create = λ gvr ns m n. (suc n, none);
  get = λ gvr ns name n. answer;
  patch = λ gvr ns name bytes n. (suc n, none);
  delete = λ gvr ns name n. (suc n, none);
  patch_data = λ a b. err (failure "no patch");
  is_not_found = λ e. missing;
}

abbrev sent_update : ObjResource
sent_update = config_map "u1" "7" update

prepare_transport_when_creating-HasNoIdentity_example :
    HasNoIdentity docs (prepare_transport_when_creating docs sent_update).unstructured
prepare_transport_when_creating-HasNoIdentity_example =
    prepare_transport_when_creating-HasNoIdentity docs docs-RemovesIdentity sent_update

abbrev pub api_settings : KubeApiServerSettings
api_settings = record {
  kube_api_server_host = "dr.example";
  cert_data = "";
  key_data = "";
  ca_data = "";
  qps = pos 5;
  burst = pos 10;
}

abbrev pub pair_settings : PairClusterSettings
pair_settings = record {
  kube_apiserver_transportor_setting = some api_settings;
  http_transportor_setting = none;
}

abbrev unreadable : DynamicClient ℕ
unreadable = client_of (err (failure "timeout")) false

abbrev connect_unreadable : RestConfig → Result (DynamicClient ℕ)
connect_unreadable c = ok unreadable

unreadable-Answers : Answers unreadable
unreadable-Answers = record { reads = λ gvr ns name n e. cc e; compares = λ a b e. cc e }

transport_round_panics_iff_example :
    let r =
      transport_round docs
        (kube_transporter docs connect_unreadable (some pair_settings))
        (object sent_update)
        []
        0 in
    (r.fault ≡ true
      → (is_new_version docs [] sent_update ≡ true)
        × IsUnreadable docs unreadable unreadable-Answers sent_update 0)
    × ((is_new_version docs [] sent_update ≡ true)
          × IsUnreadable docs unreadable unreadable-Answers sent_update 0
        → r ≡ record { versions = []; remote = 0; requeued = []; conditions = []; fault = true })
transport_round_panics_iff_example =
    transport_round_panics_iff docs unreadable unreadable-Answers connect_unreadable pair_settings
      api_settings refl refl sent_update [] 0
