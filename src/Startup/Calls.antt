-- ===== src/Startup/Calls.antt =====
-- The calls of the operator SDK, the controller runtime and the Kubernetes libraries that the
-- process makes when it starts, and chains of them. What each call answers is a parameter.
use dr.Base.{
  Bool, String, ℕ, List, [], ◌∷◌, ◌++◌, Option, none, some, Error, Result, ok, err, panic,
}

-- manager.Options. The namespaces of `new_cache` are those of MultiNamespacedCacheBuilder.
pub record Options : Type 0 where
  pub namespace : String
  pub new_cache : Option (List String)
  pub metrics_bind_address : String

pub record ServicePort : Type 0 where
  pub port : ℕ
  pub name : String
  pub target_port : ℕ

pub data Call : Type 0 where
  get_watch_namespace : Call
  get_config : Call
  become_leader : String → Call
  new_manager : Options → Call
  add_dr_types : Call
  add_types : Call
  run_status_updater : Call
  new_controller : String → Call
  watch : String → String → Call
  get_operator_namespace : Call
  get_gvks_from_add_to_scheme : Call
  get_namespaces_for_metrics : String → Call
  generate_and_serve_cr_metrics : String → ℕ → Call
  create_metrics_service : List ServicePort → Call
  create_service_monitors : String → (has_service : Bool) → Call
  start_manager : Call

-- What the calls answer, and the two namespaces that are read.
pub record Environment : Type 0 where
  pub answer : Call → Option Error
  pub watch_namespace : String
  pub operator_namespace : String
  pub is_run_local : Error → Bool

-- The calls that were made, in their order, and how the chain ended.
abbrev pub Steps {ℓ} : Type ℓ → Type ℓ
Steps A = List Call → List Call × Result A

infixl 5 ◌>>=◌ ◌>>◌
abbrev pub ◌>>=◌ {ℓ κ} : {A : Type ℓ} {B : Type κ} → Steps A → (A → Steps B) → Steps B
◌>>=◌ m f made = elim (m made).1 [
  | ok a ↦ f a (m made).0
  | err e ↦ ((m made).0, err e)
  | panic ↦ ((m made).0, panic)
]

abbrev pub ◌>>◌ {ℓ} : {B : Type ℓ} → Steps (Unit {0}) → Steps B → Steps B
m >> k = m >>= λ _. k

abbrev pub done {ℓ} : {A : Type ℓ} → A → Steps A
done a made = (made, ok a)

-- The error of a call is handed on to the caller, who makes no other call.
abbrev pub answered : Option Error → Result (Unit {0})
answered none = ok tt
answered (some e) = err e

unfoldable pub must : Environment → Call → Steps (Unit {0})
must env c made = (made ++ (c ∷ []), answered (env.answer c))

-- The error of a call is seen by the caller, who goes on.
unfoldable pub try : Environment → Call → Steps (Option Error)
try env c made = (made ++ (c ∷ []), ok (env.answer c))

-- A call that answers nothing.
unfoldable pub tell : Call → Steps (Unit {0})
tell c made = (made ++ (c ∷ []), ok tt)
