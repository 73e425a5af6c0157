-- ===== src/Controller/Running.antt =====
-- The workers that run after any reconciles of namespaces, by namespace.
use dr.Base.{
  ◌≡◌, refl, sym, ap, ◌∙◌, ◌==◌, arith, String, ℕ, List, [], ◌∷◌, none, some, Option-cases,
  Bool-cases, inl, inr, ◌⊎◌, eq_iff, All, All-map, Any, if◌then◌else◌, ◌<◌,
}
use dr.Base.Dict.{lookup}
use dr.Api.{DrNamespace}
use dr.Configs.{DrConfig}
use dr.Controller.Workers.{Worker}
use dr.Controller.NamespaceController.{NamespaceState, Fetched, reconcile}
use dr.Controller.Agreement.{Agrees, IsWorker, Falling, below}
use dr.Controller.Reconciles.{IsCurrentAnswer, reconcile-Agrees, same-Agrees}

-- The loop of the controller, over what the client answers, while the other controller and the
-- watchers change the container between two reconciles.
pub data Reconciles (s : NamespaceState) : NamespaceState → Type 0 where
  here : Reconciles s s
  reconciled :
      {t : NamespaceState}
      → Reconciles s t
      → (namespace : String) (answer : Fetched DrNamespace) → IsCurrentAnswer answer t
      → Reconciles s (reconcile namespace answer t).state
  elsewhere :
      {t : NamespaceState}
      → Reconciles s t
      → (drc : DrConfig) → Reconciles s (record t { container = drc })

Reconciles-Agrees : {s t : NamespaceState} → Agrees s → Reconciles s t → Agrees t
Reconciles-Agrees h here = h
Reconciles-Agrees h (reconciled r namespace answer current) =
    reconcile-Agrees namespace answer _ current (Reconciles-Agrees h r)
Reconciles-Agrees h (elsewhere {t = t} r drc) =
    same-Agrees t (record t { container = drc }) refl refl (Reconciles-Agrees h r)

-- The workers that run for a namespace.
abbrev pub running_in : String → List Worker → List Worker
running_in ns [] = []
running_in ns (w ∷ ws) = let rest = running_in ns ws in if w.namespace == ns then w ∷ rest else rest

none_below :
    (ns : String) (c b : ℕ) (ws : List Worker)
    → Falling b ws
    → (b ≡ c) ⊎ (b < c)
    → All (λ w. w.namespace ≡ ns → w.context ≡ c) ws
    → running_in ns ws ≡ []
none_below ns c b [] f h k = refl
none_below ns c b (w ∷ ws) (less, f) h (one, k) = elim (Bool-cases (w.namespace == ns)) [
  | inl mine ↦ absurd (omega (arith, less, one ((eq_iff w.namespace ns).0 mine), h))
  | inr other ↦ rw other (none_below ns c w.context ws f (inr (omega (arith, less, h))) k)
]

just_one :
    (ns : String) (c b : ℕ) (ws : List Worker)
    → Falling b ws
    → Any (IsWorker ns c) ws
    → All (λ w. w.namespace ≡ ns → w.context ≡ c) ws
    → (w : Worker) × (running_in ns ws ≡ w ∷ []) × (w.context ≡ c)
just_one ns c b [] f h k = elim h [ ]
just_one ns c b (w ∷ ws) (less, f) (Any.here (p, e)) (one, k) = (
  w,
  rw ((eq_iff w.namespace ns).1 p) (ap (λ l. w ∷ l) (none_below ns c w.context ws f (inl e) k)),
  e,
)
just_one ns c b (w ∷ ws) (less, f) (Any.there h) (one, k) =
    let (v, alone, e) = just_one ns c w.context ws f h k in
    (
      v,
      elim (Bool-cases (w.namespace == ns)) [
        | inl mine ↦
            absurd
              (omega (arith, one ((eq_iff w.namespace ns).0 mine), below w.context c ns ws f h))
        | inr other ↦ rw other alone
      ],
      e,
    )

-- None runs and none is remembered, or one runs and it is the remembered one.
abbrev pub RunsOnce : String → NamespaceState → Type 0
RunsOnce ns s =
    ((running_in ns s.workers.running ≡ []) × (lookup ns s.cancel_funcs ≡ none))
    ⊎ ((w : Worker) × (running_in ns s.workers.running ≡ w ∷ [])
        × (lookup ns s.cancel_funcs ≡ some w.context))

nowhere :
    (ns : String) (ws : List Worker) → All (λ w. ¬ (w.namespace ≡ ns)) ws → running_in ns ws ≡ []
nowhere ns [] h = refl
nowhere ns (w ∷ ws) (p, h) = elim (Bool-cases (w.namespace == ns)) [
  | inl mine ↦ absurd (p ((eq_iff w.namespace ns).0 mine))
  | inr other ↦ rw other (nowhere ns ws h)
]

RunsOnce-Agrees : (ns : String) (s : NamespaceState) → Agrees s → RunsOnce ns s
RunsOnce-Agrees ns s h = elim (Option-cases (lookup ns s.cancel_funcs)) [
  | inl e ↦ inl (
    nowhere ns s.workers.running
        (All-map _ _ s.workers.running (λ w k same. cc (rw same at k, e)) h.known),
    e,
  )
  | inr (c, e) ↦
      let (w, alone, f) =
        just_one ns c s.workers.next_context s.workers.running h.falling (h.remembered ns c e)
          (All-map _ _ s.workers.running (λ w k same. cc (rw same at k, e)) h.known) in
      inr (w, alone, e ∙ ap some (sym f))
]

-- After any reconciles from a start without workers, if no reconcile reads a status from before
-- the last start of its namespace's worker: each namespace has no worker that runs and none that
-- is remembered, or just one that runs, and it is the one that is remembered.
pub Reconciles-RunsOnce :
    {s t : NamespaceState} (ns : String)
    → s.workers.running ≡ []
    → ((m : String) → lookup m s.cancel_funcs ≡ none)
    → Reconciles s t
    → RunsOnce ns t
Reconciles-RunsOnce {s = s} {t = t} ns idle fresh r = RunsOnce-Agrees ns t (
    Reconciles-Agrees
      (record {
        remembered = λ m c e. absurd (cc (e, fresh m));
        known = rw (idle, All) tt;
        falling = rw (idle, Falling) tt;
      })
      r)
