-- ===== src/Controller/Reconciles.antt =====
-- Reconciles of namespaces one after the other, and the workers that they leave running.
use dr.Base.{
  ◌≡◌, refl, ◌==◌, arith, String, ℕ, Bool, true, false, none, some, Option-cases, Bool-cases, inl,
  inr, ◌⊎◌, eq_iff, eq_refl, All-map, Any, is_some,
}
use dr.Base.Dict.{lookup, lookup-insert, lookup-erase, erase}
use dr.Api.{DrNamespace, DrComponents}
use dr.Controller.StatusUpdater.{StatusToUpdate}
use dr.Controller.Workers.{Worker, start}
use dr.Controller.NamespaceController.{
  NamespaceState, Reconciled, Fetched, found, not_found, failed, clear, deactivate, activate,
  sync_active, synced_components, finish, reconcile,
}
use dr.Controller.NamespaceWays.{Ways, found-Ways}
use dr.Controller.Agreement.{Agrees, stopped-Agrees}

absent_erase :
    (ns m : String) (c : ℕ) (s : NamespaceState)
    → lookup ns s.cancel_funcs ≡ none
    → lookup m (erase ns s.cancel_funcs) ≡ some c
    → lookup m s.cancel_funcs ≡ some c
absent_erase ns m c s absent f = elim (Bool-cases (ns == m)) [
  | inl same ↦ absurd (cc (rw (lookup-erase, same) at f))
  | inr apart ↦ rw (lookup-erase, apart) at f
]

kept_known :
    (ns : String) (w : Worker) (s : NamespaceState)
    → lookup ns s.cancel_funcs ≡ none
    → lookup w.namespace s.cancel_funcs ≡ some w.context
    → lookup w.namespace (erase ns s.cancel_funcs) ≡ some w.context
kept_known ns w s absent k = rw lookup-erase (elim (Bool-cases (ns == w.namespace)) [
  | inl same ↦ absurd (cc (k, absent, (eq_iff ns w.namespace).0 same))
  | inr apart ↦ rw apart k
])

clear-Agrees : (ns : String) (s : NamespaceState) → Agrees s → Agrees (clear ns s)
unfolding clear
clear-Agrees ns s h = elim (Option-cases (lookup ns s.cancel_funcs)) [
  | inr (c, e) ↦ stopped-Agrees ns c s (clear ns s) e refl (rw (e, clear) refl) h
  | inl e ↦ record {
    remembered = λ m c f. rw (e, clear) (h.remembered m c (absent_erase ns m c s e f));
    known = rw (e, clear) (All-map _ _ s.workers.running (λ w k. kept_known ns w s e k) h.known);
    falling = rw (e, clear) h.falling;
  }
]

deactivate-Agrees : (ns : String) (s : NamespaceState) → Agrees s → Agrees (deactivate ns s)
unfolding deactivate
deactivate-Agrees ns s h = elim (Option-cases (lookup ns s.cancel_funcs)) [
  | inr (c, e) ↦
      stopped-Agrees ns c s (deactivate ns s) e (rw (e, deactivate) refl) (rw (e, deactivate) refl)
        h
  | inl e ↦ rw (e, deactivate) h
]

activate-Agrees :
    (inst : DrNamespace) (c : DrComponents) (s : NamespaceState)
    → lookup inst.namespace s.cancel_funcs ≡ none
    → Agrees s
    → Agrees (activate inst c s)
unfolding activate start
activate-Agrees inst c s absent h = record {
  remembered = λ m d f. elim (Bool-cases (inst.namespace == m)) [
    | inl same ↦ Any.here ((eq_iff inst.namespace m).0 same, cc (rw (lookup-insert, same) at f))
    | inr apart ↦ Any.there (h.remembered m d (rw (lookup-insert, apart) at f))
  ];
  known = (
    rw lookup-insert (rw eq_refl refl),
    All-map _ _ s.workers.running
        (λ w k. rw lookup-insert (elim (Bool-cases (inst.namespace == w.namespace)) [
          | inl same ↦ absurd (cc (k, absent, (eq_iff inst.namespace w.namespace).0 same))
          | inr apart ↦ rw apart k
        ]))
        h.known,
  );
  falling = (omega arith, h.falling);
}

-- The status that was read says of a worker that runs that it is active.
abbrev pub IsCurrent : DrNamespace → NamespaceState → Type 0
IsCurrent inst s =
    is_some (lookup inst.namespace s.cancel_funcs) ≡ true → inst.status.components.active ≡ true

-- What the block "sync Active" does with a current status.
abbrev pub Syncs : DrNamespace → DrComponents → NamespaceState → NamespaceState → Type 0
Syncs inst c s t =
    ((lookup inst.namespace s.cancel_funcs ≡ none)
      × (inst.spec.components.active ≡ true)
      × (t ≡ activate inst c s))
    ⊎ (((inst.spec.components.active ≡ false) × (t ≡ deactivate inst.namespace s))
        ⊎ ((is_some (lookup inst.namespace s.cancel_funcs) ≡ true)
            × (inst.spec.components.active ≡ true)
            × (t ≡ s)))

pub sync_active-Syncs :
    (inst : DrNamespace) (c : DrComponents) (restart : Bool) (s : NamespaceState)
    → IsCurrent inst s
    → Syncs inst c s (sync_active inst c restart s)
unfolding sync_active deactivate
sync_active-Syncs inst c restart s current = elim (Bool-cases inst.spec.components.active) [
  | inr off ↦ elim (Option-cases (lookup inst.namespace s.cancel_funcs)) [
    | inl e ↦ inr (inl (off, ground (arith, e, off)))
    | inr (k, e) ↦ inr (inl (off, ground (arith, e, off, current (rw e refl))))
  ]
  | inl on ↦ elim (Option-cases (lookup inst.namespace s.cancel_funcs)) [
    | inl e ↦ inl (e, on, ground (arith, e, on))
    | inr (k, e) ↦ inr (inr (rw e refl, on, ground (arith, e, on, current (rw e refl))))
  ]
]

pub same-Agrees :
    (s t : NamespaceState)
    → t.cancel_funcs ≡ s.cancel_funcs
    → t.workers ≡ s.workers
    → Agrees s
    → Agrees t
same-Agrees s t e f h = record {
  remembered = rw (e, f) h.remembered;
  known = rw (e, f) h.known;
  falling = rw f h.falling;
}

sync_active-Agrees :
    (inst : DrNamespace) (c : DrComponents) (restart : Bool) (s : NamespaceState)
    → IsCurrent inst s
    → Agrees s
    → Agrees (sync_active inst c restart s)
sync_active-Agrees inst c restart s current h = elim (sync_active-Syncs inst c restart s current) [
  | inl (absent, _, e) ↦ rw e (activate-Agrees inst c s absent h)
  | inr (inl (_, e)) ↦ rw e (deactivate-Agrees inst.namespace s h)
  | inr (inr (_, _, e)) ↦ rw e h
]

finish-Agrees :
    (inst : DrNamespace) (restart : Bool) (s : NamespaceState)
    → IsCurrent inst s
    → Agrees s
    → Agrees (finish inst restart s).state
unfolding finish
finish-Agrees inst restart s current h =
    same-Agrees (sync_active inst (synced_components inst) restart s) (finish inst restart s).state
      refl refl (sync_active-Agrees inst (synced_components inst) restart s current h)

-- What was read is not older than the last start of the namespace's worker.
abbrev pub IsCurrentAnswer : Fetched DrNamespace → NamespaceState → Type 0
IsCurrentAnswer (found inst) s = IsCurrent inst s
IsCurrentAnswer (not_found _) s = Unit
IsCurrentAnswer (failed _) s = Unit

-- A reconcile keeps the running workers and the remembered contexts in agreement, whatever the
-- client answers, if the status in a found object is not older than the last start.
pub reconcile-Agrees :
    (namespace : String) (answer : Fetched DrNamespace) (s : NamespaceState)
    → IsCurrentAnswer answer s
    → Agrees s
    → Agrees (reconcile namespace answer s).state
unfolding reconcile Ways
reconcile-Agrees namespace (not_found e) s current h = clear-Agrees namespace s h
reconcile-Agrees namespace (failed e) s current h = h
reconcile-Agrees namespace (found inst) s current h =
    let (drc, way) = found-Ways inst s in
    let moved = same-Agrees s (record s { container = drc }) refl refl h in
    elim way [
      | inl (e, _, _) ↦ rw e moved
      | inr (restart, e) ↦
          rw e (finish-Agrees inst restart (record s { container = drc }) current moved)
    ]

deactivate_gone :
    (ns : String) (s : NamespaceState) → lookup ns (deactivate ns s).cancel_funcs ≡ none
unfolding deactivate
deactivate_gone ns s = elim (Option-cases (lookup ns s.cancel_funcs)) [
  | inl e ↦ rw (e, deactivate) e
  | inr (c, e) ↦ rw (e, deactivate) (rw lookup-erase (rw eq_refl refl))
]

finish_active :
    (inst : DrNamespace) (restart : Bool) (s : NamespaceState)
    → IsCurrent inst s
    → is_some (lookup inst.namespace (finish inst restart s).state.cancel_funcs)
      ≡ inst.spec.components.active
unfolding finish activate
finish_active inst restart s current =
    elim (sync_active-Syncs inst (synced_components inst) restart s current) [
      | inl (absent, on, e) ↦ rw (e, on) (rw lookup-insert (rw eq_refl refl))
      | inr (inl (off, e)) ↦ rw (e, off) (rw (deactivate_gone inst.namespace s) refl)
      | inr (inr (running, on, e)) ↦ rw (e, on) running
    ]

-- A worker is remembered for the namespace just where its specification says active, and a status
-- of the object with that activity is on its way to the updater.
abbrev pub Converged : DrNamespace → Reconciled → Type 0
Converged inst r =
    (is_some (lookup inst.namespace r.state.cancel_funcs) ≡ inst.spec.components.active)
    × (t : StatusToUpdate) × (r.enqueued ≡ some t)
    × (t.namespace ≡ inst.namespace)
    × (t.name ≡ inst.name)
    × (t.status.components.active ≡ inst.spec.components.active)

finish-Converged :
    (inst : DrNamespace) (restart : Bool) (s : NamespaceState)
    → IsCurrent inst s
    → Converged inst (finish inst restart s)
unfolding finish
finish-Converged inst restart s current =
    (finish_active inst restart s current, _, refl, refl, refl, refl)

-- A reconcile of an object with a current status that ends without an error leaves a remembered
-- worker for the namespace just where its specification says active, and puts a status of the
-- object with that activity on the updater's queue.
pub reconcile-Converged :
    (inst : DrNamespace) (s : NamespaceState)
    → IsCurrent inst s
    → (reconcile inst.namespace (found inst) s).error ≡ none
    → Converged inst (reconcile inst.namespace (found inst) s)
unfolding reconcile Ways
reconcile-Converged inst s current fine =
    let (drc, way) = found-Ways inst s in
    elim way [
      | inl (_, x, e) ↦ absurd (cc (e, fine))
      | inr (restart, e) ↦
          rw e (finish-Converged inst restart (record s { container = drc }) current)
    ]
