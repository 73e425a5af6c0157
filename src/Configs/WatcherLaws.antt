-- ===== src/Configs/WatcherLaws.antt =====
-- What the config map watcher does to the container, and to its list of keys.
use mathlib.Core.Path.{subst}
use dr.Base.{
  ◌⊎◌, ◌≢◌, Any-append, Any-append_left, Any-append_right, ◌≡◌, refl, arith, ◌+◌, String, false,
  Option, none, some, List, [], ◌∷◌, Result, Option-cases, Result-cases, Bool-cases, inl, inr,
  length, length-append, length-replicate, replicate, Any,
}
use dr.Base.Dict.{lookup}
use dr.Api.{DrFilterConfig, ObjectKey}
use dr.Configs.Container.{DrConfig, init_config_container}
use dr.Configs.Watcher.{
  ConfigMap, on_config_map, dr_filter_key_name, unregister_cm, without, key_eq, zero_key,
}
use dr.Configs.Promises.{Reach, next, filter_config}

-- A config map that is added or updated is one of the operations on the container, or none.
pub on_config_map-Reach :
    (unmarshal : String → Result DrFilterConfig) (cm : Option ConfigMap) {drc : DrConfig}
    → Reach init_config_container drc
    → Reach init_config_container (on_config_map unmarshal cm drc)
unfolding on_config_map
on_config_map-Reach unmarshal none r = r
on_config_map-Reach unmarshal (some cm) {drc} r =
    elim (Option-cases (lookup dr_filter_key_name cm.content)) [
      | inl absent ↦ rw (absent, on_config_map) r
      | inr (raw, e) ↦ elim (Result-cases (unmarshal raw)) [
        | inl (config, f) ↦
            rw (e, on_config_map, f) (next r (filter_config cm.namespace (some config) drc))
        | inr (inl (x, f)) ↦ rw (e, on_config_map, f) r
        | inr (inr f) ↦ rw (e, on_config_map, f) r
      ]
    ]

Any-without :
    (key other : ObjectKey) (keys : List ObjectKey)
    → key_eq key other ≡ false
    → Any (λ k. k ≡ other) keys
    → Any (λ k. k ≡ other) (without key keys)
unfolding without
Any-without key other [] apart h = elim h [ ]
Any-without key other (k ∷ ks) apart (Any.here e) = rw (e, apart) (Any.here refl)
Any-without key other (k ∷ ks) apart (Any.there h) = elim (Bool-cases (key_eq key k)) [
  | inl same ↦ rw (same, without) (Any-without key other ks apart h)
  | inr kept ↦ rw (kept, without) (Any.there (Any-without key other ks apart h))
]

kept_first :
    (key other k : ObjectKey) (ks rest : List ObjectKey)
    → key_eq key k ≡ false
    → (Any (λ x. x ≡ other) rest → (key_eq key other ≡ false) × Any (λ x. x ≡ other) ks)
    → Any (λ x. x ≡ other) (k ∷ rest)
    → (key_eq key other ≡ false) × Any (λ x. x ≡ other) (k ∷ ks)
kept_first key other k ks rest kept later (Any.here e) =
    (subst (λ x. key_eq key x ≡ false) e kept, Any.here e)
kept_first key other k ks rest kept later (Any.there h) =
    let (apart, found) = later h in (apart, Any.there found)

without-Any :
    (key other : ObjectKey) (keys : List ObjectKey)
    → Any (λ k. k ≡ other) (without key keys)
    → (key_eq key other ≡ false) × Any (λ k. k ≡ other) keys
unfolding without
without-Any key other [] h = elim h [ ]
without-Any key other (k ∷ ks) h = elim (Bool-cases (key_eq key k)) [
  | inl same ↦
      let (apart, found) = without-Any key other ks (rw (same, without) at h) in
      (apart, Any.there found)
  | inr kept ↦
      kept_first key other k ks (without key ks) kept (without-Any key other ks)
        (rw (kept, without) at h)
]

replicate-Any :
    (other : ObjectKey) (keys : List ObjectKey)
    → Any (λ k. k ≡ other) (replicate (length keys) zero_key)
    → (zero_key ≡ other) × (keys ≢ [])
replicate-Any other [] h = elim h [ ]
replicate-Any other (k ∷ ks) (Any.here e) = (e, λ x. cc x)
replicate-Any other (k ∷ ks) (Any.there h) = ((replicate-Any other ks h).0, λ x. cc x)

Any-replicate :
    (keys : List ObjectKey) → keys ≢ [] → Any (λ k. k ≡ zero_key) (replicate (length keys) zero_key)
Any-replicate [] h = absurd (h refl)
Any-replicate (k ∷ ks) h = Any.here refl

-- To take a key out of the list of the watcher makes the list longer by the keys that are kept.
-- What is in the new list are the keys of the old one but the one that is taken out, and the empty
-- key if the old list was not empty.
pub length-unregister_cm :
    (key : ObjectKey) (keys : List ObjectKey)
    → (length (unregister_cm key keys) ≡ length keys + length (without key keys))
      × ((other : ObjectKey)
          → (Any (λ k. k ≡ other) (unregister_cm key keys)
              → ((key_eq key other ≡ false) × Any (λ k. k ≡ other) keys)
                ⊎ ((zero_key ≡ other) × (keys ≢ [])))
            × (((key_eq key other ≡ false) × Any (λ k. k ≡ other) keys)
                  ⊎ ((zero_key ≡ other) × (keys ≢ []))
                → Any (λ k. k ≡ other) (unregister_cm key keys)))
unfolding unregister_cm
length-unregister_cm key keys =
    let empties = replicate (length keys) zero_key in
    (
      omega (
        arith,
        length-append empties (without key keys),
        length-replicate (length keys) zero_key,
      ),
      λ other. (
        λ h. elim (Any-append (λ k. k ≡ other) empties (without key keys) h) [
          | inl first ↦ inr (replicate-Any other keys first)
          | inr rest ↦ inl (without-Any key other keys rest)
        ],
        λ h. elim h [
          | inl (apart, found) ↦
              Any-append_right (λ k. k ≡ other) empties (without key keys)
                (Any-without key other keys apart found)
          | inr (e, some_left) ↦
              Any-append_left (λ k. k ≡ other) empties (without key keys)
                (subst (λ o. Any (λ k. k ≡ o) empties) e (Any-replicate keys some_left))
        ],
      ),
    )
