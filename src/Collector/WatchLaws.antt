-- ===== src/Collector/WatchLaws.antt =====
-- What is listed and watched.
use dr.Base.{
  ◌≡◌, refl, sym, ◌∙◌, ◌==◌, arith, String, Bool, true, false, ◌&&◌, ◌||◌, Option, some, eq_iff,
  Any, List, [], ◌∷◌, Bool-cases, Option-cases, inl, inr,
}
use mathlib.Core.Path.{subst}
use mathlib.Core.Bool.{false≢true}
use dr.Api.{GroupVersionResource}
use dr.Collector.ListWatch.{
  ApiResource, ApiResourceList, GroupVersion, verbs_from, can_list_watch, should_list_watch_group,
  should_list_watch_resource, excluded_from, list_watch_exclude_groups,
  list_watch_exclude_resources, or_default, gvr_of, of_resources, gvr_to_watch,
}
use dr.Base.{◌↔◌, Any-append_left, Any-append_right, Any-append, any, any→Any, Any→any}

verbs_from_lem :
    (verbs : List String) (l w : Bool)
    → verbs_from l w verbs
      ≡ ((l || any (λ v. v == "list") verbs) && (w || any (λ v. v == "watch") verbs))
unfolding verbs_from
verbs_from_lem [] l w = ground arith
verbs_from_lem (v ∷ vs) l w = verbs_from_lem vs _ _ ∙ ground arith

both : (a b : Bool) → (a && b) ≡ true → (a ≡ true) × (b ≡ true)
both true b h = (refl, h)
both false b h = absurd (false≢true h)

abbrev pub Says : String → List String → Type 0
Says verb verbs = Any (λ v. v ≡ verb) verbs

said : (verb : String) (verbs : List String) → any (λ v. v == verb) verbs ≡ true → Says verb verbs
said verb verbs h = any→Any _ (λ v. v == verb) verbs (λ v e. (eq_iff v verb).0 e) h

saying : (verb : String) (verbs : List String) → Says verb verbs → any (λ v. v == verb) verbs ≡ true
saying verb verbs h = Any→any _ (λ v. v == verb) verbs (λ v e. (eq_iff v verb).1 e) h

-- A resource is seen as one that can be listed and watched exactly if its verbs say both.
pub can_list_watch_iff :
    (verbs : List String)
    → (can_list_watch verbs ≡ true → Says "list" verbs × Says "watch" verbs)
      × (Says "list" verbs × Says "watch" verbs → can_list_watch verbs ≡ true)
unfolding can_list_watch
can_list_watch_iff verbs = (
  λ h.
      let (l, w) = both _ _ (sym (verbs_from_lem verbs false false) ∙ h) in
      (said "list" verbs l, said "watch" verbs w),
  λ (l, w). verbs_from_lem verbs false false ∙ rw (saying "list" verbs l, saying "watch" verbs w),
)

-- A resource with the group and version of its list where it has none of its own.
abbrev pub offered_gvr : GroupVersion → ApiResource → GroupVersionResource
offered_gvr gv r = record {
  group = or_default r.group gv.group;
  version = or_default r.version gv.version;
  resource = r.name;
}

-- The verbs of the resource and the names of its list's group and its own admit it, and it is `g`.
abbrev pub Admits : GroupVersion → ApiResource → GroupVersionResource → Type 0
Admits gv r g =
    Says "list" r.verbs
    × Says "watch" r.verbs
    × ¬ Any (λ x. x ≡ gv.group) list_watch_exclude_groups
    × ¬ Any (λ x. x ≡ r.name) list_watch_exclude_resources
    × (g ≡ offered_gvr gv r)

-- What a watched resource is: a resource of some list of the answer that is admitted.
pub record IsWatched (parse : String → Option GroupVersion) (ks : List ApiResourceList)
    (g : GroupVersionResource) : Type 0 where
  pub source : ApiResourceList
  pub listed : Any (λ k. k ≡ source) ks
  pub resource : ApiResource
  pub offered : Any (λ r. r ≡ resource) source.api_resources
  pub gv : GroupVersion
  pub parsed : parse source.group_version ≡ some gv
  pub admitted : Admits gv resource g

excluded_from_Any :
    (xs : List String) (s : String) → excluded_from xs s ≡ false → ¬ Any (λ x. x ≡ s) xs
unfolding excluded_from
excluded_from_Any [] s h a = elim a [ ]
excluded_from_Any (x ∷ xs) s h (Any.here e) = ground (arith, h, (eq_iff x s).1 e)
excluded_from_Any (x ∷ xs) s h (Any.there a) = excluded_from_Any xs s (ground (arith, h)) a

only : (g w : GroupVersionResource) → Any (λ v. v ≡ g) (w ∷ []) → g ≡ w
only g w (Any.here h) = sym h
only g w (Any.there h) = elim h [ ]

excluded_from_none :
    (xs : List String) (s : String) → ¬ Any (λ x. x ≡ s) xs → excluded_from xs s ≡ false
unfolding excluded_from
excluded_from_none [] s h = refl
excluded_from_none (x ∷ xs) s h = elim (Bool-cases (x == s)) [
  | inl same ↦ absurd (h (Any.here ((eq_iff x s).0 same)))
  | inr apart ↦ rw apart (excluded_from_none xs s (λ a. h (Any.there a)))
]

gvr_of-Admits :
    (gv : GroupVersion) (r : ApiResource) (g : GroupVersionResource)
    → Any (λ w. w ≡ g) (gvr_of gv r)
    → Admits gv r g
unfolding gvr_of should_list_watch_group should_list_watch_resource
gvr_of-Admits gv r g a = elim (Bool-cases (can_list_watch r.verbs)) [
  | inr e ↦ elim (rw (e, gvr_of) at a) [ ]
  | inl verbs ↦ elim (Bool-cases (excluded_from list_watch_exclude_groups gv.group)) [
    | inl e ↦ elim (rw (verbs, e, gvr_of) at a) [ ]
    | inr group ↦ elim (Bool-cases (excluded_from list_watch_exclude_resources r.name)) [
      | inl e ↦ elim (rw (verbs, group, e, gvr_of) at a) [ ]
      | inr name ↦
          let (l, w) = (can_list_watch_iff r.verbs).0 verbs in
          (
            l,
            w,
            excluded_from_Any list_watch_exclude_groups gv.group group,
            excluded_from_Any list_watch_exclude_resources r.name name,
            only g (offered_gvr gv r) (rw (verbs, group, name, gvr_of) at a),
          )
    ]
  ]
]

Any-gvr_of :
    (gv : GroupVersion) (r : ApiResource) (g : GroupVersionResource)
    → Admits gv r g
    → Any (λ w. w ≡ g) (gvr_of gv r)
unfolding gvr_of should_list_watch_group should_list_watch_resource
Any-gvr_of gv r g (l, w, group, name, e) =
    rw
      (
        (can_list_watch_iff r.verbs).1 (l, w),
        excluded_from_none list_watch_exclude_groups gv.group group,
        excluded_from_none list_watch_exclude_resources r.name name,
      )
      (Any.here (sym e))

module _ (parse : String → Option GroupVersion) where
  -- The same for one list.
  abbrev Offered : String → List ApiResource → GroupVersionResource → Type 0
  Offered text rs g =
      (r : ApiResource) × Any (λ q. q ≡ r) rs
      × (gv : GroupVersion) × (parse text ≡ some gv)
      × Admits gv r g

  later :
      (text : String) (q : ApiResource) (rs : List ApiResource) (g : GroupVersionResource)
      → Offered text rs g
      → Offered text (q ∷ rs) g
  later text q rs g (r, offered, gv, parsed, admitted) =
      (r, Any.there offered, gv, parsed, admitted)

  of_resources-Offered :
      (text : String) (rs : List ApiResource) (g : GroupVersionResource)
      → Any (λ w. w ≡ g) (of_resources parse text rs)
      → Offered text rs g
  unfolding of_resources
  of_resources-Offered text [] g a = elim a [ ]
  of_resources-Offered text (r ∷ rs) g a = elim (Option-cases (parse text)) [
    | inl e ↦ later text r rs g (of_resources-Offered text rs g (rw (e, of_resources) at a))
    | inr (gv, e) ↦ elim (Any-append _ (gvr_of gv r) _ (rw (e, of_resources) at a)) [
      | inl mine ↦ (r, Any.here refl, gv, e, gvr_of-Admits gv r g mine)
      | inr others ↦ later text r rs g (of_resources-Offered text rs g others)
    ]
  ]

  gvr_to_watch-IsWatched :
      (ks : List ApiResourceList) (g : GroupVersionResource)
      → Any (λ w. w ≡ g) (gvr_to_watch parse ks)
      → IsWatched parse ks g
  unfolding gvr_to_watch
  gvr_to_watch-IsWatched [] g a = elim a [ ]
  gvr_to_watch-IsWatched (k ∷ ks) g a =
      elim (Any-append _ (of_resources parse k.group_version k.api_resources) _ a) [
        | inl mine ↦
            let (r, offered, gv, parsed, admitted) =
              of_resources-Offered k.group_version k.api_resources g mine in
            record {
              source = k;
              listed = Any.here refl;
              resource = r;
              offered = offered;
              gv = gv;
              parsed = parsed;
              admitted = admitted;
            }
        | inr others ↦
            let w = gvr_to_watch-IsWatched ks g others in
            record {
              source = w.source;
              listed = Any.there w.listed;
              resource = w.resource;
              offered = w.offered;
              gv = w.gv;
              parsed = w.parsed;
              admitted = w.admitted;
            }
      ]

  Any-of_resources :
      (text : String) (rs : List ApiResource) (r : ApiResource) (gv : GroupVersion)
      (g : GroupVersionResource)
      → Any (λ q. q ≡ r) rs
      → parse text ≡ some gv
      → Admits gv r g
      → Any (λ w. w ≡ g) (of_resources parse text rs)
  unfolding of_resources
  Any-of_resources text [] r gv g a e h = elim a [ ]
  Any-of_resources text (q ∷ rs) r gv g (Any.here same) e h =
      rw (e, of_resources)
        (Any-append_left _ (gvr_of gv q) (of_resources parse text rs)
          (subst (λ x. Any (λ w. w ≡ g) (gvr_of gv x)) (sym same) (Any-gvr_of gv r g h)))
  Any-of_resources text (q ∷ rs) r gv g (Any.there a) e h =
      rw (e, of_resources)
        (Any-append_right _ (gvr_of gv q) (of_resources parse text rs)
          (Any-of_resources text rs r gv g a e h))

  Any-gvr_to_watch :
      (ks : List ApiResourceList) (k : ApiResourceList) (r : ApiResource) (gv : GroupVersion)
      (g : GroupVersionResource)
      → Any (λ q. q ≡ k) ks
      → Any (λ q. q ≡ r) k.api_resources
      → parse k.group_version ≡ some gv
      → Admits gv r g
      → Any (λ w. w ≡ g) (gvr_to_watch parse ks)
  unfolding gvr_to_watch
  Any-gvr_to_watch [] k r gv g a b e h = elim a [ ]
  Any-gvr_to_watch (q ∷ ks) k r gv g (Any.here same) b e h =
      Any-append_left _ (of_resources parse q.group_version q.api_resources) (gvr_to_watch parse ks)
        (subst (λ x. Any (λ w. w ≡ g) (of_resources parse x.group_version x.api_resources))
          (sym same) (Any-of_resources k.group_version k.api_resources r gv g b e h))
  Any-gvr_to_watch (q ∷ ks) k r gv g (Any.there a) b e h =
      Any-append_right _ (of_resources parse q.group_version q.api_resources)
        (gvr_to_watch parse ks) (Any-gvr_to_watch ks k r gv g a b e h)

  -- What is to be watched is just what the answer offers and what is admitted: the verbs say list
  -- and watch, and neither the group of the list nor the name of the resource is excluded.
  pub gvr_to_watch_iff :
      (ks : List ApiResourceList) (g : GroupVersionResource)
      → Any (λ w. w ≡ g) (gvr_to_watch parse ks) ↔ IsWatched parse ks g
  gvr_to_watch_iff ks g = (
    gvr_to_watch-IsWatched ks g,
    λ w. Any-gvr_to_watch ks w.source w.resource w.gv g w.listed w.offered w.parsed w.admitted,
  )
