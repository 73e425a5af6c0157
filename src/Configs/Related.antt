-- ===== src/Configs/Related.antt =====
-- The two loops of NotifyClusterConfigChange: which namespaces are related, and what they get.
use mathlib.Core.Path.{subst}
use dr.Base.{
  ◌≡◌, refl, ◌∙◌, ◌==◌, ◌&&◌, arith, String, Bool, true, false, List, [], ◌∷◌, Option, none, some,
  Bool-cases, Option-cases, inl, inr, ◌⊎◌, eq_iff, eq_refl, is_some, if◌then◌else◌, Any,
}
use dr.Base.Dict.{Dict, lookup, insert, lookup-insert, NodupKeys, IsFresh, lookup_of_IsFresh}
use dr.Api.{PairClusterSettings}
use dr.Configs.Container.{related_namespaces, deliver}

-- One turn of the loop in `deliver`, at one namespace.
lookup-turn :
    (c : PairClusterSettings) (n : String) (ls : Dict (Option PairClusterSettings)) (ns : String)
    → lookup ns (if is_some (lookup n ls) then insert n (some c) ls else ls)
      ≡ (if is_some (lookup n ls) && n == ns then some (some c) else lookup ns ls)
lookup-turn c n ls ns = ground (arith, lookup-insert n ns (some c) ls)

pub lookup-deliver_absent :
    (c : PairClusterSettings) (nss : List String) (ls : Dict (Option PairClusterSettings))
    (ns : String)
    → lookup ns ls ≡ none
    → lookup ns (deliver c nss ls) ≡ none
unfolding deliver
lookup-deliver_absent c [] ls ns e = e
lookup-deliver_absent c (n ∷ nss) ls ns e =
    lookup-deliver_absent c nss _ ns (rw lookup-turn (ground (arith, eq_iff n ns)))

pub lookup-deliver_unrelated :
    (c : PairClusterSettings) (nss : List String) (ls : Dict (Option PairClusterSettings))
    (ns : String)
    → ¬ Any (λ n. n ≡ ns) nss
    → lookup ns (deliver c nss ls) ≡ lookup ns ls
unfolding deliver
lookup-deliver_unrelated c [] ls ns h = refl
lookup-deliver_unrelated c (n ∷ nss) ls ns h =
    lookup-deliver_unrelated c nss _ ns (λ a. h (Any.there a))
    ∙ rw lookup-turn (elim (Bool-cases (n == ns)) [
      | inl same ↦ absurd (h (Any.here ((eq_iff n ns).0 same)))
      | inr apart ↦ rw apart (ground arith)
    ])

lookup-deliver_settled :
    (c : PairClusterSettings) (nss : List String) (ls : Dict (Option PairClusterSettings))
    (ns : String)
    → lookup ns ls ≡ some (some c)
    → lookup ns (deliver c nss ls) ≡ some (some c)
unfolding deliver
lookup-deliver_settled c [] ls ns e = e
lookup-deliver_settled c (n ∷ nss) ls ns e =
    lookup-deliver_settled c nss _ ns (rw lookup-turn (ground arith))

pub lookup-deliver_related :
    (c : PairClusterSettings) (nss : List String) (ls : Dict (Option PairClusterSettings))
    (ns : String) (s : Option PairClusterSettings)
    → Any (λ n. n ≡ ns) nss
    → lookup ns ls ≡ some s
    → lookup ns (deliver c nss ls) ≡ some (some c)
unfolding deliver
lookup-deliver_related c [] ls ns s h e = elim h [ ]
lookup-deliver_related c (n ∷ nss) ls ns s (Any.here same) e =
    lookup-deliver_settled c nss _ ns (rw lookup-turn (ground (arith, eq_iff n ns)))
lookup-deliver_related c (n ∷ nss) ls ns s (Any.there h) e =
    elim (Bool-cases (is_some (lookup n ls) && n == ns)) [
      | inl hit ↦ lookup-deliver_settled c nss _ ns (rw (lookup-turn, hit))
      | inr miss ↦ lookup-deliver_related c nss _ ns s h (rw (lookup-turn, miss) e)
    ]

related_there :
    {ns : String} {l : List String} (j : String) (b : Bool)
    → Any (λ n. n ≡ ns) l
    → Any (λ n. n ≡ ns) (if b then j ∷ l else l)
related_there j true h = Any.there h
related_there j false h = h

pub related_namespaces_lem :
    (cluster ns : String) (m : Dict String)
    → lookup ns m ≡ some cluster
    → Any (λ n. n ≡ ns) (related_namespaces cluster m)
unfolding related_namespaces lookup
related_namespaces_lem cluster ns [] e = absurd (cc e)
related_namespaces_lem cluster ns ((j, c) ∷ m) e = elim (Bool-cases (j == ns)) [
  | inl mine ↦
      rw (((eq_iff c cluster).1 (ground arith)), related_namespaces)
        (Any.here ((eq_iff j ns).0 mine))
  | inr other ↦
      related_there j (c == cluster) (related_namespaces_lem cluster ns m (rw (other, lookup) at e))
]

Any-cons {ℓ κ} :
    {A : Type ℓ} (P : A → Type κ) (x : A) (xs : List A) → Any P (x ∷ xs) → P x ⊎ Any P xs
Any-cons P x xs (Any.here h) = inl h
Any-cons P x xs (Any.there h) = inr h

lookup_behind :
    (j c ns cluster : String) (m : Dict String)
    → IsFresh j m
    → lookup ns m ≡ some cluster
    → lookup ns ((j, c) ∷ m) ≡ some cluster
unfolding lookup
lookup_behind j c ns cluster m fresh e = elim (Bool-cases (j == ns)) [
  | inr other ↦ rw (other, lookup) e
  | inl mine ↦
      absurd (
        cc (e, subst (λ k. lookup k m ≡ none) ((eq_iff j ns).0 mine) (lookup_of_IsFresh j m fresh)))
]

lookup_here :
    (j c ns cluster : String) (m : Dict String)
    → j ≡ ns
    → c ≡ cluster
    → lookup ns ((j, c) ∷ m) ≡ some cluster
unfolding lookup
lookup_here j c ns cluster m e f = rw (e, eq_refl, f)

pub related_namespaces_only :
    (cluster ns : String) (m : Dict String)
    → NodupKeys m
    → Any (λ n. n ≡ ns) (related_namespaces cluster m)
    → lookup ns m ≡ some cluster
unfolding related_namespaces
related_namespaces_only cluster ns [] u h = elim h [ ]
related_namespaces_only cluster ns ((j, c) ∷ m) (fresh, u) h = elim (Bool-cases (c == cluster)) [
  | inr miss ↦
      lookup_behind j c ns cluster m fresh
        (related_namespaces_only cluster ns m u (rw (miss, related_namespaces) at h))
  | inl hit ↦
      elim (Any-cons _ j (related_namespaces cluster m) (rw (hit, related_namespaces) at h)) [
        | inl same ↦ lookup_here j c ns cluster m same ((eq_iff c cluster).0 hit)
        | inr a ↦ lookup_behind j c ns cluster m fresh (related_namespaces_only cluster ns m u a)
      ]
]

-- A registered transporter of a related namespace is set to the cluster's settings.
pub deliver_at_related :
    (c : PairClusterSettings) (nss : List String) (ls : Dict (Option PairClusterSettings))
    (n : String) (s : Option PairClusterSettings)
    → Any (λ m. m ≡ n) nss
    → lookup n (deliver c nss ls) ≡ some s
    → s ≡ some c
deliver_at_related c nss ls n s related e = elim (Option-cases (lookup n ls)) [
  | inl gone ↦ absurd (cc (e, lookup-deliver_absent c nss ls n gone))
  | inr (s0, there) ↦ cc (e, lookup-deliver_related c nss ls n s0 related there)
]

pub unrelated :
    (cluster k n : String) (m : Dict String)
    → NodupKeys m
    → (cluster == k) ≡ false
    → lookup n m ≡ some k
    → ¬ Any (λ j. j ≡ n) (related_namespaces cluster m)
unrelated cluster k n m u apart paired a =
    ground (arith, apart, paired, related_namespaces_only cluster n m u a, eq_refl k)
