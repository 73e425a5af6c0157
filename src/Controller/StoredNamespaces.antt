-- ===== src/Controller/StoredNamespaces.antt =====
-- An API server that stores the namespaces, as the reconciler of clusters writes them.
use dr.Base.{
  Option, Error, ◌≡◌, refl, sym, ap, ◌∙◌, ◌==◌, ◌&&◌, arith, Bool, true, false, none, List, [], ◌∷◌,
  ◌++◌, map, Bool-cases, Option-cases, inl, inr, eq_iff, All, All-append, All-map, if◌then◌else◌,
}
use mathlib.Core.List.{append_assoc}
use dr.Api.{DrNamespace, DrCluster}
use dr.Controller.NamespaceController.{found}
use dr.Controller.ClusterController.{ClusterClient, write_each}

-- Objects have the same key.
abbrev pub same_object : DrNamespace → DrNamespace → Bool
same_object a b = a.namespace == b.namespace && a.name == b.name

abbrev pub put_object : DrNamespace → List DrNamespace → List DrNamespace
put_object n [] = []
put_object n (m ∷ ms) = (if same_object n m then n else m) ∷ put_object n ms

-- The server holds the namespaces `view`: the list gives them, and an update without an error
-- replaces the object with its key. The status of a cluster is not among them.
pub record StoresNamespaces {ℓ} {S : Type ℓ} (client : ClusterClient S)
    (view : S → List DrNamespace) : Type ℓ where
  pub listed : (s : S) → client.list s ≡ found (view s)
  pub updated :
      (n : DrNamespace) (s : S)
      → (client.update n s).1 ≡ none
      → view (client.update n s).0 ≡ put_object n (view s)
  pub status_apart : (c : DrCluster) (s : S) → view (client.update_status c s).0 ≡ view s

-- No two objects have the same key.
abbrev pub Apart : List DrNamespace → Type 0
Apart [] = Unit
Apart (n ∷ ns) = All (λ m. same_object n m ≡ false) ns × Apart ns

-- A change of a namespace that keeps its key.
pub record KeepsKey (change : DrNamespace → DrNamespace) : Type 0 where
  pub same_namespace : (n : DrNamespace) → (change n).namespace ≡ n.namespace
  pub same_name : (n : DrNamespace) → (change n).name ≡ n.name

abbrev pub change_if :
    (DrNamespace → Bool) → (DrNamespace → DrNamespace) → DrNamespace → DrNamespace
change_if p change n = if p n then change n else n

put_object_before :
    (n : DrNamespace) (pre ms : List DrNamespace)
    → All (λ m. same_object m n ≡ false) pre
    → put_object n (pre ++ ms) ≡ pre ++ put_object n ms
put_object_before n [] ms h = refl
put_object_before n (m ∷ pre) ms (e, h) = ground (
  arith,
  put_object_before n pre ms h,
  eq_iff n.namespace m.namespace,
  eq_iff m.namespace n.namespace,
  eq_iff n.name m.name,
  eq_iff m.name n.name,
)

put_object_after :
    (n : DrNamespace) (ms : List DrNamespace)
    → All (λ m. same_object n m ≡ false) ms
    → put_object n ms ≡ ms
put_object_after n [] h = refl
put_object_after n (m ∷ ms) (e, h) = rw (e, put_object_after n ms h)

same_key :
    (a b : DrNamespace) → a.namespace ≡ b.namespace → a.name ≡ b.name → same_object a b ≡ true
same_key a b e f = ground (arith, eq_iff a.namespace b.namespace, eq_iff a.name b.name)

put_object_at :
    (n n' : DrNamespace) (pre ms : List DrNamespace)
    → n'.namespace ≡ n.namespace
    → n'.name ≡ n.name
    → All (λ m. same_object m n ≡ false) pre
    → All (λ m. same_object n m ≡ false) ms
    → put_object n' (pre ++ (n ∷ ms)) ≡ pre ++ (n' ∷ ms)
put_object_at n n' pre ms e f before after =
    put_object_before n' pre (n ∷ ms) (All-map _ _ pre (λ m h. rw (e, f) h) before)
    ∙ ap (λ l. pre ++ l)
        (rw (same_key n' n e f)
          (ap (λ l. n' ∷ l) (put_object_after n' ms (All-map _ _ ms (λ m h. rw (e, f) h) after))))

-- None of the first namespaces has the key of one of the others.
abbrev pub DiffersFrom : List DrNamespace → DrNamespace → Type 0
DiffersFrom pre m = All (λ q. same_object q m ≡ false) pre

next_DiffersFrom :
    (n n' : DrNamespace) (pre ms : List DrNamespace)
    → n'.namespace ≡ n.namespace
    → n'.name ≡ n.name
    → All (DiffersFrom pre) ms
    → All (λ m. same_object n m ≡ false) ms
    → All (DiffersFrom (pre ++ (n' ∷ []))) ms
next_DiffersFrom n n' pre [] e f h k = tt
next_DiffersFrom n n' pre (m ∷ ms) e f (before, h) (apart, k) = (
  All-append (λ q. same_object q m ≡ false) pre (n' ∷ []) before (rw (e, f) apart, tt),
  next_DiffersFrom n n' pre ms e f h k,
)

module _ {ℓ} {S : Type ℓ} (client : ClusterClient S) (view : S → List DrNamespace)
    (L : StoresNamespaces client view) (p : DrNamespace → Bool) (change : DrNamespace → DrNamespace)
    (K : KeepsKey change) where
  abbrev write : DrNamespace → S → S × Option Error
  write n = client.update (change n)

  pub view-write_each :
      (pre ns : List DrNamespace) (s : S)
      → view s ≡ pre ++ ns
      → Apart ns
      → All (DiffersFrom pre) ns
      → (write_each client write p ns s).1 ≡ none
      → view (write_each client write p ns s).0 ≡ pre ++ map (change_if p change) ns
  unfolding write_each
  view-write_each pre [] s e apart differ fine = e
  view-write_each pre (n ∷ ns) s e (first, apart) (mine, differ) fine =
      let go =
        λ (n' : DrNamespace) (r : S) (same : view r ≡ pre ++ (n' ∷ ns))
            (e : n'.namespace ≡ n.namespace) (f : n'.name ≡ n.name)
            (ok : (write_each client write p ns r).1 ≡ none).
          view-write_each (pre ++ (n' ∷ [])) ns r (same ∙ sym (append_assoc pre (n' ∷ []) ns)) apart
            (next_DiffersFrom n n' pre ns e f differ first) ok in
      elim (Bool-cases (p n)) [
        | inr off ↦
            rw (off, write_each)
              (go n s e refl refl (rw (off, write_each) at fine) ∙ append_assoc pre (n ∷ []) _)
        | inl on ↦ elim (Option-cases (client.update (change n) s).1) [
          | inr (x, bad) ↦ absurd (cc (rw (on, write_each, bad) at fine))
          | inl good ↦
              rw (on, write_each, good)
                (go (change n) (client.update (change n) s).0
                    (L.updated (change n) s good
                      ∙ ap (put_object (change n)) e
                      ∙ put_object_at n (change n) pre ns (K.same_namespace n) (K.same_name n) mine
                          first)
                    (K.same_namespace n) (K.same_name n) (rw (on, write_each, good) at fine)
                  ∙ append_assoc pre (change n ∷ []) _)
        ]
      ]
