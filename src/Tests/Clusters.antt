-- ===== src/Tests/Clusters.antt =====
-- A cluster that stores one text of each object, and what is assumed of clients and servers for it.
use dr.Base.{
  ◌∙◌, All-Any, ◌≡◌, ◌≢◌, ◌==◌, ◌&&◌, eq_iff, refl, sym, arith, ℕ, zero, suc, String, Bool, true,
  false, List, Option, none, some, ok, err, panic, Result, failure, Error, message, All,
  if◌then◌else◌, Bool-cases, inl, inr,
}
use mathlib.Core.Path.{subst}
use mathlib.Core.Bool.{false≢true}
use dr.Base.Text.{contains, join}
use dr.Api.{
  ObjResource, Fields, field, str, end, get, get-put, gvr_eq, gvr_eq_iff, GroupVersionResource,
}
use dr.Transport.{DynamicClient, RestConfig}
use dr.Transport.Patience.{Spends, AnswersReads}
use dr.Transport.Stores.{
  Place, IgnoresIdentity, identity_paths, IsIdentity, Keeps, Sets, StoresContent,
}
use dr.Transport.Recovery.{IsConnected}
use dr.Tests.Fixtures.{docs, get-drop, text_at}
use dr.Tests.TransportTests.{api_settings, pair_settings}

abbrev place_eq : Place → Place → Bool
place_eq p q = gvr_eq p.gvr q.gvr && (p.namespace == q.namespace && p.name == q.name)

place_eq_iff : (p q : Place) → (place_eq p q ≡ true → p ≡ q) × (p ≡ q → place_eq p q ≡ true)
place_eq_iff p q =
    ground (arith, gvr_eq_iff p.gvr q.gvr, eq_iff p.namespace q.namespace, eq_iff p.name q.name)

-- The refusals that are left, and the text that is kept at each place.
pub record Cluster : Type 0 where
  pub busy : ℕ
  pub texts : Place → Option String

abbrev pub view : Cluster → Place → Option String
view c p = c.texts p

abbrev pub content : Fields → String
content m = text_at "data" m

abbrev pub holding : Cluster → Place → Option String → Cluster
holding c p v = record c { texts = λ q. if place_eq p q then v else c.texts q }

-- A write, where the place is free for it.
abbrev write : Cluster → ℕ → Place → Option String → Cluster × Option Error
write c zero p v = (holding c p v, none)
write c (suc n) p v = (record c { busy = n }, some (failure "busy"))

abbrev write_free : Cluster → Place → Option String → Option String → Cluster × Option Error
write_free c p v none = write c c.busy p v
write_free c p v (some _) = (c, some (failure "already exists"))

abbrev answer : Option String → Result Fields
answer none = err (failure "not found")
answer (some s) = ok (field "data" (str s) end)

abbrev at : GroupVersionResource → String → String → Place
at gvr ns name = record { gvr = gvr; namespace = ns; name = name }

abbrev pub cluster : DynamicClient Cluster
cluster = record {
  create = λ gvr ns m c.
      let p = at gvr ns (docs.get_name m) in write_free c p (some (content m)) (c.texts p);
  get = λ gvr ns name c. answer (c.texts (at gvr ns name));
  patch = λ gvr ns name bytes c. write c c.busy (at gvr ns name) (some bytes);
  delete = λ gvr ns name c. write c c.busy (at gvr ns name) none;
  patch_data = λ a b. ok (content b);
  is_not_found = λ e. true;
}

is_busy : (e : Error) → some (failure "busy") ≡ some e → failure "busy" ≡ e
is_busy e h = cc h

write-Sets :
    (c : Cluster) (n : ℕ) (p : Place) (v : Option String)
    → (write c n p v).1 ≡ none
    → Sets view p v c (write c n p v).0
write-Sets c zero p v h = record {
  there = rw ((place_eq_iff p p).1 refl) refl;
  elsewhere = λ q apart. elim (Bool-cases (place_eq p q)) [
    | inl same ↦ absurd (apart (sym ((place_eq_iff p q).0 same)))
    | inr other ↦ rw other refl
  ];
}
write-Sets c (suc n) p v h = absurd (cc h)

write-Keeps :
    (c : Cluster) (n : ℕ) (p : Place) (v : Option String) (e : Error)
    → (write c n p v).1 ≡ some e
    → (contains (message e) "already exists" ≡ false) × Keeps view c (write c n p v).0
unfolding contains
write-Keeps c zero p v e h = absurd (cc h)
write-Keeps c (suc n) p v e h =
    (subst (λ x. contains (message x) "already exists" ≡ false) (is_busy e h) refl, λ q. refl)

write_free-Sets :
    (c : Cluster) (p : Place) (v o : Option String)
    → (write_free c p v o).1 ≡ none
    → Sets view p v c (write_free c p v o).0
write_free-Sets c p v none h = write-Sets c c.busy p v h
write_free-Sets c p v (some w) h = absurd (cc h)

write_free-Keeps :
    (c : Cluster) (p : Place) (v o : Option String) (e : Error)
    → (write_free c p v o).1 ≡ some e
    → Keeps view c (write_free c p v o).0
write_free-Keeps c p v none e h = (write-Keeps c c.busy p v e h).1
write_free-Keeps c p v (some w) e h = λ q. refl

write_free_taken :
    (c : Cluster) (p : Place) (v o : Option String) (e : Error)
    → (write_free c p v o).1 ≡ some e
    → contains (message e) "already exists" ≡ true
    → o ≢ none
write_free_taken c p v none e h there =
    absurd (false≢true (sym (write-Keeps c c.busy p v e h).0 ∙ there))
write_free_taken c p v (some w) e h there = λ none_yet. cc none_yet

answer_found : (o : Option String) (m : Fields) → answer o ≡ ok m → o ≡ some (content m)
unfolding text_at get
answer_found none m h = absurd (cc h)
answer_found (some s) m h =
    subst (λ f. some s ≡ some (content f)) (same_fields (field "data" (str s) end) m h) refl
  where
    same_fields : (a b : Fields) → ok a ≡ ok b → a ≡ b
    same_fields a b e = cc e

answer_missing : (o : Option String) (e : Error) → answer o ≡ err e → o ≡ none
answer_missing none e h = refl
answer_missing (some s) e h = absurd (cc h)

pub cluster-StoresContent : StoresContent view docs cluster content
cluster-StoresContent = record {
  found = λ p c m h. answer_found (c.texts p) m h;
  missing = λ p c e h gone. answer_missing (c.texts p) e h;
  created = λ gvr m c h.
      let p = at gvr (docs.get_namespace m) (docs.get_name m) in
      write_free-Sets c p (some (content m)) (c.texts p) h;
  not_created = λ gvr m c e h.
      let p = at gvr (docs.get_namespace m) (docs.get_name m) in
      write_free-Keeps c p (some (content m)) (c.texts p) e h;
  exists = λ gvr m c e h there.
      let p = at gvr (docs.get_namespace m) (docs.get_name m) in
      write_free_taken c p (some (content m)) (c.texts p) e h there;
  patched = λ p original m bytes c read made h.
      subst (λ v. Sets view p (some v) c (write c c.busy p (some bytes)).0)
        (sym (same_text (content m) bytes made)) (write-Sets c c.busy p (some bytes) h);
  not_patched = λ p bytes c e h. write-Keeps c c.busy p (some bytes) e h;
  deleted = λ p c h. write-Sets c c.busy p none h;
  not_deleted = λ p c e h. write-Keeps c c.busy p none e h;
  computed = λ a b e h. cc h;
}
  where
    same_text : (a b : String) → ok a ≡ ok b → a ≡ b
    same_text a b e = cc e

-- The key is not that of an identity.
abbrev IsOther : String → Type 0
IsOther k = All (λ p. (join "," p == k) ≡ false) identity_paths

other_path :
    (k : String) (path : List String) → IsOther k → IsIdentity path → (join "," path == k) ≡ false
other_path k path h i = All-Any (λ p. (join "," p == k) ≡ false) identity_paths path h i

text_at-IgnoresIdentity : (k : String) → IsOther k → IgnoresIdentity docs (text_at k)
unfolding text_at join
text_at-IgnoresIdentity k h = record {
  removed = λ m path i. rw (get-drop, other_path k path h i) refl;
  overwritten = λ m v path i. rw (get-put, other_path k path h i) refl;
  versioned = λ m s. rw (get-put, h.0) refl;
  identified = λ m s. rw (get-put, h.1.0) refl;
}

IsOther-name : IsOther "metadata,name"
unfolding join
IsOther-name = (refl, (refl, (refl, (refl, (refl, (refl, tt))))))

IsOther-namespace : IsOther "metadata,namespace"
unfolding join
IsOther-namespace = (refl, (refl, (refl, (refl, (refl, (refl, tt))))))

IsOther-data : IsOther "data"
unfolding join
IsOther-data = (refl, (refl, (refl, (refl, (refl, (refl, tt))))))

abbrev pub connect : RestConfig → Result (DynamicClient Cluster)
connect c = ok cluster

pub cluster-IsConnected : IsConnected docs view content connect pair_settings cluster
cluster-IsConnected = record {
  settings = api_settings;
  has = refl;
  made = refl;
  stores = cluster-StoresContent;
  name_ignores = text_at-IgnoresIdentity "metadata,name" IsOther-name;
  namespace_ignores = text_at-IgnoresIdentity "metadata,namespace" IsOther-namespace;
  content_ignores = text_at-IgnoresIdentity "data" IsOther-data;
}

abbrev pub IsAny : ObjResource → Type 0
IsAny o = Unit

write-Spends :
    (c : Cluster) (n : ℕ) (p : Place) (v : Option String)
    → c.busy ≡ n
    → Spends (λ d. d.busy) c (write c n p v)
write-Spends c zero p v e = (omega arith, λ x h retried. absurd (cc h))
write-Spends c (suc n) p v e = (omega arith, λ x h retried. omega arith)

write_free-Spends :
    (c : Cluster) (p : Place) (v o : Option String) → Spends (λ d. d.busy) c (write_free c p v o)
unfolding contains
write_free-Spends c p v none = write-Spends c c.busy p v refl
write_free-Spends c p v (some w) = (
  omega arith,
  λ x h retried. absurd (
      false≢true (
        sym retried
        ∙ subst (λ e. contains (message e) "already exists" ≡ true) (is_there x h) refl)),
)
  where
    is_there : (e : Error) → some (failure "already exists") ≡ some e → failure "already exists" ≡ e
    is_there e h = cc h

answer_ends : (o : Option String) → answer o ≢ panic
answer_ends none e = cc e
answer_ends (some s) e = cc e

pub cluster-AnswersReads : AnswersReads docs cluster IsAny (λ d. d.busy)
cluster-AnswersReads = record {
  creates = λ gvr ns m c.
      let p = at gvr ns (docs.get_name m) in write_free-Spends c p (some (content m)) (c.texts p);
  patches = λ gvr ns name bytes c. write-Spends c c.busy (at gvr ns name) (some bytes) refl;
  deletes = λ objr c m e.
      write-Spends c c.busy
        (at objr.gvr (docs.get_namespace objr.unstructured) (docs.get_name objr.unstructured)) none
        refl;
  reads = λ gvr ns name c. answer_ends (c.texts (at gvr ns name));
  misses = λ gvr ns name c e h. refl;
  compares = λ a b e. cc e;
}
