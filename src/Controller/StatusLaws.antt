-- ===== src/Controller/StatusLaws.antt =====
-- What becomes of the conditions of a namespace's status.
use Prim.Native.String.{◌++◌}
use text.Mathlib.TextLemmas.{append_assoc}
use dr.Base.Text.{join}
use dr.Base.{◌≡◌, ◌∙◌, ap, refl, ◌==◌, String, some, ok, false, eq_refl}
use dr.Base.Dict.{lookup, lookup-insert}
use dr.Api.{DrNamespace, DrNamespaceStatus, SyncedCondition}
use dr.Controller.StatusUpdater.{
  StatusClient, StatusToUpdate, condition_key, conditions_or_empty, with_condition,
  get_condition_name, update_condition, update_round,
}

-- A write of the status is there for the next read of the object, which has the same names.
pub record StoresStatus {ℓ} {S : Type ℓ} (client : StatusClient S) : Type ℓ where
  pub stored :
      (s : S) (namespace name : String) (inst : DrNamespace) (status : DrNamespaceStatus)
      → client.get namespace name s ≡ ok inst
      → client.get namespace name (client.update_status (record inst { status = status }) s).0
        ≡ ok (record inst { status = status })

-- The item that UpdateCondition adds to the queue for an object with this status.
abbrev pub item : String → String → SyncedCondition → DrNamespace → StatusToUpdate
item namespace name c inst = record {
  namespace = namespace;
  name = name;
  status = with_condition c inst.status;
}

module _ {ℓ} {S : Type ℓ} (client : StatusClient S) where
  pub update_condition_found :
      (s : S) (namespace name : String) (c : SyncedCondition) (inst : DrNamespace)
      → client.get namespace name s ≡ ok inst
      → update_condition client namespace name c s ≡ some (item namespace name c inst)
  unfolding update_condition
  update_condition_found s namespace name c inst e = rw (e, update_condition)

  pub update_round_found :
      (L : StoresStatus client) (s : S) (i : StatusToUpdate) (inst : DrNamespace)
      → client.get i.namespace i.name s ≡ ok inst
      → client.get i.namespace i.name (update_round client i s)
        ≡ ok (record inst { status = i.status })
  unfolding update_round
  update_round_found L s i inst e =
      rw (e, update_round) (L.stored s i.namespace i.name inst i.status e)

  pub item_of :
      (s : S) (namespace name : String) (c : SyncedCondition) (inst : DrNamespace)
      (i : StatusToUpdate)
      → client.get namespace name s ≡ ok inst
      → update_condition client namespace name c s ≡ some i
      → i ≡ item namespace name c inst
  item_of s namespace name c inst i e f = cc (f, update_condition_found s namespace name c inst e)

  -- One condition is taken to the object: the item for it is made and its round is run.
  taken :
      (L : StoresStatus client) (s : S) (namespace name : String) (c : SyncedCondition)
      (inst now : DrNamespace) (r : S)
      → client.get namespace name s ≡ ok inst
      → client.get namespace name r ≡ ok now
      → client.get namespace name (update_round client (item namespace name c inst) r)
        ≡ ok (record now { status = with_condition c inst.status })
  taken L s namespace name c inst now r e f =
      update_round_found L r (item namespace name c inst) now f

  -- The item has the condition, and else the conditions that were read.
  item_conditions :
      (s : S) (namespace name : String) (c : SyncedCondition) (inst : DrNamespace)
      (i : StatusToUpdate)
      → client.get namespace name s ≡ ok inst
      → update_condition client namespace name c s ≡ some i
      → (lookup (condition_key c) (conditions_or_empty i.status) ≡ some c)
        × ((key : String)
            → (condition_key c == key) ≡ false
            → lookup key (conditions_or_empty i.status)
              ≡ lookup key (conditions_or_empty inst.status))
  unfolding with_condition
  item_conditions s namespace name c inst i e f =
      rw (item_of s namespace name c inst i e f)
        (rw lookup-insert (rw eq_refl refl), λ key apart. rw lookup-insert (rw apart refl))

  has_condition :
      (s : S) (namespace name : String) (c : SyncedCondition) (inst : DrNamespace)
      (i : StatusToUpdate)
      → client.get namespace name s ≡ ok inst
      → update_condition client namespace name c s ≡ some i
      → lookup (condition_key c) (conditions_or_empty i.status) ≡ some c
  has_condition s namespace name c inst i e f = (item_conditions s namespace name c inst i e f).0

  -- With a server that stores what is written: of two conditions whose items are both made before the
  -- first of them is run, the status that is left is that of the second item, as if the first
  -- condition had never been reported.
  pub update_round_lost :
      (L : StoresStatus client) (s : S) (namespace name : String) (a b : SyncedCondition)
      (inst : DrNamespace) (i j : StatusToUpdate)
      → client.get namespace name s ≡ ok inst
      → update_condition client namespace name a s ≡ some i
      → update_condition client namespace name b s ≡ some j
      → client.get namespace name (update_round client j (update_round client i s))
        ≡ ok (record inst { status = with_condition b inst.status })
  update_round_lost L s namespace name a b inst i j e f g =
      rw (item_of s namespace name a inst i e f, item_of s namespace name b inst j e g)
        (taken L s namespace name b inst (record inst { status = with_condition a inst.status })
          (update_round client (item namespace name a inst) s) e
          (taken L s namespace name a inst inst s e e))

  -- The item for a condition has that condition. The item for a second condition with another key
  -- has the first condition if its read saw the status of the first item, and of the key of the
  -- first condition only what was there before if its read saw the status from before the first
  -- item.
  pub update_condition_kept :
      (s r : S) (namespace name : String) (a b : SyncedCondition) (inst now : DrNamespace)
      (i j : StatusToUpdate)
      → client.get namespace name s ≡ ok inst
      → update_condition client namespace name a s ≡ some i
      → client.get namespace name r ≡ ok now
      → update_condition client namespace name b r ≡ some j
      → (lookup (condition_key a) (conditions_or_empty i.status) ≡ some a)
        × (lookup (condition_key b) (conditions_or_empty j.status) ≡ some b)
        × ((condition_key b == condition_key a) ≡ false
            → (now.status ≡ i.status
                → lookup (condition_key a) (conditions_or_empty j.status) ≡ some a)
              × (now.status ≡ inst.status
                  → lookup (condition_key a) (conditions_or_empty j.status)
                    ≡ lookup (condition_key a) (conditions_or_empty inst.status)))
  update_condition_kept s r namespace name a b inst now i j e f g h =
      let first = has_condition s namespace name a inst i e f in
      let (second, others) = item_conditions r namespace name b now j g h in
      (
        first,
        second,
        λ apart. (
          λ seen.
              others (condition_key a) apart
              ∙ ap (λ x. lookup (condition_key a) (conditions_or_empty x)) seen
              ∙ first,
          λ unseen.
              others (condition_key a) apart
              ∙ ap (λ x. lookup (condition_key a) (conditions_or_empty x)) unseen,
        ),
      )

-- The key of a condition forgets the group and the version of the object, and a name can begin
-- where a namespace ends: these two conditions have one key.
pub condition_key_collision :
    (c d : SyncedCondition) (x y z : String)
    → c.group_version_kind_object.gvk.kind ≡ d.group_version_kind_object.gvk.kind
    → c.group_version_kind_object.object_key.namespace ≡ x ++ ("-" ++ y)
    → c.group_version_kind_object.object_key.name ≡ z
    → d.group_version_kind_object.object_key.namespace ≡ x
    → d.group_version_kind_object.object_key.name ≡ y ++ ("-" ++ z)
    → condition_key c ≡ condition_key d
unfolding condition_key get_condition_name join
condition_key_collision c d x y z k n m p q = rw (k, n, m, p, q, append_assoc, append_assoc)
