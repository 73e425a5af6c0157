-- ===== src/Collector/ListWatch.antt =====
-- listwatch/collector.go. The answer of the discovery client and schema.ParseGroupVersion are
-- parameters.
use dr.Base.{
  String, ◌==◌, ◌&&◌, ◌||◌, not, Bool, true, false, Option, none, some, List, [], ◌∷◌, ◌++◌,
  if◌then◌else◌,
}
use dr.Api.{Fields, GroupVersionResource, ObjResource, ObjectAction, create, update, delete}

pub record ApiResource : Type 0 where
  pub name : String
  pub group : String
  pub version : String
  pub verbs : List String

pub record ApiResourceList : Type 0 where
  pub group_version : String
  pub api_resources : List ApiResource

pub record GroupVersion : Type 0 where
  pub group : String
  pub version : String

abbrev pub list_watch_exclude_groups : List String
list_watch_exclude_groups = "coordination.k8s.io" ∷ "events.k8s.io" ∷ "dr.pelicon.io" ∷ []

abbrev pub list_watch_exclude_resources : List String
list_watch_exclude_resources =
    "endpoints" ∷ "nodes" ∷ "events" ∷ "pods" ∷ "replicasets" ∷ "namespaces" ∷ "endpointslices"
    ∷ "controllerrevisions" ∷ "secrets" ∷ "limitranges" ∷ "apiservices" ∷ "csinodes" ∷ "roles"
    ∷ "rolebindings" ∷ "clusterrolebindings" ∷ "clusterroles" ∷ "customresourcedefinitions"
    ∷ "serviceaccounts" ∷ []

-- The loops of shouldListWatchGroup and shouldListWatchResource.
unfoldable pub excluded_from : List String → String → Bool
excluded_from [] s = false
excluded_from (x ∷ xs) s = x == s || excluded_from xs s

unfoldable pub should_list_watch_group : GroupVersion → Bool
should_list_watch_group gv = not (excluded_from list_watch_exclude_groups gv.group)

unfoldable pub should_list_watch_resource : String → Bool
should_list_watch_resource r = not (excluded_from list_watch_exclude_resources r)

unfoldable pub verbs_from : Bool → Bool → List String → Bool
verbs_from can_list can_watch [] = can_list && can_watch
verbs_from can_list can_watch (verb ∷ verbs) =
    verbs_from (if verb == "list" then true else can_list)
      (if verb == "watch" then true else can_watch) verbs

unfoldable pub can_list_watch : List String → Bool
unfolding verbs_from
can_list_watch verbs = verbs_from false false verbs

abbrev pub or_default : String → String → String
or_default own default = if own == "" then default else own

-- The body of the inner loop, past ParseGroupVersion.
unfoldable pub gvr_of : GroupVersion → ApiResource → List GroupVersionResource
gvr_of gv r =
    if not (can_list_watch r.verbs)
      || (not (should_list_watch_group gv) || not (should_list_watch_resource r.name))
    then []
    else record {
      group = or_default r.group gv.group;
      version = or_default r.version gv.version;
      resource = r.name;
    }
      ∷ []

module _ (parse_group_version : String → Option GroupVersion) where
  -- The resources of one list; where its group and version do not parse, none.
  unfoldable pub of_resources : String → List ApiResource → List GroupVersionResource
  of_resources text [] = []
  of_resources text (r ∷ rs) =
      let rest = of_resources text rs in
      elim (parse_group_version text) [ none ↦ rest | some gv ↦ gvr_of gv r ++ rest ]

  unfoldable pub gvr_to_watch : List ApiResourceList → List GroupVersionResource
  unfolding of_resources
  gvr_to_watch [] = []
  gvr_to_watch (k ∷ ks) = of_resources k.group_version k.api_resources ++ gvr_to_watch ks

pub data EventKind : Type 0 where
  added updated deleted : EventKind

abbrev pub action_of : EventKind → ObjectAction
action_of added = create
action_of updated = update
action_of deleted = delete

-- AddFunc, UpdateFunc and DeleteFunc of a resource's informer. `content` is what the converter
-- makes of the object. `Namespaced` is never set.
unfoldable pub on_event : GroupVersionResource → EventKind → Fields → ObjResource
on_event gvr e content = record {
  unstructured = content;
  gvr = gvr;
  namespaced = false;
  action = action_of e;
}
