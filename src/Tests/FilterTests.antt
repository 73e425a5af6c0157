-- ===== src/Tests/FilterTests.antt =====
-- One run of each theorem on the filters.
use dr.Base.{
  ◌==◌, sym, ◌∙◌, ap, eq_iff, inl, inr, All, ◌≡◌, ◌≢◌, refl, true, false, none, some, [], ◌∷◌,
  panic, Any,
}
use dr.Base.Text.{split, join}
use mathlib.Core.Bool.{false≢true}
use mathlib.Core.Path.{subst}
use dr.Api.{
  GroupVersionKind, VariableMappingFilterConfig, gvk_eq, gvr_eq, DrFilterConfig,
  WhiteListFilterConfig, VariableMapping, VariableMappings, str, Fields, end, field, get, var_str,
  create, ObjResource, persistent_volume_claim_gvr,
}
use dr.Filter.{out, add_default_config, variable_delete_out, variable_mapping_out, build_filters}
use dr.Filter.DefaultLaws.{variable_delete_out-add_default_config}
use dr.Filter.MappingLaws.{get-variable_mapping_out, SparesKey}
use dr.Worker.{filter}
use dr.Worker.Passing.{filter-build_filters, SharesKindOrName, volume_name}
use dr.Tests.Fixtures.{
  docs, text_at, document, config_map_kind, service_kind, config_map, white_list, filter_config,
}

abbrev named_white_list : WhiteListFilterConfig
named_white_list = record {
  object_white_list =
      record {
        gvk = config_map_kind;
        object_key = record { namespace = "shop"; name = "settings" };
      }
      ∷ [];
  kind_white_list = [];
}

variable_delete_out-add_default_config_example :
    (variable_delete_out docs
      (add_default_config (record filter_config { white_list_filter = some named_white_list }))
      (config_map "u1" "7" create)).1
    ≡ panic
variable_delete_out-add_default_config_example =
    variable_delete_out-add_default_config docs
      (record filter_config { white_list_filter = some named_white_list }) named_white_list _ []
      (config_map "u1" "7" create) refl refl

abbrev swap : VariableMapping
swap = record { from_sub_str = "a"; to_sub_str = "b"; variable_type = var_str }

abbrev mappings : VariableMappings
mappings = record {
  object = none;
  kind = some config_map_kind;
  key_value_mappings = ("data,host", swap) ∷ [];
}

abbrev mapping_config : DrFilterConfig
mapping_config = record filter_config {
  variable_mapping_filter =
      some (record { object_variable_mappings = []; kind_variable_mappings = mappings ∷ [] });
}

spares_kind :
    (c : VariableMappingFilterConfig)
    → mapping_config.variable_mapping_filter ≡ some c
    → All (SparesKey "kind") c.kind_variable_mappings
unfolding split
spares_kind c e =
    subst (λ o. elim o [ none ↦ Unit | some d ↦ All (SparesKey "kind") d.kind_variable_mappings ]) e
      ((refl, tt), tt)

get-variable_mapping_out_example :
    get "kind"
      (variable_mapping_out docs mapping_config (config_map "u1" "7" create)).0.unstructured
    ≡ get "kind" (config_map "u1" "7" create).unstructured
get-variable_mapping_out_example =
    get-variable_mapping_out docs "kind" mapping_config (config_map "u1" "7" create) spares_kind

abbrev inner : Fields
inner = field "host" (str "a") end

abbrev claim : ObjResource
claim = record {
  unstructured =
      field "spec,volumeName" (str "v") (document "PersistentVolumeClaim" "shop" "c" "u2" "3");
  gvr = persistent_volume_claim_gvr;
  namespaced = true;
  action = create;
}

kind_unlisted :
    (k : GroupVersionKind)
    → (text_at "kind" claim.unstructured == k.kind) ≡ false
    → ¬ (docs.group_version_kind claim.unstructured ≡ k)
kind_unlisted k e f = false≢true (
    sym e
    ∙ (eq_iff (text_at "kind" claim.unstructured) k.kind).1
        (ap (λ (g : GroupVersionKind). g.kind) f))

claim_unlisted : ¬ SharesKindOrName docs white_list claim
unfolding text_at get
claim_unlisted (inl (Any.here e)) = kind_unlisted config_map_kind refl e
claim_unlisted (inl (Any.there (Any.here e))) = kind_unlisted service_kind refl e
claim_unlisted (inl (Any.there (Any.there a))) = elim a [ ]
claim_unlisted (inr a) = elim a [ ]

abbrev claim_config : DrFilterConfig
claim_config = record filter_config {
  white_list_filter = some (record white_list {
    kind_white_list = record { group = ""; version = "v1"; kind = "PersistentVolumeClaim" } ∷ [];
  });
}

filter-build_filters_example :
    ((w : WhiteListFilterConfig) × (claim_config.white_list_filter ≡ some w)
      × SharesKindOrName docs w claim)
    × (claim.gvr ≡ persistent_volume_claim_gvr → volume_name docs claim ≢ "")
unfolding filter build_filters out gvk_eq text_at get gvr_eq join
filter-build_filters_example = filter-build_filters docs claim_config claim claim refl
