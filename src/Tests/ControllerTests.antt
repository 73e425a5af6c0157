-- ===== src/Tests/ControllerTests.antt =====
-- One run of each theorem on the controllers.
use dr.Base.{◌≡◌, ◌==◌, refl, false, none, some, failure}
use dr.Base.Dict.{lookup}
use dr.Api.{DrNamespace}
use dr.Controller.{
  StatusToUpdate, condition_key, conditions_or_empty, with_condition, found, not_found, reconcile,
}
use dr.Controller.StatusLaws.{item, update_condition_found, update_condition_kept}
use dr.Controller.NamespaceLaws.{RemembersBoth, reconcile-RemembersBoth, reconcile_recreated}
use dr.Tests.Fixtures.{filter_config}
use dr.Tests.Objects.{status, shop, one_object, condition_of, running}

abbrev first_item : StatusToUpdate
first_item = item "shop" "dr" (condition_of "shop" "a") shop

abbrev after_first : DrNamespace
after_first = record shop { status = with_condition (condition_of "shop" "a") status }

abbrev second_item : StatusToUpdate
second_item = item "shop" "dr" (condition_of "shop" "b") after_first

update_condition_kept_example :
    (lookup (condition_key (condition_of "shop" "a")) (conditions_or_empty first_item.status)
      ≡ some (condition_of "shop" "a"))
    × (lookup (condition_key (condition_of "shop" "b")) (conditions_or_empty second_item.status)
        ≡ some (condition_of "shop" "b"))
    × ((condition_key (condition_of "shop" "b") == condition_key (condition_of "shop" "a")) ≡ false
        → (after_first.status ≡ first_item.status
            → lookup
                (condition_key (condition_of "shop" "a"))
                (conditions_or_empty second_item.status)
              ≡ some (condition_of "shop" "a"))
          × (after_first.status ≡ shop.status
              → lookup
                  (condition_key (condition_of "shop" "a"))
                  (conditions_or_empty second_item.status)
                ≡ lookup
                    (condition_key (condition_of "shop" "a"))
                    (conditions_or_empty shop.status)))
update_condition_kept_example =
    update_condition_kept one_object shop after_first "shop" "dr" (condition_of "shop" "a")
      (condition_of "shop" "b") shop after_first first_item second_item refl
      (update_condition_found one_object shop "shop" "dr" (condition_of "shop" "a") shop refl) refl
      (update_condition_found one_object after_first "shop" "dr" (condition_of "shop" "b")
        after_first refl)

reconcile-RemembersBoth_example : RemembersBoth (reconcile "shop" (found shop) running).state
reconcile-RemembersBoth_example = reconcile-RemembersBoth "shop" (found shop) running refl

reconcile_recreated_example :
    (reconcile "shop"
      (found (record shop {
        spec = record shop.spec {
          dr_filter_config = record filter_config { white_list_filter = none };
        };
      }))
      (reconcile "shop" (not_found (failure "gone")) running).state).state.container
    ≡ (reconcile "shop"
        (found shop)
        (reconcile "shop" (not_found (failure "gone")) running).state).state.container
unfolding lookup
reconcile_recreated_example =
    reconcile_recreated shop shop (record filter_config { white_list_filter = none })
      (failure "gone") running refl
