-- ===== src/Om/Actions/Runs.antt =====
-- Actions built on concrete requests.
use hyperliquid_cpp.Base.{◌≡◌, refl, true, List, [], ◌∷◌, codes}
use hyperliquid_cpp.Om.Actions.Wire.{CancelWire, EncodedAction, digits_loop, uint_text, bool_text}
use hyperliquid_cpp.Om.Actions.Order.{json_list, encoded}
use hyperliquid_cpp.Base.Int.{pos}
use hyperliquid_cpp.Om.Actions.Others.{
  update_isolated_margin, json_fast, json_cancel, cancel, cancel_request, build,
}
use hyperliquid_cpp.Om.Actions.Tree.{Encodes}
use hyperliquid_cpp.Om.Actions.Trees.{request_tree}
use hyperliquid_cpp.Om.Actions.Requests.{build-Encodes}
use hyperliquid_cpp.Om.Actions.Margin.{MarginOutcome, update_isolated_margin-MarginOutcome}

abbrev two_cancels : List CancelWire
two_cancels = record { asset = 3; oid = 70000 } ∷ record { asset = 10000; oid = 5 } ∷ []

cancel_json_text :
    EncodedAction.json (cancel two_cancels true)
    ≡ codes
        "{\"type\":\"cancel\",\"cancels\":[{\"a\":3,\"o\":70000},{\"a\":10000,\"o\":5}],\"f\":true}"
unfolding cancel json_list json_cancel json_fast bool_text encoded uint_text digits_loop
cancel_json_text = refl

build-Encodes_example :
    Encodes (cancel two_cancels true) (request_tree (cancel_request two_cancels true))
build-Encodes_example =
    build-Encodes (cancel_request two_cancels true) (cancel two_cancels true) (unfold build in refl)

update_isolated_margin-MarginOutcome_example :
    MarginOutcome 3 (pos 12500) (update_isolated_margin 3 (record { raw = pos 12500 }))
update_isolated_margin-MarginOutcome_example =
    update_isolated_margin-MarginOutcome 3 (record { raw = pos 12500 })
