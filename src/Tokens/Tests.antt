-- ===== src/Tokens/Tests.antt =====
-- The token rules and the wallet (frontend/src/features/tokens) at concrete inputs.
use webmeow.Prelude.{String, ◌≡◌, ◌≢◌, refl, eq_iff, Option, none, some, List, [], ◌∷◌, arith}
use webmeow.Prelude.Int.{pos, ◌+ℤ◌, ◌-ℤ◌}
use webmeow.Tokens.Rules.{get_activity_token_cost}
use webmeow.Tokens.Wallet.{
  Wallet, empty_wallet, balance, credit_reservation_tokens, can_afford_activity,
  spend_activity_tokens, refund_activity_tokens,
}
use webmeow.Tokens.Wallet.Solvency.{
  IsSolvent, empty-IsSolvent, Call, credits, spends, refunds, run, run-IsSolvent,
}
use webmeow.Tokens.Wallet.Exchange.{worth, spend_stale-worth}

wallet : Unit {0}
unfolding credit_reservation_tokens can_afford_activity spend_activity_tokens refund_activity_tokens
    ◌+ℤ◌ ◌-ℤ◌
wallet = tt

-- Ann has the 16 tokens of one night in a suite, and rows for 4 of them.
abbrev rich : Wallet
rich = (credit_reservation_tokens empty_wallet "ann" "r1" (pos 16)).1

abbrev rowing : Wallet
rowing = (spend_activity_tokens rich "ann" "ACT005" (pos 4) none).1

abbrev calls : List Call
calls =
    credits "ann" "r1" (pos 16)
    ∷ spends "ann" "ACT005" (pos 4) none
    ∷ refunds "ann" "ACT005" (pos 4)
    ∷ []

kayak_cost : get_activity_token_cost "new" "Kayaking" ≡ 4
unfolding get_activity_token_cost
kayak_cost = refl

rowing-balance : balance rowing "ann" ≡ pos 12
unfolding wallet
rowing-balance = refl

run-IsSolvent_example : IsSolvent (run empty_wallet calls)
run-IsSolvent_example =
    run-IsSolvent empty_wallet calls (tt, (omega arith, (tt, tt))) empty-IsSolvent

bob_is_not_ann : ◌≢◌ {A = String} "ann" "bob"
bob_is_not_ann = ground (arith, eq_iff "ann" "bob")

none_is_not_some : ◌≢◌ {A = Option String} none (some "ACT005")
none_is_not_some e = ground arith

activities_differ : ◌≢◌ {A = String} "ACT005" "ACT006"
activities_differ = ground (arith, eq_iff "ACT005" "ACT006")

spend_stale-worth_example :
    worth (spend_activity_tokens rowing "ann" "ACT006" (pos 1) none).1 "ann" +ℤ pos 4
    ≡ worth rowing "ann"
unfolding wallet
spend_stale-worth_example =
    spend_stale-worth rowing "ann" "ACT006" (pos 1) none
      (record { activity_id = "ACT005"; cost = pos 4 }) refl none_is_not_some activities_differ refl
