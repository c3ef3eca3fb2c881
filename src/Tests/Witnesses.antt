-- ===== src/Tests/Witnesses.antt =====
-- The theorems at inputs that meet their hypotheses.
use rsbanano_node.Prelude.{
  true, false, map_or, ◌<◌, ◌≤◌, [], ◌∷◌, ◌≡◌, ◌≢◌, ◌+◌, refl, none, some, arith,
}
use rsbanano_node.Prelude.Table.{get, nat_eq}
use rsbanano_node.Prelude.Word.{u64_mod}
use rsbanano_node.Core.Details.{packed, unpack, unpack-packed}
use rsbanano_node.Core.Work.{
  with_difficulty, is_valid_pow, validate_entry_block, entry-is_valid_pow,
}
use rsbanano_node.Core.Block.{hash, signature}
use rsbanano_node.Ledger.State.{Ledger, BlockStatus}
use rsbanano_node.Ledger.Valid.{IsValid, IsChained, supply}
use rsbanano_node.Validation.Helpers.{is_receive, new_balance, old_balance, new_pending_info}
use rsbanano_node.Validation.Balance.{minted}
use rsbanano_node.Insertion.Factory.{account_of, receive_key}
use rsbanano_node.Insertion.Process.{process, done, rejected, panicked}
use rsbanano_node.Insertion.View.{InRange, view}
use rsbanano_node.Insertion.Supply.{supply-process}
use rsbanano_node.Insertion.Total.{process-ne-panicked}
use rsbanano_node.Insertion.Keeps.{process-IsValid, get-process}
use rsbanano_node.Insertion.Weights.{WeightsMatch, process-WeightsMatch}
use rsbanano_node.Insertion.Epochs.{Upgraded, process-Upgraded}
use rsbanano_node.Insertion.Once.{process-process, process-fork, process-double_receive}
use rsbanano_node.Insertion.Reached.{IsSound, Reached-IsSound}
use rsbanano_node.Tests.Network.{ledger_genesis, ledger_first, genesis_added, first-Reached}
use rsbanano_node.Insertion.Chained.{process-IsChained}
use rsbanano_node.Prelude.Check.{ok, err}
use rsbanano_node.Rollback.Planner.{Stop}
use rsbanano_node.Rollback.Factory.{create_planner, confirmation_of}
use rsbanano_node.Rollback.Chain.{create_planner-ne-endless}
use rsbanano_node.Rollback.Performer.{rollback}
use rsbanano_node.Rollback.Inverse.{Restored, rollback-process}
use rsbanano_node.Rollback.Confirmed.{IsSafe, rollback-IsSafe}
use rsbanano_node.Tests.Unfolded.{all_unfolded}
use rsbanano_node.Tests.Fixture.{constants, ledger, receiving, receive_details, sending}
use rsbanano_node.Tests.Runs.{
  received, ledger_received, receiving_done, forking, upgrading, upgraded, ledger_upgraded,
  upgrading_done,
}
use rsbanano_node.Tests.Facts.{
  ledger-IsValid, ledger-WeightsMatch, blocks-IsKeyed, ledger-IsChained, sending_found,
}

receiving_named : hash receiving ≢ 0
receiving_named = omega arith

receiving-InRange : InRange receiving
receiving-InRange = omega arith

receiving_mints : minted (view constants 7 ledger receiving) ≡ 0
unfolding all_unfolded
receiving_mints = refl

supply-process_example :
    supply ledger_received ≡ supply ledger + minted (view constants 7 ledger receiving)
supply-process_example =
    supply-process constants 7 ledger ledger_received receiving received ledger-IsValid
      receiving_named receiving-InRange receiving_done

process-IsValid_example : IsValid ledger_received
process-IsValid_example =
    process-IsValid constants 7 ledger ledger_received receiving received ledger-IsValid
      receiving_named receiving-InRange receiving_mints receiving_done

get-process_example : get 102 ledger_received.blocks ≡ some received
get-process_example =
    get-process constants 7 ledger ledger_received receiving received ledger-IsValid receiving_named
      receiving-InRange receiving_done

process-ne-panicked_example : process constants 7 ledger receiving ≢ panicked
process-ne-panicked_example = process-ne-panicked constants 7 ledger receiving receiving_named

unpack-packed_example :
    (unpack (packed receive_details) ≡ some receive_details) × (packed receive_details < 256)
unpack-packed_example = unpack-packed receive_details

receiving_works :
    is_valid_pow (with_difficulty (λ root work. work) 30 40 20) receiving receive_details ≡ true
unfolding all_unfolded with_difficulty
receiving_works = refl

entry-is_valid_pow_example :
    validate_entry_block (with_difficulty (λ root work. work) 30 40 20) receiving ≡ true
entry-is_valid_pow_example =
    entry-is_valid_pow (λ root work. work) 30 40 20 receiving receive_details (omega arith) refl
      receiving_works

process-WeightsMatch_example : WeightsMatch ledger_received
process-WeightsMatch_example =
    process-WeightsMatch constants 7 ledger ledger_received receiving received ledger-IsValid
      receiving_named receiving-InRange receiving_mints ledger-WeightsMatch receiving_done

process-process_example : process constants 8 ledger_received receiving ≡ rejected BlockStatus.old
process-process_example =
    process-process constants 7 8 ledger ledger_received receiving received ledger-IsValid
      receiving_named receiving-InRange receiving_done

forking_named : hash forking ≢ 0
forking_named = omega arith

same_account : account_of ledger_received forking ≡ account_of ledger receiving
unfolding all_unfolded
same_account = refl

process-fork_example : process constants 8 ledger_received forking ≢ done (ledger, received)
process-fork_example =
    process-fork constants 7 8 ledger ledger_received ledger receiving forking received received
      ledger-IsValid receiving_named forking_named receiving-InRange receiving_done same_account
      refl

receiving_receives : is_receive (view constants 7 ledger receiving) ≡ true
unfolding all_unfolded
receiving_receives = refl

forking_receives : is_receive (view constants 8 ledger_received forking) ≡ true
unfolding all_unfolded
forking_receives = refl

same_key : receive_key ledger_received forking ≡ receive_key ledger receiving
unfolding all_unfolded
same_key = refl

process-double_receive_example :
    process constants 8 ledger_received forking ≢ done (ledger, received)
process-double_receive_example =
    process-double_receive constants 7 8 ledger ledger_received ledger receiving forking received
      received ledger-IsValid receiving_named forking_named receiving_done receiving_receives
      forking_receives same_key

upgrading_named : hash upgrading ≢ 0
upgrading_named = omega arith

upgrading-InRange : InRange upgrading
upgrading-InRange = omega arith

not_signed_by_10 :
    constants.verify (account_of ledger upgrading) (hash upgrading) (signature upgrading) ≡ false
unfolding all_unfolded
not_signed_by_10 = refl

process-Upgraded_example : Upgraded constants ledger ledger_upgraded upgrading
process-Upgraded_example =
    process-Upgraded constants 7 ledger ledger_upgraded upgrading upgraded ledger-IsValid
      upgrading_named upgrading-InRange not_signed_by_10 upgrading_done

rollback-IsSafe_example : IsSafe ledger (rollback 5 constants 9 ledger 101).0.ledger
rollback-IsSafe_example = rollback-IsSafe 5 constants 9 ledger 101 blocks-IsKeyed

few_blocks :
    map_or (view constants 7 ledger receiving).old_account_info 0 (λ i. i.block_count) + 1 < u64_mod
unfolding all_unfolded
few_blocks = omega arith

process-IsChained_example : IsChained ledger_received
process-IsChained_example =
    process-IsChained constants 7 ledger ledger_received receiving received ledger-IsValid
      ledger-IsChained receiving_named receiving-InRange few_blocks receiving_done

create_planner-ne-endless_example : create_planner constants 9 ledger sending ≢ err Stop.endless
create_planner-ne-endless_example =
    create_planner-ne-endless constants 9 ledger sending ledger-IsValid ledger-IsChained
      sending_found

receiving_moves :
    new_balance (view constants 7 ledger receiving)
      ≡ old_balance (view constants 7 ledger receiving)
    → (is_receive (view constants 7 ledger receiving) ≡ false)
      × (new_pending_info (view constants 7 ledger receiving) ≡ none)
unfolding all_unfolded
receiving_moves e = absurd (omega (arith, e))

few_confirmed :
    (confirmation_of ledger (account_of ledger receiving)).height
    ≤ map_or (view constants 7 ledger receiving).old_account_info 0 (λ i. i.block_count)
unfolding all_unfolded
few_confirmed = omega arith

rollback-process_example :
    (l2 : Ledger) × (rollback 2 constants 9 ledger_received 102
      ≡ (record { ledger = l2; rolled_back = received ∷ [] }, ok tt))
    × Restored ledger l2
rollback-process_example =
    rollback-process 0 constants 7 9 ledger ledger_received receiving received ledger-IsValid
      ledger-IsChained receiving_named receiving-InRange receiving_mints receiving_moves few_blocks
      few_confirmed receiving_done

Reached-IsSound_example : IsSound ledger_first
Reached-IsSound_example =
    Reached-IsSound constants 0 3 0
      (record {
        source = 10;
        representative = 10;
        account = 10;
        signature = 10;
        work = 50;
        hash = 99;
      })
      ledger_genesis ledger_first refl refl (omega arith) genesis_added first-Reached
