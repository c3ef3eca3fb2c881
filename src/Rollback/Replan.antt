-- ===== src/Rollback/Replan.antt =====
-- The plan that rolls back a block right after its insertion.
use rsbanano_node.Prelude.{
  ℕ, zero, suc, ◌+◌, ◌<◌, ◌≡◌, ◌≢◌, true, false, Option, none, some, arith, is_some, Option-cases,
  Bool-cases, inl, inr, unwrap_or, ◌⊎◌,
}
use rsbanano_node.Prelude.Table.{get, nat_eq}
use rsbanano_node.Prelude.Check.{ok, Result-cases}
use rsbanano_node.Core.Types.{BlockHash, PublicKey}
use rsbanano_node.Core.Block.{Block, hash, previous, is_open, link_field, destination_or_link}
use rsbanano_node.Core.Saved.{
  PendingKey, PendingInfo, SavedBlock, height, saved_account, pending_keys,
}
use rsbanano_node.Ledger.Blocks.Laws.{touched}
use rsbanano_node.Ledger.State.{Ledger, Constants}
use rsbanano_node.Ledger.Valid.{IsValid, IsChained}
use rsbanano_node.Validation.Balance.{taken, offered, minted, Accepted-Balances}
use rsbanano_node.Core.BlockType.{BlockSubType}
use rsbanano_node.Core.Epoch.{is_epoch_link}
use rsbanano_node.Validation.Helpers.{
  is_send, BlockValidator, new_balance, old_balance, is_receive, new_pending_info, new_account_info,
}
use rsbanano_node.Insertion.Factory.{create_validator, load_previous_block}
use rsbanano_node.Insertion.Process.{process, done}
use rsbanano_node.Insertion.After.{accounts_after_self}
use rsbanano_node.Insertion.Total.{previous_found}
use rsbanano_node.Insertion.View.{InRange, view, view-Bounded}
use rsbanano_node.Insertion.Keeps.{written, old_found, get-process, block_is}
use rsbanano_node.Rollback.Finder.{find_rep_block}
use rsbanano_node.Rollback.Planner.{RollbackPlanner, planned_balance, block_sub_type}
use rsbanano_node.Rollback.Factory.{
  create_planner, planner_of, get_previous_representative, representative_block_hash,
  planner_previous,
}
use rsbanano_node.Rollback.Performer.{load_account_head}
use rsbanano_node.Rollback.Chain.{rep_step_cases, get_previous_representative_ends}

-- The block that the search finds is in the table.
find_rep_block-found :
    (l : Ledger) (fuel : ℕ) (j r : BlockHash)
    → IsValid l
    → find_rep_block fuel l.blocks j ≡ some r
    → r ≢ 0
    → is_some (get r l.blocks) ≡ true
unfolding find_rep_block
find_rep_block-found l zero j r v h ne = ground arith
find_rep_block-found l (suc fuel) j r v h ne = elim (Option-cases (get j l.blocks)) [
  | inl e ↦ ground arith
  | inr (s, e) ↦ elim (rep_step_cases s.block) [
    | inl q ↦ ground (arith, v.stored j s e, find_rep_block-found l fuel 0 r v)
    | inr q ↦ ground (arith, find_rep_block-found l fuel (previous s.block) r v)
  ]
]

-- The representative before a stored block is found.
representative_found :
    (l : Ledger) (head : SavedBlock)
    → IsValid l
    → IsChained l
    → get (hash head.block) l.blocks ≡ some head
    → (rep : Option PublicKey) × (get_previous_representative l head ≡ ok rep)
unfolding get_previous_representative
representative_found l head v k e = elim (Result-cases (get_previous_representative l head)) [
  | inr (rep, q) ↦ (rep, q)
  | inl (x, q) ↦ elim (Result-cases (representative_block_hash l head)) [
    | inl (y, z) ↦ ground (arith, get_previous_representative_ends l head v k e)
    | inr (r, z) ↦ elim (Option-cases (get r l.blocks)) [
      | inl w ↦ ground (arith, find_rep_block-found l (suc (height head)) (previous head.block) r v)
      | inr (y, w) ↦ ground arith
    ]
  ]
]

module _ (c : Constants) (now now' : ℕ) (l l' : Ledger) (b : Block) (s : SavedBlock) (k : IsValid l)
    (k' : IsValid l') (chain' : IsChained l') (ne : hash b ≢ 0) (r : InRange b)
    (h : process c now l b ≡ done (l', s)) where
  abbrev v : BlockValidator
  v = view c now l b

  pub own : s.block ≡ b
  own = block_is c now l l' b s k ne r h

  pub new_info_found : get v.account l'.accounts ≡ some (new_account_info v)
  new_info_found =
      ground (arith, accounts_after_self v l.accounts, (written c now l l' b s k ne r h).accounts)

  pub saved_found : get (hash b) l'.blocks ≡ some s
  saved_found = get-process c now l l' b s k ne r h

  pub owner : saved_account s ≡ v.account
  unfolding create_validator new_account_info
  owner =
      let d = k'.heads v.account (new_account_info v) new_info_found in
      ground (arith, d.found, d.account, saved_found)

  -- The previous block, as the new table has it.
  abbrev pub planned_previous : Option SavedBlock
  planned_previous = elim (load_previous_block l b) [
    | none ↦ none
    | some x ↦ some (touched s (previous b) x)
  ]

  previous_planned : planner_previous l' s ≡ ok planned_previous
  unfolding create_validator load_previous_block
  previous_planned = elim (Option-cases (get (previous b) l.blocks)) [
    | inl e ↦
        ground (arith, own, previous_found v (written c now l l' b s k ne r h).accepted.predecessor)
    | inr (x, e) ↦ ground (arith, own, old_found c now l l' b s k ne r h (previous b) x e)
  ]

  pub planned :
      (rep : Option PublicKey) × (create_planner c now' l' s
        ≡ ok (planner_of c now' l' s v.account rep planned_previous))
  unfolding create_planner
  planned =
      let (rep, q) = representative_found l' s k' chain' (ground (arith, own, saved_found)) in
      (rep, ground (arith, own, owner, saved_found, previous_planned, q))

  pub head_loaded : load_account_head l' s ≡ ok s
  unfolding create_validator load_account_head new_account_info
  head_loaded = ground (arith, owner, new_info_found, saved_found)

  abbrev pub planner : Option PublicKey → RollbackPlanner
  planner rep = planner_of c now' l' s v.account rep planned_previous

  pub planner_info :
      (rep : Option PublicKey) → (planner rep).current_account_info ≡ new_account_info v
  planner_info rep = ground (arith, new_info_found)

  pub planner_balance : (rep : Option PublicKey) → planned_balance (planner rep) ≡ old_balance v
  unfolding create_validator
  planner_balance rep =
      let w = written c now l l' b s k ne r h in
      elim (Option-cases (load_previous_block l b)) [
        | inl e ↦ ground (arith, (view-Bounded c now l b k r w.accepted).linked)
        | inr (x, e) ↦ ground (arith, (view-Bounded c now l b k r w.accepted).linked)
      ]

  balances : new_balance v + offered v ≡ old_balance v + taken v + minted v
  balances =
      let w = written c now l l' b s k ne r h in
      Accepted-Balances v w.accepted (view-Bounded c now l b k r w.accepted)

  module _ (z : minted v ≡ 0)
      (moves : new_balance v ≡ old_balance v
        → (is_receive v ≡ false) × (new_pending_info v ≡ none)) where
    pub sends :
        (rep : Option PublicKey)
        → new_balance v < old_balance v
        → block_sub_type (planner rep) ≡ BlockSubType.send
    unfolding block_sub_type new_account_info
    sends rep lt = ground (arith, planner_info rep, planner_balance rep)

    pub receives :
        (rep : Option PublicKey)
        → old_balance v < new_balance v
        → (block_sub_type (planner rep) ≡ BlockSubType.open_account)
          ⊎ (block_sub_type (planner rep) ≡ BlockSubType.receive)
    unfolding block_sub_type new_account_info
    receives rep lt = elim (Bool-cases (is_open s.block)) [
      | inl e ↦ inl (ground (arith, planner_info rep, planner_balance rep))
      | inr e ↦ inr (ground (arith, planner_info rep, planner_balance rep))
    ]

    pub stays :
        (rep : Option PublicKey)
        → new_balance v ≡ old_balance v
        → (block_sub_type (planner rep) ≡ BlockSubType.epoch)
          ⊎ (block_sub_type (planner rep) ≡ BlockSubType.change)
    unfolding block_sub_type new_account_info
    stays rep eq = elim (Bool-cases (is_epoch_link c.epochs (unwrap_or (link_field s.block) 0))) [
      | inl e ↦ inl (ground (arith, planner_info rep, planner_balance rep))
      | inr e ↦ inr (ground (arith, planner_info rep, planner_balance rep))
    ]

    -- A send has made a receivable entry, and received nothing.
    pub sent_cases :
        (key : PendingKey) (info : PendingInfo)
        → new_pending_info v ≡ some (key, info)
        → (new_balance v < old_balance v)
          × (is_receive v ≡ false)
          × (key ≡ record { receiving_account = destination_or_link b; send_block_hash = hash b })
    unfolding create_validator new_pending_info is_receive is_send
    sent_cases key info e = ground (arith, balances, z, moves)

    pub received_cases :
        is_receive v ≡ true → (old_balance v < new_balance v) × (new_pending_info v ≡ none)
    unfolding create_validator new_pending_info is_receive is_send
    received_cases e = ground (arith, balances, z, moves)

    pub other_cases :
        is_receive v ≡ false → new_pending_info v ≡ none → new_balance v ≡ old_balance v
    other_cases e q = ground (arith, balances, z)
