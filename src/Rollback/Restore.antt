-- ===== src/Rollback/Restore.antt =====
-- Rolling a block back right after its insertion: the account table and the block table.
use rsbanano_node.Prelude.{
  ℕ, ◌+◌, ◌<◌, ◌≡◌, ◌≢◌, true, Option, none, some, arith, is_some, Option-cases, Bool-cases, inl,
  inr, map_or, ◌==◌, ==_iff, if◌then◌else◌,
}
use rsbanano_node.Prelude.Word.{u64_mod}
use rsbanano_node.Prelude.Table.{
  IsUnique, get, del, erase, nat_eq, get-put_self, get-put_ne, get-erase_ne, get-erase_self,
}
use rsbanano_node.Core.Types.{Account, BlockHash, PublicKey, is_zero}
use rsbanano_node.Core.Amount.{Amount}
use rsbanano_node.Core.Epoch.{Epoch}
use rsbanano_node.Core.Block.{Block, hash, previous}
use rsbanano_node.Core.Saved.{SavedBlock, AccountInfo, pending_keys}
use rsbanano_node.Ledger.State.{Ledger, Constants, update_account}
use rsbanano_node.Ledger.Valid.{IsValid, IsChained}
use rsbanano_node.Validation.Helpers.{BlockValidator, new_account_info, new_block_count}
use rsbanano_node.Validation.Accepted.{previous-head, previous-new}
use rsbanano_node.Insertion.Factory.{create_validator, load_previous_block}
use rsbanano_node.Insertion.Inserter.{Pending}
use rsbanano_node.Insertion.Process.{process, done}
use rsbanano_node.Insertion.After.{accounts_after-other}
use rsbanano_node.Insertion.View.{InRange, view}
use rsbanano_node.Insertion.Keeps.{written}
use rsbanano_node.Rollback.Planner.{
  RollbackPlanner, RollbackInstructions, rollback_instructions, previous_account_info,
}
use rsbanano_node.Rollback.Replan.{own, planner, planner_info, planner_balance, new_info_found}

-- What an account's record says, but for its representative and the time of its last change.
abbrev pub content : Option AccountInfo → Option (BlockHash × BlockHash × Amount × ℕ × Epoch)
content none = none
content (some i) = some (i.head, i.open_block, i.balance, i.block_count, i.epoch)

-- The account table after an update of an account that is there.
record Updated (l l2 : Ledger) (a : Account) (new : AccountInfo) : Type 0 where
  self : get a l2.accounts ≡ (if is_zero new.head then none else some new)
  others : (j : Account) → a ≢ j → get j l2.accounts ≡ get j l.accounts
  pending : l2.pending ≡ l.pending
  blocks : l2.blocks ≡ l.blocks
  weights : l2.weights ≡ l.weights

update_account-Updated :
    (l : Ledger) (a : Account) (old new : AccountInfo)
    → IsUnique l.accounts
    → is_some (get a l.accounts) ≡ true
    → (l2 : Ledger) × (update_account l a old new ≡ some l2) × Updated l l2 a new
unfolding update_account del
update_account-Updated l a old new u there = elim (Option-cases (update_account l a old new)) [
  | inl e ↦ ground arith
  | inr (l2, e) ↦ (
    l2,
    e,
    record {
      self = ground (
        arith,
        get-erase_self a l.accounts u,
        get-put_self a new l.accounts,
        get-put_self a new (erase a l.accounts),
      );
      others = λ j ne. ground (
        arith,
        get-erase_ne a j l.accounts ne,
        get-put_ne a j new l.accounts ne,
        get-put_ne a j new (erase a l.accounts) ne,
      );
      pending = ground arith;
      blocks = ground arith;
      weights = ground arith;
    },
  )
]

module _ (c : Constants) (now now' : ℕ) (l l' : Ledger) (b : Block) (s : SavedBlock) (k : IsValid l)
    (k' : IsValid l') (chain' : IsChained l') (ne : hash b ≢ 0) (r : InRange b)
    (h : process c now l b ≡ done (l', s)) (rep : Option PublicKey) where
  abbrev v : BlockValidator
  v = view c now l b

  abbrev p : RollbackPlanner
  p = planner c now now' l l' b s k k' chain' ne r h rep

  opened_here : previous b ≡ 0 → v.old_account_info ≡ none
  unfolding create_validator
  opened_here z = elim (Option-cases v.old_account_info) [
    | inl e ↦ e
    | inr (info, e) ↦ ground (
      arith,
      previous-head v info (written c now l l' b s k ne r h).accepted.previous_correct e,
      (k.heads v.account info e).nonzero,
    )
  ]

  opened_head : previous b ≡ 0 → (previous_account_info p).head ≡ 0
  unfolding previous_account_info
  opened_head z = ground (arith, own c now now' l l' b s k k' chain' ne r h)

  there_before : previous b ≢ 0 → (info : AccountInfo) × (v.old_account_info ≡ some info)
  unfolding create_validator
  there_before z = elim (Option-cases v.old_account_info) [
    | inl e ↦
        ground (arith, previous-new v (written c now l l' b s k ne r h).accepted.previous_correct e)
    | inr (info, e) ↦ (info, e)
  ]

  -- The record that is put back says what the old one said.
  info_back :
      (info : AccountInfo)
      → v.old_account_info ≡ some info
      → info.block_count + 1 < u64_mod
      → (content (some (previous_account_info p)) ≡ content (some info))
        × ((previous_account_info p).head ≢ 0)
  unfolding create_validator previous_account_info load_previous_block new_account_info
      new_block_count
  info_back info e o =
      let w = written c now l l' b s k ne r h in
      let d = k.heads v.account info e in
      ground (
        arith,
        own c now now' l l' b s k k' chain' ne r h,
        planner_info c now now' l l' b s k k' chain' ne r h rep,
        planner_balance c now now' l l' b s k k' chain' ne r h rep,
        previous-head v info w.accepted.previous_correct e,
        d.found,
        d.nonzero,
        d.epoch,
      )

  -- Accounts besides the block's own.
  other_account : (a : Account) → v.account ≢ a → get a l'.accounts ≡ get a l.accounts
  other_account a q =
      ground
        (arith, accounts_after-other v l.accounts a q, (written c now l l' b s k ne r h).accounts)

  own_account :
      map_or v.old_account_info 0 (λ x. x.block_count) + 1 < u64_mod
      → content
          (if is_zero (previous_account_info p).head then none else some (previous_account_info p))
        ≡ content (get v.account l.accounts)
  unfolding create_validator
  own_account o = elim (Bool-cases (previous b == 0)) [
    | inl z ↦ ground (arith, opened_here, own c now now' l l' b s k k' chain' ne r h, opened_head)
    | inr z ↦ let (info, e) = there_before (λ x. ground arith) in ground (arith, info_back info e)
  ]

  abbrev i : RollbackInstructions
  i = rollback_instructions p

  pub accounts_back :
      map_or v.old_account_info 0 (λ x. x.block_count) + 1 < u64_mod
      → (t : Pending)
      → (l2 : Ledger) × (update_account
            (record l' { pending = t })
            i.account
            i.old_account_info
            i.set_account_info
          ≡ some l2)
        × ((a : Account) → content (get a l2.accounts) ≡ content (get a l.accounts))
        × (l2.pending ≡ t)
        × (l2.blocks ≡ l'.blocks)
        × (l2.weights ≡ l'.weights)
  unfolding rollback_instructions
  accounts_back o t =
      let f = new_info_found c now now' l l' b s k k' chain' ne r h in
      let (l2, e, d) =
        update_account-Updated (record l' { pending = t }) v.account i.old_account_info
          (previous_account_info p) k'.accounts_unique (ground (arith, f)) in
      (
        l2,
        e,
        λ a. elim (Bool-cases (v.account == a)) [
          | inl q ↦
              let same : v.account ≡ a = (==_iff v.account a).0 q in
              ground (arith, d.self, own_account o)
          | inr q ↦
              let other : v.account ≢ a = λ x. ground (arith, (==_iff v.account a).1 x) in
              ground (arith, d.others a other, other_account a other)
        ],
        d.pending,
        d.blocks,
        d.weights,
      )
