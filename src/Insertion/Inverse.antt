-- ===== src/Insertion/Inverse.antt =====
-- What a successful `Ledger::process` has written, field by field.
use rsbanano_node.Prelude.{
  ℕ, ◌≡◌, ◌≢◌, Bool, true, not, ◌&&◌, none, some, arith, if◌then◌else◌, unwrap_or, is_some,
  Option-cases, inl, inr,
}
use rsbanano_node.Prelude.Check.{Result-cases}
use rsbanano_node.Prelude.Table.{Table, get, put, erase, del, nat_eq}
use rsbanano_node.Prelude.Word.{add_u64}
use rsbanano_node.Core.Types.{Account, is_zero}
use rsbanano_node.Core.Epoch.{epoch_eq}
use rsbanano_node.Core.Block.{Block, hash}
use rsbanano_node.Core.Saved.{SavedBlock, AccountInfo, PendingKey, default_info, pending_keys}
use rsbanano_node.Ledger.Blocks.{put_block}
use rsbanano_node.Ledger.State.{Ledger, Constants, update_account}
use rsbanano_node.Validation.Helpers.{
  BlockValidator, new_account_info, delete_received_pending_info, new_pending_info,
}
use rsbanano_node.Validation.Validate.{create_instructions, validate}
use rsbanano_node.Validation.Accepted.{Accepted, validate-Accepted}
use rsbanano_node.Insertion.Factory.{create_validator}
use rsbanano_node.Insertion.Inserter.{
  Pending, insert, saved_block, delete_old_pending_info, insert_new_pending_info,
  update_representative_cache,
}
use rsbanano_node.Insertion.Process.{process, done}

abbrev pub old_info : BlockValidator → AccountInfo
old_info v = unwrap_or v.old_account_info default_info

abbrev pub is_upgrade : BlockValidator → Bool
is_upgrade v =
    not (is_zero (old_info v).head) && not (epoch_eq (old_info v).epoch (new_account_info v).epoch)

abbrev pub accounts_after : BlockValidator → Table Account AccountInfo → Table Account AccountInfo
accounts_after v t =
    put v.account (new_account_info v) (if is_upgrade v then erase v.account t else t)

abbrev pub pending_taken : BlockValidator → Pending → Pending
pending_taken v t = elim (delete_received_pending_info v) [ none ↦ t | some key ↦ erase key t ]

abbrev pub pending_after : BlockValidator → Pending → Pending
pending_after v t = elim (new_pending_info v) [
  | none ↦ pending_taken v t
  | some (key, info) ↦ put key info (pending_taken v t)
]

pub record Written (v : BlockValidator) (l l' : Ledger) (s : SavedBlock) : Type 0 where
  pub accepted : Accepted v
  pub saved : s ≡ saved_block v.block (create_instructions v)
  pub blocks : put_block l.blocks s ≡ some l'.blocks
  pub accounts : l'.accounts ≡ accounts_after v l.accounts
  pub pending : l'.pending ≡ pending_after v l.pending
  pub weights : update_representative_cache (create_instructions v) l.weights ≡ some l'.weights
  pub pruned : l'.pruned ≡ l.pruned
  pub confirmation : l'.confirmation_height ≡ l.confirmation_height
  pub block_count : l'.block_count ≡ add_u64 l.block_count 1
  pub taken :
      (key : PendingKey)
      → delete_received_pending_info v ≡ some key
      → is_some (get key l.pending) ≡ true

update_account_inv :
    (l l' : Ledger) (a : Account) (old new : AccountInfo)
    → new.head ≢ 0
    → update_account l a old new ≡ some l'
    → (l'.accounts
        ≡ put a new (
            if not (is_zero old.head) && not (epoch_eq old.epoch new.epoch)
            then erase a l.accounts
            else l.accounts))
      × (l'.blocks ≡ l.blocks)
      × (l'.pending ≡ l.pending)
      × (l'.weights ≡ l.weights)
      × (l'.pruned ≡ l.pruned)
      × (l'.confirmation_height ≡ l.confirmation_height)
      × (l'.block_count ≡ l.block_count)
unfolding update_account del
update_account_inv l l' a old new ne h = ground arith

insert_inv :
    (v : BlockValidator) (l l' : Ledger) (s : SavedBlock)
    → hash v.block ≢ 0
    → Accepted v
    → insert l v.block (create_instructions v) ≡ some (l', s)
    → Written v l l' s
unfolding insert create_instructions delete_old_pending_info insert_new_pending_info del
    new_account_info
insert_inv v l l' s ne a h =
    let i = create_instructions v in
    elim (Option-cases (put_block l.blocks (saved_block v.block i))) [
      | inl e ↦ ground arith
      | inr (blocks, e) ↦
          let l0 = record l { blocks = blocks } in
          elim (Option-cases (update_account l0 v.account (old_info v) (new_account_info v))) [
            | inl e1 ↦ ground arith
            | inr (l1, e1) ↦
                ground (
                  arith,
                  update_account_inv l0 l1 v.account (old_info v) (new_account_info v) ne e1,
                )
          ]
    ]

-- A call that succeeds has passed every check, and has made the writes of its instructions.
pub process-Written :
    (c : Constants) (now : ℕ) (l l' : Ledger) (b : Block) (s : SavedBlock)
    → hash b ≢ 0
    → process c now l b ≡ done (l', s)
    → Written (create_validator c l now b) l l' s
unfolding process create_validator
process-Written c now l l' b s ne h =
    let v = create_validator c l now b in
    elim (Result-cases (validate v)) [
      | inl (e, q) ↦ ground arith
      | inr (i, q) ↦
          ground
            (arith, validate-Accepted v i q, insert_inv v l l' s ne (validate-Accepted v i q).0)
    ]
