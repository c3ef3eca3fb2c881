-- ===== src/Insertion/Total.antt =====
-- What the writes of a validated block find in the tables.
use rsbanano_node.Prelude.{ℕ, ◌≡◌, ◌≢◌, true, some, arith, is_some, Option-cases, inl, inr}
use rsbanano_node.Prelude.Check.{ok, Result-cases}
use rsbanano_node.Prelude.Table.{get, del, nat_eq, get-put}
use rsbanano_node.Core.Types.{Account}
use rsbanano_node.Core.Block.{Block, hash, previous}
use rsbanano_node.Core.Saved.{SavedBlock, AccountInfo, PendingKey, pending_keys, reload}
use rsbanano_node.Ledger.Weights.{Weights}
use rsbanano_node.Ledger.Weights.Total.{representation_add-some, representation_add_dual-some}
use rsbanano_node.Ledger.Blocks.{Blocks, put_block}
use rsbanano_node.Ledger.State.{Ledger, Constants, update_account}
use rsbanano_node.Validation.Helpers.{
  BlockValidator, new_account_info, delete_received_pending_info,
}
use rsbanano_node.Validation.Rules.{ensure_valid_predecessor}
use rsbanano_node.Validation.Validate.{BlockInsertInstructions, create_instructions, validate}
use rsbanano_node.Validation.Accepted.{Accepted, validate-Accepted, receives_pending}
use rsbanano_node.Insertion.Factory.{create_validator, load_previous_block, load_pending}
use rsbanano_node.Insertion.Inserter.{
  insert, saved_block, delete_old_pending_info, update_representative_cache,
}
use rsbanano_node.Insertion.Process.{process, panicked}
use rsbanano_node.Insertion.Inverse.{old_info}

put_block-some :
    (blocks : Blocks) (s : SavedBlock)
    → (previous s.block ≢ 0 → is_some (get (previous s.block) blocks) ≡ true)
    → is_some (put_block blocks s) ≡ true
unfolding put_block
put_block-some blocks s h =
    ground (arith, get-put (hash s.block) (previous s.block) (reload s) blocks)

-- A block that names a previous one is accepted only if that one was found.
pub previous_found :
    (v : BlockValidator)
    → ensure_valid_predecessor v ≡ ok tt
    → previous v.block ≢ 0
    → is_some v.previous_block ≡ true
unfolding ensure_valid_predecessor
previous_found v h ne = ground arith

update_account-some :
    (l : Ledger) (a : Account) (old new : AccountInfo)
    → new.head ≢ 0
    → (old.head ≢ 0 → is_some (get a l.accounts) ≡ true)
    → is_some (update_account l a old new) ≡ true
unfolding update_account del
update_account-some l a old new ne h = ground arith

update_representative_cache-some :
    (i : BlockInsertInstructions) (w : Weights) → is_some (update_representative_cache i w) ≡ true
unfolding update_representative_cache
update_representative_cache-some i w =
    grind (arith, representation_add-some, representation_add_dual-some)

-- What the writes of the instructions need of the tables.
record Found (v : BlockValidator) (l : Ledger) : Type 0 where
  previous_block : previous v.block ≢ 0 → is_some (get (previous v.block) l.blocks) ≡ true
  account : (old_info v).head ≢ 0 → is_some (get v.account l.accounts) ≡ true
  pending :
      (key : PendingKey)
      → delete_received_pending_info v ≡ some key
      → is_some (get key l.pending) ≡ true

delete_old_pending_info-some :
    (v : BlockValidator) (l : Ledger)
    → Found v l
    → is_some (delete_old_pending_info (create_instructions v) l.pending) ≡ true
unfolding delete_old_pending_info create_instructions del
delete_old_pending_info-some v l f = elim (Option-cases (delete_received_pending_info v)) [
  | inl e ↦ ground arith
  | inr (key, e) ↦ ground (arith, f.pending key e)
]

update_account_tables :
    (l l' : Ledger) (a : Account) (old new : AccountInfo)
    → update_account l a old new ≡ some l'
    → (l'.pending ≡ l.pending) × (l'.weights ≡ l.weights)
unfolding update_account del
update_account_tables l l' a old new h = ground arith

insert-some :
    (v : BlockValidator) (l : Ledger)
    → hash v.block ≢ 0
    → Found v l
    → is_some (insert l v.block (create_instructions v)) ≡ true
unfolding insert create_instructions new_account_info
insert-some v l ne f =
    let i = create_instructions v in
    elim (Option-cases (put_block l.blocks (saved_block v.block i))) [
      | inl e ↦ ground (arith, put_block-some l.blocks (saved_block v.block i) f.previous_block)
      | inr (blocks, e) ↦
          let l0 = record l { blocks = blocks } in
          elim (Option-cases (update_account l0 v.account (old_info v) (new_account_info v))) [
            | inl e1 ↦ ground (
              arith,
              update_account-some l0 v.account (old_info v) (new_account_info v) ne f.account,
            )
            | inr (l1, e1) ↦ ground (
              arith,
              update_account_tables l0 l1 v.account (old_info v) (new_account_info v) e1,
              delete_old_pending_info-some v l f,
              update_representative_cache-some i l.weights,
            )
          ]
    ]

create_validator-Found :
    (c : Constants) (l : Ledger) (now : ℕ) (b : Block)
    → Accepted (create_validator c l now b)
    → Found (create_validator c l now b) l
unfolding create_validator load_previous_block load_pending delete_received_pending_info
create_validator-Found c l now b a =
    let v = create_validator c l now b in
    record {
      previous_block = λ ne. ground (arith, previous_found v a.predecessor ne);
      account = λ ne. ground arith;
      pending = λ key e. ground (arith, receives_pending v a.pending_correct);
    }

-- Processing a block, whose hash is not zero, ends with a result or with a reason, never in a panic,
-- in whatever state the ledger is.
pub process-ne-panicked :
    (c : Constants) (now : ℕ) (l : Ledger) (b : Block) → hash b ≢ 0 → process c now l b ≢ panicked
unfolding process create_validator
process-ne-panicked c now l b ne h =
    let v = create_validator c l now b in
    elim (Result-cases (validate v)) [
      | inl (e, q) ↦ ground arith
      | inr (i, q) ↦
          let (a, eq) = validate-Accepted v i q in
          ground (arith, insert-some v l ne (create_validator-Found c l now b a))
    ]
