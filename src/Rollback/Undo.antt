-- ===== src/Rollback/Undo.antt =====
-- Rolling a block back right after its insertion: the pending table and the plan.
use rsbanano_node.Prelude.{
  ℕ, ◌≡◌, ◌≢◌, true, false, Option, none, some, arith, Option-cases, Bool-cases, inl, inr, leb,
}
use rsbanano_node.Prelude.Table.{
  get, put, del, erase, nat_eq, get-put_self, get-put_ne, get-erase_ne, get-erase_self,
}
use rsbanano_node.Prelude.Check.{ok}
use rsbanano_node.Core.Types.{PublicKey}
use rsbanano_node.Core.Amount.{Amount}
use rsbanano_node.Core.Epoch.{Epoch}
use rsbanano_node.Core.Block.{Block, hash}
use rsbanano_node.Core.Saved.{
  SavedBlock, PendingKey, PendingInfo, pending_keys, pending_key_eq, pending_key_eq_iff, height,
  saved_account,
}
use rsbanano_node.Ledger.State.{Ledger, Constants}
use rsbanano_node.Ledger.Valid.{IsValid, IsChained}
use rsbanano_node.Validation.Helpers.{
  BlockValidator, new_balance, old_balance, is_receive, new_pending_info, new_account_info,
  delete_received_pending_info, new_sideband,
}
use rsbanano_node.Validation.Validate.{create_instructions}
use rsbanano_node.Validation.Accepted.{receives_pending}
use rsbanano_node.Validation.Balance.{minted, Accepted-Balances}
use rsbanano_node.Insertion.Factory.{create_validator, load_pending, receive_key}
use rsbanano_node.Insertion.Inserter.{Pending}
use rsbanano_node.Insertion.Process.{process, done}
use rsbanano_node.Insertion.Supply.{offered_new}
use rsbanano_node.Insertion.View.{InRange, view, view-Bounded}
use rsbanano_node.Insertion.Keeps.{written}
use rsbanano_node.Rollback.Planner.{
  RollbackPlanner, RollbackInstructions, RollbackStep, plan, rollback_instructions, add_pending,
  remove_pending, ensure_block_is_not_confirmed, destination_step,
}
use rsbanano_node.Rollback.Factory.{confirmation_of}
use rsbanano_node.Rollback.Executor.{update_pending_table}
use rsbanano_node.Rollback.Replan.{
  own, planner, planner_info, planner_balance, sends, receives, stays, sent_cases, received_cases,
  other_cases,
}

-- What a receivable entry promises, whoever it came from.
abbrev pub promise : Option PendingInfo → Option (Amount × Epoch)
promise none = none
promise (some p) = some (p.amount, p.epoch)

-- A table that promises what another does.
abbrev pub SamePromises : Pending → Pending → Type 0
SamePromises t t' = (key : PendingKey) → promise (get key t) ≡ promise (get key t')

module _ (c : Constants) (now now' : ℕ) (l l' : Ledger) (b : Block) (s : SavedBlock) (k : IsValid l)
    (k' : IsValid l') (chain' : IsChained l') (ne : hash b ≢ 0) (r : InRange b)
    (h : process c now l b ≡ done (l', s)) (z : minted (view c now l b) ≡ 0)
    (moves : new_balance (view c now l b) ≡ old_balance (view c now l b)
      → (is_receive (view c now l b) ≡ false) × (new_pending_info (view c now l b) ≡ none))
    (rep : Option PublicKey) where
  abbrev v : BlockValidator
  v = view c now l b

  abbrev p : RollbackPlanner
  p = planner c now now' l l' b s k k' chain' ne r h rep

  abbrev i : RollbackInstructions
  i = rollback_instructions p

  -- A send takes its receivable entry back.
  send_back :
      (key : PendingKey) (info : PendingInfo)
      → new_pending_info v ≡ some (key, info)
      → (remove_pending p ≡ some key)
        × (add_pending p ≡ none)
        × (l'.pending ≡ put key info l.pending)
  unfolding remove_pending add_pending delete_received_pending_info create_validator
  send_back key info e =
      let (lt, unreceived, is) =
        sent_cases c now now' l l' b s k k' chain' ne r h z moves key info e in
      ground (
        arith,
        own c now now' l l' b s k k' chain' ne r h,
        sends c now now' l l' b s k k' chain' ne r h z moves rep lt,
        (written c now l l' b s k ne r h).pending,
      )

  -- A receive puts its receivable entry back.
  receive_back :
      is_receive v ≡ true
      → (x : PendingInfo) × (get (receive_key l b) l.pending ≡ some x)
        × (remove_pending p ≡ none)
        × (l'.pending ≡ erase (receive_key l b) l.pending)
        × (add_pending p
            ≡ some (
              receive_key l b,
              record { source = p.linked_account; amount = x.amount; epoch = x.epoch },
            ))
  unfolding remove_pending add_pending delete_received_pending_info create_validator load_pending
      new_account_info create_instructions new_sideband
  receive_back e =
      let w = written c now l l' b s k ne r h in
      let (lt, unsent) = received_cases c now now' l l' b s k k' chain' ne r h z moves e in
      let (x, found, amount) = receives_pending v w.accepted.pending_correct e in
      let bal = Accepted-Balances v w.accepted (view-Bounded c now l b k r w.accepted) in
      let q = own c now now' l l' b s k k' chain' ne r h in
      let i = planner_info c now now' l l' b s k k' chain' ne r h rep in
      let j = planner_balance c now now' l l' b s k k' chain' ne r h rep in
      elim (receives c now now' l l' b s k k' chain' ne r h z moves rep lt) [
        | inl t ↦ (
          x,
          ground arith,
          ground arith,
          ground (arith, w.pending),
          ground (arith, t, q, i, j, bal, found, w.saved),
        )
        | inr t ↦ (
          x,
          ground arith,
          ground arith,
          ground (arith, w.pending),
          ground (arith, t, q, i, j, bal, found, w.saved),
        )
      ]

  -- Another block leaves the table alone.
  leave_pending :
      is_receive v ≡ false
      → new_pending_info v ≡ none
      → (remove_pending p ≡ none) × (add_pending p ≡ none) × (l'.pending ≡ l.pending)
  unfolding remove_pending add_pending delete_received_pending_info create_validator
  leave_pending e q =
      let w = written c now l l' b s k ne r h in
      elim (stays c now now' l l' b s k k' chain' ne r h z moves rep
        (other_cases c now now' l l' b s k k' chain' ne r h z moves e q)) [
          | inl t ↦ ground (arith, w.pending)
          | inr t ↦ ground (arith, w.pending)
        ]

  pub pending_back :
      (t : Pending) × (update_pending_table i l'.pending ≡ some t) × SamePromises t l.pending
  unfolding update_pending_table rollback_instructions del
  pending_back = elim (Option-cases (new_pending_info v)) [
    | inr ((key, info), e) ↦
        let (rem, add, tab) = send_back key info e in
        let w = written c now l l' b s k ne r h in
        let fresh = offered_new c now l b k w.accepted key info e in
        let gone = get-erase_self key l'.pending k'.pending_unique in
        let there = get-put_self key info l.pending in
        (
          erase key l'.pending,
          ground (arith, there),
          λ j. elim (Bool-cases (pending_key_eq key j)) [
            | inl q ↦
                let same : key ≡ j = (pending_key_eq_iff key j).0 q in
                ground (arith, same, fresh, gone)
            | inr q ↦
                let other : key ≢ j = λ x. ground (arith, (pending_key_eq_iff key j).1 x) in
                ground (
                  arith,
                  get-erase_ne key j l'.pending other,
                  get-put_ne key j info l.pending other,
                )
          ],
        )
    | inl unsent ↦ elim (Bool-cases (is_receive v)) [
      | inl e ↦
          let (x, found, rem, tab, add) = receive_back e in
          let key = receive_key l b in
          let back : PendingInfo = record {
            source = p.linked_account;
            amount = x.amount;
            epoch = x.epoch;
          } in
          (
            put key back l'.pending,
            ground arith,
            λ j. elim (Bool-cases (pending_key_eq key j)) [
              | inl q ↦
                  let same : key ≡ j = (pending_key_eq_iff key j).0 q in
                  ground (arith, same, found, get-put_self key back l'.pending)
              | inr q ↦
                  let other : key ≢ j = λ x. ground (arith, (pending_key_eq_iff key j).1 x) in
                  ground (
                    arith,
                    get-put_ne key j back l'.pending other,
                    get-erase_ne key j l.pending other,
                  )
            ],
          )
      | inr e ↦
          let (rem, add, tab) = leave_pending e unsent in
          (l'.pending, ground arith, λ j. ground arith)
    ]
  ]

  -- The plan is to take the block back.
  pub plan_done :
      leb (height s) (confirmation_of l' (saved_account s)).height ≡ false
      → plan p ≡ ok (RollbackStep.roll_back_block i)
  unfolding plan ensure_block_is_not_confirmed destination_step create_validator
  plan_done u = elim (Option-cases (new_pending_info v)) [
    | inr ((key, info), e) ↦
        let (lt, unreceived, is) =
          sent_cases c now now' l l' b s k k' chain' ne r h z moves key info e in
        ground (
          arith,
          send_back key info e,
          get-put_self key info l.pending,
          own c now now' l l' b s k k' chain' ne r h,
          sends c now now' l l' b s k k' chain' ne r h z moves rep lt,
        )
    | inl unsent ↦ elim (Bool-cases (is_receive v)) [
      | inl e ↦
          let (lt, q) = received_cases c now now' l l' b s k k' chain' ne r h z moves e in
          elim (receives c now now' l l' b s k k' chain' ne r h z moves rep lt) [
            | inl t ↦ ground arith
            | inr t ↦ ground arith
          ]
      | inr e ↦
          elim (stays c now now' l l' b s k k' chain' ne r h z moves rep
            (other_cases c now now' l l' b s k k' chain' ne r h z moves e unsent)) [
              | inl t ↦ ground arith
              | inr t ↦ ground arith
            ]
    ]
  ]
