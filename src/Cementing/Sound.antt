-- ===== src/Cementing/Sound.antt =====
-- ledger/src/block_cementer.rs: what is confirmed, and when.
use rsbanano_node.Prelude.{
  ℕ, true, false, ◌≤◌, ◌<◌, some, List, [], ◌∷◌, ◌++◌, ◌≡◌, refl, ◌∙◌, ap, ◌==◌, ltb, Bool-cases,
  Option-cases, inl, inr, ◌⊎◌, arith, ==_iff,
}
use rsbanano_node.Prelude.Table.{get, nat_eq, get-put, get-put_self}
use rsbanano_node.Prelude.Lists.{length}
use rsbanano_node.Core.Types.{Account, BlockHash}
use rsbanano_node.Core.Block.{hash}
use rsbanano_node.Core.Saved.{SavedBlock, ConfirmationHeightInfo, saved_account, height}
use rsbanano_node.Ledger.State.{
  Ledger, Constants, contains, confirmed_block, confirmed_exists_or_pruned,
}
use rsbanano_node.Cementing.Dependents.{
  dependents_iter, dependent_blocks, all_confirmed, dependents_confirmed,
}
use rsbanano_node.Cementing.Cementer.{drop_last, push_limited, push_dependents, cement}

-- Confirmation heights only rise, and what is confirmed stays so.
pub record Grown (l l' : Ledger) : Type 0 where
  pub heights :
      (a : Account) (info : ConfirmationHeightInfo)
      → get a l.confirmation_height ≡ some info
      → (info' : ConfirmationHeightInfo) × (get a l'.confirmation_height ≡ some info')
        × (info.height ≤ info'.height)
  pub confirmed :
      (h : BlockHash)
      → confirmed_exists_or_pruned l h ≡ true
      → confirmed_exists_or_pruned l' h ≡ true

-- The confirmation height of the account covers the block.
abbrev pub IsCemented : Ledger → SavedBlock → Type 0
IsCemented l s =
    (info : ConfirmationHeightInfo) × (get (saved_account s) l.confirmation_height ≡ some info)
    × (height s ≤ info.height)

-- Each block of a list is confirmed, and so is what it depends on.
abbrev pub AllSound : Constants → Ledger → List SavedBlock → Type 0
AllSound c l [] = Unit
AllSound c l (s ∷ ss) = (IsCemented l s × (dependents_confirmed c l s ≡ true)) × AllSound c l ss

-- No stored block depends on itself.
abbrev pub HasNoLoop : Constants → Ledger → Type 0
HasNoLoop c l =
    (h : BlockHash) (s : SavedBlock)
    → get h l.blocks ≡ some s
    → contains h (dependents_iter (dependent_blocks c.epochs c.genesis_account s)) ≡ false

pub Grown-refl : (l : Ledger) → Grown l l
Grown-refl l = record { heights = λ a info h. (info, h, omega arith); confirmed = λ h q. q }

pub Grown-trans : (l l' l'' : Ledger) → Grown l l' → Grown l' l'' → Grown l l''
Grown-trans l l' l'' g k = record {
  heights = λ a info h.
      let (info', h', le) = g.heights a info h in
      let (info'', h'', le') = k.heights a info' h' in (info'', h'', omega (arith, le, le'));
  confirmed = λ h q. k.confirmed h (g.confirmed h q);
}

pub all_confirmed-Grown :
    (l l' : Ledger) (hs : List BlockHash)
    → Grown l l'
    → all_confirmed l hs ≡ true
    → all_confirmed l' hs ≡ true
all_confirmed-Grown l l' [] g q = refl
all_confirmed-Grown l l' (h ∷ hs) g q = ground (arith, g.confirmed h, all_confirmed-Grown l l' hs g)

pub AllSound-Grown :
    (c : Constants) (l l' : Ledger) (ss : List SavedBlock)
    → Grown l l'
    → AllSound c l ss
    → AllSound c l' ss
unfolding dependents_confirmed
AllSound-Grown c l l' [] g q = tt
AllSound-Grown c l l' (s ∷ ss) g q =
    let (info, found, le) = q.0.0 in
    let (info', found', le') = g.heights (saved_account s) info found in
    (
      ((info', found', omega (arith, le, le')), all_confirmed-Grown l l' _ g q.0.1),
      AllSound-Grown c l l' ss g q.1,
    )

pub AllSound-++ :
    (c : Constants) (l : Ledger) (ss ts : List SavedBlock)
    → AllSound c l ss
    → AllSound c l ts
    → AllSound c l (ss ++ ts)
AllSound-++ c l [] ts q r = r
AllSound-++ c l (s ∷ ss) ts q r = (q.0, AllSound-++ c l ss ts q.1 r)

-- A block that is stored and not confirmed lies above the confirmation height.
above_height :
    (l : Ledger) (h : BlockHash) (s : SavedBlock) (info : ConfirmationHeightInfo)
    → get h l.blocks ≡ some s
    → confirmed_exists_or_pruned l h ≡ false
    → get (saved_account s) l.confirmation_height ≡ some info
    → info.height < height s
unfolding confirmed_exists_or_pruned confirmed_block
above_height l h s info found open_ got = ground (arith, found, open_, got)

cement_heights :
    (l : Ledger) (h : BlockHash) (s : SavedBlock)
    → get h l.blocks ≡ some s
    → confirmed_exists_or_pruned l h ≡ false
    → (a : Account) (info : ConfirmationHeightInfo) → get a l.confirmation_height ≡ some info
    → (info' : ConfirmationHeightInfo) × (get a (cement l s).confirmation_height ≡ some info')
      × (info.height ≤ info'.height)
unfolding cement
cement_heights l h s found open_ a info got =
    let raised : ConfirmationHeightInfo = record { height = height s; frontier = hash s.block } in
    let placed = get-put (saved_account s) a raised l.confirmation_height in
    elim (Bool-cases (saved_account s == a)) [
      | inl b ↦
          let same = (==_iff (saved_account s) a).0 b in
          (
            raised,
            placed ∙ rw b refl,
            omega (
              arith,
              above_height l h s info found open_
                  (ap (λ z. get z l.confirmation_height) same ∙ got),
            ),
          )
      | inr b ↦ (info, placed ∙ rw b got, omega arith)
    ]

-- Where heights rise, the blocks of the same tables stay confirmed.
confirmed-cement :
    (l : Ledger) (h : BlockHash) (s : SavedBlock) (j : BlockHash)
    → get h l.blocks ≡ some s
    → confirmed_exists_or_pruned l h ≡ false
    → confirmed_exists_or_pruned l j ≡ true
    → confirmed_exists_or_pruned (cement l s) j ≡ true
unfolding confirmed_exists_or_pruned confirmed_block cement
confirmed-cement l h s j found open_ q = elim (Option-cases (get j l.blocks)) [
  | inl e ↦ ground (arith, q, e)
  | inr (b, e) ↦ elim (Option-cases (get (saved_account b) l.confirmation_height)) [
    | inl n ↦ ground (arith, q, e, n)
    | inr (info, got) ↦
        let (info', got', le) = cement_heights l h s found open_ (saved_account b) info got in
        ground (arith, q, e, got, got', le)
  ]
]

pub cement-Grown :
    (l : Ledger) (h : BlockHash) (s : SavedBlock)
    → get h l.blocks ≡ some s
    → confirmed_exists_or_pruned l h ≡ false
    → Grown l (cement l s)
cement-Grown l h s found open_ = record {
  heights = cement_heights l h s found open_;
  confirmed = λ j q. confirmed-cement l h s j found open_ q;
}

pub cement-IsCemented : (l : Ledger) (s : SavedBlock) → IsCemented (cement l s) s
unfolding cement
cement-IsCemented l s = (
  record { height = height s; frontier = hash s.block },
  get-put_self (saved_account s) (record { height = height s; frontier = hash s.block })
      l.confirmation_height,
  omega arith,
)

push_limited-back :
    (max_blocks : ℕ) (d x : BlockHash) (xs : List BlockHash)
    → (ys : List BlockHash) × (push_limited max_blocks d (x ∷ xs) ≡ d ∷ ys)
unfolding push_limited
push_limited-back max_blocks d x xs = elim (Bool-cases (ltb max_blocks (length (d ∷ x ∷ xs)))) [
  | inl b ↦ (drop_last (x ∷ xs), rw (push_limited, b) refl)
  | inr b ↦ (x ∷ xs, rw (push_limited, b) refl)
]

-- The back of the stack is as it was where all dependent blocks are confirmed, or else one of them.
abbrev pub Pushed : ℕ → Ledger → List BlockHash → BlockHash → List BlockHash → Type 0
Pushed max_blocks l ds x xs =
    (y : BlockHash) × (ys : List BlockHash) × (push_dependents max_blocks l ds (x ∷ xs) ≡ y ∷ ys)
    × (((all_confirmed l ds ≡ true) × (y ≡ x)) ⊎ (contains y ds ≡ true))

pub push_dependents-Pushed :
    (max_blocks : ℕ) (l : Ledger) (ds : List BlockHash) (x : BlockHash) (xs : List BlockHash)
    → Pushed max_blocks l ds x xs
unfolding push_dependents
push_dependents-Pushed max_blocks l [] x xs = (x, xs, refl, inl (refl, refl))
push_dependents-Pushed max_blocks l (d ∷ ds) x xs =
    elim (Bool-cases (confirmed_exists_or_pruned l d)) [
      | inl b ↦
          let (y, ys, pushed, back) = push_dependents-Pushed max_blocks l ds x xs in
          (
            y,
            ys,
            rw (push_dependents, b) pushed,
            elim back [
              | inl (q, same) ↦ inl (rw (b, q) refl, same)
              | inr q ↦ inr (ground (arith, q))
            ],
          )
      | inr b ↦
          let (zs, top) = push_limited-back max_blocks d x xs in
          let (y, ys, pushed, back) = push_dependents-Pushed max_blocks l ds d zs in
          (
            y,
            ys,
            rw (push_dependents, b, top) pushed,
            elim back [
              | inl (q, same) ↦ inr (ground (arith, same))
              | inr q ↦ inr (ground (arith, q))
            ],
          )
    ]
