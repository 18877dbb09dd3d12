-- ===== src/Feedback/Receipts/Transitions.antt =====
-- Which receipts an operator or an adapter may settle.
use discord_stoat_ferry.Prelude.{
  ℕ, ◌≡◌, refl, sym, ◌∙◌, ap, String, Bool, Option, some, arith, eq_iff, Option-cases, inl, inr,
}
use discord_stoat_ferry.Prelude.Result.{ok}
use discord_stoat_ferry.Prelude.Dict
use discord_stoat_ferry.Prelude.Dict.{Dict, get-put}
use discord_stoat_ferry.Feedback.Receipts.{
  ReceiptState, pending, delivered, failed, absent, ReceiptRecord, with_state, move, transition,
}

-- A receipt that was pending now has the state.
pub record Moved (id : String) (state : ReceiptState) (table : Dict ReceiptRecord)
    (receipt : ReceiptRecord) (after : Dict ReceiptRecord) : Type 0 where
  pub before : ReceiptRecord
  pub held : Dict.get table id ≡ some before
  pub was_pending : before.state ≡ pending
  pub saved : Dict.get after id ≡ some receipt
  pub now_settled : receipt.state ≡ state
  pub same_content : receipt.content_hash ≡ before.content_hash

move-Moved :
    (id : String) (state : ReceiptState) (now : ℕ) (url : Option String) (audit : Bool)
    (before : ReceiptRecord) (current : ReceiptState) (table after : Dict ReceiptRecord)
    (receipt : ReceiptRecord)
    → before.state ≡ current
    → Dict.get table id ≡ some before
    → move id state now url audit before current table ≡ ok (receipt, after)
    → Moved id state table receipt after
move-Moved id state now url audit before pending table after receipt s held h =
    let settled = with_state before state now url audit in
    let one : settled ≡ receipt = cc in
    let two : Dict.put table id settled ≡ after = cc in
    record {
      before = before;
      held = held;
      was_pending = s;
      saved =
          ap (λ x. Dict.get x id) (sym two)
          ∙ get-put id id settled table
          ∙ ground (arith, eq_iff id id, one);
      now_settled = ap (λ x. x.state) (sym one);
      same_content = ap (λ x. x.content_hash) (sym one);
    }
move-Moved id state now url audit before delivered table after receipt s held h = cc
move-Moved id state now url audit before failed table after receipt s held h = cc
move-Moved id state now url audit before absent table after receipt s held h = cc

-- A receipt is settled once. A transition that returns was made of a pending receipt, whose content it
-- keeps, and the table then holds the receipt that it returns, in the new state.
pub transition-Moved :
    (id : String) (state : ReceiptState) (now : ℕ) (url : Option String) (audit : Bool)
    (table after : Dict ReceiptRecord) (receipt : ReceiptRecord)
    → transition id state now url audit table ≡ ok (receipt, after)
    → Moved id state table receipt after
unfolding transition
transition-Moved id state now url audit table after receipt h =
    elim (Option-cases (Dict.get table id)) [
      | inl missing ↦ absurd (ground arith)
      | inr (before, held) ↦
          move-Moved id state now url audit before before.state table after receipt refl held
            (ground arith)
    ]
