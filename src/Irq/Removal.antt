-- ===== src/Irq/Removal.antt =====
-- What `RemoveHandler` does not do.
use ann_os.Base.{
  ℕ, zero, suc, ◌+◌, ◌≤◌, ◌<◌, ◌≡◌, false, leb, arith, none, some, Option-cases, inl, inr, ◌≢◌, sym,
  ◌∙◌, ok,
}
use ann_os.Io.{History, Hardware}
use ann_os.Irq.Calls.{count_from-none, count_from-some}
use ann_os.Irq.{Handlers, max_irq_handlers, put_handler, count_from, handler_count, remove_handler}

-- The count stops at a null entry at the latest.
count_from-le :
    (table : Handlers) (irqno rounds pos index : ℕ)
    → table irqno index ≡ none
    → pos ≤ index
    → index < pos + rounds
    → count_from table irqno rounds pos ≤ index
count_from-le table irqno zero pos index e le lt = absurd (omega arith)
count_from-le table irqno (suc rounds) pos index e le lt = elim (Option-cases (table irqno pos)) [
  | inl hole ↦ omega (arith, count_from-none table irqno (suc rounds) pos hole)
  | inr (a, full) ↦
      let ne : pos ≢ index = λ p. absurd (some-ne-none (rw p at (sym full) ∙ e)) in
      omega (
        arith,
        count_from-some table irqno rounds pos a full,
        count_from-le table irqno rounds (pos + 1) index e (omega arith) (omega arith),
      )
]
  where
    some-ne-none : {a : ℕ} → some a ≡ none → ⊥
    some-ne-none p = cc

-- `RemoveHandler` of an entry of the table clears that entry and touches no port: it never masks
-- the line, also where it removes the line's last handler.
pub remove_handler-keeps_mask :
    (hw : Hardware) (table : Handlers) (irqno index : ℕ) (h : History)
    → index < max_irq_handlers
    → remove_handler hw table irqno index h ≡ ok (put_handler table irqno index none, h)
unfolding remove_handler
remove_handler-keeps_mask hw table irqno index h lt = rw few
  where
    table' : Handlers
    table' = put_handler table irqno index none

    few : leb max_irq_handlers (handler_count table' irqno) ≡ false
    few = ground (
      arith,
      count_from-le table' irqno max_irq_handlers 0 index (ground arith) (omega arith)
          (omega arith),
    )
