-- ===== src/Irq.antt =====
-- src/arch/x86/IRQHandler.cpp: the handlers of the sixteen interrupt lines. Handlers are known by
-- their address; the driver of the controller (Pic) works on the port history.
pub mod Calls
pub mod Removal
mod Tests
use ann_os.Base.{
  ℕ, zero, suc, ◌+◌, Bool, true, false, ◌&&◌, leb, ◌==◌, if◌then◌else◌, Option, none, some, Outcome,
  ok, panic, ◌>>=◌,
}
use ann_os.Io.{History, Hardware}
use ann_os.Pic.{set_irq_mask, send_eoi}

abbrev pub max_irq_handlers : ℕ
max_irq_handlers = 16

-- `irqHandlers[irqno][pos]`, where `none` is the null pointer.
abbrev pub Handlers : Type 0
Handlers = ℕ → ℕ → Option ℕ

abbrev pub put_handler : Handlers → ℕ → ℕ → Option ℕ → Handlers
put_handler table irqno pos entry i p = if (i == irqno) && (p == pos) then entry else table i p

-- The loops `while (irqHandlers[irqno][len] != NULL)` with their exit at MAX_IRQ_HANDLERS: the
-- number of entries before the first null, from `pos` on in the `rounds` that are left.
unfoldable pub count_from : Handlers → ℕ → ℕ → ℕ → ℕ
count_from table irqno zero pos = pos
count_from table irqno (suc rounds) pos = elim (table irqno pos) [
  | none ↦ pos
  | some handler ↦ count_from table irqno rounds (pos + 1)
]

abbrev pub handler_count : Handlers → ℕ → ℕ
handler_count table irqno = count_from table irqno max_irq_handlers 0

-- The end of `SetHandler`: the check for a full list, and the write.
unfoldable pub store_handler : Handlers → ℕ → ℕ → History → Outcome (ℕ × Handlers × History)
store_handler table irqno handler h =
    let len = handler_count table irqno in
    if leb 16 len
    then panic "handler list is full"
    else ok (len, put_handler table irqno len (some handler), h)

-- The index of the new handler, the table and the port history afterwards.
unfoldable pub set_handler :
    Hardware → Handlers → ℕ → ℕ → History → Outcome (ℕ × Handlers × History)
set_handler hw table irqno handler h =
    if leb 16 irqno then panic "the IRQHandler only supports IRQ numbers 0 to 15" else do
      h' ← (if handler_count table irqno == 0 then set_irq_mask hw irqno false h else ok h)
      store_handler table irqno handler h'

-- For an `irqno` and an `index` inside the table; the code tests neither.
unfoldable pub remove_handler : Hardware → Handlers → ℕ → ℕ → History → Outcome (Handlers × History)
remove_handler hw table irqno index h = do
  let table' = put_handler table irqno index none
  h' ←
      (if leb max_irq_handlers (handler_count table' irqno)
        then set_irq_mask hw irqno true h
        else ok h)
  ok (table', h')

-- The loop of `IRQDispatcher`. What `OnIRQ` of a handler does to the machine is an argument.
unfoldable pub dispatch_from {ℓ} : {S : Type ℓ} → (ℕ → S → S) → Handlers → ℕ → ℕ → ℕ → S → S
dispatch_from on_irq table irqno zero pos s = s
dispatch_from on_irq table irqno (suc rounds) pos s = elim (table irqno pos) [
  | none ↦ s
  | some handler ↦ dispatch_from on_irq table irqno rounds (pos + 1) (on_irq handler s)
]

-- The machine's state is shown with its port history.
unfoldable pub irq_dispatcher {ℓ} :
    {S : Type ℓ}
    → Hardware
    → (ℕ → S × History → S × History)
    → Handlers
    → ℕ
    → S × History
    → S × History
irq_dispatcher hw on_irq table irqno s =
    let (s', h') = dispatch_from on_irq table irqno max_irq_handlers 0 s in
    (s', send_eoi hw irqno h')
