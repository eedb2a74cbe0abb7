-- ===== src/Irq/Calls.antt =====
-- Which handlers a dispatch calls, in which order, and how `SetHandler` changes that.
use ann_os.Base.{
  ℕ, zero, suc, ◌+◌, ◌≤◌, ◌<◌, ◌≡◌, refl, false, leb, ◌==◌, if◌then◌else◌, arith, none, some,
  Option-cases, Bool-cases, inl, inr, List, [], ◌∷◌, ◌++◌, ok, >>=-eq-ok, ◌∙◌, ◌≢◌, sym,
}
use ann_os.Io.{History, Hardware}
use ann_os.Pic.{set_irq_mask, send_eoi}
use ann_os.Irq.{
  Handlers, max_irq_handlers, put_handler, count_from, handler_count, set_handler, store_handler,
  dispatch_from, irq_dispatcher,
}

-- The handlers of a line up to the first null entry, in order.
unfoldable pub called_from : Handlers → ℕ → ℕ → ℕ → List ℕ
called_from table irqno zero pos = []
called_from table irqno (suc rounds) pos = elim (table irqno pos) [
  | none ↦ []
  | some handler ↦ handler ∷ called_from table irqno rounds (pos + 1)
]

abbrev pub called : Handlers → ℕ → List ℕ
called table irqno = called_from table irqno max_irq_handlers 0

-- Calling handlers one after the other.
abbrev pub call_all {ℓ} : {S : Type ℓ} → (ℕ → S → S) → List ℕ → S → S
call_all on_irq [] s = s
call_all on_irq (handler ∷ handlers) s = call_all on_irq handlers (on_irq handler s)

dispatch_from-call_all {ℓ} :
    {S : Type ℓ} (on_irq : ℕ → S → S) (table : Handlers) (irqno rounds pos : ℕ) (s : S)
    → dispatch_from on_irq table irqno rounds pos s
      ≡ call_all on_irq (called_from table irqno rounds pos) s
unfolding dispatch_from called_from
dispatch_from-call_all on_irq table irqno zero pos s = refl
dispatch_from-call_all on_irq table irqno (suc rounds) pos s =
    elim (Option-cases (table irqno pos)) [
      | inl e ↦ rw (e, dispatch_from, called_from)
      | inr (a, e) ↦
          rw (e, dispatch_from, called_from)
            (dispatch_from-call_all on_irq table irqno rounds (pos + 1) (on_irq a s))
    ]

-- `IRQDispatcher` calls the handlers of the line in order, up to the first null entry and sixteen
-- at most, and then sends the end of the interrupt.
pub irq_dispatcher-call_all {ℓ} :
    {S : Type ℓ} (hw : Hardware) (on_irq : ℕ → S × History → S × History) (table : Handlers)
    (irqno : ℕ) (s : S × History)
    → let (s', h') = call_all on_irq (called table irqno) s in
      irq_dispatcher hw on_irq table irqno s ≡ (s', send_eoi hw irqno h')
unfolding irq_dispatcher
irq_dispatcher-call_all hw on_irq table irqno s =
    rw (dispatch_from-call_all on_irq table irqno max_irq_handlers 0 s)

-- Behind the first null entry of the line all entries are null.
abbrev pub Packed : Handlers → ℕ → Type 0
Packed table irqno = (pos : ℕ) → handler_count table irqno < pos → table irqno pos ≡ none

pub called_from-none :
    (table : Handlers) (irqno rounds pos : ℕ)
    → table irqno pos ≡ none
    → called_from table irqno rounds pos ≡ []
unfolding called_from
called_from-none table irqno zero pos e = refl
called_from-none table irqno (suc rounds) pos e = rw (e, called_from)

pub called_from-some :
    (table : Handlers) (irqno rounds pos handler : ℕ)
    → table irqno pos ≡ some handler
    → called_from table irqno (suc rounds) pos ≡ handler ∷ called_from table irqno rounds (pos + 1)
unfolding called_from
called_from-some table irqno rounds pos handler e = rw (e, called_from)

pub count_from-none :
    (table : Handlers) (irqno rounds pos : ℕ)
    → table irqno pos ≡ none
    → count_from table irqno rounds pos ≡ pos
unfolding count_from
count_from-none table irqno zero pos e = refl
count_from-none table irqno (suc rounds) pos e = rw (e, count_from)

pub count_from-some :
    (table : Handlers) (irqno rounds pos handler : ℕ)
    → table irqno pos ≡ some handler
    → count_from table irqno (suc rounds) pos ≡ count_from table irqno rounds (pos + 1)
unfolding count_from
count_from-some table irqno rounds pos handler e = rw (e, count_from)

pub le-count_from :
    (table : Handlers) (irqno rounds pos : ℕ) → pos ≤ count_from table irqno rounds pos
le-count_from table irqno zero pos = unfold count_from in omega arith
le-count_from table irqno (suc rounds) pos = elim (Option-cases (table irqno pos)) [
  | inl e ↦ omega (arith, count_from-none table irqno (suc rounds) pos e)
  | inr (a, e) ↦ omega (
    arith,
    count_from-some table irqno rounds pos a e,
    le-count_from table irqno rounds (pos + 1),
  )
]

-- A table that differs at the first null entry `k` of the line, behind which there was nothing.
called_from-fill :
    (table filled : Handlers) (irqno handler rounds pos k : ℕ)
    → count_from table irqno rounds pos ≡ k
    → k < pos + rounds
    → ((p : ℕ) → k < p → table irqno p ≡ none)
    → filled irqno k ≡ some handler
    → ((p : ℕ) → p ≢ k → filled irqno p ≡ table irqno p)
    → called_from filled irqno rounds pos ≡ called_from table irqno rounds pos ++ (handler ∷ [])
called_from-fill table filled irqno handler zero pos k count lt after here same =
    absurd (omega (arith, le-count_from table irqno zero pos))
called_from-fill table filled irqno handler (suc rounds) pos k count lt after here same =
    elim (Option-cases (table irqno pos)) [
      | inl e ↦ at_hole e (count_from-none table irqno (suc rounds) pos e)
      | inr (a, e) ↦
          let step = count_from-some table irqno rounds pos a e in
          let up = le-count_from table irqno rounds (pos + 1) in
          rw (
            called_from-some table irqno rounds pos a e,
            called_from-some filled irqno rounds pos a (same pos (omega arith) ∙ e),
            called_from-fill table filled irqno handler rounds (pos + 1) k (sym step ∙ count)
                (omega arith) after here same,
          )
    ]
  where
    at_hole :
        table irqno pos ≡ none
        → count_from table irqno (suc rounds) pos ≡ pos
        → called_from filled irqno (suc rounds) pos
          ≡ called_from table irqno (suc rounds) pos ++ (handler ∷ [])
    at_hole e c =
        let k_pos : k ≡ pos = omega arith in
        rw (
          called_from-none table irqno (suc rounds) pos e,
          called_from-some filled irqno rounds pos handler (rw k_pos at here),
          called_from-none filled irqno rounds (pos + 1)
              (same (pos + 1) (omega arith) ∙ after (pos + 1) (omega arith)),
        )

set_handler-ok :
    (hw : Hardware) (table : Handlers) (irqno handler : ℕ) (h : History) {index : ℕ}
    {table' : Handlers} {h' : History}
    → set_handler hw table irqno handler h ≡ ok (index, table', h')
    → (index ≡ handler_count table irqno)
      × (handler_count table irqno < 16)
      × (table' ≡ put_handler table irqno (handler_count table irqno) (some handler))
unfolding set_handler store_handler
set_handler-ok hw table irqno handler h {index} {table'} {h'} e = elim (Bool-cases (leb 16 irqno)) [
  | inl big ↦ absurd (ground arith)
  | inr small ↦ stored (>>=-eq-ok _ _ (rw small at e))
]
  where
    stored :
        (h1 : History) × ((if handler_count table irqno == 0
              then set_irq_mask hw irqno false h
              else ok h)
            ≡ ok h1)
          × (store_handler table irqno handler h1 ≡ ok (index, table', h'))
        → (index ≡ handler_count table irqno)
          × (handler_count table irqno < 16)
          × (table' ≡ put_handler table irqno (handler_count table irqno) (some handler))
    stored (h1, _, f) = elim (Bool-cases (leb 16 (handler_count table irqno))) [
      | inl full ↦ absurd (ground arith)
      | inr room ↦ let g = rw room at f in (ground arith, ground arith, cc)
    ]

-- On a line with no handlers behind its first null entry, a SetHandler that returns gives the index
-- of that entry; a dispatch then calls the new handler after the ones it called before; and the
-- other lines keep their handlers.
pub called-set_handler :
    (hw : Hardware) (table : Handlers) (irqno handler : ℕ) (h : History) {index : ℕ}
    {table' : Handlers} {h' : History}
    → Packed table irqno
    → set_handler hw table irqno handler h ≡ ok (index, table', h')
    → (called table' irqno ≡ called table irqno ++ (handler ∷ []))
      × (index ≡ handler_count table irqno)
      × ((other pos : ℕ) → other ≢ irqno → table' other pos ≡ table other pos)
called-set_handler hw table irqno handler h {index} {table'} {h'} packed e =
    let (index_eq, room, table_eq) = set_handler-ok hw table irqno handler h e in
    (
      rw table_eq (
          called_from-fill table _ irqno handler max_irq_handlers 0 (handler_count table irqno) refl
            (omega arith) packed (ground arith) (λ p ne. ground arith)),
      index_eq,
      (λ other pos ne. rw table_eq (ground arith)),
    )
