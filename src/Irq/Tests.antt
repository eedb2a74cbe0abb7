-- ===== src/Irq/Tests.antt =====
-- The theorems on the interrupt lines at concrete inputs.
use ann_os.Base.{
  ℕ, ◌+◌, ◌≡◌, ◌≢◌, refl, ◌==◌, ◌&&◌, if◌then◌else◌, arith, none, some, ok, [], ◌∷◌, ◌++◌,
}
use ann_os.Io.{History, Hardware}
use ann_os.Irq.{
  Handlers, put_handler, count_from, handler_count, store_handler, set_handler, remove_handler,
}
use ann_os.Irq.Calls.{called, called-set_handler}
use ann_os.Irq.Removal.{remove_handler-keeps_mask}

abbrev steady : Hardware
steady h port = 0

-- Line 1 has the handler 0x500.
abbrev one_handler : Handlers
one_handler i p = if (i == 1) && (p == 0) then some 0x500 else none

abbrev count_calls : ℕ → ℕ × History → ℕ × History
count_calls handler s = (s.0 + handler, s.1)

called-set_handler_example :
    (called (put_handler one_handler 1 1 (some 0x600)) 1 ≡ called one_handler 1 ++ (0x600 ∷ []))
    × (1 ≡ handler_count one_handler 1)
    × ((other pos : ℕ)
        → other ≢ 1
        → put_handler one_handler 1 1 (some 0x600) other pos ≡ one_handler other pos)
unfolding set_handler store_handler count_from
called-set_handler_example =
    called-set_handler steady one_handler 1 0x600 [] (λ pos lt. ground arith) refl

remove_handler-keeps_mask_example :
    remove_handler steady one_handler 1 0 [] ≡ ok (put_handler one_handler 1 0 none, [])
remove_handler-keeps_mask_example =
    remove_handler-keeps_mask steady one_handler 1 0 [] (omega arith)
