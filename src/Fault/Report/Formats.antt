-- ===== src/Fault/Report/Formats.antt =====
-- The formats of what the fault handlers print and log have the arguments that they ask for.
use Prim.Native.String.{String}
use ann_os.Base.{
  ℕ, ◌<◌, ◌≡◌, refl, Bool, true, false, ◌&&◌, ◌||◌, not, ◌==◌, ltb, if◌then◌else◌, some,
  Option-cases, Bool-cases, inl, inr, List, [], ◌∷◌, ◌++◌, bit_and, arith, codes,
}
use ann_os.Libk.Format.{is_digit}
use ann_os.Fault.Report.{
  FaultRegs, Arg, num_arg, text_arg, Message, printed, logged, exception_str, register_messages,
  flags_message, fatal_messages, dispatcher_messages, where_messages, kind, state_messages, opening,
  page_fault_messages,
}

-- The letters of the conversions in a format; `inside` is whether a `%` and perhaps digits came
-- before.
unfoldable pub letters : Bool → List ℕ → List ℕ
letters inside [] = []
letters inside (c ∷ cs) =
    let rest = letters (if inside then is_digit c else c == b'%') cs in
    if inside && not (is_digit c) then c ∷ rest else rest

-- Each conversion has its argument: a number for `%d` and `%x`, a text for `%s`.
unfoldable pub fit : List ℕ → List Arg → Bool
fit [] args = true
fit (l ∷ ls) [] = false
fit (l ∷ ls) (num_arg w ∷ args) = ((l == b'd') || (l == b'x')) && fit ls args
fit (l ∷ ls) (text_arg t ∷ args) = (l == b's') && fit ls args

abbrev pub message_fits : Message → Bool
message_fits (printed format args) = fit (letters false (codes format)) args
message_fits (logged format args) = fit (letters false (codes format)) args

unfoldable pub all_fit : List Message → Bool
all_fit [] = true
all_fit (m ∷ ms) = message_fits m && all_fit ms

all_fit-append :
    (ms ns : List Message) → all_fit ms ≡ true → all_fit ns ≡ true → all_fit (ms ++ ns) ≡ true
unfolding all_fit
all_fit-append [] ns first second = second
all_fit-append (m ∷ ms) ns first second = elim (Bool-cases (message_fits m)) [
  | inl here ↦ rw here (all_fit-append ms ns (rw here at first) second)
  | inr not_here ↦ absurd (ground arith)
]

register_messages-fit : (r : FaultRegs) → all_fit (register_messages r) ≡ true
unfolding all_fit register_messages fit letters
register_messages-fit r = refl

fatal_messages-fit : (r : FaultRegs) (name : String) → all_fit (fatal_messages r name) ≡ true
unfolding fatal_messages all_fit register_messages flags_message fit letters
fatal_messages-fit r name = refl

dispatcher_messages-fit :
    (r : FaultRegs)
    → r.int_no < 20
    → (ms : List Message) × (dispatcher_messages r ≡ some ms) × (all_fit ms ≡ true)
unfolding dispatcher_messages
dispatcher_messages-fit r known = elim (Option-cases (exception_str r.int_no)) [
  | inl unknown ↦ absurd (ground arith)
  | inr (name, e) ↦ (fatal_messages r name, rw (e, dispatcher_messages), fatal_messages-fit r name)
]

where_messages-fit : (r : FaultRegs) (cr2 : ℕ) → all_fit (where_messages r cr2) ≡ true
unfolding all_fit where_messages fit letters
where_messages-fit r cr2 = elim (Bool-cases (ltb cr2 0x1000)) [
  | inl null ↦ rw null refl
  | inr other ↦ rw other refl
]

kind-fit :
    (error_code mask : ℕ) (set clear : String) (ms : List Message)
    → message_fits (printed set []) ≡ true
    → message_fits (printed clear []) ≡ true
    → all_fit ms ≡ true
    → all_fit (kind error_code mask set clear ∷ ms) ≡ true
unfolding all_fit
kind-fit error_code mask set clear ms is_set is_clear rest =
    elim (Bool-cases (bit_and error_code mask == 0)) [
      | inl e ↦ rw (e, is_clear) rest
      | inr e ↦ rw (e, is_set) rest
    ]

kinds-fit :
    (error_code : ℕ) (ms : List Message)
    → all_fit ms ≡ true
    → all_fit (
        kind error_code 0x1 " protection" " nonpresent"
        ∷ kind error_code 0x2 " write" " read"
        ∷ kind error_code 0x4 " user" " kernel"
        ∷ ms)
      ≡ true
unfolding fit letters
kinds-fit error_code ms rest =
    kind-fit error_code 0x1 " protection" " nonpresent"
      (kind error_code 0x2 " write" " read" ∷ kind error_code 0x4 " user" " kernel" ∷ ms) refl refl
      (kind-fit error_code 0x2 " write" " read" (kind error_code 0x4 " user" " kernel" ∷ ms) refl
        refl (kind-fit error_code 0x4 " user" " kernel" ms refl refl rest))

state_messages-fit : (r : FaultRegs) (cr3 : ℕ) → all_fit (state_messages r cr3) ≡ true
unfolding state_messages all_fit register_messages flags_message fit letters
state_messages-fit r cr3 = refl

opening-fit : all_fit opening ≡ true
unfolding all_fit fit letters
opening-fit = refl

page_fault_messages-fit :
    (r : FaultRegs) (cr2 cr3 : ℕ) → all_fit (page_fault_messages r cr2 cr3) ≡ true
unfolding page_fault_messages
page_fault_messages-fit r cr2 cr3 = all_fit-append opening _ opening-fit (
    all_fit-append (where_messages r cr2) _ (where_messages-fit r cr2)
      (kinds-fit r.error_code (state_messages r cr3) (state_messages-fit r cr3)))

-- For a fault with a number below 20, FaultDispatcher has the name of the fault; and in all that
-- it and the page fault handler print and log, whatever the registers are, each conversion of a
-- format has its argument, a number for `%d` and `%x` and a text for `%s`.
pub messages-fit :
    (r : FaultRegs) (cr2 cr3 : ℕ)
    → r.int_no < 20
    → ((ms : List Message) × (dispatcher_messages r ≡ some ms) × (all_fit ms ≡ true))
      × (all_fit (page_fault_messages r cr2 cr3) ≡ true)
messages-fit r cr2 cr3 known = (dispatcher_messages-fit r known, page_fault_messages-fit r cr2 cr3)
