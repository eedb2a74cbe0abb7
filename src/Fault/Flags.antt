-- ===== src/Fault/Flags.antt =====
-- `strflags` of `FaultDispatcher` and of the page fault handler (src/arch/x86/FaultHandler.cpp):
-- the names of the processor flags that are set, put together by strcat in a local array of 64
-- bytes.
use ann_os.Base.{
  ℕ, suc, ◌+◌, ◌≤◌, ◌<◌, ◌≡◌, refl, ap, ◌∙◌, sym, ◌==◌, Bool-cases, if◌then◌else◌, List, [], ◌∷◌,
  ◌++◌, Memory, load8, store8, Outcome, ok, ◌>>=◌, bit_and, length, arith, ◌⊎◌, inl, inr, Holds,
}
use ann_os.Libk.Format.{strcat_text, append_text}
use ann_os.Libk.Format.Writing.{Text, Chars, append_text-Writes, strlen-Text, length-++}

-- A flag: its mask and its name.
abbrev pub Flag : Type 0
Flag = ℕ × List ℕ

-- The tests, in the order of the code.
abbrev pub eflags_tests : List Flag
eflags_tests =
    (0x1, b'C' ∷ b'F' ∷ b' ' ∷ [])
    ∷ (0x4, b'P' ∷ b'F' ∷ b' ' ∷ [])
    ∷ (0x10, b'A' ∷ b'F' ∷ b' ' ∷ [])
    ∷ (0x40, b'Z' ∷ b'F' ∷ b' ' ∷ [])
    ∷ (0x80, b'S' ∷ b'F' ∷ b' ' ∷ [])
    ∷ (0x100, b'T' ∷ b'F' ∷ b' ' ∷ [])
    ∷ (0x200, b'I' ∷ b'F' ∷ b' ' ∷ [])
    ∷ (0x400, b'D' ∷ b'F' ∷ b' ' ∷ [])
    ∷ (0x800, b'O' ∷ b'F' ∷ b' ' ∷ [])
    ∷ (0x4000, b'N' ∷ b'T' ∷ b' ' ∷ [])
    ∷ (0x10000, b'R' ∷ b'F' ∷ b' ' ∷ [])
    ∷ (0x20000, b'V' ∷ b'M' ∷ b' ' ∷ [])
    ∷ []

-- `if (regs->eflags & mask) strcat(strflags, name);` for each flag.
unfoldable pub append_flags : ℕ → ℕ → ℕ → List Flag → Memory → Outcome Memory
append_flags fuel strflags eflags [] m = ok m
append_flags fuel strflags eflags ((mask, name) ∷ tests) m =
    let rest = append_flags fuel strflags eflags tests m in
    let appended = strcat_text fuel m strflags name >>= λ (m', last).
    append_flags fuel strflags eflags tests m' in
    if bit_and eflags mask == 0 then rest else appended

-- With the array at `strflags`.
unfoldable pub decode_eflags : ℕ → ℕ → ℕ → Memory → Outcome Memory
decode_eflags fuel strflags eflags m =
    append_flags fuel strflags eflags eflags_tests
      (store8 (store8 m strflags b' ') (strflags + 1) 0)

-- The names of the flags that are set.
unfoldable pub flag_names : ℕ → List Flag → List ℕ
flag_names eflags [] = []
flag_names eflags ((mask, name) ∷ tests) =
    let rest = flag_names eflags tests in if bit_and eflags mask == 0 then rest else name ++ rest

abbrev pub Letters : List ℕ → Type 0
Letters [] = Unit
Letters (c ∷ cs) = (0 < c) × (c < 256) × Letters cs

Letters-Chars : (cs : List ℕ) → Letters cs → Chars cs
Letters-Chars [] l = tt
Letters-Chars (c ∷ cs) (pos, small, l) = (small, Letters-Chars cs l)

append_text-end :
    (m : Memory) (str : ℕ) (cs : List ℕ) → load8 (append_text m str cs).0 (str + length cs) ≡ 0
unfolding append_text
append_text-end m str [] = ground arith
append_text-end m str (c ∷ cs) =
    let e : str + suc (length cs) ≡ str + 1 + length cs = omega arith in
    rw e (append_text-end (store8 m str c) (str + 1) cs)

Text-end : (m : Memory) (a : ℕ) (cs : List ℕ) → Text m a cs → load8 m (a + length cs) ≡ 0
Text-end m a [] t = let e : a + 0 ≡ a = omega arith in rw e t
Text-end m a (c ∷ cs) (here, pos, t) =
    let e : a + suc (length cs) ≡ a + 1 + length cs = omega arith in rw e (Text-end m (a + 1) cs t)

Holds-Text :
    (m : Memory) (a : ℕ) (cs : List ℕ)
    → Letters cs
    → Holds m a cs
    → load8 m (a + length cs) ≡ 0
    → Text m a cs
Holds-Text m a [] l h end = let e : a + 0 ≡ a = omega arith in rw e at end
Holds-Text m a (c ∷ cs) (pos, small, l) (here, h) end =
    let e : a + suc (length cs) ≡ a + 1 + length cs = omega arith in
    (here, pos, Holds-Text m (a + 1) cs l h (rw e at end))

Text-++ :
    (m m' : Memory) (a : ℕ) (cs ds : List ℕ)
    → Text m a cs
    → ((q : ℕ) → q < a + length cs → m' q ≡ m q)
    → Text m' (a + length cs) ds
    → Text m' a (cs ++ ds)
Text-++ m m' a [] ds t same later = let e : a + 0 ≡ a = omega arith in rw e at later
Text-++ m m' a (c ∷ cs) ds (here, pos, t) same later =
    let e : a + suc (length cs) ≡ a + 1 + length cs = omega arith in
    (
      rw (same a (omega arith)) here,
      pos,
      Text-++ m m' (a + 1) cs ds t (λ q l. same q (omega arith)) (rw e at later),
    )

-- strcat puts a name behind the text that is there, and changes no other byte.
strcat_text-Text :
    (fuel : ℕ) (m : Memory) (str : ℕ) (cs ds : List ℕ)
    → Text m str cs
    → Letters ds
    → length cs < fuel
    → let m' = (append_text m (str + length cs) ds).0 in
      (strcat_text fuel m str ds ≡ ok (append_text m (str + length cs) ds))
      × Text m' str (cs ++ ds)
      × ((q : ℕ) → (q < str) ⊎ (str + length (cs ++ ds) < q) → m' q ≡ m q)
unfolding strcat_text
strcat_text-Text fuel m str cs ds text letters enough =
    let (written, _) = append_text-Writes m (str + length cs) ds (Letters-Chars ds letters) in
    let total = length-++ cs ds in
    (
      rw (strlen-Text fuel m str cs text enough) refl,
      Text-++ m _ str cs ds text (λ q l. written.before q l)
          (Holds-Text _ (str + length cs) ds letters written.text
            (append_text-end m (str + length cs) ds)),
      (λ q out. elim out [
        | inl low ↦ written.before q (omega arith)
        | inr high ↦ written.behind q (omega (arith, total))
      ]),
    )

abbrev Names : List Flag → Type 0
Names [] = Unit
Names ((mask, name) ∷ tests) = Letters name × Names tests

abbrev widths : List Flag → ℕ
widths [] = 0
widths ((mask, name) ∷ tests) = length name + widths tests

flag_names-length :
    (eflags : ℕ) (tests : List Flag) → length (flag_names eflags tests) ≤ widths tests
unfolding flag_names
flag_names-length eflags [] = omega arith
flag_names-length eflags ((mask, name) ∷ tests) =
    let rest = flag_names-length eflags tests in
    let total = length-++ name (flag_names eflags tests) in
    elim (Bool-cases (bit_and eflags mask == 0)) [
      | inl clear ↦ rw clear (omega (arith, rest))
      | inr set ↦ rw set (omega (arith, rest, total))
    ]

append_assoc : (xs ys zs : List ℕ) → (xs ++ ys) ++ zs ≡ xs ++ (ys ++ zs)
append_assoc [] ys zs = refl
append_assoc (x ∷ xs) ys zs = ap (λ t. x ∷ t) (append_assoc xs ys zs)

append_nil : (xs : List ℕ) → xs ++ [] ≡ xs
append_nil [] = refl
append_nil (x ∷ xs) = ap (λ t. x ∷ t) (append_nil xs)

-- The names that are set are put behind the text, and only bytes from `str` to the end of all
-- names are touched.
append_flags-Text :
    (fuel : ℕ) (m : Memory) (str eflags : ℕ) (tests : List Flag) (cs : List ℕ)
    → Text m str cs
    → Names tests
    → length cs + widths tests < fuel
    → (m' : Memory) × (append_flags fuel str eflags tests m ≡ ok m')
      × Text m' str (cs ++ flag_names eflags tests)
      × ((q : ℕ) → (q < str) ⊎ (str + (length cs + widths tests) < q) → m' q ≡ m q)
unfolding append_flags flag_names
append_flags-Text fuel m str eflags [] cs text names enough =
    (m, refl, rw (append_nil cs) text, λ q out. refl)
append_flags-Text fuel m str eflags ((mask, name) ∷ tests) cs text (letters, names) enough =
    elim (Bool-cases (bit_and eflags mask == 0)) [
      | inl clear ↦
          let (m', e, t, same) =
            append_flags-Text fuel m str eflags tests cs text names (omega arith) in
          (m', rw clear e, rw clear t, λ q out. same q (ground arith))
      | inr set ↦
          let (put, t, same) = strcat_text-Text fuel m str cs name text letters (omega arith) in
          let total = length-++ cs name in
          let (m', e, t', same') =
            append_flags-Text fuel (append_text m (str + length cs) name).0 str eflags tests
              (cs ++ name) t names (omega (arith, total)) in
          (
            m',
            rw (set, put) e,
            rw (set, sym (append_assoc cs name (flag_names eflags tests))) t',
            λ q out. same' q (ground (arith, total)) ∙ same q (ground (arith, total)),
          )
    ]

-- `strflags` holds a space and the names of the flags that are set, in order, and a terminator, if
-- strlen is given 64 rounds or more; no byte outside the 64 of the array changes.
pub decode_eflags-flag_names :
    (fuel : ℕ) (strflags eflags : ℕ) (m : Memory)
    → 64 ≤ fuel
    → (m' : Memory) × (decode_eflags fuel strflags eflags m ≡ ok m')
      × Text m' strflags (b' ' ∷ flag_names eflags eflags_tests)
      × ((q : ℕ) → (q < strflags) ⊎ (strflags + 64 ≤ q) → m' q ≡ m q)
unfolding decode_eflags
decode_eflags-flag_names fuel strflags eflags m enough =
    let (m', e, t, same) =
      append_flags-Text fuel (store8 (store8 m strflags b' ') (strflags + 1) 0) strflags eflags
        eflags_tests (b' ' ∷ []) (ground arith) (ground arith) (omega arith) in
    (m', e, t, λ q out. same q (ground arith) ∙ ground arith)
