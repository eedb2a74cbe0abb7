-- ===== src/Pci/Query.antt =====
-- The word that src/PCIBus.cpp writes to the configuration address, and what it reads of a device.
use ann_os.Base.{
  ℕ, zero, suc, ◌+◌, ◌-◌, ◌*◌, ◌/◌, ◌%◌, ◌^◌, ◌<◌, ◌≡◌, refl, Bool-cases, inl, inr, ◌==◌,
  if◌then◌else◌, arith, List, [], ◌∷◌, Option, none, some,
}
use ann_os.Io.{History, Hardware, wrote32}
use ann_os.Pci.{
  PciDev, config_address, config_data, make_pci_addr_query, ask, read_pci_register, query_loop,
  probe,
}

-- The fields of a query, where they are in range, can be read off the word; bit 31 is set, and the
-- two lowest bits and the reserved ones are clear.
pub make_pci_addr_query-fields :
    (bus dev fun reg : ℕ)
    → bus < 256
    → dev < 32
    → fun < 8
    → reg < 64
    → let q = make_pci_addr_query bus dev fun reg in
      (q / 2 ^ 31 ≡ 1)
      × (q / 2 ^ 24 % 2 ^ 7 ≡ 0)
      × (q / 2 ^ 16 % 256 ≡ bus)
      × (q / 2 ^ 11 % 32 ≡ dev)
      × (q / 2 ^ 8 % 8 ≡ fun)
      × (q / 4 % 64 ≡ reg)
      × (q % 4 ≡ 0)
unfolding make_pci_addr_query
make_pci_addr_query-fields bus dev fun reg b d f r =
    (omega arith, omega arith, omega arith, omega arith, omega arith, omega arith, omega arith)

-- A bus whose configuration space does not change: the answer depends on the last query alone.
abbrev pub Answers : Hardware → (ℕ → ℕ) → Type 0
Answers hw space =
    (query : ℕ) (h : History) → hw (wrote32 config_address query ∷ h) config_data ≡ space query

-- The words of a function of such a bus, from a register on.
abbrev pub words_from : (ℕ → ℕ) → ℕ → ℕ → ℕ → ℕ → ℕ → List ℕ
words_from space bus dev fun zero reg = []
words_from space bus dev fun (suc rounds) reg =
    space (make_pci_addr_query bus dev fun reg) % 2 ^ 32
    ∷ words_from space bus dev fun rounds (reg + 1)

-- The words of a function that exists.
abbrev pub present_words : (ℕ → ℕ) → ℕ → ℕ → ℕ → Option (List ℕ)
present_words space bus dev fun =
    if space (make_pci_addr_query bus dev fun 0) % 2 ^ 32 == 0xffffffff
    then none
    else some (words_from space bus dev fun 18 0)

make_pci_addr_query-word : (bus dev fun reg : ℕ) → make_pci_addr_query bus dev fun reg < 2 ^ 32
unfolding make_pci_addr_query
make_pci_addr_query-word bus dev fun reg = omega arith

module _ (hw : Hardware) (space : ℕ → ℕ) (answers : Answers hw space) where
  ask-content :
      (query : ℕ) (h : History) → query < 2 ^ 32 → (ask hw query h).0 ≡ space query % 2 ^ 32
  unfolding ask
  ask-content query h small =
      let e : query % 2 ^ 32 ≡ query = omega arith in rw (e, answers query h) refl

  query_loop-words :
      (bus dev fun rounds reg : ℕ) (h : History)
      → (query_loop hw bus dev fun rounds reg h).0 ≡ words_from space bus dev fun rounds reg
  unfolding query_loop
  query_loop-words bus dev fun zero reg h = refl
  query_loop-words bus dev fun (suc rounds) reg h =
      rw
        (
          ask-content (make_pci_addr_query bus dev fun reg) h
              (make_pci_addr_query-word bus dev fun reg),
          query_loop-words bus dev fun rounds (reg + 1) _,
        )
        refl

  pub probe-present_words :
      (bus dev fun : ℕ) (h : History) → (probe hw bus dev fun h).0 ≡ present_words space bus dev fun
  unfolding probe
  probe-present_words bus dev fun h =
      let first =
        ask-content (make_pci_addr_query bus dev fun 0) h
          (make_pci_addr_query-word bus dev fun 0) in
      elim (Bool-cases (space (make_pci_addr_query bus dev fun 0) % 2 ^ 32 == 0xffffffff)) [
        | inl absent ↦ rw (first, absent, probe) refl
        | inr there ↦ rw (first, there, query_loop-words bus dev fun 17 1 _, probe) refl
      ]

  -- On a bus whose configuration space does not change, `ReadPCIRegister` returns the bits of the
  -- 32-bit register that holds the byte `idx`, from that byte on, cut to the size asked for.
  pub read_pci_register-content :
      (size : ℕ) (d : PciDev) (idx : ℕ) (h : History)
      → (read_pci_register hw size d idx h).0
        ≡ space (make_pci_addr_query d.bus d.dev d.func (idx / 4))
          % 2 ^ 32
          / 2 ^ (idx % 4 * 8)
          % 2 ^ size
  unfolding read_pci_register
  read_pci_register-content size d idx h =
      let e : (idx - idx % 4) / 4 ≡ idx / 4 = omega arith in
      rw
        (
          e,
          ask-content (make_pci_addr_query d.bus d.dev d.func (idx / 4)) h
              (make_pci_addr_query-word d.bus d.dev d.func (idx / 4)),
        )
        refl
