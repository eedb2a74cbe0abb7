-- ===== src/Libk/Format/Writing.antt =====
-- What strcat and the other writes of src/libk/stdio.cpp do to memory: `Writes` says that a text
-- was written, perhaps with a terminator behind it.
use ann_os.Base.{
  ℕ, zero, suc, ◌+◌, ◌-◌, ◌≤◌, ◌<◌, ◌≡◌, ◌≢◌, refl, ap, ◌∙◌, true, false, ◌==◌, List, [], ◌∷◌, ◌++◌,
  length, Memory, load8, store8, Holds, arith, ok, ◌⊎◌, inl, inr,
}
use ann_os.Libk.Format.{strlen, strcat_loop, strcat, append_text, strcat_text, spaces_loop}

-- Characters before a terminator.
abbrev pub Text : Memory → ℕ → List ℕ → Type 0
Text m a [] = load8 m a ≡ 0
Text m a (c ∷ cs) = (load8 m a ≡ c) × (0 < c) × Text m (a + 1) cs

abbrev pub Chars : List ℕ → Type 0
Chars [] = Unit
Chars (c ∷ cs) = (c < 256) × Chars cs

pub record Writes (m : Memory) (str : ℕ) (cs : List ℕ) (m' : Memory) : Type 0 where
  pub text : Holds m' str cs
  pub before : (q : ℕ) → q < str → m' q ≡ m q
  pub behind : (q : ℕ) → str + length cs < q → m' q ≡ m q

-- The addresses that writing `n` characters at `str` does not touch, from `a` on.
abbrev pub Apart : ℕ → ℕ → ℕ → ℕ → Type 0
Apart a len str n = (a + len ≤ str) ⊎ (str + n < a)

pub Apart-≢ :
    (a len str n q p : ℕ) → Apart a len str n → a ≤ q → q < a + len → str ≤ p → p ≤ str + n → q ≢ p
Apart-≢ a len str n q p (inl low) l u l' u' = omega arith
Apart-≢ a len str n q p (inr high) l u l' u' = omega arith

Apart-suc :
    (a len l str n k : ℕ)
    → len + 1 ≤ l
    → n + 1 ≤ k
    → Apart a l str k
    → Apart (a + 1) len (str + 1) n
Apart-suc a len l str n k shorter less (inl low) = inl (omega arith)
Apart-suc a len l str n k shorter less (inr high) = inr (omega arith)

module _ (m m' : Memory) where
  pub Holds-same :
      (a : ℕ) (cs : List ℕ)
      → ((q : ℕ) → a ≤ q → q < a + length cs → m' q ≡ m q)
      → Holds m a cs
      → Holds m' a cs
  Holds-same a [] same h = tt
  Holds-same a (c ∷ cs) same (here, rest) = (
    rw (same a (omega arith) (omega arith)) here,
    Holds-same (a + 1) cs (λ q l u. same q (omega arith) (omega arith)) rest,
  )

  pub Text-same :
      (a : ℕ) (cs : List ℕ)
      → ((q : ℕ) → a ≤ q → q ≤ a + length cs → m' q ≡ m q)
      → Text m a cs
      → Text m' a cs
  Text-same a [] same end = rw (same a (omega arith) (omega arith)) end
  Text-same a (c ∷ cs) same (here, some_char, rest) = (
    rw (same a (omega arith) (omega arith)) here,
    some_char,
    Text-same (a + 1) cs (λ q l u. same q (omega arith) (omega arith)) rest,
  )

  pub Writes-same :
      (str : ℕ) (cs : List ℕ)
      → Writes m str cs m'
      → (q a len : ℕ) → Apart a len str (length cs)
      → a ≤ q
      → q < a + len
      → m' q ≡ m q
  Writes-same str cs written q a len (inl low) l u = written.before q (omega arith)
  Writes-same str cs written q a len (inr high) l u = written.behind q (omega arith)

Holds-++ :
    (m : Memory) (a : ℕ) (cs ds : List ℕ)
    → Holds m a cs
    → Holds m (a + length cs) ds
    → Holds m a (cs ++ ds)
Holds-++ m a [] ds _ later = let e : a + 0 ≡ a = omega arith in rw e at later
Holds-++ m a (c ∷ cs) ds (here, rest) later =
    let e : a + suc (length cs) ≡ a + 1 + length cs = omega arith in
    (here, Holds-++ m (a + 1) cs ds rest (rw e at later))

pub length-++ : (cs ds : List ℕ) → length (cs ++ ds) ≡ length cs + length ds
length-++ [] ds = omega arith
length-++ (c ∷ cs) ds = omega (arith, length-++ cs ds)

pub Writes-++ :
    (m m' m'' : Memory) (str : ℕ) (cs ds : List ℕ)
    → Writes m str cs m'
    → Writes m' (str + length cs) ds m''
    → Writes m str (cs ++ ds) m''
Writes-++ m m' m'' str cs ds first second = record {
  text =
      Holds-++ m'' str cs ds
        (Holds-same m' m'' str cs (λ q l u. second.before q (omega arith)) first.text) second.text;
  before = λ q l. second.before q (omega arith) ∙ first.before q l;
  behind = λ q l.
      let total = length-++ cs ds in
      second.behind q (omega (arith, total)) ∙ first.behind q (omega (arith, total));
}

pub Writes-char : (m : Memory) (str c : ℕ) → c < 256 → Writes m str (c ∷ []) (store8 m str c)
Writes-char m str c small = record {
  text = (ground arith, tt);
  before = λ q l. ground arith;
  behind = λ q l. ground arith;
}

pub Writes-end : (m : Memory) (str : ℕ) → Writes m str [] (store8 m str 0)
Writes-end m str = record { text = tt; before = λ q l. ground arith; behind = λ q l. ground arith }

pub append_text-Writes :
    (m : Memory) (str : ℕ) (cs : List ℕ)
    → Chars cs
    → Writes m str cs ((append_text m str cs).0) × ((append_text m str cs).1 ≡ str + length cs - 1)
unfolding append_text
append_text-Writes m str [] small = (Writes-end m str, omega arith)
append_text-Writes m str (c ∷ cs) (here, rest) =
    let (written, last) = append_text-Writes (store8 m str c) (str + 1) cs rest in
    (
      Writes-++ m (store8 m str c) _ str (c ∷ []) cs (Writes-char m str c here) written,
      omega (arith, last),
    )

pub Text-Chars : (m : Memory) (a : ℕ) (cs : List ℕ) → Text m a cs → Chars cs
Text-Chars m a [] end = tt
Text-Chars m a (c ∷ cs) (here, some_char, rest) = (omega arith, Text-Chars m (a + 1) cs rest)

-- Copying from memory outside the destination is the same as from a list.
strcat_loop-append_text :
    (fuel : ℕ) (m : Memory) (dst src : ℕ) (cs : List ℕ)
    → Text m src cs
    → Apart src (length cs + 1) dst (length cs)
    → length cs < fuel
    → strcat_loop fuel m dst src ≡ ok (append_text m dst cs)
unfolding strcat_loop append_text
strcat_loop-append_text zero m dst src cs text apart enough = absurd (omega arith)
strcat_loop-append_text (suc fuel) m dst src [] end apart enough =
    let nul : (load8 m src == 0) ≡ true = ground arith in rw nul refl
strcat_loop-append_text (suc fuel) m dst src (c ∷ cs) (here, some_char, rest) apart enough =
    let alive : (load8 m src == 0) ≡ false = ground arith in
    let later =
      Text-same m (store8 m dst c) (src + 1) cs
        (λ q l u.
          let other =
            Apart-≢ src (suc (length cs) + 1) dst (suc (length cs)) q dst apart (omega arith)
              (omega arith) (omega arith) (omega arith) in
          ground arith)
        rest in
    rw (alive, here)
      (strcat_loop-append_text fuel (store8 m dst c) (dst + 1) (src + 1) cs later
        (Apart-suc src (length cs + 1) (suc (length cs) + 1) dst (length cs) (suc (length cs))
          (omega arith) (omega arith) apart)
        (omega arith))

pub strlen-Text :
    (fuel : ℕ) (m : Memory) (a : ℕ) (cs : List ℕ)
    → Text m a cs
    → length cs < fuel
    → strlen fuel m a ≡ ok (length cs)
unfolding strlen
strlen-Text zero m a cs text enough = absurd (omega arith)
strlen-Text (suc fuel) m a [] end enough =
    let nul : (load8 m a == 0) ≡ true = ground arith in rw nul refl
strlen-Text (suc fuel) m a (c ∷ cs) (here, some_char, rest) enough =
    let alive : (load8 m a == 0) ≡ false = ground arith in
    rw (alive, strlen-Text fuel m (a + 1) cs rest (omega arith)) (ap ok (omega arith))

-- Where a text ends at `str`, strcat starts there.
pub strcat_text-append_text :
    (fuel : ℕ) (m : Memory) (str : ℕ) (cs : List ℕ)
    → load8 m str ≡ 0
    → strcat_text (suc fuel) m str cs ≡ ok (append_text m str cs)
unfolding strcat_text
strcat_text-append_text fuel m str cs end =
    let start : str + 0 ≡ str = omega arith in
    rw (strlen-Text (suc fuel) m str [] end (omega arith), start) refl

pub strcat-append_text :
    (fuel : ℕ) (m : Memory) (str src : ℕ) (cs : List ℕ)
    → load8 m str ≡ 0
    → Text m src cs
    → Apart src (length cs + 1) str (length cs)
    → length cs < fuel
    → strcat fuel m str src ≡ ok (append_text m str cs)
unfolding strcat
strcat-append_text fuel m str src cs end text apart enough =
    let start : str + 0 ≡ str = omega arith in
    rw (strlen-Text fuel m str [] end (omega arith), start)
      (strcat_loop-append_text fuel m str src cs text apart enough)

-- Spaces behind the character at `str`.
abbrev pub blanks : ℕ → List ℕ
blanks zero = []
blanks (suc n) = b' ' ∷ blanks n

pub length-blanks : (n : ℕ) → length (blanks n) ≡ n
length-blanks zero = refl
length-blanks (suc n) = omega (arith, length-blanks n)

pub spaces_loop-Writes :
    (n : ℕ) (m : Memory) (str : ℕ)
    → Writes m (str + 1) (blanks n) ((spaces_loop n m str).0) × ((spaces_loop n m str).1 ≡ str + n)
unfolding spaces_loop
spaces_loop-Writes zero m str =
    (record { text = tt; before = λ q l. refl; behind = λ q l. refl }, omega arith)
spaces_loop-Writes (suc n) m str =
    let (written, last) = spaces_loop-Writes n (store8 m (str + 1) b' ') (str + 1) in
    (
      Writes-++ m (store8 m (str + 1) b' ') _ (str + 1) (b' ' ∷ []) (blanks n)
          (Writes-char m (str + 1) b' ' (omega arith)) written,
      omega (arith, last),
    )

pub Writes-last :
    (m m' : Memory) (str : ℕ) (cs : List ℕ) (p : ℕ)
    → p ≡ str + length cs
    → Writes m str cs m'
    → Writes m str cs (store8 m' p 0)
Writes-last m m' str cs p e written = record {
  text = Holds-same m' (store8 m' p 0) str cs (λ q l u. ground (arith, e)) written.text;
  before = λ q l. let same = written.before q l in ground (arith, e, same);
  behind = λ q l. let same = written.behind q l in ground (arith, e, same);
}
