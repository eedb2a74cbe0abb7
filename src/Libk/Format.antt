-- ===== src/Libk/Format.antt =====
-- src/libk/stdio.cpp: strlen, strcat and vsprintf. The buffers lie below the end of the address
-- space and not at address 0, so addresses do not wrap around here. `num`, the local buffer of a
-- number, is the list of its characters; a text that overruns it has no result.
pub mod Writing
pub mod Pieces
pub mod Numbers
pub mod Specifiers
pub mod Conversions
pub mod Rounds
pub mod Refinement
pub mod Percent
pub mod Buffers
mod Tests
use ann_os.Base.{
  ℕ, zero, suc, ◌+◌, ◌-◌, ◌%◌, ◌^◌, Bool, ltb, leb, ◌==◌, ◌&&◌, if◌then◌else◌, Option, none, some,
  List, [], ◌∷◌, length, Memory, load8, store8, sub32, Outcome, ok, running, ◌>>=◌,
}
use ann_os.Libk.Text.{inttostr, atoi}

-- `strlen`, in the rounds given.
unfoldable pub strlen : ℕ → Memory → ℕ → Outcome ℕ
strlen zero m str = running
strlen (suc fuel) m str =
    let rest = strlen fuel m (str + 1) >>= λ n. ok (n + 1) in
    if load8 m str == 0 then ok 0 else rest

-- The loop of `strcat`: the memory, and the address that it returns, that of the last character.
unfoldable pub strcat_loop : ℕ → Memory → ℕ → ℕ → Outcome (Memory × ℕ)
strcat_loop zero m cstart str = running
strcat_loop (suc fuel) m cstart str =
    let rest = strcat_loop fuel (store8 m cstart (load8 m str)) (cstart + 1) (str + 1) in
    if load8 m str == 0 then ok (store8 m cstart 0, cstart - 1) else rest

unfoldable pub strcat : ℕ → Memory → ℕ → ℕ → Outcome (Memory × ℕ)
strcat fuel m dst str = do len ← strlen fuel m dst; strcat_loop fuel m (dst + len) str

-- The same for a source that is a local buffer or a literal.
unfoldable pub append_text : Memory → ℕ → List ℕ → Memory × ℕ
append_text m cstart [] = (store8 m cstart 0, cstart - 1)
append_text m cstart (c ∷ cs) = append_text (store8 m cstart c) (cstart + 1) cs

unfoldable pub strcat_text : ℕ → Memory → ℕ → List ℕ → Outcome (Memory × ℕ)
strcat_text fuel m dst text = do len ← strlen fuel m dst; ok (append_text m (dst + len) text)

-- The destination, and the number of arguments taken so far.
pub record Writer : Type 0 where
  pub mem : Memory
  pub str : ℕ
  pub arg : ℕ

-- The arguments are words, one after the other.
abbrev pub VaList : Type 0
VaList = ℕ → ℕ

abbrev pub is_digit : ℕ → Bool
is_digit c = leb b'0' c && leb c b'9'

-- The loop over the padding specifiers: where they start, how many there are, and the character.
unfoldable pub padding_loop : ℕ → Memory → ℕ → ℕ → ℕ → Outcome (ℕ × ℕ × ℕ)
padding_loop zero m fmt padstrptr padchar = running
padding_loop (suc fuel) m fmt padstrptr padchar =
    let c = load8 m (fmt + padstrptr) in
    let zeros = padding_loop fuel m (fmt + 1) padstrptr b'0' in
    let digit = padding_loop fuel m fmt (padstrptr + 1) padchar in
    if is_digit c
    then (if (padstrptr == 0) && (c == b'0') then zeros else digit)
    else ok (fmt, padstrptr, padchar)

-- The characters from an address on, as they are copied to `padstr`.
abbrev pub chars : Memory → ℕ → ℕ → List ℕ
chars m a zero = []
chars m a (suc n) = load8 m a ∷ chars m (a + 1) n

-- `_inttostr` with the padding, where there is one.
abbrev pub number_text : ℕ → ℕ → ℕ → ℕ → Option (List ℕ)
number_text num base padding padchar =
    if ltb 0 padding then inttostr num base padding padchar else inttostr num base 0 b' '

-- An `int32_t`, as the `uint64_t` that it is converted to.
abbrev pub extended : ℕ → ℕ
extended i = if ltb i (2 ^ 31) then i else i + (2 ^ 64 - 2 ^ 32)

-- `strcat(str, num); str++;` for `char num[size]`. What the source does when the text and its
-- terminator overrun `num` is not defined: then there is no result.
unfoldable pub put_number : ℕ → ℕ → Option (List ℕ) → Writer → Outcome Writer
put_number size fuel none w = running
put_number size fuel (some num) w =
    if leb size (length num)
    then running
    else do (m, last) ← strcat_text fuel w.mem w.str num; ok (record w { mem = m; str = last + 1 })

-- `*str = 0;`, and the argument is taken.
abbrev pub with_arg : Writer → Writer
with_arg w = record w { mem = store8 w.mem w.str 0; arg = w.arg + 1 }

-- The padding behind a text, and the steps on its ends.
unfoldable pub spaces_loop : ℕ → Memory → ℕ → Memory × ℕ
spaces_loop zero m str = (m, str)
spaces_loop (suc rounds) m str = spaces_loop rounds (store8 m (str + 1) b' ') (str + 1)

-- `truepad` is an `int`, positive below 2 ^ 31.
unfoldable pub put_spaces : ℕ → Memory → ℕ → Memory × ℕ
put_spaces truepad m str =
    if ltb 0 truepad && ltb truepad (2 ^ 31)
    then (let (m', last) = spaces_loop truepad m str in (store8 m' (last + 1) 0, last))
    else (m, str)

unfoldable pub put_string : ℕ → ℕ → ℕ → Writer → Outcome Writer
put_string fuel s padding w = do
  (m, last) ← strcat fuel w.mem w.str s
  len ← strlen fuel m s
  let (m', last') = put_spaces (sub32 padding len) m last
  ok (record w { mem = m'; str = last' + 1 })

-- The `switch` on the character `c`.
unfoldable pub convert : ℕ → VaList → ℕ → ℕ → ℕ → Writer → Outcome Writer
convert fuel vl padding padchar c w =
    let i = vl w.arg % 2 ^ 32 in
    if c == b'%'
    then ok (record w { mem = store8 w.mem w.str b'%' })
    else if c == b'd'
    then put_number 16 fuel (number_text (extended i) 10 padding padchar) (with_arg w)
    else if c == b'u'
    then (let num = number_text (i % 2 ^ 31) 10 padding padchar in
        if ltb i (2 ^ 31) then put_number 16 fuel num (with_arg w) else do
          let v = with_arg w
          (m, last) ← strcat_text fuel v.mem v.str (b'-' ∷ [])
          put_number 16 fuel num (record v { mem = m; str = last }))
    else if c == b'x'
    then put_number 8 fuel (number_text i 16 padding padchar) (with_arg w)
    else if c == b's'
    then put_string fuel i padding (with_arg w)
    else if c == b'c'
    then ok (record w { mem = store8 w.mem (w.str + 1) i; str = w.str + 1; arg = w.arg + 1 })
    else ok w

-- A directive, from the character behind the `%` on: where the text goes on, and the destination.
unfoldable pub directive : ℕ → VaList → ℕ → Writer → Outcome (ℕ × Writer)
directive fuel vl fmt w = do
  (start, digits, padchar) ← padding_loop fuel w.mem fmt 0 b' '
  padding ← if ltb 0 digits then atoi (chars w.mem start digits) else ok 0
  w' ← convert fuel vl padding padchar (load8 w.mem (start + digits)) w
  ok (start + digits + 1, w')

abbrev pub put_char : ℕ → Writer → Writer
put_char c w = record w { mem = store8 w.mem w.str c; str = w.str + 1 }

-- The loop over the format at `fmt`.
unfoldable pub format_loop : ℕ → VaList → ℕ → Writer → Outcome Writer
format_loop zero vl fmt w = running
format_loop (suc fuel) vl fmt w =
    let c = load8 w.mem fmt in
    let conversion = directive fuel vl (fmt + 1) w >>= λ (next, w'). format_loop fuel vl next w' in
    let plain = format_loop fuel vl (fmt + 1) (put_char c w) in
    if c == 0 then ok w else if c == b'%' then conversion else plain

-- `vsprintf`: the memory afterwards.
unfoldable pub vsprintf : ℕ → Memory → ℕ → ℕ → VaList → Outcome Memory
vsprintf fuel m str fmt vl = do
  w ← format_loop fuel vl fmt (record { mem = m; str = str; arg = 0 })
  ok (store8 (store8 w.mem w.str 0) (w.str + 1) 0)
