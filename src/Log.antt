-- ===== src/Log.antt =====
-- src/Log.cpp and src/include/Log.hpp: the kernel log. A text is the list of its characters before
-- the terminator; the text that `vsprintf` makes of the format and its arguments is an argument.
pub mod Buffer
mod Tests
use ann_os.Base.{ℕ, ◌+◌, leb, if◌then◌else◌, List, [], ◌∷◌, ◌++◌, length}
use ann_os.Vga.{light_grey}

-- `enum LogLevel`
pub data LogLevel : Type 0 where
  debug notice info warning error fatal : LogLevel

abbrev pub level_rank : LogLevel → ℕ
level_rank debug = 0
level_rank notice = 1
level_rank info = 2
level_rank warning = 3
level_rank error = 4
level_rank fatal = 5

-- A call of `WriteVGA`: on the log console, or on the screen by `kputs`.
pub data Output : Type 0 where
  to_log to_screen : List ℕ → ℕ → Output

-- `PrintLogLevel`
unfoldable pub print_log_level : LogLevel → List Output
print_log_level debug =
    to_log (b'[' ∷ b'D' ∷ b'E' ∷ b'B' ∷ b'U' ∷ b'G' ∷ b']' ∷ b' ' ∷ []) light_grey ∷ []
print_log_level notice =
    to_log (b'[' ∷ b'N' ∷ b'O' ∷ b'T' ∷ b'I' ∷ b'C' ∷ b'E' ∷ b']' ∷ b' ' ∷ []) light_grey ∷ []
print_log_level info = []
print_log_level warning =
    to_log (b'[' ∷ b'W' ∷ b'A' ∷ b'R' ∷ b'N' ∷ b'I' ∷ b'N' ∷ b'G' ∷ b']' ∷ b' ' ∷ []) 14 ∷ []
print_log_level error = to_log (b'[' ∷ b'E' ∷ b'R' ∷ b'R' ∷ b'O' ∷ b'R' ∷ b']' ∷ b' ' ∷ []) 12 ∷ []
print_log_level fatal =
    to_log
      (27 ∷ b'[' ∷ b'4' ∷ b'1' ∷ b';' ∷ b'3' ∷ b'7' ∷ b';' ∷ b'1' ∷ b'm' ∷ b'[' ∷ b'F' ∷ b'A' ∷ b'T'
        ∷ b'A' ∷ b'L' ∷ b']' ∷ 27 ∷ b'[' ∷ b'0' ∷ b'm' ∷ b' ' ∷ [])
      light_grey
    ∷ []

abbrev pub bold : List ℕ
bold = 27 ∷ b'[' ∷ b'1' ∷ b'm' ∷ []

abbrev pub normal_colon : List ℕ
normal_colon = 27 ∷ b'[' ∷ b'0' ∷ b'm' ∷ b':' ∷ b' ' ∷ []

-- The text that is put together in `str`.
unfoldable pub log_text : List ℕ → List ℕ → List ℕ
log_text tag fstr = bold ++ (tag ++ (normal_colon ++ (fstr ++ (10 ∷ []))))

-- The size of `str`.
unfoldable pub log_buffer : List ℕ → List ℕ → ℕ
log_buffer tag fstr = length fstr + length tag + 8

-- "A fatal error occurred: \n"
abbrev pub fatal_text : List ℕ
fatal_text =
    b'A' ∷ b' ' ∷ b'f' ∷ b'a' ∷ b't' ∷ b'a' ∷ b'l' ∷ b' ' ∷ b'e' ∷ b'r' ∷ b'r' ∷ b'o' ∷ b'r' ∷ b' '
    ∷ b'o' ∷ b'c' ∷ b'c' ∷ b'u' ∷ b'r' ∷ b'r' ∷ b'e' ∷ b'd' ∷ b':' ∷ b' ' ∷ 10 ∷ []

-- `Log::Write`: the texts written, the first one first.
unfoldable pub write_log : LogLevel → List ℕ → List ℕ → List Output
write_log level tag fstr =
    print_log_level level
    ++ (to_log (log_text tag fstr) light_grey
        ∷ (if leb 5 (level_rank level)
            then to_screen fatal_text light_grey ∷ []
            else if leb 3 (level_rank level)
            then to_screen (log_text tag fstr) light_grey ∷ []
            else []))
