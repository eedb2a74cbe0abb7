-- ===== src/Log/Buffer.antt =====
-- Whether the text of a message fits the buffer of src/Log.cpp.
use ann_os.Base.{ℕ, ◌+◌, ◌≡◌, arith, List, [], ◌∷◌, ◌++◌, length}
use ann_os.Log.{bold, normal_colon, log_text, log_buffer}

length-append : (xs ys : List ℕ) → length (xs ++ ys) ≡ length xs + length ys
length-append [] ys = omega arith
length-append (x ∷ xs) ys = let e = length-append xs ys in omega arith

-- The text of a message and its terminator are always four characters longer than the buffer in
-- which `Log::Write` puts them together.
pub log_text-log_buffer :
    (tag fstr : List ℕ) → length (log_text tag fstr) + 1 ≡ log_buffer tag fstr + 4
unfolding log_text log_buffer
log_text-log_buffer tag fstr =
    let a = length-append bold (tag ++ (normal_colon ++ (fstr ++ (10 ∷ [])))) in
    let b = length-append tag (normal_colon ++ (fstr ++ (10 ∷ []))) in
    let c = length-append normal_colon (fstr ++ (10 ∷ [])) in
    let d = length-append fstr (10 ∷ []) in omega arith
