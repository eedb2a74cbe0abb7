-- ===== src/Log/Tests.antt =====
-- A message at a concrete input.
use ann_os.Base.{◌+◌, ◌≡◌, [], ◌∷◌, length}
use ann_os.Log.{log_text, log_buffer}
use ann_os.Log.Buffer.{log_text-log_buffer}

log_text-log_buffer_example :
    length (log_text (b'v' ∷ b'm' ∷ b'm' ∷ []) (b'o' ∷ b'k' ∷ [])) + 1
    ≡ log_buffer (b'v' ∷ b'm' ∷ b'm' ∷ []) (b'o' ∷ b'k' ∷ []) + 4
log_text-log_buffer_example = log_text-log_buffer (b'v' ∷ b'm' ∷ b'm' ∷ []) (b'o' ∷ b'k' ∷ [])
