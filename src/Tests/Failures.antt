-- ===== src/Tests/Failures.antt =====
-- Concrete errors.
use trivialt.Prelude.{[], ◌∷◌, some, ◌≡◌}
use trivialt.Errors.{timeout, is_unexpected_datagram, is_remote_error, is_option_parsing_error}
use trivialt.Errors.Cause.{cause, wrap_all, wrap_all_lem}

wrap_all_lem_example :
    let wrapped = wrap_all (some timeout) ("waiting for ACK" ∷ "reading data" ∷ []) in
    (cause wrapped ≡ cause (some timeout))
    × (is_unexpected_datagram wrapped ≡ is_unexpected_datagram (some timeout))
    × (is_remote_error wrapped ≡ is_remote_error (some timeout))
    × (is_option_parsing_error wrapped ≡ is_option_parsing_error (some timeout))
wrap_all_lem_example = wrap_all_lem (some timeout) ("waiting for ACK" ∷ "reading data" ∷ [])
