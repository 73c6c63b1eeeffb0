-- ===== src/Errors/Cause.antt =====
-- Wrapping does not change what an error is found to be.
use Prim.Native.String.{String}
use trivialt.Prelude.{Option, none, some, ◌≡◌, ◌≢◌, refl, List, [], ◌∷◌}
use trivialt.Errors.{
  Error, tftp_error, wrap_error, error_cause, is_unexpected_datagram, is_remote_error,
  is_option_parsing_error,
}

-- Wraps an error in all the messages, the last one outermost.
abbrev pub wrap_all : Option Error → List String → Option Error
wrap_all e [] = e
wrap_all e (m ∷ ms) = wrap_all (wrap_error e m) ms

-- The cause is never a wrapper.
pub error_cause-ne-tftp_error : (e e' : Error) (msg : String) → error_cause e ≢ tftp_error e' msg
unfolding error_cause
error_cause-ne-tftp_error (tftp_error e m) e' msg h = error_cause-ne-tftp_error e e' msg h
error_cause-ne-tftp_error _ e' msg h = cc

abbrev pub cause : Option Error → Option Error
cause none = none
cause (some e) = some (error_cause e)

cause-wrap_error : (e : Option Error) (m : String) → cause (wrap_error e m) ≡ cause e
unfolding wrap_error error_cause
cause-wrap_error none m = refl
cause-wrap_error (some e) m = refl

cause-wrap_all : (ms : List String) (e : Option Error) → cause (wrap_all e ms) ≡ cause e
cause-wrap_all [] e = refl
cause-wrap_all (m ∷ ms) e = rw (cause-wrap_all ms (wrap_error e m)) (cause-wrap_error e m)

same_cause :
    (e e' : Option Error)
    → cause e ≡ cause e'
    → (is_unexpected_datagram e ≡ is_unexpected_datagram e')
      × (is_remote_error e ≡ is_remote_error e')
      × (is_option_parsing_error e ≡ is_option_parsing_error e')
unfolding is_unexpected_datagram is_remote_error is_option_parsing_error
same_cause none none h = (refl, refl, refl)
same_cause none (some e) h = cc
same_cause (some e) none h = cc
same_cause (some e) (some e') h = (cc, cc, cc)

-- However often an error is wrapped, `ErrorCause` finds the same cause, a nil error stays nil, and
-- the three tests answer as they do for the error itself.
pub wrap_all_lem :
    (e : Option Error) (ms : List String)
    → (cause (wrap_all e ms) ≡ cause e)
      × (is_unexpected_datagram (wrap_all e ms) ≡ is_unexpected_datagram e)
      × (is_remote_error (wrap_all e ms) ≡ is_remote_error e)
      × (is_option_parsing_error (wrap_all e ms) ≡ is_option_parsing_error e)
wrap_all_lem e ms =
    let (u, r, p) = same_cause (wrap_all e ms) e (cause-wrap_all ms e) in
    (cause-wrap_all ms e, u, r, p)
