-- ===== src/Tests/Wire.antt =====
-- Concrete datagrams: what is read back, and what panics.
use trivialt.Prelude.{
  ◌+◌, ◌*◌, ◌%◌, [], ◌∷◌, ret, panic, ◌>>=◌, none, some, ◌≡◌, ◌≢◌, ◌↔◌, refl, arith, inr, true,
  false,
}
use trivialt.Prelude.Int
use trivialt.Prelude.Bytes.{codes, index_byte, count_byte, slice, uint16}
use trivialt.Datagram.{Options, mode_octet, opt_blocksize}
use trivialt.Datagram.Write.{empty, set_bytes}
use trivialt.Datagram.Read.{validate, validate_fields, opcode, is_request, options}
use trivialt.Datagram.Text.{string}
use trivialt.Datagram.Text.Total.{string_lem}
use trivialt.Datagram.Message.{Message, read_request, encode, decode}
use trivialt.Datagram.Message.RoundTrip.{decode-encode}
use trivialt.Datagram.Safety.{inner, validate-panic_iff, options_by_count}
use trivialt.Server.{Server, Network, dispatch_read_request}
use trivialt.Server.Crash.{dispatch_panics}

abbrev get_a : Message
get_a = read_request (codes "a") mode_octet ((opt_blocksize, codes "9") ∷ [])

decode-encode_example : (encode empty get_a >>= decode) ≡ ret (some get_a)
decode-encode_example =
    decode-encode empty get_a (omega arith, (λ e. cc), inr refl, omega arith, (tt, tt))

validate-panic_iff_example :
    (validate (set_bytes (0 ∷ 1 ∷ [])) ≡ panic)
    ↔ ((is_request (0 * 256 + 1) ≡ true) × (index_byte [] 0 ≡ none))
validate-panic_iff_example = validate-panic_iff 0 1 []

-- DATA with block 1, whose two bytes of payload are read as an option without its NUL
options_by_count_example :
    (count_byte (inner (0 ∷ 1 ∷ 7 ∷ 8 ∷ [])) 0 % 2 ≡ 1
      → (m : Options) × (options (set_bytes (0 ∷ 3 ∷ 0 ∷ 1 ∷ 7 ∷ 8 ∷ [])) ≡ ret m))
    × (count_byte (inner (0 ∷ 1 ∷ 7 ∷ 8 ∷ [])) 0 % 2 ≡ 0
        → options (set_bytes (0 ∷ 3 ∷ 0 ∷ 1 ∷ 7 ∷ 8 ∷ [])) ≡ panic)
options_by_count_example = options_by_count 0 3 0 (1 ∷ 7 ∷ 8 ∷ []) (unfold is_request in refl)

-- A DATA without a block number.
validated : validate (set_bytes (0 ∷ 3 ∷ [])) ≢ panic
validated e = unfold validate opcode slice uint16 validate_fields is_request in cc

string_lem_example : string (λ s. s) (set_bytes (0 ∷ 3 ∷ [])) ≢ panic
string_lem_example = string_lem (λ s. s) (set_bytes (0 ∷ 3 ∷ [])) (omega arith) validated

abbrev server : Server
server = record {
  net = codes "udp";
  single_port = false;
  retransmit = Int.pos 10;
  read_handler = true;
  write_handler = false;
}

abbrev quiet : Network
quiet = record { arrivals = []; write_results = []; order = λ m. m; listen_error = none }

dispatch_panics_example :
    dispatch_read_request server (record { addr = 4; pkt = 0 ∷ 1 ∷ [] }) quiet ≡ panic
dispatch_panics_example =
    dispatch_panics server 4 0 1 [] quiet refl (unfold is_request in refl)
      (unfold index_byte in refl)
