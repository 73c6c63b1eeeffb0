-- ===== src/Client.antt =====
-- client.go: the configuration of a client and its options. A `ClientOpt` is the data of its call.
pub mod Url
pub mod Valid
pub mod Accepted
pub mod Requests
pub mod Dialed
pub mod Download
pub mod Unheard
use trivialt.Prelude.{
  ℕ, ◌+◌, [], ◌∷◌, List, Option, none, some, Bool, true, false, ltb, not, ◌&&◌, ◌||◌, if◌then◌else◌,
}
use trivialt.Prelude.Bytes.{Bytes, bytes_eq, codes}
use trivialt.Prelude.Int.{ℤ, pos, negsuc, ltb_ℤ}
use trivialt.Strconv.{format_int}
use trivialt.Datagram.{
  Options, mode_netascii, mode_octet, opt_blocksize, opt_timeout, opt_transfer_size,
  opt_window_size,
}
use trivialt.Datagram.Read.{put}
use trivialt.Errors.{
  Sentinel, invalid_mode, invalid_blocksize, invalid_timeout, invalid_windowsize,
  invalid_retransmit,
}

pub record Client : Type 0 where
  pub net : Bytes
  pub mode : Bytes
  pub opts : Options
  pub retransmit : ℤ

abbrev pub default_udp_net : Bytes
default_udp_net = codes "udp"

abbrev pub default_options : Options
default_options = (opt_transfer_size, codes "0") ∷ []

abbrev pub default_client : Client
default_client = record {
  net = default_udp_net;
  mode = mode_octet;
  opts = default_options;
  retransmit = pos 10;
}

-- `delete(m, k)`
unfoldable pub remove : Options → Bytes → Options
remove [] k = []
remove ((j, v) ∷ m) k = let rest = remove m k in if bytes_eq j k then rest else (j, v) ∷ rest

pub data ClientOpt : Type 0 where
  client_mode : Bytes → ClientOpt
  client_blocksize client_timeout client_windowsize client_retransmit : ℤ → ClientOpt
  client_transfer_size : Bool → ClientOpt

-- A changed client, or the error.
pub data Outcome : Type 0 where
  configured : Client → Outcome
  rejected : Sentinel → Outcome

abbrev pub outside : ℤ → ℤ → ℤ → Bool
outside lo hi i = ltb_ℤ i lo || ltb_ℤ hi i

unfoldable pub apply_opt : ClientOpt → Client → Outcome
apply_opt (client_mode m) c =
    if not (bytes_eq m mode_netascii) && not (bytes_eq m mode_octet)
    then rejected invalid_mode
    else configured (record c { mode = m })
apply_opt (client_blocksize size) c =
    if outside (pos 8) (pos 65464) size
    then rejected invalid_blocksize
    else configured (record c { opts = put c.opts opt_blocksize (format_int size) })
apply_opt (client_timeout seconds) c =
    if outside (pos 1) (pos 255) seconds
    then rejected invalid_timeout
    else configured (record c { opts = put c.opts opt_timeout (format_int seconds) })
apply_opt (client_windowsize window) c =
    if outside (pos 1) (pos 65535) window
    then rejected invalid_windowsize
    else configured (record c { opts = put c.opts opt_window_size (format_int window) })
apply_opt (client_transfer_size enable) c = configured (record c {
  opts =
      if enable then put c.opts opt_transfer_size (codes "0") else remove c.opts opt_transfer_size;
})
apply_opt (client_retransmit i) c =
    if ltb_ℤ i (pos 0)
    then rejected invalid_retransmit
    else configured (record c { retransmit = i })

-- The loop of `NewClient`: the client so far, and the error at which it stopped.
unfoldable pub apply_opts : Client → List ClientOpt → Client × Option Sentinel
apply_opts c [] = (c, none)
apply_opts c (opt ∷ rest) = elim (apply_opt opt c) [
  | configured c' ↦ apply_opts c' rest
  | rejected e ↦ (c, some e)
]

-- `NewClient`
unfoldable pub new_client : List ClientOpt → Client × Option Sentinel
new_client opts = apply_opts default_client opts

abbrev pub has_key : Options → Bytes → Bool
has_key [] k = false
has_key ((j, v) ∷ m) k = bytes_eq j k || has_key m k

-- `Put` puts the size in place of the 0, and drops the option if there is no size.
unfoldable pub put_options : Options → ℤ → Options
put_options m size =
    if has_key m opt_transfer_size
    then if ltb_ℤ size (pos 1)
      then remove m opt_transfer_size
      else put m opt_transfer_size (format_int size)
    else m
