-- ===== src/Server/Life.antt =====
-- The life of a server of server.go: `ListenAndServe`, the loop of `Serve`, `Addr`, `Connected` and
-- `Close`, and the closer of a connection. What the system answers is left to the user.
use trivialt.Prelude.{
  ℕ, [], ◌∷◌, List, Go, ret, panic, ◌>>=◌, Option, none, some, Bool, true, false, if◌then◌else◌,
  ◌⊎◌, inl, inr,
}
use trivialt.Prelude.Bytes.{Bytes}
use trivialt.Errors.{Error, sentinel, address_not_available, wrap_error}
use trivialt.Conn.{Conn}
use trivialt.Conn.Run
use trivialt.Server.{Server, Request, can_serve, receive}

-- The fields `conn`, here its local address, and `close`.
pub record Life : Type 0 where
  pub local_addr : Option ℕ
  pub is_closed : Bool

-- `Addr`
unfoldable pub addr : Life → ℕ ⊎ Error
addr l = elim l.local_addr [ none ↦ inr (sentinel address_not_available) | some a ↦ inl a ]

-- `Connected`
unfoldable pub connected : Life → Bool
connected l = elim l.local_addr [ none ↦ false | some a ↦ true ]

-- `Close`, given the result of closing the socket; closing the channel twice panics, and the `Close`
-- of a nil socket gives an error.
unfoldable pub close : Error → Option Error → Life → Go (Life × Option Error)
close nil_error result l =
    if l.is_closed
    then panic
    else ret (
      record l { is_closed = true },
      elim l.local_addr [ none ↦ some nil_error | some a ↦ result ],
    )

-- What one round of the loop of `Serve` meets: the closed channel, or what `ReadFromUDP` gives.
pub data Round : Type 0 where
  stopped read_timeout : Round
  read_failed : Error → Round
  arrived : ℕ → Bytes → Round

abbrev pub passed_on : Option Request → List Request → List Request
passed_on none rs = rs
passed_on (some r) rs = r ∷ rs

-- The loop: the requests it passes on, and its result, or none while it runs.
unfoldable pub serve_rounds : List Round → List Request × Option (Option Error)
serve_rounds [] = ([], none)
serve_rounds (stopped ∷ rounds) = ([], some none)
serve_rounds (read_timeout ∷ rounds) = serve_rounds rounds
serve_rounds (read_failed e ∷ rounds) = ([], some (wrap_error (some e) "reading from conn"))
serve_rounds (arrived from b ∷ rounds) =
    let rest = serve_rounds rounds in (passed_on (receive from b) rest.0, rest.1)

-- `Serve` on a socket: the server knows its address from then on.
unfoldable pub serve : Server → Life → ℕ → List Round → Life × List Request × Option (Option Error)
unfolding serve_rounds
serve s l socket rounds = elim (can_serve s) [
  | some e ↦ (l, [], some (some (sentinel e)))
  | none ↦ let r = serve_rounds rounds in (record l { local_addr = some socket }, r.0, r.1)
]

-- `ListenAndServe`, where the system resolves the address and gives a socket, or errors.
unfoldable pub listen_and_serve :
    (Bytes → Bytes → ℕ ⊎ Error)
    → (Bytes → ℕ → ℕ ⊎ Error)
    → Server
    → Bytes
    → Life
    → List Round
    → Life × List Request × Option (Option Error)
unfolding serve
listen_and_serve resolve listen s addr_str l rounds = elim (resolve s.net addr_str) [
  | inr e ↦ (l, [], some (wrap_error (some e) "resolving server address"))
  | inl a ↦ elim (listen s.net a) [
    | inr e ↦ (l, [], some (wrap_error (some e) "opening network connection"))
    | inl socket ↦
        let (l', requests, result) = serve s l socket rounds in
        (l', requests, elim result [ none ↦ none | some e ↦ some (wrap_error e "serving tftp") ])
  ]
]

-- The closer of a connection: in the single port mode the manager is told that the request is done.
unfoldable pub closer :
    Bool → ℕ → Server → ℕ → Conn → Option Error → Go (Option (Conn × Option Error × Option ℕ))
closer windows fuel s from c net_error = do
  o ← Run.close windows fuel c net_error
  ret (elim o [
    | none ↦ none
    | some (c', e) ↦ some (c', e, if s.single_port then some from else none)
  ])

-- A handler that was called, and the closer that is deferred behind it.
unfoldable pub finish :
    Bool
    → ℕ
    → Server
    → ℕ
    → (Conn → Bytes → Go (Option Conn))
    → Option Error
    → Conn
    → Bytes
    → Go (Option (Conn × Option Error × Option ℕ))
finish windows fuel s from handler net_error c name = do
  o ← handler c name
  elim o [ none ↦ ret none | some c' ↦ closer windows fuel s from c' net_error ]
