-- ===== src/Syslog/Listen.antt =====
-- New and Close of internal/syslog/syslog.go. The parsed address, what the network answers and whether
-- the connection closes are given.
use access_log_exporter.Prelude.{
  Bool, true, false, List, [], ◌∷◌, ◌++◌, Option, none, some, Bytes, codes, str_eq, if◌then◌else◌,
  Result, ok, err, panic, closed_twice,
}
use access_log_exporter.Strings.Search.{cut_prefix}

-- the fields of `url.URL` that `New` reads
pub record Url : Type 0 where
  pub scheme : Bytes
  pub host : Bytes
  pub path : Bytes

-- a `net.PacketConn`, by whether it reads without addresses and whether it was closed
pub record Listener : Type 0 where
  pub reads : Bool
  pub is_closed : Bool

pub data NewError : Type 0 where
  could_not_parse no_scheme could_not_listen no_address_less_reads : NewError

-- `Syslog`: the connection, whether `done` is closed, and the files that `Close` has removed
pub record Syslog : Type 0 where
  pub listen_addr : Bytes
  pub con : Option Listener
  pub done : Bool
  pub removed : List Bytes

-- `switch uri.Scheme`: the network and the address to listen on
unfoldable pub network : Url → Option (Bytes × Bytes)
network uri =
    if str_eq uri.scheme (codes "udp")
    then some (codes "udp", uri.host)
    else if str_eq uri.scheme (codes "unix")
    then some (codes "unixgram", uri.host ++ uri.path)
    else none

-- the listener, tested for reads without addresses
unfoldable pub listening : Bytes → Option Listener → Result NewError Syslog
listening listen_addr none = err could_not_listen
listening listen_addr (some listener) =
    if listener.reads
    then ok (record { listen_addr = listen_addr; con = some listener; done = false; removed = [] })
    else err no_address_less_reads

-- `New`
unfoldable pub new :
    (Bytes → Option Url) → (Bytes → Bytes → Option Listener) → Bytes → Result NewError Syslog
unfolding network listening
new parse listen listen_addr = elim (parse listen_addr) [
  | none ↦ err could_not_parse
  | some uri ↦ elim (network uri) [
    | none ↦ err no_scheme
    | some (net, address) ↦ listening listen_addr (listen net address)
  ]
]

pub data CloseError : Type 0 where
  not_initialized could_not_stop : CloseError

-- `Close`: the server after it, and its error; a second `close(s.done)` panics
unfoldable pub close : (con_fails : Bool) → Syslog → Result CloseError Syslog × Syslog
close con_fails s = elim s.con [
  | none ↦ (err not_initialized, s)
  | some listener ↦ elim s.done [
    | true ↦ (panic closed_twice, s)
    | false ↦
        let stopped = record s { done = true; con = some (record listener { is_closed = true }) } in
        elim con_fails [
          | true ↦ (err could_not_stop, stopped)
          | false ↦ elim (cut_prefix s.listen_addr (codes "unix://")) [
            | none ↦ (ok stopped, stopped)
            | some path ↦
                let cleared = record stopped { removed = path ∷ stopped.removed } in
                (ok cleared, cleared)
          ]
        ]
  ]
]
