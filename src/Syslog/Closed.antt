-- ===== src/Syslog/Closed.antt =====
-- Close of internal/syslog/syslog.go on the server that New returns.
use access_log_exporter.Prelude.{
  ◌≡◌, refl, Bool, true, false, [], ◌∷◌, ◌++◌, Option, some, Bytes, codes, str_eq, ok, err, panic,
  closed_twice,
}
use access_log_exporter.Strings.Search.{cut_prefix}
use access_log_exporter.Syslog.Listen.{
  Url, Listener, Syslog, network, listening, new, could_not_stop, close,
}

-- what a server on the socket at `path` is to be once it is closed
pub record ClosesAt (path : Bytes) (s : Syslog) : Type 0 where
  pub returns : (close false s).0 ≡ ok (close false s).1
  pub done : (close false s).1.done ≡ true
  pub removed : (close false s).1.removed ≡ path ∷ []
  pub kept : ((close true s).0 ≡ err could_not_stop) × ((close true s).1.removed ≡ [])
  pub once : (fails : Bool) → (close fails (close false s).1).0 ≡ panic closed_twice

abbrev pub unix_url : Bytes → Bytes → Url
unix_url host path = record { scheme = codes "unix"; host = host; path = path }

close-removes :
    (host path : Bytes) (listener : Listener)
    → ClosesAt (host ++ path) (record {
      listen_addr = codes "unix://" ++ host ++ path;
      con = some listener;
      done = false;
      removed = [];
    })
unfolding close cut_prefix
close-removes host path listener = record {
  returns = refl;
  done = refl;
  removed = refl;
  kept = (refl, refl);
  once = λ fails. refl;
}

-- A server on a unix socket, where the address parses to the host and path behind "unix://" and the
-- network gives a listener that reads without addresses: `New` succeeds, and `Close` then closes
-- `done` and removes just the file that was listened on; if the connection does not close, `Close`
-- returns that error and removes nothing; a second `Close` panics.
pub new-ClosesAt :
    (parse : Bytes → Option Url) (listen : Bytes → Bytes → Option Listener) (host path : Bytes)
    (listener : Listener)
    → parse (codes "unix://" ++ host ++ path) ≡ some (unix_url host path)
    → listen (codes "unixgram") (host ++ path) ≡ some listener
    → listener.reads ≡ true
    → (s : Syslog) × (new parse listen (codes "unix://" ++ host ++ path) ≡ ok s)
      × ClosesAt (host ++ path) s
unfolding new network listening str_eq
new-ClosesAt parse listen host path listener parsed listens reads =
    (_, rw (parsed, new, listens, reads) refl, close-removes host path listener)
