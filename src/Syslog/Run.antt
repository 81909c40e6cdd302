-- ===== src/Syslog/Run.antt =====
-- Start of internal/syslog/syslog.go over all that happens to it.
use access_log_exporter.Prelude.{
  ◌≡◌, sym, ap, subst, ◌∙◌, List, [], ◌∷◌, ◌++◌, Bytes, append_assoc, append-nil,
}
use access_log_exporter.Syslog.Promise.{
  Step, skips, ends, fails, sends, round_step, End, running, closing, failing, deliver,
}
use access_log_exporter.Syslog.Server.{
  Server, Turn, continued, returned, stopped, panicked, turn, release, Event, round_ends, released,
  start,
}
use access_log_exporter.Syslog.Delivered.{IsSound, Does, turn-Does, release-IsSound}

-- `Start` is where the promise says, with its buffers accounted for
abbrev pub Ends : List Bytes → End → Turn → Type 0
Ends lines running (continued s) = IsSound s × (s.lines ≡ lines)
Ends lines closing (returned s) = IsSound s × (s.lines ≡ lines)
Ends lines failing (stopped s) = IsSound s × (s.lines ≡ lines)
Ends _ _ _ = ⊥

go_on :
    (step : Step) (t : Turn) (events : List Event) (s : Server)
    → ((s' : Server)
        → IsSound s'
        → Ends (s'.lines ++ (deliver events).0) (deliver events).1 (start events s'))
    → Does step s.lines t
    → let d = elim step as (λ _. List Bytes × End) [
      | skips ↦ deliver events
      | sends line ↦ let (lines, end) = deliver events in (line ∷ lines, end)
      | ends ↦ ([], closing)
      | fails ↦ ([], failing)
    ] in
      Ends (s.lines ++ d.0) d.1 (elim t [
        | continued s' ↦ start events s'
        | returned s' ↦ returned s'
        | stopped s' ↦ stopped s'
        | panicked f ↦ panicked f
      ])
go_on skips (continued s') events s rest (h, e) =
    subst (λ l. Ends (l ++ (deliver events).0) (deliver events).1 (start events s')) e (rest s' h)
go_on (sends line) (continued s') events s rest (h, e) =
    subst (λ l. Ends l (deliver events).1 (start events s'))
      (ap (λ l. l ++ (deliver events).0) e ∙ append_assoc s.lines (line ∷ []) (deliver events).0)
      (rest s' h)
go_on ends (returned s') events s rest (h, e) = (h, e ∙ sym (append-nil s.lines))
go_on fails (stopped s') events s rest (h, e) = (h, e ∙ sym (append-nil s.lines))
go_on skips (returned _) events s rest h = elim h [ ]
go_on skips (stopped _) events s rest h = elim h [ ]
go_on skips (panicked _) events s rest h = elim h [ ]
go_on ends (continued _) events s rest h = elim h [ ]
go_on ends (stopped _) events s rest h = elim h [ ]
go_on ends (panicked _) events s rest h = elim h [ ]
go_on fails (continued _) events s rest h = elim h [ ]
go_on fails (returned _) events s rest h = elim h [ ]
go_on fails (panicked _) events s rest h = elim h [ ]
go_on (sends line) (returned _) events s rest h = elim h [ ]
go_on (sends line) (stopped _) events s rest h = elim h [ ]
go_on (sends line) (panicked _) events s rest h = elim h [ ]

-- From a server whose buffers have their size and are all in the pool or in a message not yet
-- released, `Start`, whatever buffers the pool hands out and whenever messages are released, never
-- panics and does what `deliver` promises of the packets and failures alone: it has sent the
-- messages of the packets in the order of their arrival, it runs on or has returned, with or without
-- an error as promised, and its buffers are accounted for as before.
pub start-Ends :
    (events : List Event) (s : Server)
    → IsSound s
    → Ends (s.lines ++ (deliver events).0) (deliver events).1 (start events s)
unfolding start deliver
start-Ends [] s h = (h, sym (append-nil s.lines))
start-Ends (released i ∷ events) s h =
    let (h', e) = release-IsSound i s h in
    subst (λ l. Ends (l ++ (deliver events).0) (deliver events).1 (start events (release i s))) e
      (start-Ends events (release i s) h')
start-Ends (round_ends r ∷ events) s h =
    go_on (round_step r) (turn r s) events s (λ s' h'. start-Ends events s' h') (turn-Does r s h)
