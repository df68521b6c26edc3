-- ===== src/Ttest/Server/Tallies.antt =====
-- What a server of ttest/ttrcv.c has counted for each client, whatever its workers and its reports do.
use tcp_eyenet.Prelude.{
  ℕ, ◌+◌, ◌%◌, ◌^◌, ◌≡◌, Bool, ◌==◌, Option, none, some, maybe, List, [], ◌∷◌, All, OnSome,
  OnSome-any, OnSome-maybe, if◌then◌else◌, not, arith, refl, ap, sym, subst,
}
use tcp_eyenet.Ttest.Params.{ProgParam}
use tcp_eyenet.Ttest.Receiver.{
  RconnTuple, RConn, TRcv, Packet, Stepped, stepped, aborted, rcv_packet,
}
use tcp_eyenet.Ttest.Receiver.Tally.{
  Meter, counted_for, gained, Tallied, is_from, rcv_packet-Tallied,
}
use tcp_eyenet.Ttest.Reports.{
  report_conn, report_conns, report_receiver, sub_uint64, Line, rate_of, Report, sum_up,
}
use tcp_eyenet.Ttest.Reports.Lines.{IsInterval}
use tcp_eyenet.Ttest.Server.{
  Server, Launch, start_server, Event, arrive, report, Served, serving, assert_failed, no_rate,
  after_packet, serve_event, and_serve, serve,
}
use tcp_eyenet.Ttest.Server.Accounts.{
  Sound, HasMemory, Accounted, Accounts, Fresh, OnServer, packets, packets_in,
  serve_event-Accounted, start_server-Fresh, serve-Accounts,
}

module _ (m : Meter) (t : RconnTuple) where
  -- What the packets among some events add to the counter of the client `t`
  abbrev pub gains : List Event → ℕ
  gains [] = 0
  gains (arrive i k ∷ events) = gained m t k + gains events
  gains (report ∷ events) = gains events

  -- A report leaves the counters.
  report-counted_for :
      (intv : ℕ) (conns : List RConn)
      → OnSome
          (λ (a : List RConn × List Line). counted_for m t a.0 ≡ counted_for m t conns)
          (report_conns intv conns)
  unfolding report_conns report_conn
  report-counted_for intv [] = refl
  report-counted_for intv (c ∷ cs) =
      let Line_of : RConn × Line → Type 0 = λ a. (a.0.t ≡ c.t) × (a.0.stats ≡ c.stats) in
      let Rest : List RConn × List Line → Type 0 = λ b. counted_for m t b.0 ≡ counted_for m t cs in
      let Whole : List RConn × List Line → Type 0 =
        λ b. counted_for m t b.0 ≡ counted_for m t (c ∷ cs) in
      let nbytes = sub_uint64 c.stats.nbytes_rx c.stats_prev.nbytes_rx in
      OnSome-maybe Line_of Whole (report_conn intv c)
        (λ a. maybe none (report_conns intv cs) (λ b. some (a.0 ∷ b.0, a.1 ∷ b.1)))
        (OnSome-maybe (λ n. Unit {0}) Line_of (rate_of nbytes intv) _
          (OnSome-any (rate_of nbytes intv)) (λ n u. (refl, refl)))
        (λ a q.
          OnSome-maybe Rest Whole (report_conns intv cs) (λ b. some (a.0 ∷ b.0, a.1 ∷ b.1))
            (report-counted_for intv cs)
            (λ b e. λ i. (if is_from (q.0 i) t then m.of (q.1 i) else 0) + e i))

  -- The server is still at work, and the counter has grown by `n`.
  abbrev Grown : Server → ℕ → Served → Type 0
  Grown s n (serving u reports) =
      counted_for m t u.rcv.lhead_conn % 2 ^ 64 ≡ (counted_for m t s.rcv.lhead_conn + n) % 2 ^ 64
  Grown s n assert_failed = Unit
  Grown s n no_rate = Unit

  after_packet-Grown :
      (i : ℕ) (k : Packet) (s : Server) (x : Stepped)
      → Tallied m t k s.rcv x
      → Grown s (gained m t k) (after_packet i s x)
  unfolding after_packet
  after_packet-Grown i k s (stepped r w) h = h
  after_packet-Grown i k s aborted h = tt

  report_receiver-counted_for :
      (intv : ℕ) (r : TRcv)
      → OnSome
          (λ (b : TRcv × Report). counted_for m t b.0.lhead_conn ≡ counted_for m t r.lhead_conn)
          (report_receiver intv r)
  unfolding report_receiver
  report_receiver-counted_for intv r =
      let Same : List RConn × List Line → Type 0 =
        λ a. counted_for m t a.0 ≡ counted_for m t r.lhead_conn in
      let After : TRcv × Report → Type 0 =
        λ b. counted_for m t b.0.lhead_conn ≡ counted_for m t r.lhead_conn in
      OnSome-maybe Same After (report_conns intv r.lhead_conn) _
        (report-counted_for intv r.lhead_conn)
        (λ a e.
          OnSome-maybe (λ (x : Report). Unit {0}) After _
            (λ x. some (record r { lhead_conn = a.0 }, x))
            (OnSome-any (sum_up (not (r.n_conns == 0)) intv a.1)) (λ x u. e))

  told-Grown :
      (s : Server) (o : Option (TRcv × Report))
      → OnSome
          (λ (b : TRcv × Report). counted_for m t b.0.lhead_conn ≡ counted_for m t s.rcv.lhead_conn)
          o
      → Grown s 0 (maybe no_rate o (λ a. serving (record s { rcv = a.0 }) (a.1 ∷ [])))
  told-Grown s none h = tt
  told-Grown s (some a) h = omega (arith, h)

  report-Grown : (s : Server) → Grown s 0 (serve_event report s)
  unfolding serve_event
  report-Grown s =
      told-Grown s (report_receiver s.reporting_interval s.rcv)
        (report_receiver-counted_for s.reporting_interval s.rcv)

  serve_event-Grown :
      (e : Event) (s : Server) → Sound s → HasMemory e → Grown s (gains (e ∷ [])) (serve_event e s)
  unfolding serve_event
  serve_event-Grown (arrive i k) s h a =
      subst (λ n. Grown s n (serve_event (arrive i k) s)) (add_zero (gained m t k))
        (after_packet-Grown i k s (rcv_packet k s.rcv (s.workers i))
          (rcv_packet-Tallied m t k s.rcv (s.workers i) (h.tables i) a))
    where
      add_zero : (n : ℕ) → n ≡ n + 0
      add_zero n = omega arith
  serve_event-Grown report s h a = report-Grown s

  and_serve-Grown :
      (s : Server) (k n l : ℕ) (x : Served) (next : Server → Served)
      → Accounted s k x
      → Grown s n x
      → ((u : Server) → Sound u → Grown u l (next u))
      → Grown s (n + l) (and_serve x next)
  and_serve-Grown s k n l (serving u rs) next (h, _) g f = by_rest (next u) (f u h)
    where
      by_rest : (x : Served) → Grown u l x → Grown s (n + l) (and_serve (serving u rs) (λ v. x))
      by_rest (serving v more) e = omega (arith, e, g)
      by_rest assert_failed e = tt
      by_rest no_rate e = tt
  and_serve-Grown s k n l assert_failed next h g f = tt
  and_serve-Grown s k n l no_rate next h g f = tt

  gains_split :
      (e : Event) (events : List Event) → gains (e ∷ events) ≡ gains (e ∷ []) + gains events
  gains_split (arrive i k) events = omega arith
  gains_split report events = omega arith

  serve-Grown :
      (events : List Event) (s : Server)
      → Sound s
      → All HasMemory events
      → Grown s (gains events) (serve events s)
  unfolding serve
  serve-Grown [] s h a = omega arith
  serve-Grown (e ∷ events) s h (a, more) =
      subst (λ n. Grown s n (serve (e ∷ events) s)) (sym (gains_split e events))
        (and_serve-Grown s (packets_in e) (gains (e ∷ [])) (gains events) (serve_event e s)
          (serve events) (serve_event-Accounted e s h a) (serve_event-Grown e s h a)
          (λ u g. serve-Grown events u g more))

  -- The server is at work, and what it has counted for the client is `n`, modulo 2^64.
  abbrev pub Tallies : ℕ → Served → Type 0
  Tallies n (serving u reports) = counted_for m t u.rcv.lhead_conn % 2 ^ 64 ≡ n % 2 ^ 64
  Tallies n assert_failed = ⊥
  Tallies n no_rate = ⊥

  started-Tallies :
      (s : Server) (k n : ℕ) (x : Served)
      → counted_for m t s.rcv.lhead_conn ≡ 0
      → Accounts k x
      → Grown s n x
      → Tallies n x
  started-Tallies s k n (serving u reports) e a g = omega (arith, e, g)
  started-Tallies s k n assert_failed e a g = a
  started-Tallies s k n no_rate e a g = a

  -- For a server that starts, with an interval that is not 0, in any order of packets, at any of its
  -- workers, and reports, where malloc gives memory: what the connections of a client have counted
  -- together, in packets or in bytes, is modulo 2^64 what its packets of ttest bring, and no other's.
  pub serve-Tallies :
      (p : ProgParam) (allocated : Bool) (launch : ℕ → Launch) (events : List Event) {s : Server}
      → IsInterval p.reporting_interval
      → start_server p allocated launch ≡ some s
      → All HasMemory events
      → Tallies (gains events) (serve events s)
  serve-Tallies p allocated launch events {s} h e a =
      let fresh : Fresh s = subst (OnServer Fresh) e (start_server-Fresh p allocated launch h) in
      started-Tallies s (packets events) (gains events) (serve events s)
        (ap (counted_for m t) fresh.1) (serve-Accounts p allocated launch events h e a)
        (serve-Grown events s fresh.0 a)
