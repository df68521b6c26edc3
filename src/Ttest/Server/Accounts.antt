-- ===== src/Ttest/Server/Accounts.antt =====
-- What the reports of a server of ttest/ttrcv.c account for.
use tcp_eyenet.Prelude.{
  ℕ, ◌+◌, ◌%◌, ◌^◌, ◌≡◌, Bool, true, ◌==◌, ◌&&◌, Option, none, some, List, [], ◌∷◌, All, if_either,
  not, arith, refl, ap, sym, subst,
}
use tcp_eyenet.Ttest.Params.{ProgParam}
use tcp_eyenet.Ttest.Receiver.{Packet, Stepped, stepped, aborted, start_rworker, rcv_packet}
use tcp_eyenet.Ttest.Receiver.Pointers.{IsTable}
use tcp_eyenet.Ttest.Receiver.Counting.{Counted, Kept, rcv_packet-Counted, rcv_packet-Kept}
use tcp_eyenet.Ttest.Reports.{report_receiver}
use tcp_eyenet.Ttest.Reports.Lines.{
  IsInterval, reported, reported-append, pending, report_conns-some, sum_up-some, SameConns-IsTable,
}
use tcp_eyenet.Ttest.Server.{
  Server, Launch, start_workers, fresh_server, start_server, Event, arrive, report, Served, serving,
  assert_failed, no_rate, after_packet, serve_event, and_serve, serve,
}
use tcp_eyenet.Ttest.Server.Pending.{one_of, Pends, rcv_packet-Pends}

-- What holds while the server is at work
pub record Sound (s : Server) : Type 0 where
  pub tables : (i : ℕ) → IsTable s.rcv.lhead_conn (s.workers i)
  pub interval : IsInterval s.reporting_interval

-- The packets of ttest among some events
abbrev pub packets : List Event → ℕ
packets [] = 0
packets (arrive i k ∷ events) = one_of k + packets events
packets (report ∷ events) = packets events

-- The server is still at work, and its reports with what is pending are what was pending before and
-- `n` packets.
abbrev pub Accounted : Server → ℕ → Served → Type 0
Accounted s n (serving t reports) =
    Sound t
    × ((reported reports + pending t.rcv.lhead_conn) % 2 ^ 64
        ≡ (pending s.rcv.lhead_conn + n) % 2 ^ 64)
Accounted s n assert_failed = ⊥
Accounted s n no_rate = ⊥

after_packet-Accounted :
    (i : ℕ) (k : Packet) (s : Server) (x : Stepped)
    → Sound s
    → Counted k s.rcv (s.workers i) x
    → ((j : ℕ) → Kept (s.workers j) x)
    → Pends k s.rcv x
    → Accounted s (one_of k) (after_packet i s x)
unfolding after_packet
after_packet-Accounted i k s (stepped r w) h (_, table, _) others e = (
  record {
    tables = λ j. if_either (IsTable r.lhead_conn) (j == i) table (others j);
    interval = h.interval;
  },
  omega (arith, e),
)
after_packet-Accounted i k s aborted h c others e = absurd e

report-Accounted : (s : Server) → Sound s → Accounted s 0 (serve_event report s)
unfolding serve_event report_receiver
report-Accounted s h =
    let (a, e, all, none_left, same) =
      report_conns-some s.reporting_interval s.rcv.lhead_conn h.interval in
    let (r, f, g) = sum_up-some (not (s.rcv.n_conns == 0)) s.reporting_interval a.1 h.interval in
    rw (e, f)
      (
        record {
          tables = λ j. SameConns-IsTable s.rcv.lhead_conn a.0 (s.workers j) same (h.tables j);
          interval = h.interval;
        },
        omega (arith, g, all, none_left),
      )

-- The packets of one event
abbrev pub packets_in : Event → ℕ
packets_in e = packets (e ∷ [])

-- malloc gives memory where it is asked for it.
abbrev pub HasMemory : Event → Type 0
HasMemory (arrive i k) = k.allocated ≡ true
HasMemory report = Unit

pub serve_event-Accounted :
    (e : Event) (s : Server) → Sound s → HasMemory e → Accounted s (packets_in e) (serve_event e s)
unfolding serve_event
serve_event-Accounted (arrive i k) s h a =
    subst (λ n. Accounted s n (serve_event (arrive i k) s)) (sym (add_zero (one_of k)))
      (after_packet-Accounted i k s (rcv_packet k s.rcv (s.workers i)) h
        (rcv_packet-Counted k s.rcv (s.workers i) (h.tables i))
        (λ j. rcv_packet-Kept k s.rcv (s.workers i) (s.workers j) (h.tables i) (h.tables j))
        (rcv_packet-Pends k s.rcv (s.workers i) (h.tables i) a))
  where
    add_zero : (n : ℕ) → n + 0 ≡ n
    add_zero n = omega arith
serve_event-Accounted report s h a = report-Accounted s h

and_serve-Accounted :
    (s : Server) (m n : ℕ) (x : Served) (next : Server → Served)
    → Accounted s m x
    → ((t : Server) → Sound t → Accounted t n (next t))
    → Accounted s (m + n) (and_serve x next)
and_serve-Accounted s m n (serving t rs) next (h, e) f = by_rest (next t) (f t h)
  where
    by_rest :
        (x : Served) → Accounted t n x → Accounted s (m + n) (and_serve (serving t rs) (λ u. x))
    by_rest (serving u more) (g, d) = (g, omega (arith, e, d, reported-append rs more))
    by_rest assert_failed z = z
    by_rest no_rate z = z
and_serve-Accounted s m n assert_failed next h f = h
and_serve-Accounted s m n no_rate next h f = h

packets_split :
    (e : Event) (events : List Event) → packets (e ∷ events) ≡ packets_in e + packets events
packets_split (arrive i k) events = omega arith
packets_split report events = omega arith

serve-Accounted :
    (events : List Event) (s : Server)
    → Sound s
    → All HasMemory events
    → Accounted s (packets events) (serve events s)
unfolding serve
serve-Accounted [] s h a = (h, omega arith)
serve-Accounted (e ∷ events) s h (a, more) =
    subst (λ n. Accounted s n (serve (e ∷ events) s)) (sym (packets_split e events))
      (and_serve-Accounted s (packets_in e) (packets events) (serve_event e s) (serve events)
        (serve_event-Accounted e s h a) (λ t g. serve-Accounted events t g more))

abbrev pub OnServer : (Server → Type 0) → Option Server → Type 0
OnServer P none = Unit
OnServer P (some s) = P s

-- Before any event there is no connection, and all tables are empty.
abbrev pub Fresh : Server → Type 0
Fresh s = Sound s × (s.rcv.lhead_conn ≡ [])

pub start_server-Fresh :
    (p : ProgParam) (allocated : Bool) (launch : ℕ → Launch)
    → IsInterval p.reporting_interval
    → OnServer Fresh (start_server p allocated launch)
unfolding start_server fresh_server start_rworker
start_server-Fresh p allocated launch h =
    if_either (OnServer Fresh) (allocated && start_workers launch 0 p.n_cpus)
      (record { tables = λ i j k. tt; interval = h }, refl) tt

-- The server is at work, and its reports with what is in none of them yet are `n` packets, modulo 2^64.
abbrev pub Accounts : ℕ → Served → Type 0
Accounts n (serving t reports) =
    Sound t × ((reported reports + pending t.rcv.lhead_conn) % 2 ^ 64 ≡ n % 2 ^ 64)
Accounts n assert_failed = ⊥
Accounts n no_rate = ⊥

Accounted-Accounts :
    (s : Server) (n : ℕ) (x : Served)
    → pending s.rcv.lhead_conn ≡ 0
    → Accounted s n x
    → Accounts n x
Accounted-Accounts s n (serving t reports) e (h, g) = (h, omega (arith, g, e))
Accounted-Accounts s n assert_failed e h = h
Accounted-Accounts s n no_rate e h = h

-- A server that starts, with an interval that is not 0, in any order of packets, at any of its workers,
-- and reports, where malloc gives memory: no assertion fails and no report divides by zero; the pointers
-- of every worker's table point to its own connections; and the sums of the reports, with what is in none
-- of them yet, are modulo 2^64 the packets of ttest that came.
pub serve-Accounts :
    (p : ProgParam) (allocated : Bool) (launch : ℕ → Launch) (events : List Event) {s : Server}
    → IsInterval p.reporting_interval
    → start_server p allocated launch ≡ some s
    → All HasMemory events
    → Accounts (packets events) (serve events s)
serve-Accounts p allocated launch events {s} h e a =
    let fresh : Fresh s = subst (OnServer Fresh) e (start_server-Fresh p allocated launch h) in
    Accounted-Accounts s (packets events) (serve events s) (ap pending fresh.1)
      (serve-Accounted events s fresh.0 a)
