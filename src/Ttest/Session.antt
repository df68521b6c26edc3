-- ===== src/Ttest/Session.antt =====
-- A session of ttest: a worker of ttest/ttsnd.c sends, a server of ttest/ttrcv.c counts. The header of
-- the packets is that of `allocate_pkt`, its fields in the order of the host.
use tcp_eyenet.Prelude.{
  ℕ, suc, ◌*◌, ◌%◌, ◌^◌, ◌≤◌, ◌≡◌, ◌∙◌, Bool, true, false, ◌&&◌, ltb, some, List, [], ◌∷◌, All,
  if◌then◌else◌, length, arith, refl, ap, subst,
}
use tcp_eyenet.Prelude.Int.{pos}
use tcp_eyenet.Ttest.Params.{ProgParam, pkthdr_sz}
use tcp_eyenet.Ttest.Params.Range.{InRange}
use tcp_eyenet.Ttest.Pacing.{calc_pkts_rate}
use tcp_eyenet.Ttest.Worker.{SWorker, Round, ended, start_worker, send_rounds}
use tcp_eyenet.Ttest.Worker.Running.{Answered}
use tcp_eyenet.Ttest.Worker.Client.{Follows, client-Follows}
use tcp_eyenet.Ttest.Receiver.{RconnTuple, Packet, is_ttest}
use tcp_eyenet.Ttest.Receiver.Tally.{Meter, npkts_meter, nbytes_meter, gained, is_from}
use tcp_eyenet.Ttest.Reports.Lines.{IsInterval}
use tcp_eyenet.Ttest.Server.{
  Server, Launch, start_server, Event, arrive, report, Served, serving, assert_failed, no_rate,
  serve,
}
use tcp_eyenet.Ttest.Server.Accounts.{HasMemory}
use tcp_eyenet.Ttest.Server.Tallies.{gains, Tallies, serve-Tallies}

pub record Pkthdr : Type 0 where
  pub sig : ℕ
  pub seq : ℕ
  pub pktsize : ℕ
  pub zero_bytes : ℕ × ℕ × ℕ

-- `allocate_pkt`, with memory: `seq` has what the memory had.
unfoldable pub allocate_pkt : ℕ → ℕ → Pkthdr
allocate_pkt psize garbage = record {
  sig = 2882395322;
  seq = garbage;
  pktsize = psize % 2 ^ 16;
  zero_bytes = (0, 0, 0);
}

-- What recvfrom gives of a packet of `psize` bytes into a buffer of the header's size
unfoldable pub received_of : ℕ → Pkthdr → RconnTuple → Bool → Packet
received_of psize hdr from allocated = record {
  rx_len = pos (if ltb psize pkthdr_sz then psize else pkthdr_sz);
  sig = hdr.sig;
  pktsize = hdr.pktsize;
  from = from;
  allocated = allocated;
}

-- Among some events `n` packets of the client `t` come, of `psize` bytes each and under any numbers, at
-- any workers, between packets of other clients and reports.
pub data Delivers (psize : ℕ) (t : RconnTuple) : ℕ → List Event → Type 0 where
  nothing_left : Delivers psize t 0 []
  comes :
      (i number : ℕ) (allocated : Bool) {n : ℕ} {es : List Event}
      → Delivers psize t n es
      → Delivers psize t (suc n) (
          arrive i (received_of psize (record (allocate_pkt psize 0) { seq = number }) t allocated)
          ∷ es)
  other :
      (i : ℕ) (k : Packet) {n : ℕ} {es : List Event}
      → is_from k.from t ≡ false
      → Delivers psize t n es
      → Delivers psize t n (arrive i k ∷ es)
  reports : {n : ℕ} {es : List Event} → Delivers psize t n es → Delivers psize t n (report ∷ es)

self_from : (t : RconnTuple) → is_from t t ≡ true
self_from t = ground arith

-- A packet of the client is one of ttest.
received-gained :
    (m : Meter) (psize number : ℕ) (t : RconnTuple) (b : Bool)
    → 64 ≤ psize
    → psize ≤ 1472
    → gained m t (received_of psize (record (allocate_pkt psize 0) { seq = number }) t b)
      ≡ m.gain psize
unfolding received_of allocate_pkt
received-gained m psize number t b lo hi =
    let long : ltb psize 16 ≡ false = ground arith in
    let whole : psize % 2 ^ 16 ≡ psize = omega arith in rw (long, whole, self_from t) refl

strange-gained :
    (m : Meter) (t : RconnTuple) (k : Packet) → is_from k.from t ≡ false → gained m t k ≡ 0
strange-gained m t k e = shut (is_ttest k) (is_from k.from t) e
  where
    shut : (b c : Bool) → c ≡ false → (if b && c then m.gain k.pktsize else 0) ≡ 0
    shut true c f = rw f refl
    shut false c f = refl

Delivers-gains :
    (m : Meter) (psize : ℕ) (t : RconnTuple) (n : ℕ) (es : List Event)
    → 64 ≤ psize
    → psize ≤ 1472
    → Delivers psize t n es
    → gains m t es ≡ n * m.gain psize
Delivers-gains m psize t n es lo hi nothing_left = omega arith
Delivers-gains m psize t (suc n) (e ∷ es) lo hi (comes i number b d) =
    omega (arith, received-gained m psize number t b lo hi, Delivers-gains m psize t n es lo hi d)
Delivers-gains m psize t n (e ∷ es) lo hi (other i k f d) =
    omega (arith, strange-gained m t k f, Delivers-gains m psize t n es lo hi d)
Delivers-gains m psize t n (e ∷ es) lo hi (reports d) = Delivers-gains m psize t n es lo hi d

-- What the server has counted for the client is what the worker has.
abbrev pub Agrees : RconnTuple → SWorker → Served → Type 0
Agrees t v x = Tallies npkts_meter t v.stats.npkts_tx x × Tallies nbytes_meter t v.stats.nbytes_tx x

Tallies-mod :
    (m : Meter) (t : RconnTuple) (a b : ℕ) (x : Served)
    → a % 2 ^ 64 ≡ b % 2 ^ 64
    → Tallies m t a x
    → Tallies m t b x
Tallies-mod m t a b (serving u rs) e h = omega (arith, e, h)
Tallies-mod m t a b assert_failed e h = h
Tallies-mod m t a b no_rate e h = h

-- A worker of a client whose parameters `parse_args` lets through, whose rounds are answered and take at
-- most 250 gaps, and a server that starts, with memory for each packet and with an interval that is not
-- 0: if as many packets of the worker come as it sent, with its header under any numbers, at any workers
-- of the server, between packets of other clients and reports, then the server is at work at the end,
-- and what it has counted for that client is modulo 2^64 what the worker has, in packets and in bytes.
pub session-Agrees :
    (garbage : ℕ) (p : ProgParam) (ibg np : ℕ) (rs : List Round) {v : SWorker} (q : ProgParam)
    (allocated : Bool) (launch : ℕ → Launch) (t : RconnTuple) (events : List Event) {s : Server}
    → InRange p
    → calc_pkts_rate p.rate_kbps p.pktsize ≡ some (ibg, np)
    → All (Answered (start_worker p.pktsize np ibg garbage)) rs
    → send_rounds (start_worker p.pktsize np ibg garbage) rs ≡ ended v
    → IsInterval q.reporting_interval
    → start_server q allocated launch ≡ some s
    → All HasMemory events
    → Delivers p.pktsize t (length v.wire) events
    → Agrees t v (serve events s)
session-Agrees g p ibg np rs {v} q allocated launch t events {s} h e a ends i starts memory d =
    let (size, ledger, fits) =
      subst (Follows g p.pktsize) ends (client-Follows g p ibg np rs h e a) in
    let (lo, hi) = h.pktsize in
    let counted : (m : Meter) → Tallies m t (length v.wire * m.gain p.pktsize) (serve events s) =
      λ m.
        subst (λ n. Tallies m t n (serve events s))
          (Delivers-gains m p.pktsize t (length v.wire) events lo hi d)
          (serve-Tallies m t q allocated launch events i starts memory) in
    (
      Tallies-mod npkts_meter t _ _ (serve events s) (omega (arith, ledger.npkts))
          (counted npkts_meter),
      Tallies-mod nbytes_meter t _ _ (serve events s)
          (omega (arith, ledger.nbytes ∙ ap (λ n. n * length v.wire % 2 ^ 64) size))
          (counted nbytes_meter),
    )
