-- ===== src/Ttest/Worker.antt =====
-- `snd_worker` of ttest/ttsnd.c, from its allocation on. The results of sendto and the time a burst
-- took come from outside; what went out is kept as the list of its sequence numbers, the last first.
pub mod Ledger
pub mod Running
pub mod Client
pub mod Timed
pub mod Chained
pub mod Rate
pub mod Conforming
use tcp_eyenet.Prelude.{
  ℕ, ◌+◌, ◌-◌, ◌*◌, ◌/◌, ◌%◌, ◌^◌, Bool, true, not, ltb, leb, ◌==◌, List, [], ◌∷◌, if◌then◌else◌,
}

pub record SStats : Type 0 where
  pub nbytes_tx : ℕ
  pub npkts_tx : ℕ

-- `hdr_seq` is the number in `phdr`, in the order of the host.
pub record SWorker : Type 0 where
  pub psize : ℕ
  pub seq : ℕ
  pub ibg : ℕ
  pub npkts_burst : ℕ
  pub qouta : ℕ
  pub hdr_seq : ℕ
  pub stats : SStats
  pub stats_prev : SStats
  pub wire : List ℕ

-- The results of sendto, in order, and `delta`
pub record Round : Type 0 where
  pub sent : List Bool
  pub delta : ℕ

-- `cut_short`: the round has fewer results than the burst asks for.
pub data Ended : Type 0 where
  ended : SWorker → Ended
  division_by_zero : Ended
  cut_short : Ended

-- The loop goes on after a round that ended.
abbrev pub and_then : Ended → (SWorker → Ended) → Ended
and_then (ended w) k = k w
and_then division_by_zero k = division_by_zero
and_then cut_short k = cut_short

-- The worker when its loop starts; `garbage` is the number that the allocated header has, for
-- `allocate_pkt` sets the other fields and `seq` of the worker only.
unfoldable pub start_worker : ℕ → ℕ → ℕ → ℕ → SWorker
start_worker psize npkts_burst ibg_ms garbage = record {
  psize = psize;
  seq = 0;
  ibg = ibg_ms * 1000 % 2 ^ 64;
  npkts_burst = npkts_burst;
  qouta = npkts_burst;
  hdr_seq = garbage;
  stats = record { nbytes_tx = 0; npkts_tx = 0 };
  stats_prev = record { nbytes_tx = 0; npkts_tx = 0 };
  wire = [];
}

-- A packet goes out: `seq++`, and its number into the header
unfoldable pub send_pkt : ℕ × ℕ × List ℕ → ℕ × ℕ × List ℕ
send_pkt (seq, hdr_seq, wire) = ((seq + 1) % 2 ^ 32, (seq + 1) % 2 ^ 32, hdr_seq ∷ wire)

-- The loop over the burst, with its 32-bit counter; the flag says that it ended by its test.
unfoldable pub send_burst : ℕ → ℕ → List Bool → ℕ × ℕ × List ℕ → (ℕ × ℕ × List ℕ) × Bool
unfolding send_pkt
send_burst qouta i [] b = (b, not (ltb i qouta))
send_burst qouta i (r ∷ rs) b =
    let rest = send_burst qouta ((i + 1) % 2 ^ 32) rs (if r then send_pkt b else b) in
    if ltb i qouta then rest else (b, true)

-- `seq - worker->seq`, on 32 bits
abbrev pub sub_uint32 : ℕ → ℕ → ℕ
sub_uint32 a b = (a + (2 ^ 32 - b)) % 2 ^ 32

-- The counters after the burst; `psize * (seq - worker->seq)` is a product of 32 bits.
unfoldable pub count_burst : SWorker → ℕ × ℕ × List ℕ → SWorker
count_burst w (seq, hdr_seq, wire) =
    let n = sub_uint32 seq w.seq in
    record w {
      seq = seq;
      hdr_seq = hdr_seq;
      wire = wire;
      stats = record {
        nbytes_tx = (w.stats.nbytes_tx + w.psize * n % 2 ^ 32) % 2 ^ 64;
        npkts_tx = (w.stats.npkts_tx + n) % 2 ^ 64;
      };
    }

-- The size of the next burst: more than `npkts_burst` packets make up for a burst that took long.
unfoldable pub next_qouta : SWorker → ℕ → Ended
next_qouta w delta =
    if leb w.ibg delta
    then if w.ibg == 0
      then division_by_zero
      else ended (record w { qouta = w.npkts_burst * delta % 2 ^ 64 / w.ibg })
    else ended (record w { qouta = w.npkts_burst })

-- One round of the loop
unfoldable pub send_round : SWorker → Round → Ended
unfolding send_burst
send_round w r =
    let (b, complete) = send_burst w.qouta 0 r.sent (w.seq, w.hdr_seq, w.wire) in
    if complete then next_qouta (count_burst w b) r.delta else cut_short

-- The rounds while `cmd` is 1
unfoldable pub send_rounds : SWorker → List Round → Ended
send_rounds w [] = ended w
send_rounds w (r ∷ rs) = and_then (send_round w r) (λ v. send_rounds v rs)
