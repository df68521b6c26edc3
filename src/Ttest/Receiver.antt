-- ===== src/Ttest/Receiver.antt =====
-- The connections of ttest/ttrcv.c: register_rconn, lookup_rconn and the loop of rcv_worker. A
-- connection stands in the global list of `ttrcv`, in the order of registration, and a bucket of the
-- hash table of its worker points to it; a pointer is the place in the global list,
-- to which connections are only ever added at the end. A connection is registered before it is used.
pub mod Pointers
pub mod Counting
pub mod Keys
pub mod Unique
pub mod Tally
use tcp_eyenet.Prelude.{
  maybe, ℕ, zero, suc, length, ◌+◌, ◌%◌, ◌^◌, Bool, ◌&&◌, ◌==◌, Option, none, some, List, [], ◌∷◌,
  ◌++◌, if◌then◌else◌,
}
use tcp_eyenet.Prelude.Int.{ℤ, pos, eqb_ℤ}

pub record RconnTuple : Type 0 where
  pub ip : ℕ
  pub port : ℕ

pub record RStats : Type 0 where
  pub nbytes_rx : ℕ
  pub npkts_rx : ℕ
  pub npkts_dropped : ℕ
  pub npkts_ofo : ℕ

pub record RConn : Type 0 where
  pub t : RconnTuple
  pub cid : ℕ
  pub stats : RStats
  pub stats_prev : RStats
  pub wid : ℕ

-- `ttrcv`, as far as the workers change it
pub record TRcv : Type 0 where
  pub lhead_conn : List RConn
  pub n_conns : ℕ
  pub cid_seed : ℕ

-- A worker; a bucket is its list of pointers.
pub record RWorker : Type 0 where
  pub id : ℕ
  pub rconn_hash : ℕ → ℕ → List ℕ

abbrev pub no_stats : RStats
no_stats = record { nbytes_rx = 0; npkts_rx = 0; npkts_dropped = 0; npkts_ofo = 0 }

-- The connection that a pointer points to
unfoldable pub deref : ℕ → List RConn → Option RConn
deref p [] = none
deref zero (c ∷ cs) = some c
deref (suc p) (c ∷ cs) = deref p cs

-- A worker before its loop: all buckets are empty.
unfoldable pub start_rworker : ℕ → RWorker
start_rworker id = record { id = id; rconn_hash = λ i j. [] }

-- The search in a bucket
unfoldable pub find_in : RconnTuple → List RConn → List ℕ → Option ℕ
find_in t conns [] = none
find_in t conns (p ∷ ps) =
    let rest = find_in t conns ps in
    maybe rest (deref p conns) (λ c. if c.t.ip == t.ip && c.t.port == t.port then some p else rest)

-- `register_rconn`, but for what it prints
unfoldable pub register_rconn : RConn → TRcv → TRcv
register_rconn c r = record {
  lhead_conn = r.lhead_conn ++ record c { cid = r.cid_seed } ∷ [];
  n_conns = (r.n_conns + 1) % 2 ^ 64;
  cid_seed = (r.cid_seed + 1) % 2 ^ 64;
}

-- `cds_list_add` to a bucket
unfoldable pub add_to : ℕ → ℕ → ℕ → (ℕ → ℕ → List ℕ) → ℕ → ℕ → List ℕ
add_to i j p hash k l = if k == i && l == j then p ∷ hash k l else hash k l

-- The connection that `lookup_rconn` makes; the cast of the worker's number is to 16 bits already.
unfoldable pub new_rconn : RWorker → RconnTuple → RConn
new_rconn w t = record { t = t; cid = 0; stats = no_stats; stats_prev = no_stats; wid = w.id }

-- `lookup_rconn`: `allocated` says whether malloc gives memory; the pointer, the program, the worker.
unfoldable pub lookup_rconn : Bool → RconnTuple → TRcv → RWorker → Option ℕ × TRcv × RWorker
lookup_rconn allocated t r w =
    let i = t.port % 8192 in
    let j = t.ip % 4 in
    let p = length r.lhead_conn in
    let added = record w { rconn_hash = add_to i j p w.rconn_hash } in
    maybe (if allocated then (some p, register_rconn (new_rconn w t) r, added) else (none, r, w))
      (find_in t r.lhead_conn (w.rconn_hash i j)) (λ q. (some q, r, w))

-- The counters of a connection after a packet
unfoldable pub count_packet : ℕ → RConn → RConn
count_packet size c = record c {
  stats = record (c.stats) {
    nbytes_rx = (c.stats.nbytes_rx + size) % 2 ^ 64;
    npkts_rx = (c.stats.npkts_rx + 1) % 2 ^ 64;
  };
}

unfoldable pub count_at : ℕ → ℕ → List RConn → List RConn
count_at p size [] = []
count_at zero size (c ∷ cs) = count_packet size c ∷ cs
count_at (suc p) size (c ∷ cs) = c ∷ count_at p size cs

-- What recvfrom gives, the fields of the header in the order of the host, and the result of malloc
pub record Packet : Type 0 where
  pub rx_len : ℤ
  pub sig : ℕ
  pub pktsize : ℕ
  pub from : RconnTuple
  pub allocated : Bool

-- `aborted`: the assertion fails.
pub data Stepped : Type 0 where
  stepped : TRcv → RWorker → Stepped
  aborted : Stepped

-- The test of a packet of ttest; the number is 0xabcddcba.
abbrev pub is_ttest : Packet → Bool
is_ttest k = eqb_ℤ k.rx_len (pos 16) && k.sig == 2882395322

-- The counting of a packet in the connection that was looked up, and the assertion after it
unfoldable pub count_in : ℕ → Option ℕ × TRcv × RWorker → Stepped
count_in size (none, r, w) = stepped r w
count_in size (some p, r, w) =
    let counted = record r { lhead_conn = count_at p size r.lhead_conn } in
    maybe aborted (deref p counted.lhead_conn)
      (λ c. if c.wid == w.id then stepped counted w else aborted)

-- A round of the loop of `rcv_worker`
unfoldable pub rcv_packet : Packet → TRcv → RWorker → Stepped
rcv_packet k r w =
    if is_ttest k then count_in k.pktsize (lookup_rconn k.allocated k.from r w) else stepped r w
