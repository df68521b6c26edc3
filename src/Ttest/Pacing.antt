-- ===== src/Ttest/Pacing.antt =====
-- `calc_pkts_rate` of ttest/ttsnd.c: the bursts for a rate and a packet size. The numbers are 64 bits
-- wide; a division by zero has no result.
pub mod Target
use tcp_eyenet.Prelude.{
  maybe, ℕ, zero, suc, ◌*◌, ◌/◌, ◌%◌, ◌^◌, ◌==◌, Option, none, some, if◌then◌else◌,
}

abbrev pub divide : ℕ → ℕ → Option ℕ
divide a b = if b == 0 then none else some (a / b)

abbrev pub def_ibg_msec : ℕ
def_ibg_msec = 50

-- `np_sec`, the packets of a second
unfoldable pub packets_per_sec : ℕ → ℕ → Option ℕ
packets_per_sec rate_kbps psize = divide (rate_kbps * 1000 % 2 ^ 64) (psize * 8 % 2 ^ 64)

-- What follows from `np_sec`: the milliseconds between two bursts, and the packets of one.
unfoldable pub burst_of : ℕ → Option (ℕ × ℕ)
burst_of np_sec =
    let np_ibg = np_sec * def_ibg_msec % 2 ^ 64 / 1000 in
    if np_ibg == 0
    then (if np_sec == 0 then none else some (1000 / np_sec, 1))
    else some (def_ibg_msec, np_ibg)

-- `calc_pkts_rate`
unfoldable pub calc_pkts_rate : ℕ → ℕ → Option (ℕ × ℕ)
calc_pkts_rate rate_kbps psize = maybe none (packets_per_sec rate_kbps psize) burst_of
