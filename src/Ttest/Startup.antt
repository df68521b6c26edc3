-- ===== src/Ttest/Startup.antt =====
-- The start of the workers of `start_client` (ttest/ttsnd.c) and `start_server` (ttest/ttrcv.c): the
-- thread of `main` and the workers that it creates run side by side. All workers get the address of the
-- one counter `i`; each reads it at its start, and `main` waits until the worker has set its `wstatus`.
pub mod Waiting
pub mod Safety
pub mod Owning
use tcp_eyenet.Prelude.{ℕ, ◌+◌, ◌%◌, ◌^◌, ◌≤◌, ◌<◌, ◌≡◌, ◌≢◌, ◌==◌, if◌then◌else◌}

-- A worker's thread: `indexed` once it has read its index, `reported` once it has set `wstatus` there.
pub data Thread : Type 0 where
  absent : Thread
  spawned : Thread
  indexed : ℕ → Thread
  reported : ℕ → ℕ → Thread

-- Where the thread of `main` is: in the loop before pthread_create, in its inner loop, behind it, or
-- back with -1.
pub data Place : Type 0 where
  creating waiting finished gave_up : Place

pub record Boot : Type 0 where
  pub i : ℕ
  pub place : Place
  pub wstatus : ℕ → ℕ
  pub threads : ℕ → Thread

abbrev pub set_at {ℓ} : {A : Type ℓ} → ℕ → A → (ℕ → A) → ℕ → A
set_at k v f j = if j == k then v else f j

-- A step of one of the threads, for `n` workers.
pub data Step (n : ℕ) : Boot → Boot → Type 0 where
  creates :
      {s : Boot}
      → s.place ≡ creating
      → s.i < n
      → Step n s (record {
        i = s.i;
        place = waiting;
        wstatus = set_at s.i 0 s.wstatus;
        threads = set_at s.i spawned s.threads;
      })
  fails :
      {s : Boot}
      → s.place ≡ creating
      → s.i < n
      → Step n s (record {
        i = s.i;
        place = gave_up;
        wstatus = set_at s.i 0 s.wstatus;
        threads = s.threads;
      })
  reads :
      {s : Boot} (k : ℕ)
      → s.threads k ≡ spawned
      → Step n s (record {
        i = s.i;
        place = s.place;
        wstatus = s.wstatus;
        threads = set_at k (indexed s.i) s.threads;
      })
  reports :
      {s : Boot} (k idx status : ℕ)
      → s.threads k ≡ indexed idx
      → 1 ≤ status
      → Step n s (record {
        i = s.i;
        place = s.place;
        wstatus = set_at idx status s.wstatus;
        threads = set_at k (reported idx status) s.threads;
      })
  proceeds :
      {s : Boot}
      → s.place ≡ waiting
      → s.wstatus s.i ≡ 1
      → Step n s (record {
        i = (s.i + 1) % 2 ^ 32;
        place = creating;
        wstatus = s.wstatus;
        threads = s.threads;
      })
  gives_up :
      {s : Boot}
      → s.place ≡ waiting
      → s.wstatus s.i ≢ 0
      → s.wstatus s.i ≢ 1
      → Step n s (record { i = s.i; place = gave_up; wstatus = s.wstatus; threads = s.threads })
  ends :
      {s : Boot}
      → s.place ≡ creating
      → n ≤ s.i
      → Step n s (record { i = s.i; place = finished; wstatus = s.wstatus; threads = s.threads })

pub data Reach (n : ℕ) : Boot → Type 0 where
  begins :
      (memory : ℕ → ℕ)
      → Reach n (record { i = 0; place = creating; wstatus = memory; threads = λ k. absent })
  later : {s t : Boot} → Reach n s → Step n s t → Reach n t
