-- ===== src/Om/Nonce.antt =====
-- include/hl/om/Actions.h and src/om/Actions.cpp: `NonceGenerator`, shared by threads.
-- A thread in `next` holds the clock that it read and its view of `last_`. The accesses are relaxed,
-- so a load, and the value that a failed exchange gives back, may be any value; an exchange that
-- succeeds compares with the latest one. An exchange may also fail for no reason.
pub mod Increasing
mod Runs
use hyperliquid_cpp.Base.{ℕ, suc, ◌+◌, ◌%◌, ◌<◌, ◌≡◌, List, [], ◌∷◌, ltb, ◌==◌, if◌then◌else◌}
use hyperliquid_cpp.Core.Decimal.{u64}

pub data Thread : Type 0 where
  idle : Thread
  trying : ℕ → ℕ → Thread

-- The atomic, the threads, and the nonces handed out so far with the latest first.
pub record Generator : Type 0 where
  pub last : ℕ
  pub threads : ℕ → Thread
  pub issued : List ℕ

-- The loop's `candidate`.
pub candidate : ℕ → ℕ → ℕ
candidate now prev = if ltb prev now then now else (prev + 1) % u64

pub put_thread : Generator → ℕ → Thread → ℕ → Thread
put_thread g t thread u = if u == t then thread else g.threads u

-- `next` is called by thread `t`, and loads a value.
pub begin : Generator → ℕ → ℕ → ℕ → Generator
begin g t now seen = record g { threads = put_thread g t (trying now seen) }

-- The exchange of thread `t` succeeds, and `next` returns the candidate.
pub win : Generator → ℕ → ℕ → ℕ → Generator
win g t now prev = record {
  last = candidate now prev;
  threads = put_thread g t idle;
  issued = candidate now prev ∷ g.issued;
}

-- The states after that many steps, while the clock shows less than `clock`.
pub data Run (clock : ℕ) : ℕ → Generator → Type 0 where
  started :
      {threads : ℕ → Thread}
      → ((t : ℕ) → threads t ≡ idle)
      → Run clock 0 (record { last = 0; threads = threads; issued = [] })
  begins :
      {n : ℕ} {g : Generator} (t now seen : ℕ)
      → Run clock n g
      → g.threads t ≡ idle
      → now < clock
      → Run clock (suc n) (begin g t now seen)
  fails :
      {n : ℕ} {g : Generator} (t now prev seen : ℕ)
      → Run clock n g
      → g.threads t ≡ trying now prev
      → Run clock (suc n) (begin g t now seen)
  wins :
      {n : ℕ} {g : Generator} (t now prev : ℕ)
      → Run clock n g
      → g.threads t ≡ trying now prev
      → g.last ≡ prev
      → Run clock (suc n) (win g t now prev)
