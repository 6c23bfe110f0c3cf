-- ===== src/Om/Nonce/Runs.antt =====
-- Two threads that race for a nonce.
use hyperliquid_cpp.Base.{suc, ◌≡◌, refl, [], ◌∷◌, arith}
use hyperliquid_cpp.Om.Nonce.{
  idle, Generator, candidate, put_thread, begin, win, Run, started, begins, fails, wins,
}
use hyperliquid_cpp.Om.Nonce.Increasing.{IsDescending, Run-IsDescending}

abbrev fresh : Generator
fresh = record { last = 0; threads = λ t. idle; issued = [] }

-- Both threads read the clock 50 and see 0; thread 1 wins, and thread 0 fails and then wins.
abbrev raced : Generator
raced = win (begin (win (begin (begin fresh 0 50 0) 1 50 0) 1 50 0) 0 50 50) 0 50 50

raced_issued : raced.issued ≡ 51 ∷ 50 ∷ []
unfolding begin win candidate
raced_issued = refl

race : Run 100 5 raced
unfolding begin win candidate put_thread
race =
    wins 0 50 50
      (fails 0 50 0 50
        (wins 1 50 0
          (begins 1 50 0 (begins 0 50 0 (started (λ t. refl)) refl (omega arith)) refl
            (omega arith))
          refl refl)
        refl)
      refl refl

Run-IsDescending_example : IsDescending (suc raced.last) raced.issued
Run-IsDescending_example = Run-IsDescending 100 5 raced race (omega arith)
