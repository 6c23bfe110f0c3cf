-- ===== src/Om/Nonce/Increasing.antt =====
-- Nonces handed out by concurrent calls are strictly increasing.
use hyperliquid_cpp.Base.{
  ℕ, suc, ◌+◌, ◌^◌, ◌<◌, ◌≤◌, Bool-cases, inl, inr, List, [], ◌∷◌, ◌==◌, arith,
}
use hyperliquid_cpp.Om.Nonce.{
  Thread, idle, trying, Generator, candidate, put_thread, begin, win, Run, started, begins, fails,
  wins,
}

-- Each number is above all that follow it, and below the bound.
unfoldable pub IsDescending : ℕ → List ℕ → Type 0
IsDescending bound [] = Unit
IsDescending bound (x ∷ xs) = x < bound × IsDescending x xs

IsClocked : ℕ → Thread → Type 0
IsClocked clock idle = Unit
IsClocked clock (trying now prev) = now < clock

-- What holds after `n` steps.
IsSteady : ℕ → ℕ → Generator → Type 0
IsSteady clock n g =
    (g.last ≤ clock + n × IsDescending (suc g.last) g.issued)
    × ((t : ℕ) → IsClocked clock (g.threads t))

put_thread-IsClocked :
    (clock : ℕ) (g : Generator) (t : ℕ) (thread : Thread)
    → ((u : ℕ) → IsClocked clock (g.threads u))
    → IsClocked clock thread
    → (u : ℕ) → IsClocked clock (put_thread g t thread u)
unfolding put_thread
put_thread-IsClocked clock g t thread all one u = elim (Bool-cases (u == t)) [
  | inl same ↦ rw same one
  | inr other ↦ rw other (all u)
]

candidate-above :
    (clock n now prev : ℕ)
    → now < clock
    → prev ≤ clock + n
    → clock + suc n < 2 ^ 64
    → prev < candidate now prev × candidate now prev ≤ clock + suc n
unfolding candidate
candidate-above clock n now prev a b c = (ground arith, ground arith)

IsDescending-raise : (a b : ℕ) (xs : List ℕ) → a ≤ b → IsDescending a xs → IsDescending b xs
unfolding IsDescending
IsDescending-raise a b [] le d = tt
IsDescending-raise a b (x ∷ xs) le d = (omega (arith, d.0, le), d.1)

Run-IsSteady :
    {clock n : ℕ} {g : Generator} → Run clock n g → clock + n < 2 ^ 64 → IsSteady clock n g
unfolding IsSteady IsClocked begin win IsDescending
Run-IsSteady (started all) room = ((omega arith, tt), λ t. rw (all t) tt)
Run-IsSteady (begins t now seen before e small) room =
    let ih = Run-IsSteady before (omega arith) in
    ((omega (arith, ih.0.0), ih.0.1), put_thread-IsClocked _ _ t (trying now seen) ih.1 small)
Run-IsSteady (fails t now prev seen before e) room =
    let ih = Run-IsSteady before (omega arith) in
    (
      (omega (arith, ih.0.0), ih.0.1),
      put_thread-IsClocked _ _ t (trying now seen) ih.1 (rw e at (ih.1 t)),
    )
Run-IsSteady (wins t now prev before e latest) room =
    let ih = Run-IsSteady before (omega arith) in
    let above =
      candidate-above _ _ now prev (rw e at (ih.1 t)) (omega (arith, ih.0.0, latest)) room in
    (
      (above.1, (omega arith, IsDescending-raise _ _ _ (omega (arith, above.0, latest)) ih.0.1)),
      put_thread-IsClocked _ _ t idle ih.1 tt,
    )

-- The nonces that concurrent calls of next() return are strictly increasing in the order in which
-- their exchanges succeed, so no two are equal, and none is above `last_`: while the clock
-- shows less than `clock`, over any `n` steps of any threads from the start with
-- clock + n < 2^64, whatever the relaxed loads see.
pub Run-IsDescending :
    (clock n : ℕ) (g : Generator)
    → Run clock n g
    → clock + n < 2 ^ 64
    → IsDescending (suc g.last) g.issued
unfolding IsSteady
Run-IsDescending clock n g run room = (Run-IsSteady run room).0.1
