-- ===== src/Infrastructure/RateLimit/Ends.antt =====
-- Waiting for a grant comes to an end.
use aucnotif.Prelude.{
  ℕ, zero, suc, ◌+◌, ◌-◌, ◌≤◌, ◌<◌, ◌≡◌, refl, ◌⊎◌, inl, inr, Bool, true, false, some, arith, ltb,
  leb, Bool-cases,
}
use aucnotif.Infrastructure.RateLimit.{acquire_with_wait}

module _ {S : Type 0} (acquire_at : ℕ → S → ℕ × S) (sleep : ℕ → ℕ) where
  -- How it ended, by its last call: a grant, or a wait that would pass the deadline.
  abbrev pub EndedBy : ℕ → Bool × ℕ × S → Type 0
  EndedBy deadline (granted, at, after) =
      (l : S) × ((after ≡ (acquire_at at l).1)
        × (((granted ≡ true) × ((acquire_at at l).0 ≡ 0))
            ⊎ ((granted ≡ false) × (deadline < at + (acquire_at at l).0))))

  no_less : (n : ℕ) → ¬ (n < 0)
  no_less n h = omega (arith, h)

  zero_of : (w : ℕ) → leb w 0 ≡ true → w ≡ 0
  zero_of w h = ground arith

  past : (a b : ℕ) → ltb a b ≡ true → a < b
  past a b h = ground arith

  less_left :
      (fuel deadline now w w' : ℕ)
      → deadline - now < suc fuel
      → leb w 0 ≡ false
      → ltb deadline (now + w) ≡ false
      → w ≤ w'
      → deadline - (now + w') < fuel
  less_left fuel deadline now w w' h a b c = ground arith

  -- Whatever the limiter answers and whoever else calls it between two rounds, waiting ends: the clock counts in
  -- its smallest unit and a pause is at least as long as asked for, and one round for each unit until the deadline, and
  -- one more, are enough. It ends with a grant where the last call was told not to wait, and without one where
  -- the last wait would have passed the deadline.
  pub acquire_with_wait_ends :
      (fuel deadline now : ℕ) (l : S)
      → ((w : ℕ) → w ≤ sleep w)
      → deadline - now < fuel
      → (r : Bool × ℕ × S) × ((acquire_with_wait acquire_at sleep fuel deadline now l ≡ some r)
          × EndedBy deadline r)
  unfolding acquire_with_wait
  acquire_with_wait_ends zero deadline now l long enough = absurd (no_less (deadline - now) enough)
  acquire_with_wait_ends (suc fuel) deadline now l long enough =
      let ends =
        acquire_with_wait_ends fuel deadline (now + sleep (acquire_at now l).0) (acquire_at now l).1
          long in
      elim (Bool-cases (leb (acquire_at now l).0 0)) [
        | inl granted ↦ (
          (true, now, (acquire_at now l).1),
          (rw granted refl, (l, (refl, inl (refl, zero_of _ granted)))),
        )
        | inr denied ↦ elim (Bool-cases (ltb deadline (now + (acquire_at now l).0))) [
          | inl late ↦ (
            (false, now, (acquire_at now l).1),
            (rw denied (rw late refl), (l, (refl, inr (refl, past _ _ late)))),
          )
          | inr soon ↦
              let (r, (e, ended)) =
                ends (less_left fuel deadline now _ _ enough denied soon (long _)) in
              (r, (rw denied (rw soon e), ended))
        ]
      ]
