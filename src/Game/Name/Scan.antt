-- ===== src/Game/Name/Scan.antt =====
-- The scan for a pressed button, of which only the first reads tell the buttons apart.
use team.Prelude.{
  ℕ, zero, suc, ◌+◌, ◌%◌, ◌≤◌, ◌<◌, ◌≡◌, Bool, true, false, some, arith, inl, inr, ◌==◌, Bool-cases,
  ==_iff, ◌>>=◌,
}
use team.Game.Name.{Entry, press, scan}

-- From read number k on, the scan returns the number of the first high read, modulo 256.
scan_lem :
    (fuel k action first : ℕ) (line : ℕ → ℕ → Bool)
    → action ≡ k % 256
    → k ≤ first
    → first < k + fuel
    → ((j : ℕ) → j < first → line j (j % 256) ≡ false)
    → line first (first % 256) ≡ true
    → scan fuel line k action ≡ some (first % 256)
unfolding scan
scan_lem zero k action first line e le lt low high = absurd (omega arith)
scan_lem (suc fuel) k action first line e le lt low high = elim (Bool-cases (k == first)) [
  | inl h ↦
      let h' = (==_iff k first).0 h in
      let e' : action ≡ first % 256 = omega arith in rw (e', h') (rw (high, scan))
  | inr h ↦ rw e (
      rw (low k (ground arith), scan)
        (scan_lem fuel (k + 1) ((k % 256 + 1) % 256) first line (omega arith) (ground arith)
          (omega arith) low high))
]

-- The first read that finds the line high decides. Its number modulo 256 is the button that the
-- entry of a name is told of, and unless that is 0, 1 or 2 the press changes nothing.
pub scan_first :
    (fuel first : ℕ) (line : ℕ → ℕ → Bool) (e : Entry)
    → first < fuel
    → ((j : ℕ) → j < first → line j (j % 256) ≡ false)
    → line first (first % 256) ≡ true
    → (scan fuel line 0 0 ≡ some (first % 256))
      × (3 ≤ first % 256 → (scan fuel line 0 0 >>= λ action. press action e) ≡ some e)
unfolding press
scan_first fuel first line e lt low high =
    let found = scan_lem fuel 0 0 first line (omega arith) (omega arith) (omega arith) low high in
    (found, λ late. rw found (ground arith))
