-- ===== src/Transactions/Waiting.antt =====
-- src/bz-transaction-manager.c: the waiting transaction as the list, the marks and the current one
-- change.
use spacedbazaar.Common.{
  ℕ, ◌+◌, ◌<◌, ◌≤◌, Bool, true, false, List, [], ◌∷◌, Option, none, some, inl, inr, ◌==◌, ◌≡◌,
  arith, Bool-cases,
}
use spacedbazaar.Transactions.State.{Transaction, Schedule, Running}
use spacedbazaar.Transactions.Manager.{mark, unfinished}
use spacedbazaar.Transactions.Sound.{listed, Waits}

pub Waits-next :
    (ts : List Transaction) (finished : ℕ → Bool) (current : Option Running) (next : ℕ)
    (queue : List Schedule)
    → Waits ts finished current next queue
    → Waits ts finished current (next + 1) queue
Waits-next ts finished current next [] w = tt
Waits-next ts finished current next (d ∷ ds) (e, l, f, b, a, full) =
    (e, l, f, omega (arith, b), a, full)

-- No transaction is apart from the others less when none runs.
pub Waits-free :
    (ts : List Transaction) (finished : ℕ → Bool) (current : Option Running) (next : ℕ)
    (queue : List Schedule)
    → Waits ts finished current next queue
    → Waits ts finished none next queue
Waits-free ts finished current next [] w = tt
Waits-free ts finished current next (d ∷ ds) (e, l, f, b, a, full) = (e, l, f, b, tt, full)

-- What runs is marked as finished; what waits is not.
pub Waits-mark :
    (ts : List Transaction) (finished : ℕ → Bool) (r : Running) (next : ℕ) (queue : List Schedule)
    → Waits ts finished (some r) next queue
    → Waits ts
        (mark r.job.transaction.number finished)
        (some (record r { settled = true }))
        next
        queue
Waits-mark ts finished r next [] w = tt
Waits-mark ts finished r next (d ∷ ds) (e, l, f, b, a, full) =
    (e, l, ground (arith, f, a), b, a, full)

pub fresh-mark :
    (finished : ℕ → Bool) (n next : ℕ)
    → n < next
    → ((m : ℕ) → next ≤ m → finished m ≡ false)
    → (m : ℕ) → next ≤ m
    → mark n finished m ≡ false
fresh-mark finished n next below fresh m le = ground (arith, below, le, fresh m le)

pub listed-unfinished :
    (finished : ℕ → Bool) (n : ℕ) (ts : List Transaction)
    → finished n ≡ false
    → listed n ts ≡ true
    → listed n (unfinished finished ts) ≡ true
listed-unfinished finished n [] f l = l
listed-unfinished finished n (t ∷ ts) f l = elim (Bool-cases (finished t.number)) [
  | inl on ↦ elim (Bool-cases (t.number == n)) [
    | inl same ↦ absurd (ground (arith, on, f, same))
    | inr differs ↦
        ground (arith, on, listed-unfinished finished n ts f (ground (arith, differs, l)))
  ]
  | inr off ↦ elim (Bool-cases (t.number == n)) [
    | inl same ↦ ground (arith, off, same)
    | inr differs ↦
        ground (arith, off, listed-unfinished finished n ts f (ground (arith, differs, l)))
  ]
]

pub Waits-unfinished :
    (ts : List Transaction) (finished : ℕ → Bool) (current : Option Running) (next : ℕ)
    (queue : List Schedule)
    → Waits ts finished current next queue
    → Waits (unfinished finished ts) finished current next queue
Waits-unfinished ts finished current next [] w = tt
Waits-unfinished ts finished current next (d ∷ ds) (e, l, f, b, a, full) =
    (e, listed-unfinished finished d.transaction.number ts f l, f, b, a, full)
