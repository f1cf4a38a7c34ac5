-- ===== src/Transactions/Sound.antt =====
-- src/bz-transaction-manager.c: the invariant of the manager, by which bz_transaction_manager_add
-- finds the transaction that waits.
use spacedbazaar.Common.{
  ℕ, ◌+◌, ◌<◌, ◌≤◌, Bool, true, false, not, ◌&&◌, ◌||◌, List, [], ◌∷◌, ◌++◌, Option, none, some,
  inl, inr, ◌==◌, ◌≡◌, refl, sym, ◌∙◌, ap, arith, Bool-cases, subst,
}
use spacedbazaar.Transactions.State.{
  Transaction, new_full, new_merged, Schedule, Running, Manager, Output,
}
use spacedbazaar.Transactions.Manager.{serve, dispatch_next, put_merged, merge_at, enqueue, wake}

-- Whether the list store has the object.
abbrev pub listed : ℕ → List Transaction → Bool
listed n [] = false
listed n (t ∷ ts) = (t.number == n) || listed n ts

abbrev pub IsApart : Option Running → ℕ → Type 0
IsApart none n = Unit
IsApart (some r) n = (r.job.transaction.number == n) ≡ false

-- A transaction of something, as its constructor makes it.
abbrev pub IsFull : Transaction → Type 0
IsFull t = new_full t.number t.installs t.updates t.removals ≡ some t

-- At most one transaction waits; it is in the list, it is not finished, and it is not the one that
-- runs.
abbrev pub Waits : List Transaction → (ℕ → Bool) → Option Running → ℕ → List Schedule → Type 0
Waits ts finished current next [] = Unit
Waits ts finished current next (d ∷ ds) =
    (ds ≡ [])
    × (listed d.transaction.number ts ≡ true)
    × (finished d.transaction.number ≡ false)
    × (d.transaction.number < next)
    × IsApart current d.transaction.number
    × IsFull d.transaction

abbrev pub Runs : ℕ → Option Running → Type 0
Runs next none = Unit
Runs next (some r) = r.job.transaction.number < next

pub record Sane (ts : List Transaction) (finished : ℕ → Bool) (current : Option Running) (next : ℕ)
    (queue : List Schedule) : Type 0 where
  pub waits : Waits ts finished current next queue
  pub runs : Runs next current
  pub fresh : (n : ℕ) → next ≤ n → finished n ≡ false

abbrev pub IsSane : Manager → Type 0
IsSane s = Sane s.transactions s.finished s.current s.next s.queue

serve-IsSane :
    (s : Manager) (queue : List Schedule) (current : Option Running)
    → IsSane s
    → Waits s.transactions s.finished current s.next queue
    → IsSane (serve s current queue).0
serve-IsSane s [] current ok w = ok
serve-IsSane s (d ∷ ds) (some r) ok w = ok
serve-IsSane s (d ∷ []) none ok (e, l, f, b, a, n) = record {
  waits = tt;
  runs = b;
  fresh = ok.fresh;
}
serve-IsSane s (d ∷ x ∷ ds) none ok (e, l, f, b, a, n) = absurd (ground (arith, e))

pub dispatch_next-IsSane : (s : Manager) → IsSane s → IsSane (dispatch_next s).0
unfolding dispatch_next
dispatch_next-IsSane s ok = elim (Bool-cases s.paused) [
  | inl on ↦ rw on ok
  | inr off ↦ simp off (serve-IsSane s s.queue s.current ok ok.waits)
]

-- The step keeps the manager sane, and it does not abort.
abbrev pub Steps : Option (Manager × List Output) → Type 0
Steps o = (s : Manager) × (out : List Output) × (o ≡ some (s, out)) × IsSane s

put_merged-listed :
    (n : ℕ) (merged : Transaction) (ts : List Transaction)
    → listed n ts ≡ true
    → (ts' : List Transaction) × (put_merged n merged ts ≡ some ts')
      × (listed merged.number ts' ≡ true)
put_merged-listed n merged [] e = absurd (ground (arith, e))
put_merged-listed n merged (t ∷ ts) e = elim (Bool-cases (t.number == n)) [
  | inl on ↦ (merged ∷ ts, rw on refl, ground arith)
  | inr off ↦
      let (ts', e', l) = put_merged-listed n merged ts (ground (arith, e, off)) in
      (t ∷ ts', rw (off, e') refl, ground (arith, l))
]

new_full-append :
    (n m : ℕ) (is us rs is' us' rs' : List ℕ) (t : Transaction)
    → new_full m is us rs ≡ some t
    → (r : Transaction) × (new_full n (is ++ is') (us ++ us') (rs ++ rs') ≡ some r)
      × (r.number ≡ n)
      × IsFull r
new_full-append n m [] [] [] is' us' rs' t e = absurd (ground (arith, e))
new_full-append n m [] [] (x ∷ rs) [] [] rs' t e = (_, refl, refl, refl)
new_full-append n m [] [] (x ∷ rs) [] (u ∷ us') rs' t e = (_, refl, refl, refl)
new_full-append n m [] [] (x ∷ rs) (i ∷ is') us' rs' t e = (_, refl, refl, refl)
new_full-append n m [] (u ∷ us) rs [] us' rs' t e = (_, refl, refl, refl)
new_full-append n m [] (u ∷ us) rs (i ∷ is') us' rs' t e = (_, refl, refl, refl)
new_full-append n m (i ∷ is) us rs is' us' rs' t e = (_, refl, refl, refl)

new_merged-IsFull :
    (n : ℕ) (a b : Transaction)
    → IsFull a
    → (m : Transaction) × (new_merged n a b ≡ some m) × (m.number ≡ n) × IsFull m
unfolding new_merged
new_merged-IsFull n a b full =
    new_full-append n a.number a.installs a.updates a.removals b.installs b.updates b.removals a
      full

pub wake-Steps : (o : Option Manager) (s : Manager) → o ≡ some s → IsSane s → Steps (wake o)
wake-Steps o s e ok = elim (Bool-cases (not s.loop && not s.paused)) [
  | inl on ↦ ((dispatch_next s).0, (dispatch_next s).1, rw (e, on) refl, dispatch_next-IsSane s ok)
  | inr off ↦ (s, [], rw (e, off) refl, ok)
]

-- A number that is below another and not below it.
pub other : (n m : ℕ) → n < m → (n == m) ≡ false
other n m below = ground (arith, below)

pub Runs-later : (current : Option Running) (next : ℕ) → Runs next current → Runs (next + 1) current
Runs-later none next b = tt
Runs-later (some r) next b = omega (arith, b)

pub IsApart-fresh : (current : Option Running) (next : ℕ) → Runs next current → IsApart current next
IsApart-fresh none next b = tt
IsApart-fresh (some r) next b = other r.job.transaction.number next b

-- A manager to which `t` was just made.
pub record IsMade (s : Manager) (t : Transaction) : Type 0 where
  pub sane : IsSane s
  pub new_is_full : IsFull t
  pub below : t.number < s.next
  pub unused : s.finished t.number ≡ false
  pub apart : IsApart s.current t.number

pub enqueue-merged :
    (s : Manager) (t merged : Transaction) (d : Schedule) (ds : List Schedule)
    (ts : List Transaction)
    → new_merged s.next d.transaction t ≡ some merged
    → put_merged d.transaction.number merged s.transactions ≡ some ts
    → enqueue s t (d ∷ ds)
      ≡ some (record s {
        transactions = ts;
        queue = record d { transaction = merged } ∷ ds;
        next = s.next + 1;
      })
enqueue-merged s t merged d ds ts made put =
    ap (λ o. elim o [ none ↦ none | some x ↦ merge_at s d ds x ]) made
    ∙ ap
        (λ o. elim o [
          | none ↦ none
          | some ts' ↦ some (record s {
            transactions = ts';
            queue = record d { transaction = merged } ∷ ds;
            next = s.next + 1;
          })
        ])
        put

pub enqueue-IsSane :
    (s : Manager) (t : Transaction) (queue : List Schedule)
    → IsMade s t
    → Waits s.transactions s.finished s.current s.next queue
    → (s' : Manager) × (enqueue s t queue ≡ some s') × IsSane s'
enqueue-IsSane s t [] m w = (
  _,
  refl,
  record {
    waits = (refl, ground arith, m.unused, omega (arith, m.below), m.apart, m.new_is_full);
    runs = Runs-later s.current s.next m.sane.runs;
    fresh = λ n le. m.sane.fresh n (omega (arith, le));
  },
)
enqueue-IsSane s t (d ∷ ds) m (e, l, f, b, a, full) =
    let (merged, made, number, full') = new_merged-IsFull s.next d.transaction t full in
    let (ts, put, l') = put_merged-listed d.transaction.number merged s.transactions l in
    (
      _,
      enqueue-merged s t merged d ds ts made put,
      record {
        waits = (
          e,
          l',
          m.sane.fresh merged.number (omega (arith, number)),
          omega (arith, number),
          subst (IsApart s.current) (sym number) (IsApart-fresh s.current s.next m.sane.runs),
          full',
        );
        runs = Runs-later s.current s.next m.sane.runs;
        fresh = λ n le. m.sane.fresh n (omega (arith, le));
      },
    )
