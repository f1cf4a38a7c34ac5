-- ===== src/Transactions/Handed.antt =====
-- src/bz-transaction-manager.c: what is asked for against what is handed to the backend.
use mathlib.Core.List.{append_assoc, append-nil}
use spacedbazaar.Common.{
  ℕ, List, [], ◌∷◌, ◌++◌, Option, none, some, inl, inr, ◌≡◌, refl, sym, ◌∙◌, ap, arith, Bool-cases,
  Option-cases,
}
use spacedbazaar.Transactions.State.{
  Transaction, new_full, new_merged, Schedule, Running, Manager, Output, started, resolved,
  rejected,
}
use spacedbazaar.Transactions.Manager.{
  dispatch_next, serve, put_merged, enqueue, Event, add, pause, cancelled, cleared, ended, looped,
}
use spacedbazaar.Transactions.Sound.{enqueue-merged, Waits, IsSane}

pub data Kind : Type 0 where
  install : Kind
  update : Kind
  removal : Kind

abbrev pub pick : Kind → List ℕ → List ℕ → List ℕ → List ℕ
pick install is us rs = is
pick update is us rs = us
pick removal is us rs = rs

abbrev pub entries_of : Kind → Transaction → List ℕ
entries_of k t = pick k t.installs t.updates t.removals

-- The entries of the transactions that were handed to the backend, in order.
abbrev pub handed : Kind → List Output → List ℕ
handed k [] = []
handed k (started t ∷ out) = entries_of k t ++ handed k out
handed k (resolved n b ∷ out) = handed k out
handed k (rejected n ∷ out) = handed k out

abbrev pub waiting : Kind → List Schedule → List ℕ
waiting k [] = []
waiting k (d ∷ ds) = entries_of k d.transaction ++ waiting k ds

abbrev pub asked_by : Kind → Event → List ℕ
asked_by k (add is us rs) = pick k is us rs
asked_by k (pause b) = []
asked_by k cancelled = []
asked_by k cleared = []
asked_by k (ended b) = []
asked_by k looped = []

abbrev pub asked : Kind → List Event → List ℕ
asked k [] = []
asked k (e ∷ es) = asked_by k e ++ asked k es

pub handed-append : (k : Kind) (a b : List Output) → handed k (a ++ b) ≡ handed k a ++ handed k b
handed-append k [] b = refl
handed-append k (started t ∷ a) b =
    ap (λ l. entries_of k t ++ l) (handed-append k a b)
    ∙ sym (append_assoc (entries_of k t) (handed k a) (handed k b))
handed-append k (resolved n x ∷ a) b = handed-append k a b
handed-append k (rejected n ∷ a) b = handed-append k a b

-- The step hands on what waited, or leaves it.
abbrev pub Hands : Kind → List ℕ → Manager × List Output → Type 0
Hands k before (s, out) = handed k out ++ waiting k s.queue ≡ before

serve-Hands :
    (k : Kind) (s : Manager) (current : Option Running) (queue : List Schedule)
    → s.queue ≡ queue
    → Waits s.transactions s.finished s.current s.next queue
    → Hands k (waiting k s.queue) (serve s current queue)
serve-Hands k s current [] e w = refl
serve-Hands k s (some r) (d ∷ ds) e w = refl
serve-Hands k s none (d ∷ []) e w =
    append-nil (entries_of k d.transaction ++ []) ∙ sym (ap (waiting k) e)
serve-Hands k s none (d ∷ x ∷ ds) e w = absurd (ground (arith, w.0))

pub dispatch_next-Hands :
    (k : Kind) (s : Manager) → IsSane s → Hands k (waiting k s.queue) (dispatch_next s)
unfolding dispatch_next
dispatch_next-Hands k s ok = elim (Bool-cases s.paused) [
  | inl on ↦ simp on refl
  | inr off ↦ simp off (serve-Hands k s s.current s.queue refl ok.waits)
]

same : (k : Kind) (t t' : Transaction) → some t ≡ some t' → entries_of k t' ≡ entries_of k t
same k t t' e = let h : t ≡ t' = ground (arith, e) in ap (entries_of k) (sym h)

pub new_full-pick :
    (k : Kind) (n : ℕ) (is us rs : List ℕ) (t : Transaction)
    → new_full n is us rs ≡ some t
    → entries_of k t ≡ pick k is us rs
new_full-pick k n [] [] [] t e = absurd (ground (arith, e))
new_full-pick k n [] [] (r ∷ rs) t e = same k _ t e
new_full-pick k n [] (u ∷ us) rs t e = same k _ t e
new_full-pick k n (i ∷ is) us rs t e = same k _ t e

pub new_full-nothing :
    (k : Kind) (n : ℕ) (is us rs : List ℕ) → new_full n is us rs ≡ none → pick k is us rs ≡ []
new_full-nothing install n [] [] [] e = refl
new_full-nothing update n [] [] [] e = refl
new_full-nothing removal n [] [] [] e = refl
new_full-nothing k n [] [] (r ∷ rs) e = absurd (ground (arith, e))
new_full-nothing k n [] (u ∷ us) rs e = absurd (ground (arith, e))
new_full-nothing k n (i ∷ is) us rs e = absurd (ground (arith, e))

pick-append :
    (k : Kind) (a b : Transaction)
    → pick k (a.installs ++ b.installs) (a.updates ++ b.updates) (a.removals ++ b.removals)
      ≡ entries_of k a ++ entries_of k b
pick-append install a b = refl
pick-append update a b = refl
pick-append removal a b = refl

same_queue : (k : Kind) (s s' : Manager) → some s ≡ some s' → waiting k s'.queue ≡ waiting k s.queue
same_queue k s s' e = let h : s ≡ s' = ground (arith, e) in ap (λ m. waiting k m.queue) (sym h)

pub enqueue-waiting :
    (k : Kind) (s s' : Manager) (t : Transaction) (queue : List Schedule)
    → Waits s.transactions s.finished s.current s.next queue
    → enqueue s t queue ≡ some s'
    → waiting k s'.queue ≡ waiting k queue ++ entries_of k t
unfolding new_merged
enqueue-waiting k s s' t [] w e = same_queue k _ s' e ∙ append-nil (entries_of k t)
enqueue-waiting k s s' t (d ∷ x ∷ ds) w e = absurd (ground (arith, w.0))
enqueue-waiting k s s' t (d ∷ []) w e = elim (Option-cases (new_merged s.next d.transaction t)) [
  | inl nothing ↦ absurd (ground (arith, e, nothing))
  | inr (merged, made) ↦
      elim (Option-cases (put_merged d.transaction.number merged s.transactions)) [
        | inl nowhere ↦ absurd (ground (arith, e, made, nowhere))
        | inr (ts, put) ↦
            same_queue k _ s' (sym (enqueue-merged s t merged d [] ts made put) ∙ e)
            ∙ append-nil (entries_of k merged)
            ∙ new_full-pick k s.next (d.transaction.installs ++ t.installs)
                (d.transaction.updates ++ t.updates) (d.transaction.removals ++ t.removals) merged
                made
            ∙ pick-append k d.transaction t
            ∙ ap (λ l. l ++ entries_of k t) (sym (append-nil (entries_of k d.transaction)))
      ]
]
