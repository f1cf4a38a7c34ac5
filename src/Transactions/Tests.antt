-- ===== src/Transactions/Tests.antt =====
-- src/bz-transaction-manager.c: the theorems at concrete calls.
use spacedbazaar.Common.{ℕ, true, false, List, [], ◌∷◌, ◌++◌, Option, none, some, ◌≡◌, refl}
use spacedbazaar.Transactions.State.{Transaction, new_merged, Manager, new_manager, Output, started}
use spacedbazaar.Transactions.Manager.{
  dispatch_next, bz_transaction_manager_add, cancel_current, transaction_finally, then_loop_cb,
  Event, add, pause, cancelled, cleared, ended, looped, handle, run,
}
use spacedbazaar.Transactions.Sound.{IsSane}
use spacedbazaar.Transactions.Steady.{run-IsSane}
use spacedbazaar.Transactions.Handed.{install, removal, handed, waiting}
use spacedbazaar.Transactions.Conserved.{run-conserves}
use spacedbazaar.Transactions.Drains.{IsIdle, two_ends, calm-drains}
use spacedbazaar.Transactions.Wedge.{IsStuck, never_starts, pause_resume-StaysOn}

-- Three transactions, two of which are merged, a pause and a cancellation.
abbrev disturbed : List Event
disturbed =
    add (1 ∷ []) [] []
    ∷ add (2 ∷ []) [] (7 ∷ [])
    ∷ pause true
    ∷ add (3 ∷ 4 ∷ []) [] []
    ∷ cancelled
    ∷ pause false
    ∷ add (5 ∷ []) [] []
    ∷ ended false
    ∷ cleared
    ∷ looped
    ∷ []

abbrev three : List Event
three =
    add (1 ∷ []) [] [] ∷ add (2 ∷ []) [] (7 ∷ []) ∷ ended true ∷ cleared ∷ add (3 ∷ []) [] [] ∷ []

run-IsSane_example :
    (s : Manager) × (out : List Output) × (run new_manager disturbed ≡ some (s, out)) × IsSane s
run-IsSane_example = run-IsSane disturbed

run-conserves_example :
    (s : Manager) × (out : List Output) × (run new_manager disturbed ≡ some (s, out))
    × (handed install out ++ waiting install s.queue ≡ 1 ∷ 2 ∷ 3 ∷ 4 ∷ 5 ∷ [])
run-conserves_example = run-conserves install disturbed

calm-drains_example :
    (s : Manager) × (out : List Output) × (run new_manager (three ++ two_ends true false)
      ≡ some (s, out))
    × IsIdle s
    × (handed removal out ≡ 7 ∷ [])
calm-drains_example = calm-drains removal three true false refl

abbrev first_job : Transaction
first_job = record { number = 0; installs = 1 ∷ []; updates = []; removals = [] }

abbrev busy : Manager
busy = record new_manager {
  transactions = first_job ∷ [];
  current =
      some (record { job = record { transaction = first_job; promise = 1 }; settled = false });
  loop = true;
  next = 2;
}

pause_resume-StaysOn_example :
    (s' : Manager) × (out : List Output) × (run busy
        (pause true ∷ pause false ∷ ended true ∷ looped ∷ add (2 ∷ []) [] [] ∷ [])
      ≡ some (s', out))
    × IsStuck s'
    × (never_starts out ≡ true)
unfolding handle bz_transaction_manager_add dispatch_next
pause_resume-StaysOn_example =
    pause_resume-StaysOn (add (1 ∷ []) [] [] ∷ []) (ended true ∷ looped ∷ add (2 ∷ []) [] [] ∷ [])
      busy (started first_job ∷ [])
      (record { job = record { transaction = first_job; promise = 1 }; settled = false }) refl refl
      refl refl

-- A cancellation leaves the transaction that waits waiting, until another one is added.
abbrev installs_after : Option (Manager × List Output) → List ℕ
installs_after none = []
installs_after (some (s, out)) = waiting install s.queue

cancelled_waits :
    installs_after (
      run new_manager
        (add (1 ∷ []) [] [] ∷ add (2 ∷ []) [] [] ∷ cancelled ∷ ended true ∷ looped ∷ []))
    ≡ 2 ∷ []
unfolding handle bz_transaction_manager_add dispatch_next new_merged cancel_current
    transaction_finally then_loop_cb
cancelled_waits = refl
