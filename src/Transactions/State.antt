-- ===== src/Transactions/State.antt =====
-- src/bz-transaction.c and src/bz-transaction-manager.c: the data. An object is told from another by
-- its number, as GListStore does by its address, and so is an entry.
use spacedbazaar.Common.{ℕ, Bool, false, List, [], ◌∷◌, ◌++◌, Option, none, some}

pub record Transaction : Type 0 where
  pub number : ℕ
  pub installs : List ℕ
  pub updates : List ℕ
  pub removals : List ℕ

-- bz_transaction_new_full, which refuses a transaction of nothing.
abbrev pub new_full : ℕ → List ℕ → List ℕ → List ℕ → Option Transaction
new_full n [] [] [] = none
new_full n [] [] (r ∷ rs) =
    some record { number = n; installs = []; updates = []; removals = r ∷ rs }
new_full n [] (u ∷ us) rs =
    some record { number = n; installs = []; updates = u ∷ us; removals = rs }
new_full n (i ∷ is) us rs =
    some record { number = n; installs = i ∷ is; updates = us; removals = rs }

-- bz_transaction_new_merged, of two.
unfoldable pub new_merged : ℕ → Transaction → Transaction → Option Transaction
new_merged n a b =
    new_full n (a.installs ++ b.installs) (a.updates ++ b.updates) (a.removals ++ b.removals)

-- QueuedScheduleData: the promise is the number of the object too.
pub record Schedule : Type 0 where
  pub transaction : Transaction
  pub promise : ℕ

-- The schedule whose fiber was spawned, and whether transaction_finally has run on it.
pub record Running : Type 0 where
  pub job : Schedule
  pub settled : Bool

-- `next` is the number of the next object; `finished` is the property of a transaction; `loop` is
-- whether the future of the loop is held.
pub record Manager : Type 0 where
  pub paused : Bool
  pub transactions : List Transaction
  pub finished : ℕ → Bool
  pub current : Option Running
  pub loop : Bool
  pub queue : List Schedule
  pub next : ℕ

abbrev pub new_manager : Manager
new_manager = record {
  paused = false;
  transactions = [];
  finished = λ _. false;
  current = none;
  loop = false;
  queue = [];
  next = 0;
}

-- What the manager does to the rest of the program: a transaction handed to the backend, and a
-- promise resolved, or rejected.
pub data Output : Type 0 where
  started : Transaction → Output
  resolved : ℕ → Bool → Output
  rejected : ℕ → Output
