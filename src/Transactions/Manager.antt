-- ===== src/Transactions/Manager.antt =====
-- src/bz-transaction-manager.c: the calls of the manager and the callbacks of its loop. The future of
-- the loop calls then_loop_cb once the future of the current transaction has resolved, if the
-- manager still holds it then.
use spacedbazaar.Common.{
  ℕ, ◌+◌, Bool, true, false, not, ◌&&◌, List, [], ◌∷◌, ◌++◌, Option, none, some, if◌then◌else◌,
  ◌==◌,
}
use spacedbazaar.Transactions.State.{
  Transaction, new_full, new_merged, Schedule, Running, Manager, Output, started, resolved,
  rejected,
}

-- g_queue_pop_tail of a queue that is not empty.
abbrev pub pop_tail : Schedule → List Schedule → List Schedule × Schedule
pop_tail d [] = ([], d)
pop_tail d (e ∷ es) = let (rest, last) = pop_tail e es in (d ∷ rest, last)

abbrev pub stop : Manager → Manager
stop s = record s { loop = false }

abbrev pub spawn : Manager → List Schedule × Schedule → Manager × List Output
spawn s (rest, d) = (
  record s { queue = rest; current = some record { job = d; settled = false }; loop = true },
  started d.transaction ∷ [],
)

abbrev pub serve : Manager → Option Running → List Schedule → Manager × List Output
serve s current [] = (stop s, [])
serve s (some r) (d ∷ ds) = (s, [])
serve s none (d ∷ ds) = spawn s (pop_tail d ds)

unfoldable pub dispatch_next : Manager → Manager × List Output
dispatch_next s = if s.paused then (stop s, []) else serve s s.current s.queue

-- g_list_store_find and the splice of one item; `none` is the assertion that the item is there.
abbrev pub put_merged : ℕ → Transaction → List Transaction → Option (List Transaction)
put_merged n merged [] = none
put_merged n merged (t ∷ ts) =
    let rest = put_merged n merged ts in
    if t.number == n
    then some (merged ∷ ts)
    else elim rest [ none ↦ none | some ts' ↦ some (t ∷ ts') ]

abbrev pub merge_at : Manager → Schedule → List Schedule → Transaction → Option Manager
merge_at s d ds merged = elim (put_merged d.transaction.number merged s.transactions) [
  | none ↦ none
  | some ts ↦ some (record s {
    transactions = ts;
    queue = record d { transaction = merged } ∷ ds;
    next = s.next + 1;
  })
]

-- The transaction that is added joins the one that waits, if one does.
abbrev pub enqueue : Manager → Transaction → List Schedule → Option Manager
enqueue s t [] = some (record s {
  transactions = t ∷ s.transactions;
  queue = record { transaction = t; promise = s.next } ∷ [];
  next = s.next + 1;
})
enqueue s t (d ∷ ds) = elim (new_merged s.next d.transaction t) [
  | none ↦ none
  | some merged ↦ merge_at s d ds merged
]

abbrev pub wake : Option Manager → Option (Manager × List Output)
wake none = none
wake (some s) = some (if not s.loop && not s.paused then dispatch_next s else (s, []))

unfoldable pub bz_transaction_manager_add : Manager → Transaction → Option (Manager × List Output)
bz_transaction_manager_add s t = wake (enqueue s t s.queue)

-- bz_transaction_manager_set_paused.
unfoldable pub set_paused : Manager → Bool → Manager × List Output
set_paused s true = (record s { paused = true }, [])
set_paused s false = if s.paused then dispatch_next (record s { paused = false }) else (s, [])

abbrev pub mark : ℕ → (ℕ → Bool) → ℕ → Bool
mark n finished m = if m == n then true else finished m

abbrev pub cancel : Manager → Option Running → Manager × List Output
cancel s none = (s, [])
cancel s (some r) = (
  record s { finished = mark r.job.transaction.number s.finished; current = none; loop = false },
  rejected r.job.promise ∷ [],
)

unfoldable pub cancel_current : Manager → Manager × List Output
cancel_current s = cancel s s.current

abbrev pub unfinished : (ℕ → Bool) → List Transaction → List Transaction
unfinished finished [] = []
unfinished finished (t ∷ ts) =
    let rest = unfinished finished ts in if finished t.number then rest else t ∷ rest

unfoldable pub clear_finished : Manager → Manager
clear_finished s = record s { transactions = unfinished s.finished s.transactions }

abbrev pub finish_current : Manager → Bool → Option Running → Manager × List Output
finish_current s ok none = (s, [])
finish_current s ok (some r) = if r.settled then (s, []) else (
  record s {
    finished = mark r.job.transaction.number s.finished;
    current = some (record r { settled = true });
  },
  resolved r.job.promise ok ∷ [],
)

-- The fiber of the current transaction has ended.
unfoldable pub transaction_finally : Manager → Bool → Manager × List Output
transaction_finally s ok = finish_current s ok s.current

abbrev pub is_settled : Option Running → Bool
is_settled none = false
is_settled (some r) = r.settled

unfoldable pub then_loop_cb : Manager → Manager × List Output
then_loop_cb s =
    if s.loop && is_settled s.current then dispatch_next (record s { current = none }) else (s, [])

-- What happens to the manager. A transaction that is added is a new one, of the given installs,
-- updates and removals.
pub data Event : Type 0 where
  add : List ℕ → List ℕ → List ℕ → Event
  pause : Bool → Event
  cancelled : Event
  cleared : Event
  ended : Bool → Event
  looped : Event

abbrev pub add_new : Manager → Option Transaction → Option (Manager × List Output)
add_new s none = some (s, [])
add_new s (some t) = bz_transaction_manager_add (record s { next = s.next + 1 }) t

unfoldable pub handle : Manager → Event → Option (Manager × List Output)
handle s (add is us rs) = add_new s (new_full s.next is us rs)
handle s (pause b) = some (set_paused s b)
handle s cancelled = some (cancel_current s)
handle s cleared = some (clear_finished s, [])
handle s (ended ok) = some (transaction_finally s ok)
handle s looped = some (then_loop_cb s)

abbrev pub after : List Output → Option (Manager × List Output) → Option (Manager × List Output)
after out none = none
after out (some (s, out')) = some (s, out ++ out')

abbrev pub run : Manager → List Event → Option (Manager × List Output)
run s [] = some (s, [])
run s (e ∷ es) = elim (handle s e) [ none ↦ none | some p ↦ after p.1 (run p.0 es) ]
