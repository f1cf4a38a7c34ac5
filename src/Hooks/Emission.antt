-- ===== src/Hooks/Emission.antt =====
-- src/hooks.c, run_emission_fiber: the configured hooks run in order for one event.
use spacedbazaar.Common.{
  ℕ, ◌+◌, ◌<◌, ◌≡◌, refl, Bool, true, false, not, ◌&&◌, List, [], ◌∷◌, ◌++◌, Option, none, some,
  if◌then◌else◌, ◌⊎◌, inl, inr, Text, Bool-cases, All, map, ◌||◌,
}
use spacedbazaar.Hooks.Config.{
  Signal, view_app, before_transaction, after_transaction, article_app, Status, continue, stop,
  confirm, deny, Hook, DialogData, hook_dialogs,
}
use spacedbazaar.Hooks.Stages.{
  Host, Request, HookResult, rejected, returned, execute_hook, stage_bound, is_accepted, run_hook,
}
use spacedbazaar.Hooks.Termination.{stages-terminates}

-- g_regex_new, which refuses an invalid pattern, with g_regex_match of what it compiles.
abbrev pub Regexes : Type 0
Regexes = Text → Option (Option Text → Bool)

abbrev matches : Option (Option Text → Bool) → Option Text → Bool
matches none appid = true
matches (some match) appid = match appid

-- A hook with no pattern, or an invalid one, is for every application.
unfoldable pub is_checked : Regexes → Option Text → Option Text → Bool
is_checked regexes none appid = true
is_checked regexes (some pattern) appid = matches (regexes pattern) appid

abbrev signal_eq : Signal → Signal → Bool
signal_eq view_app view_app = true
signal_eq before_transaction before_transaction = true
signal_eq after_transaction after_transaction = true
signal_eq article_app article_app = true
signal_eq _ _ = false

-- A hook of another signal is passed over, and so is one whose pattern does not match.
unfoldable pub is_heard : Regexes → Signal → Request → Hook → Bool
is_heard regexes signal r k =
    signal_eq k.when signal && is_checked regexes k.check_appid_regex r.ts_appid

-- dex_await_int gives 0, which is `continue`, for a rejected future.
abbrev pub await_int : HookResult → Status
await_int rejected = continue
await_int (returned cs status) = status

-- The hooks that were executed, by index, with their results; and how the future ends: resolved to
-- true, or rejected.
abbrev pub Emission : Type 0
Emission = List (ℕ × HookResult) × Bool

abbrev with_result : ℕ × HookResult → Option Emission → Option Emission
with_result r none = none
with_result r (some (ran, resolved)) = some (r ∷ ran, resolved)

abbrev settle : Status → ℕ × HookResult → Option Emission → Option Emission
settle continue r rest = with_result r rest
settle stop r rest = some (r ∷ [], true)
settle confirm r rest = some (r ∷ [], true)
settle deny r rest = some (r ∷ [], false)

abbrev settle_result : ℕ → Option HookResult → Option Emission → Option Emission
settle_result i none rest = none
settle_result i (some result) rest = settle (await_int result) (i, result) rest

-- `hosts i` is the world as the hook at index i finds it; `none` where a hook does not end.
unfoldable pub run_emission :
    (ℕ → Host) → Regexes → Signal → Request → ℕ → List Hook → Option Emission
run_emission hosts regexes signal r i [] = some ([], true)
run_emission hosts regexes signal r i (k ∷ ks) =
    let rest = run_emission hosts regexes signal r (i + 1) ks in
    if is_heard regexes signal r k then settle_result i (execute_hook (hosts i) k r) rest else rest

-- The indices of the hooks that the event is for.
abbrev pub heard : Regexes → Signal → Request → ℕ → List Hook → List ℕ
heard regexes signal r i [] = []
heard regexes signal r i (k ∷ ks) =
    let rest = heard regexes signal r (i + 1) ks in
    if is_heard regexes signal r k then i ∷ rest else rest

-- The hook's dialogs are few enough for its stage counter.
abbrev pub Fits : Hook → Type 0
Fits k = (ds : List DialogData) → hook_dialogs k.dialogs ≡ some ds → stage_bound ds < 4_294_967_296

pub execute_hook_total :
    (h : Host) (k : Hook) (r : Request)
    → Fits k
    → (res : HookResult) × (execute_hook h k r ≡ some res)
unfolding execute_hook
execute_hook_total h k r fits = elim (Bool-cases (is_accepted k.when r.ts_appid r.group)) [
  | inl ok ↦ rw ok (run k.shell (hook_dialogs k.dialogs) refl)
  | inr no_ok ↦ rw no_ok (rejected, refl)
]
  where
    run :
        (shell : Option Text) (ds : Option (List DialogData))
        → hook_dialogs k.dialogs ≡ ds
        → (res : HookResult) × (run_hook h k r shell ds ≡ some res)
    run none ds e = (returned [] continue, refl)
    run (some shell) none e = (returned [] continue, refl)
    run (some shell) (some ds) e =
        let (cs, st, done, few) = stages-terminates h k r ds (fits ds e) in
        (returned cs st, rw done)

abbrev pub is_continue : Status → Bool
is_continue continue = true
is_continue _ = false

abbrev pub is_deny : Status → Bool
is_deny deny = true
is_deny _ = false

abbrev pub has_deny : List (ℕ × HookResult) → Bool
has_deny [] = false
has_deny ((i, res) ∷ ran) = is_deny (await_int res) || has_deny ran

-- Only the last result may be other than `continue`.
abbrev pub continues : List (ℕ × HookResult) → Bool
continues [] = true
continues ((i, res) ∷ []) = true
continues ((i, res) ∷ (j, res') ∷ ran) = is_continue (await_int res) && continues ((j, res') ∷ ran)

abbrev pub halts : List (ℕ × HookResult) → Bool
halts [] = false
halts ((i, res) ∷ ran) = not (is_continue (await_int res)) || halts ran

abbrev pub indices : List (ℕ × HookResult) → List ℕ
indices ran = map (λ (p : ℕ × HookResult). p.0) ran

-- The executed hooks are the first of those that the event is for; the rest are left out only
-- behind one that halts the emission; and the future is rejected exactly if a hook denied.
abbrev pub Settles : List ℕ → List (ℕ × HookResult) → Bool → Type 0
Settles is ran resolved =
    (rest : List ℕ) × (is ≡ indices ran ++ rest)
    × ((rest ≡ []) ⊎ (halts ran ≡ true))
    × (continues ran ≡ true)
    × (resolved ≡ not (has_deny ran))

-- An emission that ends so.
abbrev pub Settled : List ℕ → Option Emission → Type 0
Settled is o =
    (ran : List (ℕ × HookResult)) × (resolved : Bool) × (o ≡ some (ran, resolved))
    × Settles is ran resolved

cons-continues :
    (i : ℕ) (res : HookResult) (ran : List (ℕ × HookResult))
    → await_int res ≡ continue
    → continues ran ≡ true
    → continues ((i, res) ∷ ran) ≡ true
cons-continues i res [] e c = refl
cons-continues i res ((j, res') ∷ ran) e c = rw e c

settle-Settled :
    (i : ℕ) (is : List ℕ) (res : HookResult) (st : Status) (rest : Option Emission)
    → await_int res ≡ st
    → Settled is rest
    → Settled (i ∷ is) (settle st (i, res) rest)
settle-Settled i is res continue rest e (ran, resolved, f, (left, order, last, one, denied)) = (
  (i, res) ∷ ran,
  resolved,
  rw f refl,
  (left, rw order refl, rw e last, cons-continues i res ran e one, rw e denied),
)
settle-Settled i is res stop rest e s =
    ((i, res) ∷ [], true, refl, (is, refl, rw e (inr refl), refl, rw e refl))
settle-Settled i is res confirm rest e s =
    ((i, res) ∷ [], true, refl, (is, refl, rw e (inr refl), refl, rw e refl))
settle-Settled i is res deny rest e s =
    ((i, res) ∷ [], false, refl, (is, refl, rw e (inr refl), refl, rw e refl))

-- An event goes to the hooks of its signal whose pattern, if they have a valid one, matches the
-- application: they are executed in their configured order up to and including the first that
-- replies other than `continue`, no other hook is executed, and the future is rejected exactly if
-- that hook replied `deny`. It always ends, provided that no hook has so many dialogs that its
-- stage counter wraps.
pub run_emission-Settled :
    (hosts : ℕ → Host) (regexes : Regexes) (signal : Signal) (r : Request) (i : ℕ) (ks : List Hook)
    → All Fits ks
    → Settled (heard regexes signal r i ks) (run_emission hosts regexes signal r i ks)
unfolding run_emission
run_emission-Settled hosts regexes signal r i [] fits =
    ([], true, refl, ([], refl, inl refl, refl, refl))
run_emission-Settled hosts regexes signal r i (k ∷ ks) (fit, fits) =
    elim (Bool-cases (is_heard regexes signal r k)) [
      | inl yes_heard ↦
          let (res, e) = execute_hook_total (hosts i) k r fit in
          rw (yes_heard, e)
            (settle-Settled i _ res (await_int res) _ refl
              (run_emission-Settled hosts regexes signal r (i + 1) ks fits))
      | inr not_heard ↦ rw not_heard (run_emission-Settled hosts regexes signal r (i + 1) ks fits)
    ]
