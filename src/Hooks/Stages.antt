-- ===== src/Hooks/Stages.antt =====
-- src/hooks.c, second half of execute_hook_fiber: the loop that runs the hook's shell body once
-- for each stage. What the shell, the user and the host do is the record `Host`, by stage index.
use spacedbazaar.Common.{
  ℕ, zero, suc, ◌+◌, ◌*◌, ◌%◌, Bool, true, false, List, [], ◌∷◌, ◌++◌, Option, none, some, Text,
  codes, text_eq, if◌then◌else◌, length, ◌==◌,
}
use spacedbazaar.Hooks.Config.{
  Signal, view_app, before_transaction, after_transaction, article_app, Status, continue, stop,
  confirm, deny, TransactionType, Hook, AlertCall, DialogData, hook_dialogs,
}

pub data HookStage : Type 0 where
  setup setup_dialog teardown_dialog catch action teardown : HookStage

-- The calls of g_subprocess_launcher_setenv, in order; a value may be NULL.
abbrev pub Env : Type 0
Env = List (Text × Option Text)

-- How one run of the shell body ends: the bytes are those that g_input_stream_read_bytes returns,
-- at most 1024.
pub data Outcome : Type 0 where
  spawn_failed exit_failed read_failed : Outcome
  output : Text → Outcome

-- A dialog is presented where there is an active window, and its future may fail.
pub data Answer : Type 0 where
  no_window failed : Answer
  response : Text → Answer

pub record Host : Type 0 where
  pub timestamp_sec : Text
  pub timestamp_usec : Text
  pub decimal : ℕ → Text
  pub signal_nick : Signal → Text
  pub ts_type_nick : TransactionType → Text
  pub get_default_response : List AlertCall → Option Text
  pub answer : ℕ → Answer
  pub run : ℕ → Env → Outcome

pub record Group : Type 0 where
  pub id : Option Text

-- `ts_type`, `ts_appid` and `group` of `ExecuteHookData`.
pub record Request : Type 0 where
  pub ts_type : TransactionType
  pub ts_appid : Option Text
  pub group : Option Group

-- The loop's variables.
pub record State : Type 0 where
  pub stage : ℕ
  pub aborted : Bool
  pub finish : Bool
  pub current : Option DialogData
  pub dialogs : List DialogData

pub record Call : Type 0 where
  pub name : HookStage
  pub env : Env
  pub outcome : Outcome

pub data Next : Type 0 where
  goes : State → Next
  ends : Status → Next

abbrev pub stage_text : HookStage → Text
stage_text setup = codes "setup"
stage_text setup_dialog = codes "setup-dialog"
stage_text teardown_dialog = codes "teardown-dialog"
stage_text catch = codes "catch"
stage_text action = codes "action"
stage_text teardown = codes "teardown"

-- The bytes up to the first newline or zero byte: what g_strcmp0 then compares.
unfoldable pub first_line : Text → Text
first_line [] = []
first_line (c ∷ s) =
    let rest = first_line s in if c == 0 then [] else if c == b'\n' then [] else c ∷ rest

abbrev group_id : Option Group → Option Text
group_id none = none
group_id (some g) = g.id

abbrev signal_env : Host → Request → Signal → Env
signal_env h r view_app = (codes "BAZAAR_APPID", group_id r.group) ∷ []
signal_env h r article_app = (codes "BAZAAR_APPID", group_id r.group) ∷ []
signal_env h r before_transaction =
    (codes "BAZAAR_TS_APPID", r.ts_appid)
    ∷ (codes "BAZAAR_TS_TYPE", some (h.ts_type_nick r.ts_type))
    ∷ []
signal_env h r after_transaction =
    (codes "BAZAAR_TS_APPID", r.ts_appid)
    ∷ (codes "BAZAAR_TS_TYPE", some (h.ts_type_nick r.ts_type))
    ∷ []

-- What every stage gets.
unfoldable pub common_env : Host → Hook → Request → ℕ → Bool → Env
common_env h k r stage aborted =
    ((codes "BAZAAR_HOOK_INITIATED_UNIX_STAMP", some h.timestamp_sec)
      ∷ (codes "BAZAAR_HOOK_INITIATED_UNIX_STAMP_USEC", some h.timestamp_usec)
      ∷ (codes "BAZAAR_HOOK_STAGE_IDX", some (h.decimal stage))
      ∷ (codes "BAZAAR_HOOK_ID", k.id)
      ∷ (codes "BAZAAR_HOOK_TYPE", some (h.signal_nick k.when))
      ∷ (codes "BAZAAR_HOOK_WAS_ABORTED", some (if aborted then codes "true" else codes "false"))
      ∷ [])
    ++ signal_env h r k.when

-- A dialog that could not be shown or failed counts as answered by its default response.
abbrev pub response_of : Host → DialogData → Answer → Option Text
response_of h d (response a) = some a
response_of h d no_window = h.get_default_response d.calls
response_of h d failed = h.get_default_response d.calls

abbrev pub dialog_id_key : Text
dialog_id_key = codes "BAZAAR_HOOK_DIALOG_ID"

abbrev pub response_id_key : Text
response_id_key = codes "BAZAAR_HOOK_DIALOG_RESPONSE_ID"

-- The stage's name, its own part of the environment, and the state as the shell body starts.
abbrev Choice : Type 0
Choice = HookStage × Env × State

-- `current_dialog != NULL`, `dialogs->len > 0`, else.
abbrev choose_dialog : Host → State → Option DialogData → List DialogData → Choice
choose_dialog h s (some d) ds = (
  teardown_dialog,
  (dialog_id_key, d.id) ∷ (response_id_key, response_of h d (h.answer s.stage)) ∷ [],
  record s { current = none },
)
choose_dialog h s none (d ∷ ds) =
    (setup_dialog, (dialog_id_key, d.id) ∷ [], record s { current = some d; dialogs = ds })
choose_dialog h s none [] = (action, [], s)

unfoldable pub choose : Host → State → Choice
choose h s =
    if s.finish
    then (teardown, [], s)
    else if s.aborted
    then (catch, [], s)
    else if s.stage == 0
    then (setup, [], s)
    else choose_dialog h s s.current s.dialogs

-- `continue`, with the `stage++` of the loop, a guint.
abbrev again : State → Next
again s = goes (record s { stage = (s.stage + 1) % 4_294_967_296 })

-- What the reply makes of the state; an unknown reply abandons the hook.
unfoldable pub after_reply : HookStage → Text → State → Next
after_reply setup out s =
    if text_eq out (codes "ok")
    then again s
    else if text_eq out (codes "pass")
    then ends continue
    else ends continue
after_reply setup_dialog out s =
    if text_eq out (codes "ok")
    then again s
    else if text_eq out (codes "pass")
    then again (record s { current = none })
    else ends continue
after_reply teardown_dialog out s =
    if text_eq out (codes "ok")
    then again s
    else if text_eq out (codes "abort")
    then again (record s { aborted = true })
    else ends continue
after_reply catch out s =
    if text_eq out (codes "recover")
    then again (record s { aborted = false })
    else if text_eq out (codes "abort")
    then again (record s { finish = true })
    else ends continue
after_reply action out s = again (record s { finish = true })
after_reply teardown out s =
    if text_eq out (codes "continue")
    then ends continue
    else if text_eq out (codes "stop")
    then ends stop
    else if text_eq out (codes "confirm")
    then ends confirm
    else if text_eq out (codes "deny")
    then ends deny
    else ends continue

unfoldable pub after_outcome : HookStage → Outcome → State → Next
after_outcome name spawn_failed s = ends continue
after_outcome name exit_failed s = ends continue
after_outcome name read_failed s = ends continue
after_outcome name (output bytes) s = after_reply name (first_line bytes) s

-- One round of the loop.
unfoldable pub round : Host → Hook → Request → State → Call × Next
round h k r s =
    let (name, extra, s') = choose h s in
    let env : Env =
      common_env h k r s.stage s.aborted
      ++ (extra ++ (codes "BAZAAR_HOOK_STAGE", some (stage_text name)) ∷ []) in
    let outcome = h.run s.stage env in
    (record { name = name; env = env; outcome = outcome }, after_outcome name outcome s')

-- What is left of a run: its calls of the shell body, in order, and its status.
abbrev pub Run : Type 0
Run = List Call × Status

abbrev pub with_call : Call → Option Run → Option Run
with_call c none = none
with_call c (some (cs, status)) = some (c ∷ cs, status)

-- The loop on fuel; `none` means that the fuel ran out.
unfoldable pub stages : Host → Hook → Request → ℕ → State → Option Run
stages h k r zero s = none
stages h k r (suc fuel) s =
    let (c, next) = round h k r s in
    elim next [ ends status ↦ some (c ∷ [], status) | goes s' ↦ with_call c (stages h k r fuel s') ]

unfoldable pub start : List DialogData → State
start ds = record { stage = 0; aborted = false; finish = false; current = none; dialogs = ds }

-- How many stages a hook with that many dialogs can run.
abbrev pub stage_bound : List DialogData → ℕ
stage_bound ds = 3 * length ds + 3

-- `bz_execute_hook` awaited: the future is rejected, or resolves to a status.
pub data HookResult : Type 0 where
  rejected : HookResult
  returned : List Call → Status → HookResult

abbrev pub as_result : Option Run → Option HookResult
as_result none = none
as_result (some (cs, status)) = some (returned cs status)

-- A hook with no shell body or with an incomplete dialog is skipped.
abbrev pub run_hook :
    Host → Hook → Request → Option Text → Option (List DialogData) → Option HookResult
run_hook h k r none _ = some (returned [] continue)
run_hook h k r (some shell) none = some (returned [] continue)
run_hook h k r (some shell) (some ds) = as_result (stages h k r (stage_bound ds) (start ds))

-- The precondition on the signal: an application id, or a group.
unfoldable pub is_accepted : Signal → Option Text → Option Group → Bool
is_accepted before_transaction none g = false
is_accepted before_transaction (some _) g = true
is_accepted after_transaction none g = false
is_accepted after_transaction (some _) g = true
is_accepted view_app a none = false
is_accepted view_app a (some _) = true
is_accepted article_app a none = false
is_accepted article_app a (some _) = true

unfoldable pub execute_hook : Host → Hook → Request → Option HookResult
execute_hook h k r =
    if is_accepted k.when r.ts_appid r.group
    then run_hook h k r k.shell (hook_dialogs k.dialogs)
    else some rejected
