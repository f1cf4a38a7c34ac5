-- ===== src/Groups/History.antt =====
-- src/bz-entry-group.c: everything that happens to a group after it is made.
use spacedbazaar.Common.{Bool, List, [], ◌∷◌, Option, none, some, Text, ◌≡◌, refl, subst, ap, arith}
use spacedbazaar.Groups.State.{EntryGroup, new_group, append_addon_group_id}
use spacedbazaar.Groups.Usefulness.{BzEntry}
use spacedbazaar.Groups.Add.{bz_entry_group_add}
use spacedbazaar.Groups.Notify.{installed_changed, holding_changed}
use spacedbazaar.Groups.Reconcile.{InstalledSet, reconcile_with_installed_set}
use spacedbazaar.Groups.Counts.{IsCounted}
use spacedbazaar.Groups.Counted.{Fine, installed_changed-Fine, holding_changed-Fine}
use spacedbazaar.Groups.Added.{bz_entry_group_add-Fine}
use spacedbazaar.Groups.Scanned.{
  reconciled, reconciled-IsCounted, reconcile_with_installed_set-reconciled,
}

-- A call, with the entry as it is at that moment.
pub data Event : Type 0 where
  add : BzEntry → Option BzEntry → Bool → Event
  notify_installed : BzEntry → Event
  notify_holding : BzEntry → Event
  reconcile : InstalledSet → Event
  addon_group : Text → Event

abbrev group_of : Option (EntryGroup × Bool) → Option EntryGroup
group_of none = none
group_of (some (g, any)) = some g

unfoldable pub handle : Option Text → EntryGroup → Event → Option EntryGroup
handle app_id g (add e runtime ignore_eol) = bz_entry_group_add app_id g e runtime ignore_eol
handle app_id g (notify_installed e) = installed_changed g e
handle app_id g (notify_holding e) = holding_changed g e
handle app_id g (reconcile installed) = group_of (reconcile_with_installed_set g installed)
handle app_id g (addon_group s) = some (append_addon_group_id g s)

abbrev pub handle_all : Option Text → Option EntryGroup → List Event → Option EntryGroup
handle_all app_id none events = none
handle_all app_id (some g) [] = some g
handle_all app_id (some g) (event ∷ events) = handle_all app_id (handle app_id g event) events

handle-Fine :
    (app_id : Option Text) (g : EntryGroup) (event : Event)
    → IsCounted g
    → Fine (handle app_id g event)
unfolding handle append_addon_group_id
handle-Fine app_id g (add e runtime ignore_eol) ok =
    bz_entry_group_add-Fine app_id g e runtime ignore_eol ok
handle-Fine app_id g (notify_installed e) ok = installed_changed-Fine g e ok
handle-Fine app_id g (notify_holding e) ok = holding_changed-Fine g e ok
handle-Fine app_id g (reconcile installed) ok = (
  reconciled g installed,
  ap group_of
      (reconcile_with_installed_set-reconciled g installed ok.words_length ok.versions_length),
  reconciled-IsCounted g installed ok,
)
handle-Fine app_id g (addon_group s) ok = (_, refl, ok)

handle_all-Fine :
    (app_id : Option Text) (o : Option EntryGroup) (events : List Event)
    → Fine o
    → Fine (handle_all app_id o events)
handle_all-Fine app_id none events fine = absurd (let (g, e, ok) = fine in ground (arith, e))
handle_all-Fine app_id (some g) [] fine = fine
handle_all-Fine app_id (some g) (event ∷ events) (g', e, ok) =
    let same : g' ≡ g = ground (arith, e) in
    handle_all-Fine app_id (handle app_id g event) events
      (handle-Fine app_id g event (subst IsCounted same ok))

new_group-IsCounted : IsCounted new_group
unfolding new_group
new_group-IsCounted = record {
  words_length = refl;
  versions_length = refl;
  counted = (refl, refl, refl, refl, refl, refl);
  never = tt;
}

-- Whatever is added to a new group, in any order, and whatever its entries and the installed set
-- report in between, no access to the group's arrays is out of bounds; the group keeps one word and
-- one version for each id, the counters of installable and removable entries, available or not, are
-- the numbers of the words with that bit, so that none is ever negative, and the counters of
-- updatable entries stay 0.
pub handle_all-IsCounted :
    (app_id : Option Text) (events : List Event)
    → (g : EntryGroup) × (handle_all app_id (some new_group) events ≡ some g) × IsCounted g
handle_all-IsCounted app_id events =
    handle_all-Fine app_id (some new_group) events (new_group, refl, new_group-IsCounted)
