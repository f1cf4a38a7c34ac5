-- ===== src/Groups/Living.antt =====
-- src/bz-entry-group.c: the word of an entry against what the entry is.
use spacedbazaar.Common.{
  ℕ, Bool, true, false, not, ◌&&◌, Option, some, ◌≡◌, refl, ap, ◌∙◌, inl, inr, get_elem?,
  Bool-cases,
}
use spacedbazaar.Groups.State.{StateFlags, Counters, EntryGroup, find_string, set, or_empty}
use spacedbazaar.Groups.Usefulness.{BzEntry}
use spacedbazaar.Groups.Add.{count_entry}
use spacedbazaar.Groups.Notify.{
  Tally, drop_installable, put_installable, drop_removable, put_removable,
  drop_installable_available, put_installable_available, drop_removable_available,
  put_removable_available, tally_installed, tally_holding, retally, forget, installed_changed,
  holding_changed, installed_at, holding_at,
}
use spacedbazaar.Groups.Counted.{retally_at}

-- The word that an entry should have: it can be removed if it is installed, installed if it is not
-- and can be again, and either now if nothing holds it.
abbrev pub living : Bool → Bool → Bool → StateFlags
living installed holding reinstallable = record {
  installable = not installed && reinstallable;
  installable_available = not installed && (reinstallable && not holding);
  updatable = false;
  updatable_available = false;
  removable = installed;
  removable_available = installed && not holding;
}

abbrev pub living_entry : BzEntry → StateFlags
living_entry e = living e.is_installed e.is_holding e.is_reinstallable

pub count_entry-living : (e : BzEntry) (c : Counters) → (count_entry e c).1 ≡ living_entry e
unfolding count_entry
count_entry-living e c = elim (Bool-cases e.is_holding) [
  | inl b ↦ elim (Bool-cases e.is_installed) [
    | inl a ↦ rw (a, b) refl
    | inr a ↦ elim (Bool-cases e.is_reinstallable) [
      | inl d ↦ rw (a, b, d) refl
      | inr d ↦ rw (a, b, d) refl
    ]
  ]
  | inr b ↦ elim (Bool-cases e.is_installed) [
    | inl a ↦ rw (a, b) refl
    | inr a ↦ elim (Bool-cases e.is_reinstallable) [
      | inl d ↦ rw (a, b, d) refl
      | inr d ↦ rw (a, b, d) refl
    ]
  ]
]

-- The two signals, the word before each and its handler.
pub data Notice : Type 0 where
  installed_notify : Notice
  holding_notify : Notice

abbrev pub word_before : Notice → BzEntry → StateFlags
word_before installed_notify e = living (not e.is_installed) e.is_holding e.is_reinstallable
word_before holding_notify e = living e.is_installed (not e.is_holding) e.is_reinstallable

abbrev pub notified : Notice → EntryGroup → BzEntry → Option EntryGroup
notified installed_notify g e = installed_changed g e
notified holding_notify g e = holding_changed g e

abbrev step_of : Notice → BzEntry → Tally → Tally
step_of installed_notify e t = tally_installed e t
step_of holding_notify e t = tally_holding e t

step_at :
    (sig : Notice) (inst hold rei : Bool) (e : BzEntry) (c : Counters)
    → e.is_installed ≡ inst
    → e.is_holding ≡ hold
    → e.is_reinstallable ≡ rei
    → (step_of sig e (c, word_before sig e)).1 ≡ living inst hold rei
unfolding tally_installed tally_holding drop_installable put_installable drop_removable
    put_removable drop_installable_available put_installable_available drop_removable_available
    put_removable_available
step_at installed_notify true true true e c i h r = rw (i, h, r) refl
step_at installed_notify true true false e c i h r = rw (i, h, r) refl
step_at installed_notify true false true e c i h r = rw (i, h, r) refl
step_at installed_notify true false false e c i h r = rw (i, h, r) refl
step_at installed_notify false true true e c i h r = rw (i, h, r) refl
step_at installed_notify false true false e c i h r = rw (i, h, r) refl
step_at installed_notify false false true e c i h r = rw (i, h, r) refl
step_at installed_notify false false false e c i h r = rw (i, h, r) refl
step_at holding_notify true true rei e c i h r = rw (i, h) refl
step_at holding_notify true false rei e c i h r = rw (i, h) refl
step_at holding_notify false true true e c i h r = rw (i, h, r) refl
step_at holding_notify false true false e c i h r = rw (i, h, r) refl
step_at holding_notify false false true e c i h r = rw (i, h, r) refl
step_at holding_notify false false false e c i h r = rw (i, h, r) refl

step_of-living :
    (sig : Notice) (e : BzEntry) (c : Counters)
    → (step_of sig e (c, word_before sig e)).1 ≡ living_entry e
step_of-living sig e c =
    step_at sig e.is_installed e.is_holding e.is_reinstallable e c refl refl refl

stepped :
    (sig : Notice) (g : EntryGroup) (e : BzEntry) (i : ℕ)
    → get_elem? g.state_flags i ≡ some (word_before sig e)
    → retally (step_of sig e) g i
      ≡ some (record g {
        counters = (step_of sig e (g.counters, word_before sig e)).0;
        state_flags = set g.state_flags i (living_entry e);
      })
stepped sig g e i at =
    retally_at (step_of sig e) g i (word_before sig e) at
    ∙ ap
        (λ f. some (record g {
          counters = (step_of sig e (g.counters, word_before sig e)).0;
          state_flags = set g.state_flags i f;
        }))
        (step_of-living sig e g.counters)

-- When an entry that the group lists changes its installed or its holding state and the word at its
-- place was right before, the handler writes the word that is right now at that place, and it leaves
-- the other words and the ids as they are.
pub notified-living :
    (sig : Notice) (g : EntryGroup) (e : BzEntry) (i : ℕ)
    → find_string e.unique_id g.unique_ids ≡ some i
    → get_elem? g.state_flags i ≡ some (word_before sig e)
    → (g' : EntryGroup) × (notified sig g e ≡ some g')
      × (g'.state_flags ≡ set g.state_flags i (living_entry e))
      × (g'.unique_ids ≡ g.unique_ids)
unfolding installed_changed holding_changed
notified-living installed_notify g e i found at =
    let g₁ = record g {
      installed_versions = set g.installed_versions i (or_empty e.installed_version);
    } in
    (_, ap (installed_at g e) found ∙ ap forget (stepped installed_notify g₁ e i at), refl, refl)
notified-living holding_notify g e i found at =
    (_, ap (holding_at g e) found ∙ stepped holding_notify g e i at, refl, refl)
