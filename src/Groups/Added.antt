-- ===== src/Groups/Added.antt =====
-- src/bz-entry-group.c: bz_entry_group_add on a group whose counters count its words.
use spacedbazaar.Common.{
  ℕ, ◌+◌, ◌<◌, Bool, true, false, not, ◌&&◌, List, [], ◌∷◌, ◌++◌, Option, none, some, Text, ◌≡◌,
  refl, sym, ap, ◌∙◌, inl, inr, arith, pos, length, length-append, Option-cases, Bool-cases, subst,
  le_int, get_elem?-below,
}
use spacedbazaar.Groups.State.{
  StateFlags, Counters, EntryGroup, find_string, remove_at, set, or_empty,
}
use spacedbazaar.Groups.Usefulness.{BzEntry, calc_usefulness}
use spacedbazaar.Groups.Add.{
  removed, appended, add_front, add_back, add_entry, revert, count_entry, put_state, mark_addon,
  name_group, put_eol, prepare, after_state, bz_entry_group_add,
}
use spacedbazaar.Groups.Counts.{
  total-append, length-set, length-remove_at, Counts, totals, AllNever, IsCounted,
}
use spacedbazaar.Groups.Balance.{Balanced}
use spacedbazaar.Groups.Tallies.{revert-Counts, count_entry-Balanced}
use spacedbazaar.Groups.Counted.{Fine}
use spacedbazaar.Groups.Keeps.{
  AllNever-set, AllNever-append, Counts-Balanced, Balanced-Counts, find_string-below,
}

-- The group that put_state finds: the lists are those that the entry has left.
record IsAwaiting (g : EntryGroup) (n : ℕ) : Type 0 where
  ids : length g.unique_ids ≡ n
  versions : length g.installed_versions ≡ n
  counts : Counts g.counters (totals g.state_flags)
  words : AllNever g.state_flags

totals-append :
    (fs : List StateFlags) (f : StateFlags) (c : Counters)
    → Balanced (totals fs) (c, f)
    → Counts c (totals (fs ++ f ∷ []))
totals-append fs f c ((p, q, r, s, u, v), n) = (
  p ∙ ap pos (sym (total-append (λ f. f.installable) fs f)),
  q ∙ ap pos (sym (total-append (λ f. f.installable_available) fs f)),
  r ∙ ap pos (sym (total-append (λ f. f.removable) fs f)),
  s ∙ ap pos (sym (total-append (λ f. f.removable_available) fs f)),
  u,
  v,
)

put_new-Fine :
    (e : BzEntry) (g : EntryGroup)
    → IsAwaiting g (length g.state_flags + 1)
    → Fine (put_state e none g)
unfolding put_state
put_new-Fine e g ok =
    let b = count_entry-Balanced e (totals g.state_flags) g.counters ok.counts in
    (
      _,
      refl,
      record {
        words_length = length-append g.state_flags ((count_entry e g.counters).1 ∷ []) ∙ sym ok.ids;
        versions_length = ok.versions ∙ sym ok.ids;
        counted =
            totals-append g.state_flags (count_entry e g.counters).1 (count_entry e g.counters).0 b;
        never = AllNever-append g.state_flags (count_entry e g.counters).1 ok.words b.1;
      },
    )

put_old-Fine :
    (e : BzEntry) (g : EntryGroup) (i : ℕ)
    → IsAwaiting g (length g.state_flags)
    → i < length g.state_flags
    → Fine (put_state e (some i) g)
unfolding put_state
put_old-Fine e g i ok below =
    let (f, at) = get_elem?-below g.state_flags i below in
    let rest = totals (remove_at g.state_flags i) in
    let t = count_entry e (revert f g.counters) in
    let b = count_entry-Balanced e rest (revert f g.counters) (
      revert-Counts rest g.counters f
        (Counts-Balanced g.state_flags i f g.counters ok.words at ok.counts)) in
    (
      record g { counters = t.0; state_flags = set g.state_flags i t.1 },
      rw (put_state, at) refl,
      record {
        words_length = length-set g.state_flags i t.1 ∙ sym ok.ids;
        versions_length = ok.versions ∙ sym ok.ids;
        counted = Balanced-Counts g.state_flags i f t.1 t.0 at b;
        never = AllNever-set g.state_flags i t.1 ok.words b.1;
      },
    )

abbrev Lengths : EntryGroup → ℕ → Type 0
Lengths g n = (length g.unique_ids ≡ n) × (length g.installed_versions ≡ n)

-- The entry is among the ids once.
abbrev awaited : Option ℕ → ℕ → ℕ
awaited none n = n + 1
awaited (some i) n = n

removed-length {ℓ} :
    {A : Type ℓ} (existing : Option ℕ) (xs : List A)
    → ((i : ℕ) → existing ≡ some i → i < length xs)
    → length (removed existing xs) + 1 ≡ awaited existing (length xs)
removed-length none xs below = refl
removed-length (some i) xs below = length-remove_at xs i (below i refl)

appended-length {ℓ} :
    {A : Type ℓ} (existing : Option ℕ) (xs : List A) (x : A)
    → length (appended existing xs x) ≡ awaited existing (length xs)
appended-length none xs x = length-append xs (x ∷ [])
appended-length (some i) xs x = refl

add_entry-IsAwaiting :
    (e : BzEntry) (existing : Option ℕ) (g : EntryGroup)
    → IsCounted g
    → ((i : ℕ) → existing ≡ some i → i < length g.unique_ids)
    → IsAwaiting (add_entry e existing g) (awaited existing (length g.state_flags))
unfolding add_front add_back
add_entry-IsAwaiting e existing g ok below =
    let below' : (i : ℕ) → existing ≡ some i → i < length g.installed_versions =
      λ i at. omega (arith, below i at, ok.versions_length) in
    elim (Bool-cases (le_int g.max_usefulness (calc_usefulness e))) [
      | inl front ↦ rw front record {
        ids = ground (arith, removed-length existing g.unique_ids below, ok.words_length);
        versions = ground (
          arith,
          removed-length existing g.installed_versions below',
          ok.versions_length,
          ok.words_length,
        );
        counts = ok.counted;
        words = ok.never;
      }
      | inr back ↦ rw back record {
        ids = ground (arith, appended-length existing g.unique_ids e.unique_id, ok.words_length);
        versions = ground (
          arith,
          appended-length existing g.installed_versions (or_empty e.installed_version),
          ok.versions_length,
          ok.words_length,
        );
        counts = ok.counted;
        words = ok.never;
      }
    ]

add_entry-state_flags :
    (e : BzEntry) (existing : Option ℕ) (g : EntryGroup)
    → (add_entry e existing g).state_flags ≡ g.state_flags
unfolding add_front add_back
add_entry-state_flags e existing g =
    elim (Bool-cases (le_int g.max_usefulness (calc_usefulness e))) [
      | inl front ↦ rw front refl
      | inr back ↦ rw back refl
    ]

put_state-Fine :
    (e : BzEntry) (existing : Option ℕ) (g : EntryGroup)
    → IsAwaiting g (awaited existing (length g.state_flags))
    → ((i : ℕ) → existing ≡ some i → i < length g.state_flags)
    → Fine (put_state e existing g)
put_state-Fine e none g ok below = put_new-Fine e g ok
put_state-Fine e (some i) g ok below = put_old-Fine e g i ok (below i refl)

mark_addon-IsCounted : (e : BzEntry) (g : EntryGroup) → IsCounted g → IsCounted (mark_addon e g)
mark_addon-IsCounted e g ok = elim (Bool-cases e.is_addon) [
  | inl on ↦ rw on ok
  | inr off ↦ rw off ok
]

name_group-IsCounted :
    (app_id : Option Text) (e : BzEntry) (g : EntryGroup)
    → IsCounted g
    → IsCounted (name_group app_id e g)
unfolding name_group
name_group-IsCounted app_id e g ok = elim (Option-cases g.id) [
  | inl anonymous ↦ rw anonymous ok
  | inr (s, named) ↦ rw named ok
]

put_eol-IsCounted :
    (ignore_eol : Bool) (e : BzEntry) (runtime : Option BzEntry) (g : EntryGroup)
    → IsCounted g
    → IsCounted (put_eol ignore_eol e runtime g)
unfolding put_eol
put_eol-IsCounted true e runtime g ok = ok
put_eol-IsCounted false e runtime g ok = ok

after_state-Fine : (e : BzEntry) (o : Option EntryGroup) → Fine o → Fine (after_state e o)
after_state-Fine e o (g, at, ok) = elim (Bool-cases (not e.is_addon && e.is_searchable)) [
  | inl on ↦ (record g { searchable = true }, rw (at, on) refl, ok)
  | inr off ↦ (g, rw (at, off) refl, ok)
]

pub bz_entry_group_add-Fine :
    (app_id : Option Text) (g : EntryGroup) (e : BzEntry) (runtime : Option BzEntry)
    (ignore_eol : Bool)
    → IsCounted g
    → Fine (bz_entry_group_add app_id g e runtime ignore_eol)
unfolding bz_entry_group_add prepare
bz_entry_group_add-Fine app_id g e runtime ignore_eol ok =
    let g₁ = prepare app_id ignore_eol e runtime g in
    let ok₁ : IsCounted g₁ =
      put_eol-IsCounted ignore_eol e runtime (name_group app_id e (mark_addon e g))
        (name_group-IsCounted app_id e (mark_addon e g) (mark_addon-IsCounted e g ok)) in
    let existing = find_string e.unique_id g₁.unique_ids in
    let below : (i : ℕ) → existing ≡ some i → i < length g₁.unique_ids =
      λ i at. find_string-below e.unique_id g₁.unique_ids i at in
    let same = add_entry-state_flags e existing g₁ in
    let awaiting = add_entry-IsAwaiting e existing g₁ ok₁ below in
    after_state-Fine e (put_state e existing (add_entry e existing g₁)) (
      put_state-Fine e existing (add_entry e existing g₁)
        (subst (λ fs. IsAwaiting (add_entry e existing g₁) (awaited existing (length fs)))
          (sym same) awaiting)
        (λ i at. omega (arith, below i at, ok₁.words_length, ap length same)))
