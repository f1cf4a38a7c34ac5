-- ===== src/Groups/Scanned.antt =====
-- src/bz-entry-group.c: what bz_entry_group_reconcile_with_installed_set leaves, from the set alone.
use mathlib.Core.Bool.{or_assoc}
use mathlib.Core.List.{append_assoc}
use spacedbazaar.Common.{
  suc, ◌+◌, Bool, true, false, ◌||◌, List, [], ◌∷◌, ◌++◌, map, some, Text, ◌≡◌, refl, ap, ◌∙◌, inl,
  inr, arith, pos, length, length-append, ltb, subst, if◌then◌else◌, Option-cases, Bool-cases,
}
use spacedbazaar.Groups.State.{StateFlags, Counters, EntryGroup, set, or_empty, no_state}
use spacedbazaar.Groups.Counts.{Rest, Counts, totals, plus, AllNever, IsCounted}
use spacedbazaar.Groups.Reconcile.{
  InstalledSet, version_of, Scan, count_uid, is_member, scan_uid, scan_rest, scan_uids, scanned,
  reconcile_with_installed_set,
}
use spacedbazaar.Groups.Balance.{inc_pos}

-- An application's word, version and membership.
abbrev pub word_in : InstalledSet → Text → StateFlags
word_in installed uid =
    if is_member (installed uid)
    then record no_state { removable = true; removable_available = true }
    else record no_state { installable = true; installable_available = true }

abbrev pub version_in : InstalledSet → Text → Text
version_in installed uid = or_empty (version_of (installed uid))

abbrev pub any_in : InstalledSet → List Text → Bool
any_in installed [] = false
any_in installed (uid ∷ uids) = is_member (installed uid) || any_in installed uids

abbrev count_uids : InstalledSet → List Text → Counters → Counters
count_uids installed [] c = c
count_uids installed (uid ∷ uids) c = count_uids installed uids (count_uid (installed uid) c).0

count_uid-word_in :
    (installed : InstalledSet) (uid : Text) (c : Counters)
    → (count_uid (installed uid) c).1 ≡ word_in installed uid
unfolding count_uid
count_uid-word_in installed uid c = elim (Option-cases (installed uid)) [
  | inl e ↦ rw e refl
  | inr (v, e) ↦ rw e refl
]

set-snoc {ℓ} :
    {A : Type ℓ} (done : List A) (x y : A) (rest : List A)
    → set (done ++ x ∷ rest) (length done) y ≡ (done ++ y ∷ []) ++ rest
set-snoc [] x y rest = refl
set-snoc (d ∷ done) x y rest = ap (λ l. d ∷ l) (set-snoc done x y rest)

ltb-middle {ℓ} :
    {A : Type ℓ} (done : List A) (x : A) (rest : List A)
    → ltb (length done) (length (done ++ x ∷ rest)) ≡ true
ltb-middle [] x rest = ground arith
ltb-middle (d ∷ done) x rest = ground (arith, ltb-middle done x rest)

length-snoc {ℓ} : {A : Type ℓ} (done : List A) (x : A) → length (done ++ x ∷ []) ≡ suc (length done)
length-snoc done x = omega (arith, length-append done (x ∷ []))

abbrev scan_at : Counters → List StateFlags → List Text → Bool → Scan
scan_at c words versions any = record {
  tallies = c;
  words = words;
  versions = versions;
  any_installed = any;
}

scan_uid-middle :
    (installed : InstalledSet) (uid : Text) (c : Counters) (any : Bool) (done : List StateFlags)
    (x : StateFlags) (rest : List StateFlags) (dones : List Text) (y : Text) (rests : List Text)
    → length dones ≡ length done
    → scan_uid installed uid (length done) (scan_at c (done ++ x ∷ rest) (dones ++ y ∷ rests) any)
      ≡ some (
          scan_at
            (count_uid (installed uid) c).0
            ((done ++ word_in installed uid ∷ []) ++ rest)
            ((dones ++ version_in installed uid ∷ []) ++ rests)
            (any || is_member (installed uid)))
unfolding scan_uid
scan_uid-middle installed uid c any done x rest dones y rests e =
    let v : set (dones ++ y ∷ rests) (length done) (version_in installed uid)
        ≡ (dones ++ version_in installed uid ∷ []) ++ rests =
      subst
        (λ n.
          set (dones ++ y ∷ rests) n (version_in installed uid)
          ≡ (dones ++ version_in installed uid ∷ []) ++ rests)
        e (set-snoc dones y (version_in installed uid) rests) in
    rw
      (
        ltb-middle done x rest,
        v,
        count_uid-word_in installed uid c,
        set-snoc done x (word_in installed uid) rest,
      )
      refl

-- The loop between the words that are done and those that are not.
scan_uids-split :
    (installed : InstalledSet) (uids : List Text) (c : Counters) (any : Bool)
    (done rest : List StateFlags) (dones rests : List Text)
    → length dones ≡ length done
    → length rest ≡ length uids
    → length rests ≡ length uids
    → scan_uids installed uids (length done) (scan_at c (done ++ rest) (dones ++ rests) any)
      ≡ some (
          scan_at
            (count_uids installed uids c)
            (done ++ map (word_in installed) uids)
            (dones ++ map (version_in installed) uids)
            (any || any_in installed uids))
unfolding scan_uids
scan_uids-split installed [] c true done [] dones [] e e' e'' = refl
scan_uids-split installed [] c false done [] dones [] e e' e'' = refl
scan_uids-split installed [] c any done (x ∷ rest) dones rests e e' e'' = absurd (omega (arith, e'))
scan_uids-split installed [] c any done [] dones (x ∷ rests) e e' e'' = absurd (omega (arith, e''))
scan_uids-split installed (uid ∷ uids) c any done [] dones rests e e' e'' =
    absurd (omega (arith, e'))
scan_uids-split installed (uid ∷ uids) c any done (x ∷ rest) dones [] e e' e'' =
    absurd (omega (arith, e''))
scan_uids-split installed (uid ∷ uids) c any done (x ∷ rest) dones (y ∷ rests) e e' e'' =
    let w = word_in installed uid in
    let v = version_in installed uid in
    let any' = any || is_member (installed uid) in
    let ih =
      scan_uids-split installed uids (count_uid (installed uid) c).0 any' (done ++ w ∷ []) rest
        (dones ++ v ∷ []) rests (omega (arith, e, length-snoc done w, length-snoc dones v))
        (omega (arith, e')) (omega (arith, e'')) in
    ap (scan_rest (scan_uids installed uids (suc (length done))))
      (scan_uid-middle installed uid c any done x rest dones y rests e)
    ∙ subst
        (λ n.
          scan_uids installed uids n (
            scan_at (count_uid (installed uid) c).0 ((done ++ w ∷ []) ++ rest)
              ((dones ++ v ∷ []) ++ rests) any')
          ≡ some (
              scan_at (count_uids installed uids (count_uid (installed uid) c).0)
                ((done ++ w ∷ []) ++ map (word_in installed) uids)
                ((dones ++ v ∷ []) ++ map (version_in installed) uids)
                (any' || any_in installed uids)))
        (length-snoc done w) ih
    ∙ (rw
        (
          append_assoc done (w ∷ []) (map (word_in installed) uids),
          append_assoc dones (v ∷ []) (map (version_in installed) uids),
          or_assoc any (is_member (installed uid)) (any_in installed uids),
        )
        refl)

-- The counters that the loop starts from.
abbrev uncounted : Counters → Counters
uncounted c = record c {
  n_installable = pos 0;
  n_removable = pos 0;
  n_installable_available = pos 0;
  n_removable_available = pos 0;
}

abbrev pub reconciled : EntryGroup → InstalledSet → EntryGroup
reconciled g installed = record g {
  counters = count_uids installed g.unique_ids (uncounted g.counters);
  state_flags = map (word_in installed) g.unique_ids;
  installed_versions = map (version_in installed) g.unique_ids;
}

-- A group with a word and a version for each of its ids is reconciled without an access out of
-- bounds: each id's word and version are those of the set, whatever they were, and the answer is
-- whether any id is in the set.
pub reconcile_with_installed_set-reconciled :
    (g : EntryGroup) (installed : InstalledSet)
    → length g.state_flags ≡ length g.unique_ids
    → length g.installed_versions ≡ length g.unique_ids
    → reconcile_with_installed_set g installed
      ≡ some (reconciled g installed, any_in installed g.unique_ids)
unfolding reconcile_with_installed_set
reconcile_with_installed_set-reconciled g installed e e' = ap (scanned g) (
    scan_uids-split installed g.unique_ids (uncounted g.counters) false [] g.state_flags []
      g.installed_versions refl e e')

abbrev both : Rest → Rest → Rest
both r s = record {
  r_installable = r.r_installable + s.r_installable;
  r_installable_available = r.r_installable_available + s.r_installable_available;
  r_removable = r.r_removable + s.r_removable;
  r_removable_available = r.r_removable_available + s.r_removable_available;
}

count_uid-Counts :
    (installed : InstalledSet) (uid : Text) (c : Counters) (r : Rest)
    → Counts c r
    → Counts (count_uid (installed uid) c).0 (plus r (word_in installed uid))
unfolding count_uid
count_uid-Counts installed uid c r h = elim (Option-cases (installed uid)) [
  | inl e ↦ rw e (ground (arith, inc_pos r.r_installable, inc_pos r.r_installable_available))
  | inr (v, e) ↦ rw e (ground (arith, inc_pos r.r_removable, inc_pos r.r_removable_available))
]

count_uids-Counts :
    (installed : InstalledSet) (uids : List Text) (c : Counters) (r : Rest)
    → Counts c r
    → Counts (count_uids installed uids c) (both r (totals (map (word_in installed) uids)))
count_uids-Counts installed [] c r h = ground (arith, h)
count_uids-Counts installed (uid ∷ uids) c r h =
    let w = word_in installed uid in
    let ih =
      count_uids-Counts installed uids (count_uid (installed uid) c).0 (plus r w)
        (count_uid-Counts installed uid c r h) in
    ground (arith, ih)

AllNever-words :
    (installed : InstalledSet) (uids : List Text) → AllNever (map (word_in installed) uids)
AllNever-words installed [] = tt
AllNever-words installed (uid ∷ uids) = (
  elim (Bool-cases (is_member (installed uid))) [
    | inl e ↦ rw e (refl, refl)
    | inr e ↦ rw e (refl, refl)
  ],
  AllNever-words installed uids,
)

length-map {ℓ} : {A B : Type ℓ} (f : A → B) (xs : List A) → length (map f xs) ≡ length xs
length-map f [] = refl
length-map f (x ∷ xs) = ap suc (length-map f xs)

recounted :
    (g : EntryGroup) (installed : InstalledSet)
    → Counts g.counters (totals g.state_flags)
    → Counts
        (count_uids installed g.unique_ids (uncounted g.counters))
        (totals (map (word_in installed) g.unique_ids))
recounted g installed (a, b, c, d, u, v) =
    let none_yet : Rest = record {
      r_installable = 0;
      r_installable_available = 0;
      r_removable = 0;
      r_removable_available = 0;
    } in
    let h =
      count_uids-Counts installed g.unique_ids (uncounted g.counters) none_yet
        (refl, refl, refl, refl, u, v) in
    ground (arith, h)

pub reconciled-IsCounted :
    (g : EntryGroup) (installed : InstalledSet) → IsCounted g → IsCounted (reconciled g installed)
reconciled-IsCounted g installed ok = record {
  words_length = length-map (word_in installed) g.unique_ids;
  versions_length = length-map (version_in installed) g.unique_ids;
  counted = recounted g installed ok.counted;
  never = AllNever-words installed g.unique_ids;
}
