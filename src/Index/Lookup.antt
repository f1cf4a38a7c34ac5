-- ===== src/Index/Lookup.antt =====
-- src/search-index.c: what search_index_find and search_index_reload_if_stale promise.
use spacedbazaar.Common.{
  ℕ, ◌≡◌, ◌≢◌, refl, true, false, List, [], ◌∷◌, ◌++◌, Option, none, some, Text, text_eq_iff, All,
  arith, ◌⊎◌, inl, inr, Bool-cases, ap, ◌==◌, ◌∙◌,
}
use spacedbazaar.Index.Read.{
  Entry, Index, Disk, Opened, fault, refused, opened, search_index_open, search_index_find,
  find_entry, search_index_reload_if_stale, is_id, reload_at, replaced,
}

-- The first entry with the id, and none exactly if no entry has it.
abbrev pub FindsFirst : Text → List Entry → Option Entry → Type 0
FindsFirst id es none = All (λ e. e.id ≢ some id) es
FindsFirst id es (some e) =
    (front back : List Entry) × (es ≡ front ++ e ∷ back)
    × All (λ f. f.id ≢ some id) front
    × (e.id ≡ some id)

is_id_iff :
    (id : Text) (s : Option Text)
    → (is_id id s ≡ true → s ≡ some id) × (is_id id s ≡ false → s ≢ some id)
is_id_iff id none = (λ e. absurd (cc e), λ e f. absurd (cc f))
is_id_iff id (some t) =
    (λ e. ap some ((text_eq_iff t id).0 e), λ e f. absurd (ground (arith, text_eq_iff t id)))

FindsFirst-cons :
    (id : Text) (x : Entry) (es : List Entry) (o : Option Entry)
    → x.id ≢ some id
    → FindsFirst id es o
    → FindsFirst id (x ∷ es) o
FindsFirst-cons id x es none n f = (n, f)
FindsFirst-cons id x es (some e) n (front, back, shape, others, found) =
    (x ∷ front, back, ap (◌∷◌ x) shape, (n, others), found)

-- Looking an id up in an index gives the first entry that has it, and NULL exactly if none has.
pub search_index_find-FindsFirst :
    (idx : Index) (id : Text) → FindsFirst id idx.entries (search_index_find (some idx) (some id))
unfolding search_index_find
search_index_find-FindsFirst idx id = go idx.entries
  where
    go : (es : List Entry) → FindsFirst id es (find_entry id es)
    go [] = tt
    go (x ∷ es) = elim (Bool-cases (is_id id x.id)) [
      | inl hit ↦ rw hit ([], es, refl, tt, (is_id_iff id x.id).0 hit)
      | inr miss ↦
          rw miss (FindsFirst-cons id x es (find_entry id es) ((is_id_iff id x.id).1 miss) (go es))
    ]

-- What a reload hands back: the same index, with 0, or the index that the file now holds, with 1;
-- the latter exactly if the file's time differs and it can be opened. A file that cannot be found
-- or read leaves the old index.
abbrev pub Reloads : Disk → Index → Opened (Option Index × ℕ) → Type 0
Reloads d idx fault = search_index_open d idx.path ≡ fault
Reloads d idx refused = ⊥
Reloads d idx (opened (now, result)) =
    ((now ≡ some idx)
      × (result ≡ 0)
      × ((d.st_mtime idx.path ≡ none)
          ⊎ ((d.st_mtime idx.path ≡ some idx.mtime) ⊎ (search_index_open d idx.path ≡ refused))))
    ⊎ ((fresh : Index) × (now ≡ some fresh)
        × (result ≡ 1)
        × (search_index_open d idx.path ≡ opened fresh)
        × (d.st_mtime idx.path ≢ some idx.mtime))

pub search_index_reload-Reloads :
    (d : Disk) (idx : Index) → Reloads d idx (search_index_reload_if_stale d (some idx))
unfolding search_index_reload_if_stale
search_index_reload-Reloads d idx = stat (d.st_mtime idx.path) refl
  where
    fresh_file :
        (t : ℕ) (o : Opened Index)
        → (t == idx.mtime) ≡ false
        → d.st_mtime idx.path ≡ some t
        → search_index_open d idx.path ≡ o
        → Reloads d idx (replaced idx o)
    fresh_file t fault n s e = e
    fresh_file t refused n s e = inl (refl, refl, inr (inr e))
    fresh_file t (opened fresh) n s e = inr (fresh, refl, refl, e, λ same. absurd (ground arith))

    stat : (m : Option ℕ) → d.st_mtime idx.path ≡ m → Reloads d idx (reload_at d idx m)
    stat none s = inl (refl, refl, inl s)
    stat (some t) s = elim (Bool-cases (t == idx.mtime)) [
      | inl same ↦ rw same (inl (refl, refl, inr (inl (s ∙ ap some (ground arith)))))
      | inr other ↦ rw other (fresh_file t (search_index_open d idx.path) other s refl)
    ]
