-- ===== src/Index/RoundTrip.antt =====
-- What src/search-index.c reads back of an index that src/search-index-write.c wrote.
use mathlib.Core.List.{append_assoc, append-nil}
use native.Mathlib.Numerals.{add-one}
use spacedbazaar.Common.{
  ℕ, zero, suc, ◌+◌, ◌%◌, ◌<◌, ◌≤◌, ◌≡◌, ◌≢◌, refl, sym, ap, ◌∙◌, Bool, true, false, ◌&&◌, List, [],
  ◌∷◌, ◌++◌, Option, none, some, Text, text_eq, if◌then◌else◌, length, take, ◌==◌, arith,
  Bool-cases, inl, inr, All, map, length-append, take-length-append, drop-length-append,
  length-take,
}
use spacedbazaar.Index.Write.{
  Group, Gio, Io, bz_write_search_index, string_len, text_of, count_eligible,
  entry_group_is_eligible, description_max_len, u32_mod,
}
use spacedbazaar.Index.Read.{
  Entry, Disk, Field, null, text, read_u32, c_string, fill, read_field, next_field, read_entry,
  read_entries, refused, opened, is_whole, cons_entry, search_index_open, mtime_or_zero, as_index,
}
use spacedbazaar.Index.Atomic.{
  field_bytes, group_bytes, groups_bytes, index_bytes, bz_write_search_index-atomic,
}

-- A C string holds no zero byte, and its length with the terminator is an unsigned int.
abbrev pub IsCString : Text → Type 0
IsCString s = All (λ b. b ≢ 0) s × (length s + 1 < u32_mod)

-- The strings of a group.
abbrev pub IsSized : Group → Type 0
IsSized g =
    IsCString (text_of g.id)
    × IsCString (text_of g.title)
    × IsCString (text_of g.developer)
    × IsCString (text_of g.description)
    × IsCString (text_of g.search_tokens)
    × IsCString (text_of g.icon_path)

abbrev pub eligible : List Group → List Group
eligible [] = []
eligible (g ∷ gs) = let rest = eligible gs in if entry_group_is_eligible g then g ∷ rest else rest

-- An empty string comes back as NULL, and a long one cut at the maximum.
abbrev pub non_empty : Text → Option Text
non_empty [] = none
non_empty (b ∷ s) = some (b ∷ s)

abbrev pub field_of : Option Text → ℕ → Option Text
field_of s max_len = non_empty (take (string_len s max_len) (text_of s))

abbrev pub entry_of : Group → Entry
entry_of g = record {
  id = field_of g.id 0;
  title = field_of g.title 0;
  developer = field_of g.developer 0;
  description = field_of g.description description_max_len;
  search_tokens = field_of g.search_tokens 0;
  icon_path = field_of g.icon_path 0;
}

abbrev pub all_titled : List Group → Bool
all_titled [] = true
all_titled (g ∷ gs) = is_whole (field_of g.id 0) (field_of g.title 0) && all_titled gs

take_all {ℓ} : {A : Type ℓ} (xs : List A) → take (length xs) xs ≡ xs
take_all [] = refl
take_all (x ∷ xs) = ap (◌∷◌ x) (take_all xs)

string_len-le : (s : Option Text) (m : ℕ) → string_len s m ≤ length (text_of s)
unfolding string_len
string_len-le s m = ground arith

All-take : (n : ℕ) (s : Text) → All (λ b. b ≢ 0) s → All (λ b. b ≢ 0) (take n s)
All-take zero s h = tt
All-take (suc n) [] h = tt
All-take (suc n) (b ∷ s) h = (h.0, All-take n s h.1)

c_string_lem : (s : Text) → All (λ b. b ≢ 0) s → c_string s ≡ s
unfolding c_string
c_string_lem [] h = refl
c_string_lem (b ∷ s) h = ground (arith, c_string_lem s h.1)

-- The field that holds these bytes.
abbrev pub field_text : Text → Field
field_text [] = null
field_text (b ∷ s) = text (b ∷ s)

fill_lem : (s : Text) (rest : List ℕ) → IsCString s → fill (length s) (s ++ rest) ≡ (text s, rest)
unfolding fill
fill_lem s rest h = ground (
  arith,
  length-append s rest,
  take-length-append s rest,
  drop-length-append s rest,
  c_string_lem s h.0,
)

all_or_none :
    (whole titled : Bool) (e : Entry) (es : List Entry)
    → (if whole then cons_entry e (if titled then opened es else refused) else refused)
      ≡ (if whole && titled then opened (e ∷ es) else refused)
all_or_none true true e es = refl
all_or_none true false e es = refl
all_or_none false titled e es = refl

module _ (gio : Gio) where
  read_u32-put :
      (n : ℕ) (rest : List ℕ) → n < u32_mod → read_u32 (gio.put_uint32 n ++ rest) ≡ (some n, rest)
  read_u32-put n rest h = rw (gio.put_little n h) (ap (λ (m : ℕ). (some m, rest)) (omega arith))

  read_field-put :
      (s : Text) (rest : List ℕ)
      → IsCString s
      → read_field (gio.put_uint32 (length s) ++ (s ++ rest)) ≡ (field_text s, rest)
  unfolding read_field
  read_field-put s rest h =
      rw (read_u32-put (length s) (s ++ rest) (omega (arith, h.1))) (by_length s h)
    where
      by_length :
          (t : Text)
          → IsCString t
          → (if length t == 0 then (null, t ++ rest) else fill (length t) (t ++ rest))
            ≡ (field_text t, rest)
      by_length [] k = refl
      by_length (b ∷ t) k = ground (arith, fill_lem (b ∷ t) rest k)

  field_bytes_lem :
      (s : Option Text) (m : ℕ) (rest : List ℕ)
      → IsCString (text_of s)
      → read_field (field_bytes gio s m ++ rest)
        ≡ (field_text (take (string_len s m) (text_of s)), rest)
  field_bytes_lem s m rest h =
      let t : Text = take (string_len s m) (text_of s) in
      let len : length t ≡ string_len s m =
        omega (arith, length-take (string_len s m) (text_of s), string_len-le s m) in
      let small : string_len s m % u32_mod ≡ length t =
        omega (arith, string_len-le s m, h.1, len) in
      rw (small, append_assoc (gio.put_uint32 (length t)) t rest)
        (read_field-put t rest
          (All-take (string_len s m) (text_of s) h.0, omega (arith, len, string_len-le s m, h.1)))

  next_field-bytes {ℓ} :
      {A : Type ℓ} (s : Option Text) (m : ℕ) (rest : List ℕ) (k : Option Text → List ℕ → Option A)
      → IsCString (text_of s)
      → next_field
          (read_field (
            gio.put_uint32 (string_len s m % u32_mod)
            ++ (take (string_len s m) (text_of s) ++ rest)))
          k
        ≡ k (field_of s m) rest
  next_field-bytes s m rest k h =
      rw
        (
          ← append_assoc (gio.put_uint32 (string_len s m % u32_mod))
              (take (string_len s m) (text_of s)) rest,
          field_bytes_lem s m rest h,
        )
        (by_text (take (string_len s m) (text_of s)))
    where
      by_text : (t : Text) → next_field (field_text t, rest) k ≡ k (non_empty t) rest
      by_text [] = refl
      by_text (b ∷ t) = refl

  read_entry-bytes :
      (g : Group) (rest : List ℕ)
      → IsSized g
      → read_entry (group_bytes gio g ++ rest) ≡ some (entry_of g, rest)
  unfolding read_entry
  read_entry-bytes g rest (c₁, c₂, c₃, c₄, c₅, c₆) = simp append_assoc (
      next_field-bytes g.id 0 _ _ c₁
      ∙ next_field-bytes g.title 0 _ _ c₂
      ∙ next_field-bytes g.developer 0 _ _ c₃
      ∙ next_field-bytes g.description description_max_len _ _ c₄
      ∙ next_field-bytes g.search_tokens 0 _ _ c₅
      ∙ next_field-bytes g.icon_path 0 rest _ c₆)

  read_entries-step :
      (g : Group) (f : List ℕ) (n : ℕ)
      → IsSized g
      → read_entries (n + 1) (group_bytes gio g ++ f) ≡ (
          if is_whole (field_of g.id 0) (field_of g.title 0)
          then cons_entry (entry_of g) (read_entries n f)
          else refused)
  read_entries-step g f n sized =
      rw add-one (unfold read_entries in rw (read_entry-bytes g f sized) refl)

  read_entries-bytes :
      (gs : List Group) (rest : List ℕ)
      → All IsSized (eligible gs)
      → read_entries (count_eligible gs) (groups_bytes gio gs ++ rest)
        ≡ (if all_titled (eligible gs) then opened (map entry_of (eligible gs)) else refused)
  unfolding count_eligible
  read_entries-bytes [] rest h = unfold read_entries in refl
  read_entries-bytes (g ∷ gs) rest h = elim (Bool-cases (entry_group_is_eligible g)) [
    | inl in_index ↦
        let h' : All IsSized (g ∷ eligible gs) = rw in_index at h in
        rw (in_index, append_assoc (group_bytes gio g) (groups_bytes gio gs) rest)
          (read_entries-step g (groups_bytes gio gs ++ rest) (count_eligible gs) h'.0
            ∙ ap
                (λ es.
                  if is_whole (field_of g.id 0) (field_of g.title 0)
                  then cons_entry (entry_of g) es
                  else refused)
                (read_entries-bytes gs rest h'.1)
            ∙ all_or_none (is_whole (field_of g.id 0) (field_of g.title 0)) _ _ _)
    | inr left_out ↦ rw left_out (read_entries-bytes gs rest (rw left_out at h))
  ]

  open-index_bytes :
      (d : Disk) (path : Text) (groups : List Group)
      → d.content path ≡ some (index_bytes gio groups)
      → d.calloc (count_eligible groups) ≡ true
      → count_eligible groups < u32_mod
      → All IsSized (eligible groups)
      → search_index_open d path ≡ (
          if all_titled (eligible groups)
          then opened (record {
            path = path;
            mtime = mtime_or_zero (d.st_mtime path);
            entries = map entry_of (eligible groups);
            count = count_eligible groups;
          })
          else refused)
  unfolding search_index_open text_eq
  open-index_bytes d path groups on_disk room few sized =
      let small : count_eligible groups % u32_mod ≡ count_eligible groups = omega arith in
      let body : read_entries (count_eligible groups) (groups_bytes gio groups) ≡ (
          if all_titled (eligible groups)
          then opened (map entry_of (eligible groups))
          else refused) =
        rw append-nil at (read_entries-bytes groups [] sized) in
      rw
        (
          on_disk,
          small,
          read_u32-put 1 (gio.put_uint32 (count_eligible groups) ++ groups_bytes gio groups)
              (omega arith),
          read_u32-put (count_eligible groups) (groups_bytes gio groups) few,
          room,
          body,
        )
        (by_title (all_titled (eligible groups)))
    where
      by_title :
          (b : Bool)
          → as_index d path
              (count_eligible groups)
              (if b then opened (map entry_of (eligible groups)) else refused)
            ≡ (if b
                then opened (record {
                  path = path;
                  mtime = mtime_or_zero (d.st_mtime path);
                  entries = map entry_of (eligible groups);
                  count = count_eligible groups;
                })
                else refused)
      by_title true = refl
      by_title false = refl

  -- After a write that returned true, opening the index gives the eligible groups in their order,
  -- each string cut at its maximum and an empty one as NULL, if every one of them has an id and a
  -- title; and if one has not, the whole index is refused. The strings are C strings whose lengths
  -- with the terminator are unsigned ints, the groups are fewer than 2^32, and calloc succeeds.
  pub open-write :
      (groups : List Group) (io : Io) (d : Disk) (path : Text)
      → (bz_write_search_index gio groups io).1 ≡ true
      → d.content path ≡ (bz_write_search_index gio groups io).0.final
      → d.calloc (count_eligible groups) ≡ true
      → count_eligible groups < u32_mod
      → All IsSized (eligible groups)
      → search_index_open d path ≡ (
          if all_titled (eligible groups)
          then opened (record {
            path = path;
            mtime = mtime_or_zero (d.st_mtime path);
            entries = map entry_of (eligible groups);
            count = count_eligible groups;
          })
          else refused)
  open-write groups io d path ok on_disk room few sized =
      elim (bz_write_search_index-atomic gio groups io).0 [
        | inl (_, done) ↦ open-index_bytes d path groups (on_disk ∙ done) room few sized
        | inr (bad, _) ↦ absurd (cc (sym ok ∙ bad))
      ]
