-- ===== src/Index/Read.antt =====
-- src/search-index.c: reading the index, looking an entry up, and reloading it.
use spacedbazaar.Common.{
  ℕ, zero, suc, ◌+◌, ◌*◌, ◌%◌, Bool, true, false, List, [], ◌∷◌, Option, none, some, Text, text_eq,
  if◌then◌else◌, length, take, drop, ltb, ◌==◌, ◌&&◌,
}
use spacedbazaar.Index.Write.{index_magic, u32_mod}

pub record Entry : Type 0 where
  pub id : Option Text
  pub title : Option Text
  pub developer : Option Text
  pub description : Option Text
  pub search_tokens : Option Text
  pub icon_path : Option Text

pub record Index : Type 0 where
  pub path : Text
  pub mtime : ℕ
  pub entries : List Entry
  pub count : ℕ

-- A FILE is the bytes that are still to be read; a short fread uses up what there is. The bytes
-- are below 256 and shifted apart, so that `|` is `+`.
abbrev pub read_u32 : List ℕ → Option ℕ × List ℕ
read_u32 (b₀ ∷ b₁ ∷ b₂ ∷ b₃ ∷ f) = (some (b₀ + 256 * b₁ + 65536 * b₂ + 16_777_216 * b₃), f)
read_u32 _ = (none, [])

-- A malloc'd block of bytes read as a C string ends at the first zero byte.
unfoldable pub c_string : List ℕ → Text
c_string [] = []
c_string (b ∷ bs) = let rest = c_string bs in if b == 0 then [] else b ∷ rest

-- What read_field does: it returns NULL or a string, or it writes past the block: `len + 1` is an
-- unsigned int, and malloc (0) gives a block with no room.
pub data Field : Type 0 where
  null overrun : Field
  text : Text → Field

abbrev malloc_size : ℕ → ℕ
malloc_size len = (len + 1) % u32_mod

-- fread of `len` bytes into the block that was allocated for them.
unfoldable pub fill : ℕ → List ℕ → Field × List ℕ
fill len f =
    if ltb (malloc_size len) len && ltb 0 (length f)
    then (overrun, [])
    else if ltb (length f) len
    then (null, [])
    else (text (c_string (take len f)), drop len f)

abbrev read_sized : Option ℕ × List ℕ → Field × List ℕ
read_sized (none, f) = (null, f)
read_sized (some len, f) = if len == 0 then (null, f) else fill len f

unfoldable pub read_field : List ℕ → Field × List ℕ
read_field f = read_sized (read_u32 f)

-- The reads of one entry in order; `none` is an overrun.
abbrev pub next_field {ℓ} :
    {A : Type ℓ} → Field × List ℕ → (Option Text → List ℕ → Option A) → Option A
next_field (null, f) k = k none f
next_field (text s, f) k = k (some s) f
next_field (overrun, f) k = none

unfoldable pub read_entry : List ℕ → Option (Entry × List ℕ)
read_entry f = next_field (read_field f) λ id f₁. next_field (read_field f₁) λ title f₂.
    next_field (read_field f₂) λ developer f₃. next_field (read_field f₃) λ description f₄.
      next_field (read_field f₄) λ search_tokens f₅. next_field (read_field f₅) λ icon_path f₆.
        some (
          record {
            id = id;
            title = title;
            developer = developer;
            description = description;
            search_tokens = search_tokens;
            icon_path = icon_path;
          },
          f₆,
        )

pub data Opened {ℓ} (A : Type ℓ) : Type ℓ where
  fault : Opened A
  refused : Opened A
  opened : A → Opened A

-- An entry with no id or no title refuses the whole file.
abbrev pub is_whole : Option Text → Option Text → Bool
is_whole (some _) (some _) = true
is_whole _ _ = false

abbrev pub cons_entry : Entry → Opened (List Entry) → Opened (List Entry)
cons_entry e fault = fault
cons_entry e refused = refused
cons_entry e (opened es) = opened (e ∷ es)

abbrev pub use_entry :
    Option (Entry × List ℕ) → (List ℕ → Opened (List Entry)) → Opened (List Entry)
use_entry none rest = fault
use_entry (some (e, f)) rest = if is_whole e.id e.title then cons_entry e (rest f) else refused

-- The loop over `count`.
unfoldable pub read_entries : ℕ → List ℕ → Opened (List Entry)
read_entries zero f = opened []
read_entries (suc n) f = use_entry (read_entry f) (λ f'. read_entries n f')

-- What the reader finds on disk, and whether calloc has room for so many entries.
pub record Disk : Type 0 where
  pub content : Text → Option (List ℕ)
  pub st_mtime : Text → Option ℕ
  pub calloc : ℕ → Bool

abbrev pub mtime_or_zero : Option ℕ → ℕ
mtime_or_zero none = 0
mtime_or_zero (some t) = t

abbrev pub as_index : Disk → Text → ℕ → Opened (List Entry) → Opened Index
as_index d path count fault = fault
as_index d path count refused = refused
as_index d path count (opened es) =
    opened
      (record { path = path; mtime = mtime_or_zero (d.st_mtime path); entries = es; count = count })

-- The version is read and not looked at.
abbrev read_counted : Disk → Text → Option ℕ × List ℕ → Opened Index
read_counted d path (none, f) = refused
read_counted d path (some count, f) =
    if d.calloc count then as_index d path count (read_entries count f) else refused

abbrev read_versioned : Disk → Text → Option ℕ × List ℕ → Opened Index
read_versioned d path (none, f) = refused
read_versioned d path (some version, f) = read_counted d path (read_u32 f)

abbrev read_file : Disk → Text → Option (List ℕ) → Opened Index
read_file d path none = refused
read_file d path (some f) =
    if text_eq (take 4 f) index_magic then read_versioned d path (read_u32 (drop 4 f)) else refused

unfoldable pub search_index_open : Disk → Text → Opened Index
search_index_open d path = read_file d path (d.content path)

-- The new pointer, and the result: 1 where the index was read anew.
abbrev pub replaced : Index → Opened Index → Opened (Option Index × ℕ)
replaced idx fault = fault
replaced idx refused = opened (some idx, 0)
replaced idx (opened fresh) = opened (some fresh, 1)

abbrev pub reload_at : Disk → Index → Option ℕ → Opened (Option Index × ℕ)
reload_at d idx none = opened (some idx, 0)
reload_at d idx (some t) =
    if t == idx.mtime then opened (some idx, 0) else replaced idx (search_index_open d idx.path)

unfoldable pub search_index_reload_if_stale : Disk → Option Index → Opened (Option Index × ℕ)
search_index_reload_if_stale d none = opened (none, 0)
search_index_reload_if_stale d (some idx) = reload_at d idx (d.st_mtime idx.path)

abbrev pub is_id : Text → Option Text → Bool
is_id id none = false
is_id id (some s) = text_eq s id

unfoldable pub find_entry : Text → List Entry → Option Entry
find_entry id [] = none
find_entry id (e ∷ es) = if is_id id e.id then some e else find_entry id es

unfoldable pub search_index_find : Option Index → Option Text → Option Entry
unfolding find_entry
search_index_find none id = none
search_index_find (some idx) none = none
search_index_find (some idx) (some id) = find_entry id idx.entries
