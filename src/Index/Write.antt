-- ===== src/Index/Write.antt =====
-- src/search-index-write.c: bz_write_search_index writes the eligible groups to a temporary file
-- and moves it over the index.
use spacedbazaar.Common.{
  ℕ, ◌+◌, ◌/◌, ◌%◌, ◌<◌, ◌≡◌, Bool, true, false, not, ◌&&◌, List, [], ◌∷◌, ◌++◌, Option, none, some,
  Text, codes, if◌then◌else◌, length, take, ltb, ◌==◌,
}

-- What the writer reads of a BzEntryGroup: `icon_path` is the path of its mini icon, where that is
-- a file icon.
pub record Group : Type 0 where
  pub id : Option Text
  pub title : Option Text
  pub developer : Option Text
  pub description : Option Text
  pub search_tokens : Option Text
  pub icon_path : Option Text
  pub is_searchable : Bool
  pub is_addon : Bool
  pub removable : ℕ
  pub eol : Option Text

abbrev pub index_magic : Text
index_magic = codes "BZSI"

abbrev pub index_version : ℕ
index_version = 1

abbrev pub description_max_len : ℕ
description_max_len = 200

abbrev pub u32_mod : ℕ
u32_mod = 4_294_967_296

abbrev is_none : Option Text → Bool
is_none none = true
is_none (some _) = false

unfoldable pub entry_group_is_eligible : Group → Bool
entry_group_is_eligible g =
    g.is_searchable && (not g.is_addon && (g.removable == 0 && is_none g.eol))

-- GIO: which of the writer's calls fail, by their number, and the bytes that
-- g_data_output_stream_put_uint32 writes in the little-endian order, four bytes from the lowest.
pub record Gio : Type 0 where
  pub fails : ℕ → Bool
  pub put_uint32 : ℕ → List ℕ
  pub put_little :
      (n : ℕ)
      → n < u32_mod
      → put_uint32 n ≡ n % 256 ∷ n / 256 % 256 ∷ n / 65536 % 256 ∷ n / 16_777_216 % 256 ∷ []

-- `out` is what was written to the temporary file, `final` the file at `out_path`.
pub record Io : Type 0 where
  pub calls : ℕ
  pub out : List ℕ
  pub final : Option (List ℕ)

-- A gboolean, with the world behind it.
abbrev pub Done : Type 0
Done = Io × Bool

-- `&&`, and the early `return FALSE`.
abbrev pub and_then : Done → (Io → Done) → Done
and_then (io, false) next = (io, false)
and_then (io, true) next = next io

-- One call of GIO, which fails or has its effect.
unfoldable pub call : Gio → (Io → Io) → Io → Done
call gio effect io =
    let io' : Io = record io { calls = io.calls + 1 } in
    if gio.fails io.calls then (io', false) else (effect io', true)

unfoldable pub emit : Gio → List ℕ → Io → Done
unfolding call
emit gio bytes = call gio (λ io. record io { out = io.out ++ bytes })

-- strlen of a string that may be NULL, cut at a positive maximum.
abbrev pub text_of : Option Text → Text
text_of none = []
text_of (some s) = s

unfoldable pub string_len : Option Text → ℕ → ℕ
string_len s max_len =
    let len = length (text_of s) in if ltb 0 max_len && ltb max_len len then max_len else len

unfoldable pub write_string : Gio → Option Text → ℕ → Io → Done
write_string gio s max_len io =
    let len = string_len s max_len in
    and_then (emit gio (gio.put_uint32 (len % u32_mod)) io)
      (λ io'. if ltb 0 len then emit gio (take len (text_of s)) io' else (io', true))

unfoldable pub write_group : Gio → Group → Io → Done
write_group gio g io = and_then (write_string gio g.id 0 io) λ io₁.
    and_then (write_string gio g.title 0 io₁) λ io₂.
      and_then (write_string gio g.developer 0 io₂) λ io₃.
        and_then (write_string gio g.description description_max_len io₃) λ io₄.
          and_then (write_string gio g.search_tokens 0 io₄)
            λ io₅. write_string gio g.icon_path 0 io₅

-- The second loop.
unfoldable pub write_groups : Gio → List Group → Io → Done
write_groups gio [] io = (io, true)
write_groups gio (g ∷ gs) io =
    if entry_group_is_eligible g
    then and_then (write_group gio g io) (λ io'. write_groups gio gs io')
    else write_groups gio gs io

-- The first loop.
unfoldable pub count_eligible : List Group → ℕ
count_eligible [] = 0
count_eligible (g ∷ gs) =
    let rest = count_eligible gs in if entry_group_is_eligible g then rest + 1 else rest

-- g_file_replace starts the temporary file, and g_file_move puts it at `out_path`.
unfoldable pub bz_write_search_index : Gio → List Group → Io → Done
bz_write_search_index gio groups io = and_then (call gio (λ io'. record io' { out = [] }) io) λ io₁.
    and_then (emit gio index_magic io₁) λ io₂.
      and_then (emit gio (gio.put_uint32 index_version) io₂) λ io₃.
        and_then (emit gio (gio.put_uint32 (count_eligible groups % u32_mod)) io₃) λ io₄.
          and_then (write_groups gio groups io₄) λ io₅.
            and_then (call gio (λ io'. io') io₅)
              λ io₆. call gio (λ io'. record io' { final = some io'.out }) io₆
