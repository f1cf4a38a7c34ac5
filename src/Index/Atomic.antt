-- ===== src/Index/Atomic.antt =====
-- What src/search-index-write.c leaves on disk: the whole index, or the old file untouched.
use mathlib.Core.List.{append_assoc, append-nil}
use spacedbazaar.Common.{
  ℕ, zero, suc, ◌+◌, ◌%◌, ◌≡◌, refl, sym, ap, ◌∙◌, true, false, List, [], ◌∷◌, ◌++◌, Option, some,
  Text, if◌then◌else◌, take, ltb, arith, Bool-cases, inl, inr, ◌⊎◌, lt→ltb,
}
use spacedbazaar.Index.Write.{
  Group, Gio, Io, Done, and_then, call, emit, string_len, text_of, write_string, write_group,
  write_groups, count_eligible, entry_group_is_eligible, bz_write_search_index, index_magic,
  index_version, description_max_len, u32_mod,
}

module _ (gio : Gio) where
  -- The format, written down apart from the writer: a length, then so many bytes.
  abbrev pub field_bytes : Option Text → ℕ → List ℕ
  field_bytes s max_len =
      gio.put_uint32 (string_len s max_len % u32_mod) ++ take (string_len s max_len) (text_of s)

  abbrev pub group_bytes : Group → List ℕ
  group_bytes g =
      field_bytes g.id 0
      ++ (field_bytes g.title 0
          ++ (field_bytes g.developer 0
              ++ (field_bytes g.description description_max_len
                  ++ (field_bytes g.search_tokens 0 ++ field_bytes g.icon_path 0))))

  abbrev pub groups_bytes : List Group → List ℕ
  groups_bytes [] = []
  groups_bytes (g ∷ gs) =
      let rest = groups_bytes gs in
      if entry_group_is_eligible g then group_bytes g ++ rest else rest

  abbrev pub index_bytes : List Group → List ℕ
  index_bytes groups =
      index_magic
      ++ (gio.put_uint32 index_version
          ++ (gio.put_uint32 (count_eligible groups % u32_mod) ++ groups_bytes groups))

  -- A part of the writer that, if it succeeds, adds these bytes, that never touches the index, and
  -- that fails only where a call of GIO fails.
  record Writes (io : Io) (bytes : List ℕ) (d : Done) : Type 0 where
    wrote : d.1 ≡ true → d.0.out ≡ io.out ++ bytes
    kept : d.0.final ≡ io.final
    works : ((n : ℕ) → gio.fails n ≡ false) → d.1 ≡ true

  emit-Writes : (bytes : List ℕ) (io : Io) → Writes io bytes (emit gio bytes io)
  unfolding emit
  emit-Writes bytes io = elim (Bool-cases (gio.fails io.calls)) [
    | inl bad ↦
        rw bad (record {
          wrote = λ e. absurd (cc e);
          kept = refl;
          works = λ h. absurd (cc (h io.calls));
        })
    | inr good ↦ rw good (record { wrote = λ e. refl; kept = refl; works = λ h. refl })
  ]

  and_then-Writes :
      (io : Io) (xs ys : List ℕ) (d : Done) (next : Io → Done)
      → Writes io xs d
      → ((io' : Io) → Writes io' ys (next io'))
      → Writes io (xs ++ ys) (and_then d next)
  and_then-Writes io xs ys (io', false) next w v = record {
    wrote = λ e. absurd (cc e);
    kept = w.kept;
    works = w.works;
  }
  and_then-Writes io xs ys (io', true) next w v = record {
    wrote = λ e. (v io').wrote e ∙ ap (λ zs. zs ++ ys) (w.wrote refl) ∙ append_assoc io.out xs ys;
    kept = (v io').kept ∙ w.kept;
    works = (v io').works;
  }

  nothing-Writes : (io : Io) → Writes io [] (io, true)
  nothing-Writes io = record {
    wrote = λ e. sym (append-nil io.out);
    kept = refl;
    works = λ h. refl;
  }

  write_string-Writes :
      (s : Option Text) (max_len : ℕ) (io : Io)
      → Writes io (field_bytes s max_len) (write_string gio s max_len io)
  unfolding write_string
  write_string-Writes s max_len io =
      and_then-Writes io _ _ _ _ (emit-Writes _ io) (body (string_len s max_len))
    where
      body :
          (len : ℕ) (io' : Io)
          → Writes io'
              (take len (text_of s))
              (if ltb 0 len then emit gio (take len (text_of s)) io' else (io', true))
      body zero io' = nothing-Writes io'
      body (suc len) io' =
          rw (lt→ltb 0 (suc len) (omega arith)) (emit-Writes (take (suc len) (text_of s)) io')

  write_group-Writes : (g : Group) (io : Io) → Writes io (group_bytes g) (write_group gio g io)
  unfolding write_group
  write_group-Writes g io = and_then-Writes io _ _ _ _ (write_string-Writes g.id 0 io) λ io₁.
      and_then-Writes io₁ _ _ _ _ (write_string-Writes g.title 0 io₁) λ io₂.
        and_then-Writes io₂ _ _ _ _ (write_string-Writes g.developer 0 io₂) λ io₃.
          and_then-Writes io₃ _ _ _ _ (write_string-Writes g.description description_max_len io₃)
            λ io₄.
              and_then-Writes io₄ _ _ _ _ (write_string-Writes g.search_tokens 0 io₄)
                λ io₅. write_string-Writes g.icon_path 0 io₅

  write_groups-Writes :
      (gs : List Group) (io : Io) → Writes io (groups_bytes gs) (write_groups gio gs io)
  unfolding write_groups
  write_groups-Writes [] io = nothing-Writes io
  write_groups-Writes (g ∷ gs) io = elim (Bool-cases (entry_group_is_eligible g)) [
    | inl in_index ↦
        rw in_index
          (and_then-Writes io _ _ _ _ (write_group-Writes g io) (λ io'. write_groups-Writes gs io'))
    | inr left_out ↦ rw left_out (write_groups-Writes gs io)
  ]

  -- What stands between the creation of the temporary file and its closing.
  body-Writes :
      (groups : List Group) (io : Io)
      → Writes io (index_bytes groups) (
          and_then (emit gio index_magic io) λ io₃.
            and_then (emit gio (gio.put_uint32 index_version) io₃) λ io₄.
              and_then
                (emit gio (gio.put_uint32 (count_eligible groups % u32_mod)) io₄)
                λ io₅. write_groups gio groups io₅)
  body-Writes groups io = and_then-Writes io _ _ _ _ (emit-Writes index_magic io) λ io₃.
      and_then-Writes io₃ _ _ _ _ (emit-Writes (gio.put_uint32 index_version) io₃)
        λ io₄. and_then-Writes io₄ _ _ _ _ (emit-Writes _ io₄) (write_groups-Writes groups)

  and_then_assoc :
      (d : Done) (f g : Io → Done)
      → and_then (and_then d f) g ≡ and_then d (λ io. and_then (f io) g)
  and_then_assoc (io, true) f g = refl
  and_then_assoc (io, false) f g = refl

  -- How the writer's last two calls, closing and moving, end.
  abbrev close_and_move : Io → Done
  close_and_move io =
      and_then (call gio (λ io'. io') io)
        (λ io'. call gio (λ io''. record io'' { final = some io''.out }) io')

  close_and_move_lem :
      (io : Io)
      → (((close_and_move io).1 ≡ true) × ((close_and_move io).0.final ≡ some io.out))
        ⊎ (((close_and_move io).1 ≡ false) × ((close_and_move io).0.final ≡ io.final))
  unfolding call
  close_and_move_lem io = ground arith

  close_and_move_works : (io : Io) → ((n : ℕ) → gio.fails n ≡ false) → (close_and_move io).1 ≡ true
  unfolding call
  close_and_move_works io h = ground (arith, h io.calls, h (io.calls + 1))

  finish-Writes :
      (io : Io) (bytes : List ℕ) (d : Done)
      → io.out ≡ []
      → Writes io bytes d
      → (((and_then d close_and_move).1 ≡ true)
          × ((and_then d close_and_move).0.final ≡ some bytes))
        ⊎ (((and_then d close_and_move).1 ≡ false)
            × ((and_then d close_and_move).0.final ≡ io.final))
  finish-Writes io bytes (io', false) e w = inr (refl, w.kept)
  finish-Writes io bytes (io', true) e w = elim (close_and_move_lem io') [
    | inl (ok, done) ↦ inl (ok, done ∙ ap some (w.wrote refl ∙ ap (λ zs. zs ++ bytes) e))
    | inr (bad, done) ↦ inr (bad, done ∙ w.kept)
  ]

  writer_lem :
      (groups : List Group) (io : Io)
      → bz_write_search_index gio groups io
        ≡ and_then (call gio (λ io'. record io' { out = [] }) io) (λ io₁.
          and_then
            (and_then (emit gio index_magic io₁) λ io₃.
              and_then (emit gio (gio.put_uint32 index_version) io₃) λ io₄.
                and_then
                  (emit gio (gio.put_uint32 (count_eligible groups % u32_mod)) io₄)
                  λ io₅. write_groups gio groups io₅)
            close_and_move)
  unfolding bz_write_search_index
  writer_lem groups io = simp and_then_assoc

  -- The writer returns true and the index then is exactly the encoding of the eligible groups, or
  -- it returns false and the old index, if there was one, stands as it was; and it returns true
  -- where no call of GIO fails.
  pub bz_write_search_index-atomic :
      (groups : List Group) (io : Io)
      → let d = bz_write_search_index gio groups io in
        (((d.1 ≡ true) × (d.0.final ≡ some (index_bytes groups)))
          ⊎ ((d.1 ≡ false) × (d.0.final ≡ io.final)))
        × (((n : ℕ) → gio.fails n ≡ false) → d.1 ≡ true)
  unfolding call
  bz_write_search_index-atomic groups io =
      rw (writer_lem groups io) (split (Bool-cases (gio.fails io.calls)))
    where
      begin : Done
      begin = call gio (λ io'. record io' { out = [] }) io

      body : Io → Done
      body io₁ = and_then (emit gio index_magic io₁) λ io₃.
          and_then (emit gio (gio.put_uint32 index_version) io₃) λ io₄.
            and_then (emit gio (gio.put_uint32 (count_eligible groups % u32_mod)) io₄)
              λ io₅. write_groups gio groups io₅

      Good : Done → Type 0
      Good d =
          (((d.1 ≡ true) × (d.0.final ≡ some (index_bytes groups)))
            ⊎ ((d.1 ≡ false) × (d.0.final ≡ io.final)))
          × (((n : ℕ) → gio.fails n ≡ false) → d.1 ≡ true)

      works :
          (d : Done)
          → d.1 ≡ true
          → ((n : ℕ) → gio.fails n ≡ false)
          → (and_then d close_and_move).1 ≡ true
      works (io', true) e h = close_and_move_works io' h
      works (io', false) e h = absurd (cc e)

      split :
          (gio.fails io.calls ≡ true) ⊎ (gio.fails io.calls ≡ false)
          → Good (and_then begin (λ io₁. and_then (body io₁) close_and_move))
      split (inl bad) = rw (bad, call) (inr (refl, refl), λ h. absurd (cc (h io.calls)))
      split (inr good) =
          let io₁ : Io = record io { calls = io.calls + 1; out = [] } in
          let w = body-Writes groups io₁ in
          rw (good, call)
            (
              finish-Writes io₁ (index_bytes groups) (body io₁) refl w,
              λ h. works (body io₁) (w.works h) h,
            )
