-- ===== src/Backup/Retention.antt =====
-- internal/backup/scheduler.go, `applyRetention`: which of the stored backups are deleted. The listing
-- and the matcher come from outside; `sort.Slice` is a sort by insertion, since the order is total.
pub mod Laws
use kwrt_net_manager.Prelude.{
  ℕ, ◌-◌, Bool, true, false, ◌&&◌, ◌||◌, Option, none, some, List, [], ◌∷◌, map, Str, is_empty, ℤ,
  pos, negsuc, leb, ltb, ◌==◌, if◌then◌else◌, length, take,
}

-- internal/backup/uploader.go; `modified` counts from the earliest instant.
pub record Object : Type 0 where
  pub key : Str
  pub size : ℕ
  pub modified : ℕ

-- `a < b` on strings
unfoldable pub str_lt : Str → Str → Bool
str_lt [] [] = false
str_lt [] (d ∷ t) = true
str_lt (c ∷ s) [] = false
str_lt (c ∷ s) (d ∷ t) = ltb c d || (c == d && str_lt s t)

-- The comparison of the sort.
unfoldable pub older : Object → Object → Bool
older a b = if a.modified == b.modified then str_lt a.key b.key else ltb a.modified b.modified

unfoldable pub insert_object : Object → List Object → List Object
insert_object x [] = x ∷ []
insert_object x (y ∷ ys) =
    let rest = insert_object x ys in if older x y then x ∷ y ∷ ys else y ∷ rest

unfoldable pub sort_objects : List Object → List Object
sort_objects [] = []
sort_objects (x ∷ xs) = insert_object x (sort_objects xs)

-- The loop that keeps what the matcher accepts.
unfoldable pub matching : (Str → Bool) → List Object → List Object
matching matches [] = []
matching matches (o ∷ os) =
    let rest = matching matches os in if matches o.key then o ∷ rest else rest

-- `mine[:len(mine)-sched.Retention]` of the sorted list, and nothing when there are not more.
unfoldable pub expired : ℕ → List Object → List Object
expired keep mine =
    if leb (length mine) keep then [] else take (length mine - keep) (sort_objects mine)

abbrev pub of_listing : ℕ → (Str → Bool) → Option (List Object) → List Object
of_listing keep matches none = []
of_listing keep matches (some objs) = expired keep (matching matches objs)

abbrev pub with_matcher : ℕ → Str → Option (Str → Bool) → (Str → Option (List Object)) → List Object
with_matcher keep prefix none list = []
with_matcher keep prefix (some matches) list = of_listing keep matches (list prefix)

-- The objects that `Delete` is called for, in order: no limit, no stable prefix, no matcher or no
-- listing means none. `list prefix` is what the channel lists, `none` for an error.
unfoldable pub apply_retention :
    ℤ → Str → Option (Str → Bool) → (Str → Option (List Object)) → List Object
apply_retention (negsuc n) prefix matcher list = []
apply_retention (pos keep) prefix matcher list =
    if keep == 0 then [] else if is_empty prefix then [] else with_matcher keep prefix matcher list
