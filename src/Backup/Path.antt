-- ===== src/Backup/Path.antt =====
-- internal/backup/path.go: object keys. The instant of a backup comes as the texts that `Time.Format`
-- prints; the matcher is a regular expression of package regexp.
pub mod Clean
use kwrt_net_manager.Prelude.{
  ℕ, zero, suc, ◌-◌, Bool, true, false, ◌&&◌, ◌||◌, not, Option, none, some, List, [], ◌∷◌, ◌++◌,
  Str, codes, is_empty, ltb, ◌==◌, if◌then◌else◌, length, drop,
}
use kwrt_net_manager.Go.Strings.{trim_space, has_prefix, trim_prefix, before_byte}

-- The characters that `slug` replaces: separators, control characters and blanks.
abbrev pub is_unsafe : ℕ → Bool
is_unsafe c = c == b'/' || c == b'\\' || ltb c 0x20 || c == 0x7f || c == b' ' || c == 9

-- The loop of `slug`; `last_dash` says whether the text so far ends in a dash of its own.
unfoldable pub slug_loop : Bool → Str → Str
slug_loop last_dash [] = []
slug_loop last_dash (c ∷ s) =
    let dashed = slug_loop true s in
    let plain = slug_loop false s in
    if is_unsafe c then (if last_dash then dashed else b'-' ∷ dashed) else c ∷ plain

-- `strings.Trim` with a set of characters.
unfoldable pub trim_left_set : (ℕ → Bool) → Str → Str
trim_left_set p [] = []
trim_left_set p (c ∷ s) = let rest = trim_left_set p s in if p c then rest else c ∷ s

unfoldable pub trim_right_set : (ℕ → Bool) → Str → Str
trim_right_set p [] = []
trim_right_set p (c ∷ s) = let r = trim_right_set p s in if is_empty r && p c then [] else c ∷ r

unfoldable pub trim_set : (ℕ → Bool) → Str → Str
trim_set p s = trim_right_set p (trim_left_set p s)

abbrev pub or_default : Str → Str
or_default s = if is_empty s then codes "default" else s

unfoldable pub slug : Str → Str
slug name = or_default (trim_set (λ c. c == b'-' || c == b'.') (slug_loop false name))

-- `strings.Contains(k, "//")`
unfoldable pub has_double : Str → Bool
has_double [] = false
has_double (c ∷ []) = false
has_double (c ∷ d ∷ s) = (c == b'/' && d == b'/') || has_double (d ∷ s)

-- `strings.ReplaceAll(k, "//", "/")`
unfoldable pub halve : Str → Str
halve [] = []
halve (c ∷ []) = c ∷ []
halve (c ∷ d ∷ s) =
    let pair = halve s in
    let one = halve (d ∷ s) in if c == b'/' && d == b'/' then b'/' ∷ pair else c ∷ one

-- The loop of `cleanKey`; a round that changes the text makes it shorter.
unfoldable pub clean_loop : ℕ → Str → Str
clean_loop zero k = k
clean_loop (suc fuel) k = let more = clean_loop fuel (halve k) in if has_double k then more else k

unfoldable pub clean_key : Str → Str
clean_key k = trim_prefix (clean_loop (length k) k) (codes "/")

unfoldable pub join_key : Str → Str → Str
join_key prefix key =
    let p = trim_set (λ c. c == b'/') (trim_space prefix) in
    let k = clean_key key in
    if is_empty p then k else if is_empty k then p else clean_key (p ++ (b'/' ∷ k))

-- The first pair whose old text begins a text.
unfoldable pub find_pair : List (Str × Str) → Str → Option (Str × Str)
find_pair [] s = none
find_pair ((old, new) ∷ ps) s =
    let rest = find_pair ps s in if has_prefix s old then some (old, new) else rest

-- `strings.NewReplacer(…).Replace`: at each place the first pair that fits; `skip` characters belong
-- to an old text that was replaced.
unfoldable pub replace_loop : List (Str × Str) → ℕ → Str → Str
replace_loop ps skip [] = []
replace_loop ps (suc skip) (c ∷ s) = replace_loop ps skip s
replace_loop ps zero (c ∷ s) = elim (find_pair ps (c ∷ s)) [
  | none ↦ c ∷ replace_loop ps zero s
  | some (old, new) ↦ new ++ replace_loop ps (length old - 1) s
]

-- What `Time.Format` prints of an instant.
pub record Stamp : Type 0 where
  pub year : Str
  pub month : Str
  pub day : Str
  pub date : Str
  pub time : Str
  pub datetime : Str

abbrev pub stable_pairs : Str → Str → List (Str × Str)
stable_pairs schedule_name host =
    (codes "{schedule}", slug schedule_name) ∷ (codes "{host}", slug host) ∷ []

abbrev pub time_pairs : Stamp → List (Str × Str)
time_pairs t =
    (codes "{year}", t.year)
    ∷ (codes "{YYYY}", t.year)
    ∷ (codes "{month}", t.month)
    ∷ (codes "{MM}", t.month)
    ∷ (codes "{day}", t.day)
    ∷ (codes "{DD}", t.day)
    ∷ (codes "{date}", t.date)
    ∷ (codes "{time}", t.time)
    ∷ (codes "{datetime}", t.datetime)
    ∷ (codes "{ts}", t.datetime)
    ∷ []

unfoldable pub render_path : Str → Str → Str → Stamp → Str
render_path template schedule_name host t =
    clean_key (replace_loop (stable_pairs schedule_name host ++ time_pairs t) 0 template)

abbrev pub time_tokens : List Str
time_tokens =
    codes "{year}"
    ∷ codes "{YYYY}"
    ∷ codes "{month}"
    ∷ codes "{MM}"
    ∷ codes "{day}"
    ∷ codes "{DD}"
    ∷ codes "{date}"
    ∷ codes "{time}"
    ∷ codes "{datetime}"
    ∷ codes "{ts}"
    ∷ []

-- The loop that puts a zero byte in the place of each time token.
unfoldable pub mark_times : List Str → Str → Str
mark_times [] s = s
mark_times (token ∷ tokens) s = mark_times tokens (replace_loop ((token, 0 ∷ []) ∷ []) 0 s)

-- `s[:strings.LastIndexByte(s, '/')+1]`, `none` without a slash
unfoldable pub up_to_slash : Str → Option Str
up_to_slash [] = none
up_to_slash (c ∷ s) = elim (up_to_slash s) [
  | some t ↦ some (c ∷ t)
  | none ↦ if c == b'/' then some (c ∷ []) else none
]

abbrev pub clean_prefix : Option Str → Str
clean_prefix none = []
clean_prefix (some p) = clean_key p

unfoldable pub retention_prefix : Str → Str → Str → Str
retention_prefix template schedule_name host = clean_prefix (
    up_to_slash (
      before_byte 0
        (mark_times time_tokens (replace_loop (stable_pairs schedule_name host) 0 template))))
