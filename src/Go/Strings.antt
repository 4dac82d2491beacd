-- ===== src/Go/Strings.antt =====
-- The functions of package strings on the texts that the program gives them.
pub mod Trim
use kwrt_net_manager.Prelude.{
  ℕ, ◌-◌, ◌≡◌, refl, Bool, true, false, ◌&&◌, ◌||◌, not, Option, none, some, List, [], ◌∷◌, map,
  arith, Str, str_eq, is_empty, leb, ◌==◌, if◌then◌else◌, All, drop, length,
}

-- `unicode.IsSpace`
unfoldable pub is_space : ℕ → Bool
is_space c =
    (leb 9 c && leb c 13)
    || c == 32
    || c == 0x85
    || c == 0xA0
    || c == 0x1680
    || (leb 0x2000 c && leb c 0x200A)
    || c == 0x2028
    || c == 0x2029
    || c == 0x202F
    || c == 0x205F
    || c == 0x3000

unfoldable pub trim_left : Str → Str
trim_left [] = []
trim_left (c ∷ s) = let rest = trim_left s in if is_space c then rest else c ∷ s

unfoldable pub trim_right : Str → Str
trim_right [] = []
trim_right (c ∷ s) = let r = trim_right s in if is_empty r && is_space c then [] else c ∷ r

unfoldable pub trim_space : Str → Str
trim_space s = trim_right (trim_left s)

-- A text with no white space.
abbrev pub HasNoSpace : Str → Type 0
HasNoSpace = All (λ c. is_space c ≡ false)

trim_left_lem : (s : Str) → HasNoSpace s → trim_left s ≡ s
unfolding trim_left
trim_left_lem [] h = refl
trim_left_lem (c ∷ s) h = ground arith

trim_right_lem : (s : Str) → HasNoSpace s → trim_right s ≡ s
unfolding trim_right
trim_right_lem [] h = refl
trim_right_lem (c ∷ s) h = ground (arith, trim_right_lem s h.1)

pub trim_space_lem : (s : Str) → HasNoSpace s → trim_space s ≡ s
unfolding trim_space
trim_space_lem s h = rw (trim_left_lem s h, trim_right_lem s h)

-- Cut at the first occurrence of a byte: the parts before and behind it.
unfoldable pub cut_byte : ℕ → Str → Option (Str × Str)
cut_byte b [] = none
cut_byte b (c ∷ s) =
    let rest = cut_byte b s in
    if c == b then some ([], s) else elim rest [ none ↦ none | some (x, y) ↦ some (c ∷ x, y) ]

-- `strings.ReplaceAll(s, old, new)` for texts of one character.
unfoldable pub replace_all : ℕ → ℕ → Str → Str
replace_all old new = map (λ c. if c == old then new else c)

-- Whether a word goes on or begins at the head of a text.
in_word : Str → Bool
unfolding is_space
in_word [] = false
in_word (c ∷ _) = not (is_space c)

join_char : ℕ → List Str → List Str
join_char c [] = (c ∷ []) ∷ []
join_char c (w ∷ ws) = (c ∷ w) ∷ ws

-- `strings.Fields`: the runs of characters that are no white space.
unfoldable pub fields : Str → List Str
unfolding in_word join_char
fields [] = []
fields (c ∷ s) =
    let ws = fields s in
    if is_space c then ws else if in_word s then join_char c ws else (c ∷ []) ∷ ws

-- ASCII case mapping.
unfoldable pub upper : ℕ → ℕ
upper c = if leb 97 c && leb c 122 then c - 32 else c

unfoldable pub to_upper : Str → Str
to_upper = map upper

-- `strings.EqualFold` where one of the texts is a normalized MAC address: no letter outside ASCII
-- folds to one of `A` to `F`, so ASCII case mapping decides.
unfoldable pub equal_fold : Str → Str → Bool
equal_fold s t = str_eq (to_upper s) (to_upper t)

-- `strings.HasPrefix`
unfoldable pub has_prefix : Str → Str → Bool
has_prefix s [] = true
has_prefix [] (p ∷ ps) = false
has_prefix (c ∷ s) (p ∷ ps) = c == p && has_prefix s ps

-- `strings.TrimPrefix`
unfoldable pub trim_prefix : Str → Str → Str
unfolding has_prefix
trim_prefix s prefix = if has_prefix s prefix then drop (length prefix) s else s

-- `strings.SplitN(s, c, 2)[0]` for a text `c` of one character
unfoldable pub before_byte : ℕ → Str → Str
unfolding cut_byte
before_byte b s = elim (cut_byte b s) [ none ↦ s | some (x, y) ↦ x ]

-- `strings.ReplaceAll(s, c, "")` for a text `c` of one character
unfoldable pub remove_all : ℕ → Str → Str
remove_all b [] = []
remove_all b (c ∷ s) = let rest = remove_all b s in if c == b then rest else c ∷ rest

-- `strings.FieldsFunc`: the runs of characters that are no separators.
unfoldable pub fields_func : (ℕ → Bool) → Str → List Str
unfolding join_char
fields_func sep [] = []
fields_func sep (c ∷ s) =
    let ws = fields_func sep s in
    if sep c then ws else if goes_on s then join_char c ws else (c ∷ []) ∷ ws
  where
    goes_on : Str → Bool
    goes_on [] = false
    goes_on (d ∷ _) = not (sep d)

-- The test of all characters that a loop over a text makes.
unfoldable pub all_chars : (ℕ → Bool) → Str → Bool
all_chars ok [] = true
all_chars ok (c ∷ s) = ok c && all_chars ok s
