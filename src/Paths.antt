-- ===== src/Paths.antt =====
-- src/internal/http.ts: the path that detection matches against, and the bound on a query's
-- parameters. Texts are lists of UTF-16 code units.
use hackerpot.Common.{
  ℕ, zero, suc, ◌-◌, Bool, true, false, ◌&&◌, ◌||◌, not, Option, none, some, List, [], ◌∷◌, ◌++◌,
  ltb, leb, ◌==◌, if◌then◌else◌, or_else, length, take, map, tail, reverse, String,
}
pub mod Resolved

abbrev pub slash : ℕ
slash = 47

abbrev pub backslash : ℕ
backslash = 92

abbrev pub dot : ℕ
dot = 46

abbrev pub max_query_params : ℕ
max_query_params = 256

-- The first parameters of a query, and how many were left out.
unfoldable pub bounded_query : List (String × String) → List (String × String) × ℕ
bounded_query query =
    if leb (length query) max_query_params
    then (query, 0)
    else (take max_query_params query, length query - max_query_params)

abbrev pub is_letter : ℕ → Bool
is_letter c = (leb 97 c && leb c 122) || (leb 65 c && leb c 90)

abbrev pub is_scheme : ℕ → Bool
is_scheme c = is_letter c || (leb 48 c && leb c 57) || c == 43 || c == 46 || c == 45

abbrev pub starts_slashes : List ℕ → Bool
starts_slashes (a ∷ b ∷ cs) = a == slash && b == slash
starts_slashes (a ∷ []) = false
starts_slashes [] = false

-- The rest of `ABSOLUTE_FORM` after the first letter: scheme characters, then `://`.
unfoldable pub scheme_ends : List ℕ → Bool
scheme_ends [] = false
scheme_ends (c ∷ cs) =
    let rest = scheme_ends cs in
    if c == 58 then starts_slashes cs else if is_scheme c then rest else false

unfoldable pub is_absolute_form : List ℕ → Bool
unfolding scheme_ends
is_absolute_form [] = false
is_absolute_form (c ∷ cs) = if is_letter c then scheme_ends cs else false

abbrev pub forward : ℕ → ℕ
forward c = if c == backslash then slash else c

-- `/\/{2,}/g` replaced by one slash.
unfoldable pub collapse : List ℕ → List ℕ
collapse [] = []
collapse (c ∷ cs) = let rest = collapse cs in if starts_slashes (c ∷ cs) then rest else c ∷ rest

abbrev pub lead : List ℕ → List ℕ
lead [] = slash ∷ []
lead (c ∷ cs) = if c == slash then c ∷ cs else slash ∷ c ∷ cs

abbrev pub starts_dot : List ℕ → Bool
starts_dot [] = false
starts_dot (c ∷ cs) = c == dot

-- `path.includes("/.")`.
unfoldable pub has_dot_segment : List ℕ → Bool
has_dot_segment [] = false
has_dot_segment (c ∷ cs) = (c == slash && starts_dot cs) || has_dot_segment cs

abbrev pub onto_first : ℕ → List (List ℕ) → List (List ℕ)
onto_first c [] = (c ∷ []) ∷ []
onto_first c (s ∷ ss) = (c ∷ s) ∷ ss

-- `path.split("/")`.
unfoldable pub split : List ℕ → List (List ℕ)
split [] = [] ∷ []
split (c ∷ cs) = let rest = split cs in if c == slash then [] ∷ rest else onto_first c rest

abbrev pub is_here : List ℕ → Bool
is_here [] = true
is_here (c ∷ []) = c == dot
is_here (c ∷ d ∷ cs) = false

abbrev pub is_up : List ℕ → Bool
is_up [] = false
is_up (c ∷ []) = false
is_up (c ∷ d ∷ []) = c == dot && d == dot
is_up (c ∷ d ∷ e ∷ cs) = false

-- The loop over the segments; `resolved` has its last segment first.
unfoldable pub resolve : List (List ℕ) → List (List ℕ) → List (List ℕ)
resolve [] resolved = resolved
resolve (s ∷ ss) resolved =
    resolve ss (if is_here s then resolved else if is_up s then tail resolved else s ∷ resolved)

-- `"/" + resolved.join("/")` where something is left, and the empty join where nothing is.
unfoldable pub join_segments : List (List ℕ) → List ℕ
join_segments [] = []
join_segments (s ∷ []) = s
join_segments (s ∷ t ∷ ss) = s ++ slash ∷ join_segments (t ∷ ss)

unfoldable pub resolve_path : List ℕ → List ℕ
unfolding split resolve join_segments
resolve_path path =
    if has_dot_segment path then slash ∷ join_segments (reverse (resolve (split path) [])) else path

-- The last character of a text longer than one, where it is a slash, is dropped.
unfoldable pub drop_slash : List ℕ → List ℕ
drop_slash [] = []
drop_slash (c ∷ []) = if c == slash then [] else c ∷ []
drop_slash (c ∷ d ∷ cs) = c ∷ drop_slash (d ∷ cs)

abbrev pub strip : List ℕ → List ℕ
strip [] = []
strip (c ∷ cs) = c ∷ drop_slash cs

-- `decode` is `decodeURIComponent`, `none` where it throws.
unfoldable pub normalize_path : (List ℕ → Option (List ℕ)) → List ℕ → List ℕ
normalize_path decode raw =
    if is_absolute_form raw
    then raw
    else strip (resolve_path (lead (collapse (map forward (or_else (decode raw) raw)))))
