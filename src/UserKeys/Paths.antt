-- ===== src/UserKeys/Paths.antt =====
-- FsCrypt.cpp: the paths of the CE keys of a user.
use platform_system_vold.Base.{
  ℕ, zero, suc, ◌+◌, ◌-◌, Bool, true, false, ◌&&◌, ◌||◌, List, [], ◌∷◌, ◌++◌, Option, none, some,
  if◌then◌else◌, ◌==◌, ltb, length, Text, codes, print_ℕ,
}

-- `std::string::operator<`.
unfoldable pub text_lt : Text → Text → Bool
text_lt [] [] = false
text_lt [] (y ∷ ys) = true
text_lt (x ∷ xs) [] = false
text_lt (x ∷ xs) (y ∷ ys) = ltb x y || (x == y && text_lt xs ys)

-- An entry of a directory, as readdir(3) gives it.
pub record Entry : Type 0 where
  pub is_dir : Bool
  pub d_name : Text

abbrev pub user_key_dir : Text
user_key_dir = codes "/data/misc/vold/user_keys"

abbrev pub user_key_temp : Text
user_key_temp = user_key_dir ++ codes "/temp"

abbrev pub starts_with_c : Text → Bool
starts_with_c [] = false
starts_with_c (c ∷ s) = c == b'c'

-- The paths of the keys among the entries, in the order of the directory.
unfoldable pub key_paths : Text → List Entry → List Text
key_paths directory_path [] = []
key_paths directory_path (e ∷ es) =
    let rest = key_paths directory_path es in
    if e.is_dir && starts_with_c e.d_name
    then (directory_path ++ (b'/' ∷ e.d_name)) ∷ rest
    else rest

unfoldable pub put_newest : Text → List Text → List Text
unfolding text_lt
put_newest x [] = x ∷ []
put_newest x (y ∷ ys) = let rest = put_newest x ys in if text_lt y x then x ∷ y ∷ ys else y ∷ rest

-- Sorted and reversed.
unfoldable pub newest_first : List Text → List Text
unfolding put_newest
newest_first [] = []
newest_first (x ∷ xs) = put_newest x (newest_first xs)

-- `get_ce_key_paths`. A directory that cannot be read counts as empty.
unfoldable pub get_ce_key_paths : Text → Option (List Entry) → List Text
unfolding newest_first key_paths
get_ce_key_paths directory_path none = []
get_ce_key_paths directory_path (some es) = newest_first (key_paths directory_path es)

abbrev pub get_ce_key_current_path : Text → Text
get_ce_key_current_path directory_path = directory_path ++ codes "/current"

abbrev zeros_before : ℕ → Text → Text
zeros_before zero s = s
zeros_before (suc n) s = b'0' ∷ zeros_before n s

-- The number in ten digits or more.
abbrev pub ten_digits : ℕ → Text
ten_digits n = zeros_before (10 - length (print_ℕ n)) (print_ℕ n)

unfoldable pub candidate : Text → ℕ → Text
unfolding print_ℕ
candidate directory_path i = directory_path ++ (codes "/cx" ++ ten_digits i)

-- The first candidate, from number `i` on, that is behind the path. The source counts the rounds.
unfoldable pub find_candidate : (rounds i : ℕ) → Text → Text → Option Text
unfolding candidate text_lt
find_candidate zero i directory_path newest = none
find_candidate (suc rounds) i directory_path newest =
    elim (text_lt newest (candidate directory_path i)) [
      | true ↦ some (candidate directory_path i)
      | false ↦ find_candidate rounds (i + 1) directory_path newest
    ]

abbrev pub uint_max : ℕ
uint_max = 4294967295

-- `get_ce_key_new_path`.
unfoldable pub get_ce_key_new_path : Text → List Text → Option Text
unfolding find_candidate
get_ce_key_new_path directory_path [] = some (get_ce_key_current_path directory_path)
get_ce_key_new_path directory_path (p ∷ ps) = find_candidate uint_max 0 directory_path p
