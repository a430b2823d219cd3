-- ===== src/UserKeys/Users.antt =====
-- FsCrypt.cpp: the state of the process about users, and what is outside of it.
use platform_system_vold.Base.{
  ℕ, Bool, List, [], ◌∷◌, Option, none, some, if◌then◌else◌, ◌==◌, Text, text_eq,
}
use platform_system_vold.Keys.Act.{Act, is_some}
use platform_system_vold.Keys.World.{System, World, KeyAuthentication}
use platform_system_vold.Keys.Install.{EncryptionOptions, EncryptionPolicy, Kernel}
use platform_system_vold.UserKeys.Paths.{Entry, text_lt}

-- The outside: `readdir` gives the entries of a directory, where it can be read.
pub record Fbe : Type 0 where
  pub sys : System
  pub kernel : Kernel
  pub is_fbe_enabled : Bool
  pub readdir : (call : ℕ) → (path : Text) → World → Option (List Entry)

-- The state: the keys on disk and the variables of the process. `s_data_options` is there once it
-- is initialized; of the policies of a user, the internal one.
pub record Users : Type 0 where
  pub world : World
  pub data_options : Option EncryptionOptions
  pub ephemeral_users : List ℕ
  pub new_ce_keys : List (ℕ × Text)
  pub deferred_fixations : List (Text × Text)
  pub ce_policies : List (ℕ × EncryptionPolicy)

module _ {A : Type 0} where
  abbrev pub find_user : ℕ → List (ℕ × A) → Option A
  find_user user [] = none
  find_user user ((u, a) ∷ m) = if u == user then some a else find_user user m

  abbrev pub erase_user : ℕ → List (ℕ × A) → List (ℕ × A)
  erase_user user [] = []
  erase_user user ((u, a) ∷ m) =
      let rest = erase_user user m in if u == user then rest else (u, a) ∷ rest

  -- `std::map::insert`, which keeps what is there.
  abbrev pub insert_user : ℕ → A → List (ℕ × A) → List (ℕ × A)
  insert_user user a m = if is_some (find_user user m) then m else (user, a) ∷ m

  abbrev pub assign_user : ℕ → A → List (ℕ × A) → List (ℕ × A)
  assign_user user a m = (user, a) ∷ erase_user user m

-- `s_deferred_fixations`, by ascending directory.
abbrev pub find_path : Text → List (Text × Text) → Option Text
find_path path [] = none
find_path path ((p, q) ∷ m) = if text_eq p path then some q else find_path path m

abbrev pub erase_path : Text → List (Text × Text) → List (Text × Text)
erase_path path [] = []
erase_path path ((p, q) ∷ m) =
    let rest = erase_path path m in if text_eq p path then rest else (p, q) ∷ rest

unfoldable pub assign_path : Text → Text → List (Text × Text) → List (Text × Text)
assign_path path q [] = (path, q) ∷ []
assign_path path q ((p, r) ∷ m) =
    let rest = assign_path path q m in
    if text_eq p path
    then (path, q) ∷ m
    else if text_lt path p
    then (path, q) ∷ (p, r) ∷ m
    else (p, r) ∷ rest

module _ {A : Type 0} where
  -- A call of KeyStorage.cpp or KeyUtil.cpp.
  unfoldable pub on_disk : Act World A → Act Users A
  on_disk m u = let (r, w) = m u.world in (r, record u { world = w })

  -- The call with its result, which the caller tests.
  unfoldable pub attempt : Act Users A → Act Users (Option A)
  attempt m u = let (r, v) = m u in (some r, v)

abbrev pub empty_authentication : KeyAuthentication
empty_authentication = record { secret = [] }
