-- ===== src/Core/Config/Editor.antt =====
-- serverwall-core/src/config/editor.rs: the operations on the lists of a configuration that
-- config/loader.rs reads. The file is its content; printing TOML is a parameter, and the file is
-- taken to be written (config/writer.rs).
pub mod Operations
pub mod Saved
pub mod RoundTrip
pub mod Reloading
use serverwall.Base.{
  ℕ, ◌≡◌, refl, List, [], ◌∷◌, ◌++◌, Option, none, some, Bool, true, false, if◌then◌else◌, not, any,
  retain, length, ◌==◌, Text, text_eq,
}
use serverwall.Core.Config.{
  FrontendConfig, BackendPoolConfig, ScannerConfig, ServerWallConfig, ConfigError, Loaded, ok, err,
  validate_config, load_config,
}

pub data EditError : Type 0 where
  already_exists : Text → EditError
  not_found : Text → EditError
  invalid : ConfigError → EditError

pub data Change (C : Type 0) : Type 0 where
  changed : C → Change C
  refused : EditError → Change C

abbrev pub map_change : {A C : Type 0} → (A → C) → Change A → Change C
map_change f (changed a) = changed (f a)
map_change f (refused e) = refused e

-- A record with a name of its own, which `frontend.name = name` overwrites.
pub record Named (A : Type 0) : Type 0 where
  pub name : A → Text
  pub rename : Text → A → A
  pub name-rename : (n : Text) (a : A) → name (rename n a) ≡ n

abbrev pub frontends : Named FrontendConfig
frontends = record {
  name = λ f. f.name;
  rename = λ n f. record f { name = n };
  name-rename = λ n f. refl;
}

abbrev pub pools : {B : Type 0} → Named (BackendPoolConfig B)
pools = record {
  name = λ p. p.name;
  rename = λ n p. record p { name = n };
  name-rename = λ n p. refl;
}

abbrev pub scanners : Named ScannerConfig
scanners = record {
  name = λ s. s.name;
  rename = λ n s. record s { name = n };
  name-rename = λ n s. refl;
}

abbrev pub hosts : Named Text
hosts = record { name = λ h. h; rename = λ n h. n; name-rename = λ n h. refl }

module _ {A : Type 0} (n : Named A) where
  unfoldable pub add_named : A → List A → Change (List A)
  add_named x xs =
      if any (λ y. text_eq (n.name y) (n.name x)) xs
      then refused (already_exists (n.name x))
      else changed (xs ++ (x ∷ []))

  unfoldable pub remove_named : Text → List A → Change (List A)
  remove_named name xs =
      let kept = retain (λ y. not (text_eq (n.name y) name)) xs in
      if length kept == length xs then refused (not_found name) else changed kept

  unfoldable pub update_named : Text → A → List A → Change (List A)
  update_named name x [] = refused (not_found name)
  update_named name x (y ∷ ys) =
      let later = update_named name x ys in
      if text_eq (n.name y) name
      then changed (n.rename name x ∷ ys)
      else map_change (λ zs. y ∷ zs) later

-- The first pool of the name, with a change of its backends.
unfoldable pub on_pool :
    {B : Type 0}
    → (List B → Change (List B))
    → Text
    → List (BackendPoolConfig B)
    → Change (List (BackendPoolConfig B))
on_pool f name [] = refused (not_found name)
on_pool {B} f name (p ∷ ps) =
    let later = on_pool f name ps in
    if text_eq p.name name
    then map_change (λ (bs : List B). record p { backend = bs } ∷ ps) (f p.backend)
    else map_change (λ (qs : List (BackendPoolConfig B)). p ∷ qs) later

module _ {B W O D Net : Type 0} (parse_network : Text → Option Net)
    (parse : Text → Option (ServerWallConfig B W O D))
    (drop_ins : ServerWallConfig B W O D → List (Option Text))
    (print : ServerWallConfig B W O D → Text) where
  stored : ServerWallConfig B W O D → Option ConfigError → Change Text
  stored c none = changed (print c)
  stored c (some e) = refused (invalid e)

  saved : Change (ServerWallConfig B W O D) → Change Text
  unfolding stored
  saved (changed c) = stored c (validate_config parse_network c)
  saved (refused e) = refused e

  edited :
      (ServerWallConfig B W O D → Change (ServerWallConfig B W O D))
      → Loaded (ServerWallConfig B W O D)
      → Change Text
  unfolding saved
  edited change (ok c) = saved (change c)
  edited change (err e) = refused (invalid e)

  -- What every operation does around its change: load, validate, write. The new content of the file.
  unfoldable pub edit :
      (ServerWallConfig B W O D → Change (ServerWallConfig B W O D)) → Option Text → Change Text
  unfolding edited
  edit change file = edited change (load_config parse_network parse drop_ins file)
