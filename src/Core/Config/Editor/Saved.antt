-- ===== src/Core/Config/Editor/Saved.antt =====
-- config/editor.rs: what an operation that succeeds has written, and whether it loads again.
use serverwall.Base.{
  ◌≡◌, refl, sym, ap, ◌∙◌, List, [], ◌∷◌, ◌++◌, Option, none, some, true, Text, text_eq,
  text_eq_iff, text_eq_refl, Bool-cases, inl, inr, contains_text, map, arith,
}
use serverwall.Core.Config.{
  FrontendConfig, ServerWallConfig, ConfigError, Loaded, ok, err, frontend_names, validate_config,
  merge_config, merge_parsed, merge_files, validated, with_drop_ins, parse_read, checked,
  load_config,
}
use serverwall.Core.Config.Checks.{Distinct}
use serverwall.Core.Config.Validity.{IsValid, validate_config-IsValid, load_config-IsValid}
use serverwall.Core.Config.Editor.{Change, changed, refused, stored, saved, edited, edit}

abbrev names : List FrontendConfig → List Text
names = map (λ (f : FrontendConfig). f.name)

names-append : (xs ys : List FrontendConfig) → names (xs ++ ys) ≡ names xs ++ names ys
names-append [] ys = refl
names-append (x ∷ xs) ys = ap (◌∷◌ x.name) (names-append xs ys)

contains-append :
    (xs : List Text) (y : Text) (ys : List Text) → contains_text (xs ++ (y ∷ ys)) y ≡ true
contains-append [] y ys = rw (text_eq_refl y)
contains-append (x ∷ xs) y ys = ground (arith, contains-append xs y ys)

-- A name that comes again is not distinct from the others.
twice :
    (xs : List Text) (y : Text) (ys : List Text)
    → contains_text xs y ≡ true
    → ¬ Distinct (xs ++ (y ∷ ys))
twice [] y ys h d = absurd (cc)
twice (x ∷ xs) y ys h (fresh, d) = elim (Bool-cases (text_eq y x)) [
  | inl e ↦
      let same : y ≡ x = (text_eq_iff y x).0 e in
      absurd (cc (fresh, rw same at (contains-append xs y ys)))
  | inr e ↦ twice xs y ys (ground (arith, e)) d
]

module _ {B W O D Net : Type 0} (parse_network : Text → Option Net)
    (parse : Text → Option (ServerWallConfig B W O D))
    (drop_ins : ServerWallConfig B W O D → List (Option Text))
    (print : ServerWallConfig B W O D → Text) where
  stored-changed :
      (c : ServerWallConfig B W O D) (o : Option ConfigError) (s : Text)
      → stored parse_network parse drop_ins print c o ≡ changed s
      → (o ≡ none) × (s ≡ print c)
  unfolding stored
  stored-changed c none s h = (refl, ground arith)
  stored-changed c (some e) s h = absurd (cc)

  saved-changed :
      (r : Change (ServerWallConfig B W O D)) (s : Text)
      → saved parse_network parse drop_ins print r ≡ changed s
      → (c : ServerWallConfig B W O D) × (r ≡ changed c)
        × (validate_config parse_network c ≡ none)
        × (s ≡ print c)
  unfolding saved
  saved-changed (changed c) s h = let (valid, e) = stored-changed c _ s h in (c, refl, valid, e)
  saved-changed (refused e) s h = absurd (cc)

  edited-changed :
      (change : ServerWallConfig B W O D → Change (ServerWallConfig B W O D))
      (l : Loaded (ServerWallConfig B W O D)) (s : Text)
      → edited parse_network parse drop_ins print change l ≡ changed s
      → (c d : ServerWallConfig B W O D) × (l ≡ ok c)
        × (change c ≡ changed d)
        × (validate_config parse_network d ≡ none)
        × (s ≡ print d)
  unfolding edited
  edited-changed change (err e) s h = absurd (cc)
  edited-changed change (ok c) s h =
      let (d, made, valid, e) = saved-changed (change c) s h in (c, d, refl, made, valid, e)

  -- An operation that succeeds has changed the configuration that was loaded, and has written a valid
  -- one.
  pub edit-IsValid :
      (change : ServerWallConfig B W O D → Change (ServerWallConfig B W O D)) (file : Option Text)
      (s : Text)
      → edit parse_network parse drop_ins print change file ≡ changed s
      → (c d : ServerWallConfig B W O D) × (load_config parse_network parse drop_ins file ≡ ok c)
        × (change c ≡ changed d)
        × IsValid parse_network d
        × (s ≡ print d)
  unfolding edit
  edit-IsValid change file s h =
      let (c, d, loaded, made, valid, e) = edited-changed change _ s h in
      (c, d, loaded, made, (validate_config-IsValid parse_network d).0 valid, e)

  checked-merged :
      (c d : ServerWallConfig B W O D) (o : Option ConfigError) → checked c o ≡ ok d → c ≡ d
  unfolding checked
  checked-merged c d none h = ground arith
  checked-merged c d (some e) h = absurd (cc)

  -- With one file in the drop-in directory, what is loaded is the file with that one merged in.
  load_merged :
      (t : Text) (fragment c : ServerWallConfig B W O D) (o : Option (ServerWallConfig B W O D))
      → ((d : ServerWallConfig B W O D) → drop_ins d ≡ some t ∷ [])
      → parse t ≡ some fragment
      → validated parse_network parse drop_ins (with_drop_ins parse_network parse drop_ins o) ≡ ok c
      → (base : ServerWallConfig B W O D) × (o ≡ some base) × (merge_config base fragment ≡ c)
  unfolding validated with_drop_ins merge_files parse_read merge_parsed
  load_merged t fragment c none one read h = absurd (cc)
  load_merged t fragment c (some base) one read h =
      (base, refl, checked-merged (merge_config base fragment) c _ (rw (one base, read) at h))

  module _ (t : Text) (fragment : ServerWallConfig B W O D) (f : FrontendConfig)
      (fs : List FrontendConfig) (c : ServerWallConfig B W O D) where
    merged_names :
        (base : ServerWallConfig B W O D)
        → fragment.frontend ≡ f ∷ fs
        → merge_config base fragment ≡ c
        → frontend_names c ≡ frontend_names base ++ (f.name ∷ names fs)
    unfolding merge_config
    merged_names base has e =
        ap (λ (x : ServerWallConfig B W O D). frontend_names x) (sym e)
        ∙ ap (λ xs. names (base.frontend ++ xs)) has
        ∙ names-append base.frontend (f ∷ fs)

  not_reloaded :
      (t : Text) (fragment : ServerWallConfig B W O D) (f : FrontendConfig)
      (fs : List FrontendConfig) (d : ServerWallConfig B W O D)
      (l : Loaded (ServerWallConfig B W O D))
      → ((x : ServerWallConfig B W O D) → drop_ins x ≡ some t ∷ [])
      → parse t ≡ some fragment
      → fragment.frontend ≡ f ∷ fs
      → parse (print d) ≡ some d
      → contains_text (frontend_names d) f.name ≡ true
      → load_config parse_network parse drop_ins (some (print d)) ≡ l
      → (e : ConfigError) × (l ≡ err e)
  unfolding load_config parse_read
  not_reloaded t fragment f fs d (err e) one read has back named h = (e, refl)
  not_reloaded t fragment f fs d (ok x) one read has back named h =
      let (base, same, merged) = load_merged t fragment x (parse (print d)) one read h in
      let first : base ≡ d = ground (arith, back) in
      let valid = load_config-IsValid parse_network parse drop_ins (some (print d)) x h in
      let all : frontend_names x ≡ frontend_names d ++ (f.name ∷ names fs) =
        rw first at (merged_names t fragment f fs x base has merged) in
      absurd (twice (frontend_names d) f.name (names fs) named (rw all at valid.frontend_distinct))

  from_load :
      (t : Text) (fragment c : ServerWallConfig B W O D) (file : Option Text)
      → ((d : ServerWallConfig B W O D) → drop_ins d ≡ some t ∷ [])
      → parse t ≡ some fragment
      → load_config parse_network parse drop_ins file ≡ ok c
      → (base : ServerWallConfig B W O D) × (parse_read parse_network parse drop_ins file
          ≡ some base)
        × (merge_config base fragment ≡ c)
  unfolding load_config
  from_load t fragment c file one read h = load_merged t fragment c _ one read h

  -- After an operation that leaves the frontends alone the file does not load any more, if the
  -- drop-in directory holds one file and that one defines a frontend: the operation writes the
  -- frontends of the drop-in file into the main one, where loading finds them twice.
  pub edit_unloadable :
      (t : Text) (fragment : ServerWallConfig B W O D) (f : FrontendConfig)
      (fs : List FrontendConfig)
      (change : ServerWallConfig B W O D → Change (ServerWallConfig B W O D)) (file : Option Text)
      (s : Text)
      → ((x : ServerWallConfig B W O D) → drop_ins x ≡ some t ∷ [])
      → parse t ≡ some fragment
      → fragment.frontend ≡ f ∷ fs
      → ((c d : ServerWallConfig B W O D)
          → load_config parse_network parse drop_ins file ≡ ok c
          → change c ≡ changed d
          → parse (print d) ≡ some d)
      → ((x y : ServerWallConfig B W O D) → change x ≡ changed y → y.frontend ≡ x.frontend)
      → edit parse_network parse drop_ins print change file ≡ changed s
      → (e : ConfigError) × (load_config parse_network parse drop_ins (some s) ≡ err e)
  edit_unloadable t fragment f fs change file s one read has back keeps h =
      let (c, d, loaded, made, valid, e) = edit-IsValid change file s h in
      let (base, from, merged) = from_load t fragment c file one read loaded in
      let kept : frontend_names d ≡ frontend_names c = ap names (keeps c d made) in
      let all = merged_names t fragment f fs c base has merged in
      let named : contains_text (frontend_names d) f.name ≡ true =
        rw (kept, all) (contains-append (frontend_names base) f.name (names fs)) in
      rw e (not_reloaded t fragment f fs d _ one read has (back c d loaded made) named refl)
