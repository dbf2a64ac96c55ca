-- ===== src/Core/Config/Editor/Reloading.antt =====
-- config/editor.rs: operations one after the other, on the file that the first has written.
use serverwall.Base.{◌≡◌, sym, ap, List, [], ◌∷◌, Option, none, some, Text, arith}
use serverwall.Core.Config.{
  FrontendConfig, ServerWallConfig, ConfigError, ok, err, merge_files, validated, with_drop_ins,
  parse_read, checked, validate_config, load_config,
}
use serverwall.Core.Config.Validity.{IsValid, validate_config-IsValid, load_config-IsValid}
use serverwall.Core.Config.Editor.{
  Change, changed, map_change, frontends, hosts, add_named, remove_named, edit, edited, saved,
  stored,
}
use serverwall.Core.Config.Editor.Operations.{add_frontend, remove_frontend, add_trusted_host}
use serverwall.Core.Config.Editor.RoundTrip.{map_change-changed, remove_named-add_named}
use serverwall.Core.Config.Editor.Saved.{edit-IsValid, edit_unloadable}

module _ {B W O D Net : Type 0} (parse_network : Text → Option Net)
    (parse : Text → Option (ServerWallConfig B W O D))
    (drop_ins : ServerWallConfig B W O D → List (Option Text))
    (print : ServerWallConfig B W O D → Text) where
  abbrev pub with_host : Text → ServerWallConfig B W O D → Change (ServerWallConfig B W O D)
  with_host host c =
      map_change (λ hs. record c { trusted_hosts = hs }) (add_named hosts host c.trusted_hosts)

  with_host_frontend :
      (host : Text) (x y : ServerWallConfig B W O D)
      → with_host host x ≡ changed y
      → y.frontend ≡ x.frontend
  with_host_frontend host x y h =
      let (hs, added, made) =
        map_change-changed (λ hs. record x { trusted_hosts = hs })
          (add_named hosts host x.trusted_hosts) y h in
      ap (λ (c : ServerWallConfig B W O D). c.frontend) (sym made)

  -- Once a trusted host was added, the file does not load any more, if the drop-in directory holds
  -- one file and that one defines a frontend, and what is written is read back: the frontends of the
  -- drop-in file were written into the main one, and loading finds them twice.
  pub add_trusted_host_unloadable :
      (host t : Text) (fragment : ServerWallConfig B W O D) (f : FrontendConfig)
      (fs : List FrontendConfig) (file : Option Text) (s : Text)
      → ((x : ServerWallConfig B W O D) → drop_ins x ≡ some t ∷ [])
      → parse t ≡ some fragment
      → fragment.frontend ≡ f ∷ fs
      → ((c d : ServerWallConfig B W O D)
          → load_config parse_network parse drop_ins file ≡ ok c
          → with_host host c ≡ changed d
          → parse (print d) ≡ some d)
      → add_trusted_host parse_network parse drop_ins print host file ≡ changed s
      → (e : ConfigError) × (load_config parse_network parse drop_ins (some s) ≡ err e)
  unfolding add_trusted_host
  add_trusted_host_unloadable host t fragment f fs file s one read has back h =
      edit_unloadable parse_network parse drop_ins print t fragment f fs (with_host host) file s one
        read has back (with_host_frontend host) h

  loads_alone :
      (d : ServerWallConfig B W O D)
      → drop_ins d ≡ []
      → IsValid parse_network d
      → parse (print d) ≡ some d
      → load_config parse_network parse drop_ins (some (print d)) ≡ ok d
  unfolding load_config with_drop_ins parse_read merge_files validated checked
  loads_alone d alone valid back =
      rw (back, alone, (validate_config-IsValid parse_network d).1 valid)

  edit_succeeds :
      (change : ServerWallConfig B W O D → Change (ServerWallConfig B W O D)) (file : Option Text)
      (c d : ServerWallConfig B W O D)
      → load_config parse_network parse drop_ins file ≡ ok c
      → change c ≡ changed d
      → validate_config parse_network d ≡ none
      → edit parse_network parse drop_ins print change file ≡ changed (print d)
  unfolding edit edited saved stored
  edit_succeeds change file c d loaded made valid = rw (loaded, made, valid)

  abbrev pub with_frontend :
      FrontendConfig → ServerWallConfig B W O D → Change (ServerWallConfig B W O D)
  with_frontend frontend c =
      map_change (λ fs. record c { frontend = fs }) (add_named frontends frontend c.frontend)

  abbrev without_frontend : Text → ServerWallConfig B W O D → Change (ServerWallConfig B W O D)
  without_frontend name c =
      map_change (λ fs. record c { frontend = fs }) (remove_named frontends name c.frontend)

  removes_added :
      (frontend : FrontendConfig) (c d : ServerWallConfig B W O D)
      → with_frontend frontend c ≡ changed d
      → without_frontend frontend.name d ≡ changed c
  removes_added frontend c d h =
      let (fs, added, made) =
        map_change-changed (λ fs. record c { frontend = fs })
          (add_named frontends frontend c.frontend) d h in
      let removed = remove_named-add_named frontends frontend c.frontend fs added in
      rw (← made, removed)

  -- Without drop-in files, and if what is written is read back, removing the frontend that was added
  -- last writes the configuration that was there before.
  pub remove_frontend-add_frontend :
      (frontend : FrontendConfig) (file : Option Text) (c : ServerWallConfig B W O D) (s : Text)
      → ((x : ServerWallConfig B W O D) → drop_ins x ≡ [])
      → ((d : ServerWallConfig B W O D)
          → with_frontend frontend c ≡ changed d
          → parse (print d) ≡ some d)
      → load_config parse_network parse drop_ins file ≡ ok c
      → add_frontend parse_network parse drop_ins print frontend file ≡ changed s
      → remove_frontend parse_network parse drop_ins print frontend.name (some s)
        ≡ changed (print c)
  unfolding add_frontend remove_frontend
  remove_frontend-add_frontend frontend file c s alone back loaded h =
      let (b, d, from, made, valid, e) =
        edit-IsValid parse_network parse drop_ins print (with_frontend frontend) file s h in
      let same : b ≡ c = ground arith in
      let made_c : with_frontend frontend c ≡ changed d = rw same at made in
      rw e (
        edit_succeeds (without_frontend frontend.name) (some (print d)) d c
          (loads_alone d (alone d) valid (back d made_c)) (removes_added frontend c d made_c)
          ((validate_config-IsValid parse_network c).1
            (load_config-IsValid parse_network parse drop_ins file c loaded)))
