-- ===== src/Core/Config/Editor/RoundTrip.antt =====
-- config/editor.rs: adding and removing again, and what an operation does to the names of a list.
use serverwall.Base.{
  ◌≡◌, refl, ◌∙◌, List, [], ◌∷◌, ◌++◌, Bool, false, not, any, retain, length, length-append, ◌==◌,
  map, Text, text_eq, text_eq_iff, text_eq_refl, Bool-cases, inl, inr, arith,
}
use serverwall.Core.Config.Editor.{
  Change, changed, refused, map_change, Named, add_named, remove_named, update_named,
}

pub map_change-changed :
    {A C : Type 0} (f : A → C) (r : Change A) (c : C)
    → map_change f r ≡ changed c
    → (a : A) × (r ≡ changed a) × (f a ≡ c)
map_change-changed f (changed a) c h = (a, refl, ground arith)
map_change-changed f (refused e) c h = absurd (cc)

module _ {A : Type 0} (n : Named A) where
  abbrev keeps_name : Text → A → Bool
  keeps_name name y = not (text_eq (n.name y) name)

  retain-absent :
      (name : Text) (xs : List A)
      → any (λ y. text_eq (n.name y) name) xs ≡ false
      → retain (keeps_name name) xs ≡ xs
  retain-absent name [] h = refl
  retain-absent name (x ∷ xs) h = ground (arith, retain-absent name xs)

  retain-snoc :
      (x : A) (xs : List A)
      → retain (keeps_name (n.name x)) (xs ++ (x ∷ [])) ≡ retain (keeps_name (n.name x)) xs
  retain-snoc x [] = rw (text_eq_refl (n.name x))
  retain-snoc x (y ∷ ys) = ground (arith, retain-snoc x ys)

  -- What was added under a new name is removed under it again, and the others stay.
  pub remove_named-add_named :
      (x : A) (xs ys : List A)
      → add_named n x xs ≡ changed ys
      → remove_named n (n.name x) ys ≡ changed xs
  unfolding add_named remove_named
  remove_named-add_named x xs ys h =
      let absent : any (λ y. text_eq (n.name y) (n.name x)) xs ≡ false = ground arith in
      let added : xs ++ (x ∷ []) ≡ ys = ground (arith, absent) in
      let kept : retain (keeps_name (n.name x)) (xs ++ (x ∷ [])) ≡ xs =
        retain-snoc x xs ∙ retain-absent (n.name x) xs absent in
      let shorter : (length xs == length (xs ++ (x ∷ []))) ≡ false =
        ground (arith, length-append xs (x ∷ [])) in
      rw (← added, kept, shorter)

  -- An update keeps the names of the list and their order.
  pub update_named-name :
      (name : Text) (x : A) (xs ys : List A)
      → update_named n name x xs ≡ changed ys
      → map n.name ys ≡ map n.name xs
  unfolding update_named
  update_named-name name x [] ys h = absurd (cc)
  update_named-name name x (y ∷ xs) ys h = elim (Bool-cases (text_eq (n.name y) name)) [
    | inl e ↦
        let same : n.name y ≡ name = (text_eq_iff (n.name y) name).0 e in
        let made : n.rename name x ∷ xs ≡ ys = ground (arith, e) in
        rw (← made, n.name-rename name x, same)
    | inr e ↦
        let (zs, rest, made) = map_change-changed (λ (zs : List A). y ∷ zs) _ ys (rw e at h) in
        rw (← made, update_named-name name x xs zs rest)
  ]
