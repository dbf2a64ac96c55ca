-- ===== src/Relay/Spool/Files.antt =====
-- Files of one directory, by name.
use serverwall.Base.{
  ◌≡◌, refl, ◌≢◌, true, false, List, [], ◌∷◌, Option, none, some, Text, text_eq, text_eq_iff,
  text_eq_refl, if◌then◌else◌, Bool-cases, inl, inr, sym, ◌∙◌,
}

other_name :
    (key name other : Text) → name ≢ other → text_eq key name ≡ true → text_eq key other ≡ false
other_name key name other h e = elim (Bool-cases (text_eq key other)) [
  | inl f ↦ absurd (h (sym ((text_eq_iff key name).0 e) ∙ (text_eq_iff key other).0 f))
  | inr f ↦ f
]

module _ {A : Type 0} where
  unfoldable pub lookup : Text → List (Text × A) → Option A
  lookup name [] = none
  lookup name ((key, file) ∷ files) = if text_eq key name then some file else lookup name files

  unfoldable pub delete : Text → List (Text × A) → List (Text × A)
  delete name [] = []
  delete name ((key, file) ∷ files) =
      if text_eq key name then delete name files else (key, file) ∷ delete name files

  unfoldable pub write : Text → A → List (Text × A) → List (Text × A)
  write name file files = (name, file) ∷ delete name files

  pub lookup-delete :
      (name : Text) (files : List (Text × A)) → lookup name (delete name files) ≡ none
  unfolding lookup delete
  lookup-delete name [] = refl
  lookup-delete name ((key, file) ∷ files) = elim (Bool-cases (text_eq key name)) [
    | inl e ↦ rw e (lookup-delete name files)
    | inr e ↦ rw (e, e) (lookup-delete name files)
  ]

  pub lookup-delete_other :
      (name other : Text) (files : List (Text × A))
      → name ≢ other
      → lookup other (delete name files) ≡ lookup other files
  unfolding lookup delete
  lookup-delete_other name other [] h = refl
  lookup-delete_other name other ((key, file) ∷ files) h = elim (Bool-cases (text_eq key name)) [
    | inl e ↦ rw (e, other_name key name other h e) (lookup-delete_other name other files h)
    | inr e ↦ rw (e, lookup-delete_other name other files h) refl
  ]

  pub lookup-write :
      (name : Text) (file : A) (files : List (Text × A))
      → lookup name (write name file files) ≡ some file
  unfolding lookup write
  lookup-write name file files = rw (text_eq_refl name) refl

  pub lookup-write_other :
      (name other : Text) (file : A) (files : List (Text × A))
      → name ≢ other
      → lookup other (write name file files) ≡ lookup other files
  unfolding lookup write
  lookup-write_other name other file files h =
      rw (other_name name name other h (text_eq_refl name)) (lookup-delete_other name other files h)
