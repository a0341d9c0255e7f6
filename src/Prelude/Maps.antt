-- ===== src/Prelude/Maps.antt =====
-- Maps from texts, as association lists: what the source does to an `unordered_map`.
use mathlib.Core.Path.{◌≡◌, refl}
use mathlib.Core.Logic.{inl, inr}
use mathlib.Core.Bool.{true, false}
use mathlib.Core.Option.{Option, none, some}
use mathlib.Core.List.{List, [], ◌∷◌}
use react_fs.Prelude.Tests.{if◌then◌else◌, Bool-cases}
use react_fs.Prelude.Texts.{Text, same_text, same_text_refl, eq-of_same_text}

module _ {ℓ} {A : Type ℓ} where
  unfoldable pub lookup : Text → List (Text × A) → Option A
  lookup name [] = none
  lookup name ((n, w) ∷ es) = let rest = lookup name es in if same_text n name then some w else rest

  -- The value under a name that is there is replaced.
  unfoldable pub assign : Text → A → List (Text × A) → List (Text × A)
  assign name w [] = []
  assign name w ((n, v) ∷ es) =
      let rest = assign name w es in if same_text n name then (n, w) ∷ es else (n, v) ∷ rest

  -- The value under a name that is there is changed in place.
  unfoldable pub adjust : Text → (A → A) → List (Text × A) → List (Text × A)
  adjust name g [] = []
  adjust name g ((n, v) ∷ es) =
      let rest = adjust name g es in if same_text n name then (n, g v) ∷ es else (n, v) ∷ rest

  unfoldable pub erase : Text → List (Text × A) → List (Text × A)
  erase name [] = []
  erase name ((n, w) ∷ es) =
      let rest = erase name es in if same_text n name then es else (n, w) ∷ rest

differs :
    (n name m : Text) → same_text n name ≡ false → same_text n m ≡ true → same_text name m ≡ false
differs n name m o p = elim (Bool-cases (same_text name m)) [
  | inr d ↦ d
  | inl q ↦
      (let e = eq-of_same_text n m p in
        let e' = eq-of_same_text name m q in let same = same_text_refl name in absurd cc)
]

module _ {ℓ} {A : Type ℓ} where
  -- Replacing the value under a name that is there changes what is found under that name alone.
  pub lookup-assign :
      (name m : Text) (w v : A) (es : List (Text × A))
      → lookup name es ≡ some w
      → lookup m (assign name v es) ≡ (if same_text name m then some v else lookup m es)
  unfolding lookup assign
  lookup-assign name m w v [] f = absurd (cc)
  lookup-assign name m w v ((n, x) ∷ es) f = elim (Bool-cases (same_text n name)) [
    | inl s ↦
        (let e : n ≡ name = eq-of_same_text n name s in
          rw (s, e)
            (elim (Bool-cases (same_text name m)) [ inl p ↦ rw p refl | inr p ↦ rw p refl ]))
    | inr o ↦
        (let found : lookup name es ≡ some w = rw o at f in
          let rest = lookup-assign name m w v es found in
          rw o (elim (Bool-cases (same_text n m)) [
            | inl p ↦ rw (p, differs n name m o p) refl
            | inr p ↦ rw p rest
          ]))
  ]
