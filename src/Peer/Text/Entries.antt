-- ===== src/Peer/Text/Entries.antt =====
-- What the names of an object hold once one of them is set or deleted.
use sprinter_3c509b.Base.{
  ◌≡◌, refl, sym, ap, ◌∙◌, Bool, true, false, Option, none, some, List, [], ◌∷◌, if◌then◌else◌,
  if_true, if_false, if_both, Bool-cases, inl, inr, Bytes, equal, equal→eq,
}
use sprinter_3c509b.Peer.Text.{value_of, with_value, without_value}

-- Two tests in either order.
if_swap {ℓ} :
    {A : Type ℓ} (a b : Bool) (w v x : A)
    → (a ≡ true → b ≡ false)
    → (if b then v else (if a then w else x)) ≡ (if a then w else (if b then v else x))
if_swap true b w v x h = if_false b v w (h refl)
if_swap false b w v x h = refl

if_same {ℓ} :
    {A : Type ℓ} (a b : Bool) (w v x : A)
    → b ≡ a
    → (if a then w else x) ≡ (if a then w else (if b then v else x))
if_same true b w v x h = refl
if_same false b w v x h = sym (if_false b v x h)

-- Two names that differ are not both the same as a third.
not_both :
    (key name other : Bytes)
    → equal key name ≡ false
    → equal name other ≡ true
    → equal key other ≡ false
not_both key name other h e = ap (equal key) (sym (equal→eq name other e)) ∙ h

pub value_of-without :
    (name other : Bytes) (m : List (Bytes × Bytes))
    → value_of other (without_value name m) ≡ (if equal name other then none else value_of other m)
value_of-without name other [] =
    sym (if_both (λ (o : Option Bytes). o ≡ none) (equal name other) refl refl)
value_of-without name other ((key, v) ∷ m) = elim (Bool-cases (equal key name)) [
  | inl e ↦
      ap (value_of other)
        (if_true (equal key name) (without_value name m) ((key, v) ∷ without_value name m) e)
      ∙ (value_of-without name other m
          ∙ if_same (equal name other) (equal key other) none (some v) (value_of other m)
              (ap (λ k. equal k other) (equal→eq key name e)))
  | inr e ↦
      ap (value_of other)
        (if_false (equal key name) (without_value name m) ((key, v) ∷ without_value name m) e)
      ∙ (ap (λ o. if equal key other then some v else o) (value_of-without name other m)
          ∙ if_swap (equal name other) (equal key other) none (some v) (value_of other m)
              (not_both key name other e))
]

pub value_of-with :
    (name value other : Bytes) (m : List (Bytes × Bytes))
    → value_of other (with_value name value m)
      ≡ (if equal name other then some value else value_of other m)
value_of-with name value other [] = refl
value_of-with name value other ((key, v) ∷ m) = elim (Bool-cases (equal key name)) [
  | inl e ↦
      let same = ap (λ k. equal k other) (equal→eq key name e) in
      ap (value_of other)
        (if_true (equal key name) ((key, value) ∷ m) ((key, v) ∷ with_value name value m) e)
      ∙ (ap (λ b. if b then some value else value_of other m) same
          ∙ if_same (equal name other) (equal key other) (some value) (some v) (value_of other m)
              same)
  | inr e ↦
      ap (value_of other)
        (if_false (equal key name) ((key, value) ∷ m) ((key, v) ∷ with_value name value m) e)
      ∙ (ap (λ o. if equal key other then some v else o) (value_of-with name value other m)
          ∙ if_swap (equal name other) (equal key other) (some value) (some v) (value_of other m)
              (not_both key name other e))
]
