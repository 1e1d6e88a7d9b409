-- ===== src/Machine/Pages/Free.antt =====
-- A block is given back once.
use sprinter_3c509b.Base.{
  ℕ, Option, none, some, [], ◌∷◌, ◌==◌, if_false, if_cases, ◌≡◌, refl, ap, ◌∙◌,
}
use mathlib.Core.Path.{subst}
use sprinter_3c509b.Machine.{
  Outcome, done, failed, unknown_block, Table, entry_at, without_entry, Machine,
}
use sprinter_3c509b.Machine.Pages.{free_found, free_mem}

entry_at-gone {ℓ} : {A : Type ℓ} (k : ℕ) (t : Table A) → entry_at k (without_entry k t) ≡ none
entry_at-gone k [] = refl
entry_at-gone k ((j, a) ∷ t) =
    let rest = without_entry k t in
    if_cases (λ u. entry_at k u ≡ none) (j == k) {x = rest} {y = (j, a) ∷ rest}
      (λ _. entry_at-gone k t) (λ other. if_false (j == k) _ _ other ∙ entry_at-gone k t)

module _ {P : Type 0} where
  abbrev machine_of : Outcome (Machine P) → Machine P → Machine P
  machine_of (done n) m = n
  machine_of (failed why) m = m

  freed_found :
      (block : ℕ) (m n : Machine P) (o : Option ℕ)
      → free_found block m o ≡ done n
      → entry_at block n.allocations ≡ none
  freed_found block m n none h = absurd cc
  freed_found block m n (some count) h =
      subst (λ d. entry_at block d.allocations ≡ none) (ap (λ x. machine_of x m) h)
        (entry_at-gone block m.allocations)

  -- A block that is given back is unknown from then on: to free it again throws.
  pub free_mem-free_mem :
      (block : ℕ) (m n : Machine P)
      → free_mem block m ≡ done n
      → free_mem block n ≡ failed unknown_block
  unfolding free_mem
  free_mem-free_mem block m n h =
      ap (free_found block n) (freed_found block m n (entry_at block m.allocations) h)
