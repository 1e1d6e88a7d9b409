-- ===== src/Machine/Session/Tables.antt =====
-- Facts about tables: what is under a key after others have come and gone.
use sprinter_3c509b.Base.{
  ℕ, zero, suc, ◌+◌, true, false, some, ◌∷◌, [], ◌==◌, ◌≡◌, refl, arith, ◌⊎◌, inl, inr, Bool-cases,
  ◌∙◌, sym, if_both, if_cases, if_false, ◌≤◌, ◌<◌,
}
use sprinter_3c509b.Machine.{Table, entry_at, has_entry, without_entry, Memory, Fill}
use sprinter_3c509b.Machine.Pages.{add_pages, remove_pages, fresh_page, fill_past}

-- There is something under the key.
pub has_entry-found {ℓ} :
    {A : Type ℓ} (k : ℕ) (t : Table A) → has_entry k t ≡ true → (a : A) × (entry_at k t ≡ some a)
has_entry-found k [] h = absurd (ground arith)
has_entry-found k ((j, a) ∷ t) h = elim (Bool-cases (j == k)) [
  | inl e ↦ (a, rw e)
  | inr e ↦ let (b, found) = has_entry-found k t (ground arith) in (b, ground arith)
]

pub has_entry-without {ℓ} :
    {A : Type ℓ} (k id : ℕ) (t : Table A)
    → (id == k) ≡ false
    → has_entry k (without_entry id t) ≡ has_entry k t
has_entry-without k id [] h = refl
has_entry-without k id ((j, a) ∷ t) h = ground (arith, has_entry-without k id t h)

pub has_entry-put {ℓ} :
    {A : Type ℓ} (k id : ℕ) (a : A) (t : Table A)
    → has_entry k t ≡ true
    → has_entry k ((id, a) ∷ without_entry id t) ≡ true
has_entry-put k id a t h = elim (Bool-cases (id == k)) [
  | inl e ↦ rw e
  | inr e ↦ rw (e, has_entry-without k id t e, h)
]

pub entry_at-without {ℓ} :
    {A : Type ℓ} (k id : ℕ) (t : Table A)
    → (id == k) ≡ false
    → entry_at k (without_entry id t) ≡ entry_at k t
entry_at-without k id [] h = refl
entry_at-without k id ((j, a) ∷ t) h = ground (arith, entry_at-without k id t h)

-- What is left after the removal of an entry was there before, under another key.
pub without-has_entry {ℓ} :
    {A : Type ℓ} (k id : ℕ) (t : Table A)
    → has_entry k (without_entry id t) ≡ true
    → (has_entry k t ≡ true) × ((id == k) ≡ false)
without-has_entry k id [] h = absurd (ground arith)
without-has_entry k id ((j, a) ∷ t) h =
    let rest = without_entry id t in
    let Was = (has_entry k ((j, a) ∷ t) ≡ true) × ((id == k) ≡ false) in
    if_cases (λ u. has_entry k u ≡ true → Was) (j == id) {x = rest} {y = (j, a) ∷ rest}
      (λ e g.
        let (there, other) = without-has_entry k id t g in
        (if_both (λ b. b ≡ true) (j == k) refl there, other))
      (λ e g. elim (Bool-cases (j == k)) [
        | inl f ↦ (rw f, ground arith)
        | inr f ↦
            let (there, other) =
              without-has_entry k id t (sym (if_false (j == k) true (has_entry k rest) f) ∙ g) in
            (if_both (λ b. b ≡ true) (j == k) refl there, other)
      ])
      h

-- The pages of a block that is added, and those left when one is removed.
pub add_pages-has_entry :
    (fill : Fill) (first count state k : ℕ) (t : Table Memory)
    → has_entry k (add_pages fill first count state t).0 ≡ true
    → (has_entry k t ≡ true) ⊎ ((first ≤ k) × (k < first + count))
unfolding add_pages
add_pages-has_entry fill first zero state k t h = inl h
add_pages-has_entry fill first (suc count) state k t h =
    elim (add_pages-has_entry fill (first + 1) count (fill_past fill 0x4000 state) k
      ((first, fresh_page fill state) ∷ without_entry first t) h) [
        | inr (low, high) ↦ inr (omega arith, omega arith)
        | inl there ↦ elim (Bool-cases (first == k)) [
          | inl e ↦ inr (ground arith, ground arith)
          | inr e ↦ inl (ground (arith, has_entry-without k first t e))
        ]
      ]

pub remove_pages-has_entry :
    (first count k : ℕ) (t : Table Memory)
    → has_entry k (remove_pages first count t) ≡ true
    → (has_entry k t ≡ true) × (first ≤ k → k < first + count → ⊥)
unfolding remove_pages
remove_pages-has_entry first zero k t h = (h, λ low high. omega arith)
remove_pages-has_entry first (suc count) k t h =
    let (left, past) = remove_pages-has_entry (first + 1) count k (without_entry first t) h in
    let (there, other) = without-has_entry k first t left in
    (there, λ low high. past (ground arith) (ground arith))
