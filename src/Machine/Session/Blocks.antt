-- ===== src/Machine/Session/Blocks.antt =====
-- Every page belongs to a block that is still allocated.
use sprinter_3c509b.Base.{
  ℕ, ◌+◌, true, false, some, ◌∷◌, ◌==◌, ◌≡◌, refl, sym, ◌∙◌, ap, arith, ◌≤◌, ◌<◌, inl, inr,
  Bool-cases, if_false, if_true, ==_iff, eq→==, or_default,
}
use mathlib.Core.Path.{subst}
use sprinter_3c509b.Machine.{Table, entry_at, has_entry, without_entry, Memory, Fill}
use sprinter_3c509b.Machine.Pages.{add_pages, remove_pages}
use sprinter_3c509b.Machine.Session.Tables.{
  has_entry-without, entry_at-without, add_pages-has_entry, remove_pages-has_entry,
}

-- The block that a page belongs to, below the next free number.
pub record InBlock (allocations : Table ℕ) (next : ℕ) (page : ℕ) : Type 0 where
  pub base : ℕ
  pub count : ℕ
  pub found : entry_at base allocations ≡ some count
  pub from_base : base ≤ page
  pub in_count : page < base + count
  pub below : base + count ≤ next

abbrev pub Covered : Table Memory → Table ℕ → ℕ → Type 0
Covered pages allocations next =
    (page : ℕ) → has_entry page pages ≡ true → InBlock allocations next page

pub Covered-put :
    (id : ℕ) (page : Memory) (pages : Table Memory) (allocations : Table ℕ) (next : ℕ)
    → has_entry id pages ≡ true
    → Covered pages allocations next
    → Covered ((id, page) ∷ without_entry id pages) allocations next
Covered-put id page pages allocations next there covered k h = elim (Bool-cases (id == k)) [
  | inl e ↦ covered k (subst (λ j. has_entry j pages ≡ true) ((==_iff id k).0 e) there)
  | inr e ↦ covered k (
      sym (has_entry-without k id pages e)
      ∙ (sym (if_false (id == k) true (has_entry k (without_entry id pages)) e) ∙ h))
]

apart :
    (base count page next : ℕ)
    → base ≤ page
    → page < base + count
    → base + count ≤ next
    → (next == base) ≡ false
apart base count page next low high below = ground arith

wider : (base count next more : ℕ) → base + count ≤ next → base + count ≤ next + more
wider base count next more h = omega arith

same_count :
    (t : Table ℕ) (j k c d : ℕ)
    → (j == k) ≡ true
    → entry_at j t ≡ some c
    → entry_at k t ≡ some d
    → c ≡ d
same_count t j k c d e h g =
    ap (λ o. or_default o 0) (sym h ∙ (ap (λ i. entry_at i t) ((==_iff j k).0 e) ∙ g))

inside :
    (block base count size k : ℕ)
    → block ≡ base
    → count ≡ size
    → (block ≤ k → k < block + count → ⊥)
    → base ≤ k
    → k < base + size
    → ⊥
inside block base count size k e f out low high = out (omega arith) (omega arith)

pub Covered-add :
    (fill : Fill) (count state : ℕ) (pages : Table Memory) (allocations : Table ℕ) (next : ℕ)
    → Covered pages allocations next
    → Covered
        (add_pages fill next count state pages).0
        ((next, count) ∷ without_entry next allocations)
        (next + count)
Covered-add fill count state pages allocations next covered k h =
    elim (add_pages-has_entry fill next count state k pages h) [
      | inr (low, high) ↦ record {
        base = next;
        count = count;
        found =
            if_true (next == next) (some count) (entry_at next (without_entry next allocations))
              (eq→== next next refl);
        from_base = low;
        in_count = high;
        below = omega arith;
      }
      | inl there ↦
          let b = covered k there in
          let other = apart b.base b.count k next b.from_base b.in_count b.below in
          record {
            base = b.base;
            count = b.count;
            found =
                if_false (next == b.base) (some count)
                  (entry_at b.base (without_entry next allocations)) other
                ∙ (entry_at-without b.base next allocations other ∙ b.found);
            from_base = b.from_base;
            in_count = b.in_count;
            below = wider b.base b.count next count b.below;
          }
    ]

pub Covered-free :
    (block count : ℕ) (pages : Table Memory) (allocations : Table ℕ) (next : ℕ)
    → entry_at block allocations ≡ some count
    → Covered pages allocations next
    → Covered (remove_pages block count pages) (without_entry block allocations) next
Covered-free block count pages allocations next held covered k h =
    let (there, out) = remove_pages-has_entry block count k pages h in
    let b = covered k there in
    elim (Bool-cases (block == b.base)) [
      | inl e ↦
          let same = same_count allocations block b.base count b.count e held b.found in
          let at : block ≡ b.base = (==_iff block b.base).0 e in
          absurd (inside block b.base count b.count k at same out b.from_base b.in_count)
      | inr e ↦ record {
        base = b.base;
        count = b.count;
        found = entry_at-without b.base block allocations e ∙ b.found;
        from_base = b.from_base;
        in_count = b.in_count;
        below = b.below;
      }
    ]
