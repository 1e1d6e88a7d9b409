-- ===== src/Machine/Executable/Ranges.antt =====
-- Where the executable ranges of an L1 library lie.
use sprinter_3c509b.Base.{
  ℕ, zero, suc, ◌+◌, ◌≤◌, ◌≡◌, Bool, false, not, ◌&&◌, ◌||◌, List, [], ◌∷◌, ◌++◌, ◌⊎◌, inl, inr,
  ltb, leb, ◌==◌, if_cases, length, Bytes, byte_at, arith,
}
use mathlib.Core.Path.{subst}
use sprinter_3c509b.Machine.{Outcome, done, failed}
use sprinter_3c509b.Machine.Executable.{
  Range, is_l1, skip_zeros, ends_with, jump_end, code_start, with_overlay, l1_executable_ranges,
}
use sprinter_3c509b.Machine.Load.{u16}
use sprinter_3c509b.Peer.Text.{codes}

-- A range lies in the file, behind its header, and clear of what stands between the start of the
-- relocation bitmap and the length of the overlay.
pub record IsInside (file : Bytes) (r : Range) : Type 0 where
  pub behind_header : 32 ≤ r.0
  pub order : r.0 ≤ r.1
  pub in_file : r.1 ≤ length file
  pub clear : (r.1 ≤ u16 file 4) ⊎ (u16 file 2 + 2 ≤ r.0)

abbrev pub AllInside : Bytes → List Range → Type 0
AllInside file [] = Unit
AllInside file (r ∷ ranges) = IsInside file r × AllInside file ranges

AllInside-append :
    (file : Bytes) (xs ys : List Range)
    → AllInside file xs
    → AllInside file ys
    → AllInside file (xs ++ ys)
AllInside-append file [] ys h k = k
AllInside-append file (x ∷ xs) ys h k = (h.0, AllInside-append file xs ys h.1 k)

abbrev Ends : Bytes → Outcome (List Range) → Type 0
Ends file (failed why) = Unit
Ends file (done ranges) = AllInside file ranges

skip_zeros-ge : (fuel limit at : ℕ) (file : Bytes) → at ≤ skip_zeros fuel file limit at
skip_zeros-ge zero limit at file = omega arith
skip_zeros-ge (suc fuel) limit at file =
    if_cases (λ n. at ≤ n) (ltb at limit && byte_at file at == 0)
      (λ _. omega (arith, skip_zeros-ge fuel limit (at + 1) file)) (λ _. omega arith)

with_overlay-Ends :
    (file : Bytes) (code : List Range)
    → AllInside file code
    → 32 ≤ u16 file 2
    → Ends file (with_overlay file code)
unfolding with_overlay
with_overlay-Ends file code inside large =
    let size = u16 file 2 in
    let cold = u16 file size in
    if_cases (Ends file) (not (leb (size + 2) (length file))) (λ _. inside)
      (λ _.
        if_cases (Ends file) (ltb (length file) (size + 2 + cold)) (λ _. tt)
          (λ short.
            if_cases (Ends file) (cold == 0) (λ _. inside)
              (λ _.
                AllInside-append file code ((size + 2, size + 2 + cold) ∷ []) inside
                  (overlay size cold large short, tt))))
  where
    overlay :
        (size cold : ℕ)
        → 32 ≤ size
        → ltb (length file) (u16 file 2 + 2 + u16 file (u16 file 2)) ≡ false
        → IsInside file (u16 file 2 + 2, u16 file 2 + 2 + u16 file (u16 file 2))
    overlay size cold h short = record {
      behind_header = omega arith;
      order = omega arith;
      in_file = ground arith;
      clear = inr (omega arith);
    }

-- A range in front of the relocation bitmap.
inside :
    (file : Bytes) (a b : ℕ)
    → 32 ≤ a
    → a ≤ b
    → b ≤ u16 file 4
    → u16 file 4 ≤ length file
    → IsInside file (a, b)
inside file a b low order high whole = record {
  behind_header = low;
  order = order;
  in_file = omega arith;
  clear = inl high;
}

in_front : (reloc start : ℕ) (b : Bool) → leb reloc start || b ≡ false → start + 1 ≤ reloc
in_front reloc start b h = ground arith

ranges-Ends : (name file : Bytes) → Ends file (l1_executable_ranges name file)
unfolding l1_executable_ranges
ranges-Ends name file =
    let size = u16 file 2 in
    let reloc = u16 file 4 in
    let start = code_start file in
    let from = skip_zeros-ge reloc reloc jump_end file in
    if_cases (Ends file) (not (is_l1 file)) (λ _. tt)
      (λ _.
        if_cases (Ends file) (ltb (length file) size || ltb reloc jump_end || ltb size reloc)
          (λ _. tt)
          (λ fields.
            let whole : size ≤ length file = ground arith in
            let long : jump_end ≤ reloc = ground arith in
            let order : reloc ≤ size = ground arith in
            if_cases (Ends file) (leb reloc start || not (byte_at file start == 0xa5))
              (λ _.
                if_cases (Ends file) (ends_with name (codes "UNET509B.DLL")) (λ _. tt)
                  (λ _. (
                    inside file 32 reloc (omega arith) (omega arith) (omega arith) (omega arith),
                    tt,
                  )))
              (λ marked.
                with_overlay-Ends file ((32, jump_end) ∷ (start + 1, reloc) ∷ [])
                  (
                    inside file 32 jump_end (omega arith) (omega arith) long (omega arith),
                    (
                      inside file (start + 1) reloc (omega arith) (in_front reloc start _ marked)
                          (omega arith) (omega arith),
                      tt,
                    ),
                  )
                  (omega arith))))

-- The executable ranges of a library lie in its file, behind its header, and none of them touches
-- the relocation bitmap or the length of the overlay behind it.
pub l1_executable_ranges-AllInside :
    (name file : Bytes) (ranges : List Range)
    → l1_executable_ranges name file ≡ done ranges
    → AllInside file ranges
l1_executable_ranges-AllInside name file ranges e = subst (Ends file) e (ranges-Ends name file)
