-- ===== src/Machine/Load/Header.antt =====
-- What the checks on the header of an executable promise.
use sprinter_3c509b.Base.{
  ℕ, ◌+◌, ◌-◌, ◌%◌, Bool, false, not, ◌&&◌, ◌||◌, [], ◌∷◌, leb, ltb, ◌==◌, if_cases, length, take,
  Bytes, AllBytes, byte_at, AllBytes-at, equal, ◌≡◌, ◌≤◌, ◌<◌, ◌⊎◌, arith, ap,
}
use mathlib.Core.Path.{subst}
use sprinter_3c509b.Machine.{Outcome, done, failed}
use sprinter_3c509b.Machine.Load.{Image, image_of, ascii, u16}

-- The image lies below 0xc000, behind a header of 128 bytes, and none of the 64 bytes below the
-- stack pointer is one of its bytes behind the header.
pub record FitsMemory (exe : Bytes) (image : Image) : Type 0 where
  pub has_program : 128 < length exe
  pub after_header : image.load_address + 128 ≡ image.entry
  pub below_limit : image.load_address + length exe ≤ 0xc000
  pub clear :
      (i : ℕ)
      → 1 ≤ i
      → i ≤ 0x40
      → ((image.stack + 65536 - i) % 65536 < image.entry)
        ⊎ (image.load_address + length exe ≤ (image.stack + 65536 - i) % 65536)

abbrev image_from : Outcome Image → Image → Image
image_from (done image) other = image
image_from (failed why) other = other

-- `none` of the four guards holds.
fits :
    (exe : Bytes) (entry stack i : ℕ)
    → 128 ≤ entry
    → entry - 128 + length exe ≤ 0xc000
    → 128 < length exe
    → stack < 65536
    → (ltb entry stack && ltb stack (entry - 128 + length exe + 0x40)) ≡ false
    → 1 ≤ i
    → i ≤ 0x40
    → ((stack + 65536 - i) % 65536 < entry)
      ⊎ (entry - 128 + length exe ≤ (stack + 65536 - i) % 65536)
fits exe entry stack i low high behind small guard from to = ground arith

bounds :
    (size entry image_end : ℕ) (b c : Bool)
    → (leb size 128 || b || c) ≡ false
    → (ltb entry 128 || ltb 0xc000 image_end) ≡ false
    → (128 < size) × (128 ≤ entry) × (image_end ≤ 0xc000)
bounds size entry image_end b c h g = (ground arith, ground arith, ground arith)

u16-lt : (exe : Bytes) (at : ℕ) → AllBytes exe → u16 exe at < 65536
u16-lt exe at bytes =
    let h = AllBytes-at (at + 1) exe bytes in let l = AllBytes-at at exe bytes in omega arith

-- An executable whose header is accepted fits memory: it has a program behind its header of 128
-- bytes, it ends at or below 0xc000, and none of the 64 addresses below its stack pointer, on 16
-- bits, holds a byte of the program. Its bytes are below 256.
pub image_of-FitsMemory :
    (exe : Bytes) (image : Image) → AllBytes exe → image_of exe ≡ done image → FitsMemory exe image
unfolding image_of
image_of-FitsMemory exe image bytes =
    let entry = u16 exe 16 in
    let stack = u16 exe 20 in
    let image_end = entry - 128 + length exe in
    let Ends = λ (x : Outcome Image). x ≡ done image → FitsMemory exe image in
    if_cases Ends
      (leb (length exe) 128
        || not (equal (ascii (take 3 exe)) (69 ∷ 88 ∷ 69 ∷ []))
        || not (byte_at exe 3 == 1))
      (λ _ h. absurd (cc))
      (λ program.
        if_cases Ends (not (u16 exe 4 == 128) || not (entry == u16 exe 18)) (λ _ h. absurd (cc))
          (λ _.
            if_cases Ends (ltb entry 128 || ltb 0xc000 image_end) (λ _ h. absurd (cc))
              (λ inside.
                if_cases Ends (ltb entry stack && ltb stack (image_end + 0x40)) (λ _ h. absurd (cc))
                  (λ guard h.
                    let (behind, low, high) =
                      bounds (length exe) entry image_end
                        (not (equal (ascii (take 3 exe)) (69 ∷ 88 ∷ 69 ∷ [])))
                        (not (byte_at exe 3 == 1)) program inside in
                    subst (FitsMemory exe) (ap (λ x. image_from x image) h) (record {
                      has_program = behind;
                      after_header = omega arith;
                      below_limit = high;
                      clear = λ i from to.
                          fits exe entry stack i low high behind (u16-lt exe 20 bytes) guard from
                            to;
                    })))))
