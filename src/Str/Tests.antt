-- ===== src/Str/Tests.antt =====
-- A memory with the text "abc" at 0x100: runs of string.c, and the theorems at concrete inputs.
use arm_os.Base.{ℕ, ◌≡◌, refl, arith, some, ◌==◌, if◌then◌else◌, inl, suc}
use arm_os.Str.Bytes.{Memory, memmove, memchr, search_bytes}
use arm_os.Str.Text.{strlen, strcpy, strstr, match_loop, strstr_loop}
use arm_os.Str.Moving.{moved, memmove-moved}
use arm_os.Str.Copying.{IsText, strlen-IsText, strcpy-moved}

abbrev sample : Memory
sample = λ x. if x == 0x100 then 97 else if x == 0x101 then 98 else if x == 0x102 then 99 else 0

sample-IsText : IsText 0x100 3 sample
sample-IsText = record { below = omega arith; end = refl; chars = λ i l. ground arith }

find_c : memchr 0x100 99 8 sample ≡ 0x102
unfolding memchr search_bytes
find_c = refl

find_bc : strstr 9 0x100 0x101 sample ≡ some 0x101
unfolding strstr strstr_loop match_loop
find_bc = refl

memmove-moved_example : memmove 0x101 0x100 3 sample 0x103 ≡ moved 0x101 0x100 3 sample 0x103
memmove-moved_example = memmove-moved 0x101 0x100 3 0x103 sample (omega arith) (omega arith)

strlen-IsText_example : strlen 9 0x100 sample ≡ some 3
strlen-IsText_example = strlen-IsText 9 0x100 3 sample sample-IsText (omega arith)

strcpy-moved_example :
    (m : Memory) × (strcpy 9 0x80 0x100 sample ≡ some m)
    × ((x : ℕ) → m x ≡ moved 0x80 0x100 (suc 3) sample x)
strcpy-moved_example =
    strcpy-moved 9 0x80 0x100 3 sample sample-IsText (omega arith) (omega arith) (inl (omega arith))
