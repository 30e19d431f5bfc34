-- ===== src/Str/Copying.antt =====
-- `strlen` and `strcpy` of string.c on a string that ends.
use arm_os.Base.{
  ℕ, zero, suc, ◌+◌, ◌<◌, ◌≤◌, ◌≡◌, ◌≢◌, ◌⊎◌, refl, ap, ◌∙◌, arith, true, false, ◌==◌, ltb,
  Bool-cases, inl, inr, u64_mod, add64, update, some,
}
use arm_os.Str.Bytes.{Memory}
use arm_os.Str.Text.{len_loop, strlen, copy_text, strcpy}
use arm_os.Str.Moving.{moved}

-- A string of `k` characters before its end, below 2 ^ 64.
pub record IsText (s k : ℕ) (mem : Memory) : Type 0 where
  pub below : s + k < u64_mod
  pub end : mem (s + k) ≡ 0
  pub chars : (i : ℕ) → i < k → mem (s + i) ≢ 0

len_loop-IsText :
    (fuel len s k : ℕ) (mem : Memory)
    → IsText s k mem
    → len ≤ k
    → k < len + fuel
    → len_loop fuel len s mem ≡ some k
unfolding len_loop
len_loop-IsText zero len s k mem t le f = absurd (omega arith)
len_loop-IsText (suc fuel) len s k mem t le f =
    let end = t.end in
    let below = t.below in
    let plain : add64 s len ≡ s + len = omega arith in
    elim (Bool-cases (ltb len k)) [
      | inl more ↦
          let char = t.chars len (ground arith) in
          let go : (mem (add64 s len) == 0) ≡ false = rw plain (ground arith) in
          rw go (len_loop-IsText fuel (len + 1) s k mem t (ground arith) (omega arith))
      | inr last ↦
          let here : len ≡ k = ground arith in
          let stop : (mem (add64 s len) == 0) ≡ true = rw (plain, here) (ground arith) in
          rw stop (ap some here)
    ]

-- With more fuel than it has characters, `strlen` gives the length of a string.
pub strlen-IsText :
    (fuel s k : ℕ) (mem : Memory) → IsText s k mem → k < fuel → strlen fuel s mem ≡ some k
unfolding strlen
strlen-IsText fuel s k mem t f = len_loop-IsText fuel 0 s k mem t (omega arith) (omega arith)

copy_text-moved :
    (k fuel d src : ℕ) (mem : Memory)
    → IsText src k mem
    → k < fuel
    → d + k < u64_mod
    → (d + k < src) ⊎ (src + k < d)
    → (m : Memory) × (copy_text fuel d src mem ≡ some m)
      × ((x : ℕ) → m x ≡ moved d src (suc k) mem x)
unfolding copy_text
copy_text-moved k zero d src mem t f b a = absurd (omega arith)
copy_text-moved zero (suc fuel) d src mem t f b a =
    let end = t.end in
    let stop : (mem src == 0) ≡ true = ground arith in
    (update mem d 0, rw stop refl, λ x. ground arith)
copy_text-moved (suc k) (suc fuel) d src mem t f b a =
    let end = t.end in
    let below = t.below in
    let first = t.chars 0 (omega arith) in
    let go : (mem src == 0) ≡ false = ground arith in
    let mem' = update mem d (mem src) in
    let rest : IsText (src + 1) k mem' = record {
      below = omega arith;
      end = ground arith;
      chars = λ i l. let char = t.chars (suc i) (omega arith) in ground arith;
    } in
    let d' : add64 d 1 ≡ d + 1 = omega arith in
    let src' : add64 src 1 ≡ src + 1 = omega arith in
    let step : copy_text (suc fuel) d src mem ≡ copy_text fuel (d + 1) (src + 1) mem' =
      rw (go, d', src') refl in
    let (m, e, same) =
      copy_text-moved k fuel (d + 1) (src + 1) mem' rest (omega arith) (omega arith)
        (elim a [ inl p ↦ inl (omega arith) | inr p ↦ inr (omega arith) ]) in
    (m, step ∙ e, λ x. ground (arith, same x))

-- With more fuel than it has characters, and no overlap, `strcpy` ends; it copies the string with its
-- end and changes nothing else.
pub strcpy-moved :
    (fuel dest src k : ℕ) (mem : Memory)
    → IsText src k mem
    → k < fuel
    → dest + k < u64_mod
    → (dest + k < src) ⊎ (src + k < dest)
    → (m : Memory) × (strcpy fuel dest src mem ≡ some m)
      × ((x : ℕ) → m x ≡ moved dest src (suc k) mem x)
unfolding strcpy
strcpy-moved fuel dest src k mem t f b a = copy_text-moved k fuel dest src mem t f b a
