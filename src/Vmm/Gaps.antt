-- ===== src/Vmm/Gaps.antt =====
-- `find_unmapped_area` of vmm.c ends, and what it answers is free.
mod Measure
use native.Mathlib.Decide.{ℕ_discrete}
use arm_os.Base.{
  ℕ, zero, suc, ◌+◌, ◌*◌, ◌-◌, ◌/◌, ◌%◌, ◌<◌, ◌≤◌, ◌≡◌, refl, ap, sym, ◌∙◌, arith, Option, none,
  some, false, if◌then◌else◌, ◌||◌, ◌==◌, ltb, leb, inl, inr, ◌⊎◌, Unit, u64_mod, Option-cases,
  Bool-cases, add64, sub64, align_up,
}
use arm_os.Vmm.Area.{Area, area_end, user_space_max, kernel_space_min}
use arm_os.Vmm.Tree.{Tree, leaf, node, node_count}
use arm_os.Vmm.State.{Space}
use arm_os.Vmm.Space.{find_vma, probe_loop, scan_loop, start_address, find_unmapped_area}
use arm_os.Vmm.Sorted.{area_at, Within, area_of_pair}
use arm_os.Vmm.Removed.{Holds, Holds-bounds}
use arm_os.Vmm.Lookup.{find_vma-Holds, find_vma-eq, find_vma-tree}
use arm_os.Vmm.Gaps.Measure.{count_above, count_above-le, count_above-lt}

-- Every area starts at a page and has whole pages.
abbrev pub InPages : Tree → Type 0
InPages leaf = Unit
InPages (node l id a r) = (a.base % 4096 ≡ 0) × (a.size % 4096 ≡ 0) × InPages l × InPages r

area_at-page : (y : ℕ) (t : Tree) → InPages t → area_at y t ≡ area_at (y / 4096 * 4096) t
unfolding area_at
area_at-page y leaf w = refl
area_at-page y (node l id a r) w = ground (arith, area_at-page y l w.2, area_at-page y r w.3)

-- What the probes of a range have found out.
abbrev Probed : (probe limit : ℕ) → Tree → Option (ℕ × Area) → Type 0
Probed probe limit t none = (y : ℕ) → probe ≤ y → y < limit → y % 4096 ≡ 0 → area_at y t ≡ none
Probed probe limit t (some (id, a)) = Holds id a t × (probe < a.base + a.size)

Probed-step :
    (probe limit : ℕ) (t : Tree) (r : Option (ℕ × Area))
    → probe % 4096 ≡ 0
    → area_at probe t ≡ none
    → Probed (probe + 4096) limit t r
    → Probed probe limit t r
Probed-step probe limit t none al here h =
    λ y p q m. elim (ℕ_discrete y probe) [ yes e ↦ rw e here | no e ↦ h y (omega arith) q m ]
Probed-step probe limit t (some (id, a)) al here h = (h.0, omega arith)

probe_loop-tree :
    (limit k probe : ℕ) (s : Space) → (probe_loop k probe limit s).1.vma_head ≡ s.vma_head
unfolding probe_loop
probe_loop-tree limit zero probe s = refl
probe_loop-tree limit (suc k) probe s =
    ground (
      arith,
      find_vma-tree probe s,
      probe_loop-tree limit k (add64 probe 4096) (find_vma probe s).1,
    )

module _ (hi limit : ℕ) (bound : hi + 4096 ≤ u64_mod) (small : limit + 4096 ≤ u64_mod) where
  probe_loop-Probed :
      (k probe : ℕ) (s : Space)
      → Within 0 hi s.vma_head
      → probe % 4096 ≡ 0
      → limit ≤ probe + k * 4096
      → Probed probe limit s.vma_head (probe_loop k probe limit s).0
  unfolding probe_loop
  probe_loop-Probed zero probe s w al e = λ y p q m. absurd (omega arith)
  probe_loop-Probed (suc k) probe s w al e = elim (Bool-cases (ltb probe limit)) [
    | inr stop ↦ rw stop (λ y p q m. absurd (ground arith))
    | inl go ↦ elim (Option-cases (find_vma probe s).0) [
      | inr ((id, a), hit) ↦
          let (held, c) = find_vma-Holds probe s hit in
          let bounds = Holds-bounds id 0 hi a s.vma_head w held in
          rw (go, hit, probe_loop) (held, ground (arith, bounds))
      | inl miss ↦
          let t = (find_vma probe s).1 in
          let tree = find_vma-tree probe s in
          let here = find_vma-eq probe 0 hi s (omega arith) w in
          let next : add64 probe 4096 ≡ probe + 4096 = ground arith in
          let ih =
            probe_loop-Probed k (add64 probe 4096) t (rw tree w) (ground arith)
              (ground (arith, next)) in
          rw (go, miss, probe_loop, next)
            (Probed-step probe limit s.vma_head _ al (sym here ∙ ap area_of_pair miss)
              (rw (tree, next) at ih))
    ]
  ]

-- What the scan answers is 0, or a page address from which on the range ends by the limit and is free.
abbrev pub IsGap : (max_limit sz : ℕ) → Tree → ℕ → Type 0
IsGap max_limit sz t r =
    (r ≡ 0)
    ⊎ ((r % 4096 ≡ 0)
        × (r + sz ≤ max_limit + 1)
        × ((y : ℕ) → r ≤ y → y < r + sz → area_at y t ≡ none))

module _ (hi max_limit sz : ℕ) (bound : hi + 4096 ≤ u64_mod)
    (small : max_limit + 1 + 4096 ≤ u64_mod) (pos : 0 < sz) (pages : sz % 4096 ≡ 0) where
  scan_loop-IsGap :
      (k addr : ℕ) (s : Space)
      → Within 0 hi s.vma_head
      → InPages s.vma_head
      → addr % 4096 ≡ 0
      → count_above addr s.vma_head < k
      → (r : ℕ) × ((scan_loop k addr max_limit sz s).0 ≡ some r) × IsGap max_limit sz s.vma_head r
  unfolding scan_loop
  scan_loop-IsGap zero addr s w i al m = absurd (omega arith)
  scan_loop-IsGap (suc k) addr s w i al m =
      elim (Bool-cases (ltb max_limit addr || ltb (add64 (sub64 max_limit addr) 1) sz)) [
        | inl stop ↦ rw stop (0, refl, inl refl)
        | inr go ↦
            let room : addr + sz ≤ max_limit + 1 = ground arith in
            let limit = add64 addr sz in
            let plain : limit ≡ addr + sz = omega arith in
            let probed =
              probe_loop-Probed hi limit bound (omega arith) (suc (sz / 4096)) addr s w al
                (omega arith) in
            let u = (probe_loop (suc (sz / 4096)) addr limit s).1 in
            let tree = probe_loop-tree limit (suc (sz / 4096)) addr s in
            elim (Option-cases (probe_loop (suc (sz / 4096)) addr limit s).0) [
              | inl free ↦
                  let clear = rw free at probed in
                  rw (go, free, scan_loop)
                    (
                      addr,
                      refl,
                      inr (
                        al,
                        room,
                        λ y p q.
                            area_at-page y s.vma_head i
                            ∙ clear (y / 4096 * 4096) (omega arith) (omega arith) (omega arith),
                      ),
                    )
              | inr ((id, a), hit) ↦
                  let (held, above) = rw hit at probed in
                  let bounds = Holds-bounds id 0 hi a s.vma_head w held in
                  let next = align_up (area_end a) 4096 in
                  let past : a.base + a.size ≤ next = omega (arith, bounds) in
                  let less = count_above-lt addr next id a s.vma_head held above past in
                  let ih =
                    scan_loop-IsGap k next u (rw tree w) (rw tree i) (omega arith)
                      (rw tree (omega (arith, less))) in
                  rw (go, hit, scan_loop) (ih.0, ih.1, rw tree at ih.2)
            ]
      ]

IsGap-limit : (m n sz : ℕ) (t : Tree) (r : ℕ) → m ≡ n → IsGap m sz t r → IsGap n sz t r
IsGap-limit m n sz t r e g = rw e at g

-- In a space whose areas are disjoint, whole pages and end 4096 bytes below 2 ^ 64, a search from a
-- user address for whole pages ends within its fuel: it answers 0 or a page address from which on the
-- range ends by the user limit and no address is in an area.
pub find_unmapped_area-IsGap :
    (hi hint sz : ℕ) (s : Space)
    → hi + 4096 ≤ u64_mod
    → Within 0 hi s.vma_head
    → InPages s.vma_head
    → hint < 0xFFFF_8000_0000_0000
    → 0 < sz
    → sz % 4096 ≡ 0
    → (r : ℕ) × ((find_unmapped_area hint sz s).0 ≡ some r) × IsGap 0x7FFF_FFFF_F000 sz s.vma_head r
unfolding find_unmapped_area
find_unmapped_area-IsGap hi hint sz s bound w i user pos pages =
    let some_bytes : (sz == 0) ≡ false = ground arith in
    let limit = if leb kernel_space_min hint then u64_mod - 1 else user_space_max in
    let user_limit : limit ≡ user_space_max = ground arith in
    let start = start_address hint in
    let found =
      scan_loop-IsGap hi limit sz bound (omega (arith, user_limit)) pos pages
        (suc (node_count s.vma_head)) start s w i (omega arith)
        (omega (arith, count_above-le start s.vma_head)) in
    rw some_bytes
      (found.0, found.1, IsGap-limit limit user_space_max sz s.vma_head found.0 user_limit found.2)

scan_loop-tree :
    (max_limit sz k addr : ℕ) (s : Space)
    → (scan_loop k addr max_limit sz s).1.vma_head ≡ s.vma_head
unfolding scan_loop
scan_loop-tree max_limit sz zero addr s = refl
scan_loop-tree max_limit sz (suc k) addr s =
    elim (Bool-cases (ltb max_limit addr || ltb (add64 (sub64 max_limit addr) 1) sz)) [
      | inl stop ↦ rw stop refl
      | inr go ↦
          let probes = probe_loop (suc (sz / 4096)) addr (add64 addr sz) s in
          let tree = probe_loop-tree (add64 addr sz) (suc (sz / 4096)) addr s in
          elim (Option-cases probes.0) [
            | inl free ↦ rw (go, free, scan_loop) tree
            | inr ((id, a), hit) ↦
                rw (go, hit, scan_loop)
                  (scan_loop-tree max_limit sz k (align_up (area_end a) 4096) probes.1 ∙ tree)
          ]
    ]

pub find_unmapped_area-tree :
    (hint sz : ℕ) (s : Space) → (find_unmapped_area hint sz s).1.vma_head ≡ s.vma_head
unfolding find_unmapped_area
find_unmapped_area-tree hint sz s = elim (Bool-cases (sz == 0)) [
  | inl none_asked ↦ rw none_asked refl
  | inr some_asked ↦ rw some_asked (
      scan_loop-tree (if leb kernel_space_min hint then u64_mod - 1 else user_space_max) sz
        (suc (node_count s.vma_head)) (start_address hint) s)
]
