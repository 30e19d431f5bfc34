-- ===== src/Mmu/Owned.antt =====
-- The tables of an address space and the frames that they lie in.
use arm_os.Base.{ℕ, suc, ◌%◌, ◌<◌, ◌≡◌, refl, ap, ◌∙◌, Bool, true, false, ◌||◌, ◌==◌, ok}
use arm_os.Mmu.Entry.{pte_valid, has_table_bit, page_mask}
use arm_os.Mmu.State.{FrameSource, Mmu}

-- What pt.c relies on of the manager of frames: `owned s f` says that the frame `f` is handed out.
-- A frame that is answered is a whole page and was not handed out before; from then on it is, and
-- nothing else changes hands.
pub record IsFrames (b : FrameSource) (owned : b.State → ℕ → Bool) : Type 0 where
  pub fresh :
      (s : b.State) (f : ℕ)
      → (b.alloc_page s).0 ≡ ok f
      → (owned s f ≡ false)
        × (f % 4096 ≡ 0)
        × ((g : ℕ) → owned (b.alloc_page s).1 g ≡ ((g == f) || owned s g))

module _ {b : FrameSource} (owned : b.State → ℕ → Bool) where
  -- Every table lies in an owned frame, and `level` gives its distance from the root: an entry that
  -- is a valid table descriptor leads one level down.
  pub record IsTree (level : ℕ → ℕ) (root : ℕ) (m : Mmu b) : Type 0 where
    pub root_owned : owned m.frames root ≡ true
    pub root_level : level root ≡ 0
    pub down :
        (t i : ℕ)
        → owned m.frames t ≡ true
        → level t < 3
        → pte_valid (m.tables t i) ≡ true
        → has_table_bit (m.tables t i) ≡ true
        → (owned m.frames (page_mask (m.tables t i)) ≡ true)
          × (level (page_mask (m.tables t i)) ≡ suc (level t))
    pub top : (i : ℕ) → pte_valid (m.tables root i) ≡ true → has_table_bit (m.tables root i) ≡ true

  -- Valid entries and owned frames stay.
  pub record Extends (m m' : Mmu b) : Type 0 where
    pub keeps :
        (t i : ℕ)
        → owned m.frames t ≡ true
        → pte_valid (m.tables t i) ≡ true
        → m'.tables t i ≡ m.tables t i
    pub owns : (t : ℕ) → owned m.frames t ≡ true → owned m'.frames t ≡ true

  pub Extends-refl : (m : Mmu b) → Extends m m
  Extends-refl m = record { keeps = λ t i o v. refl; owns = λ t o. o }

  pub Extends-trans : (l m n : Mmu b) → Extends l m → Extends m n → Extends l n
  Extends-trans l m n x y = record {
    keeps = λ t i o v.
        let same = x.keeps t i o v in
        y.keeps t i (x.owns t o) (ap (λ (e : ℕ). pte_valid e) same ∙ v) ∙ same;
    owns = λ t o. y.owns t (x.owns t o);
  }
