-- ===== src/Mmu/State.antt =====
-- The tables that pt.c reads and writes through the direct map, and the frames that it asks for.
use arm_os.Base.{ℕ, Unit, tt, Result, ok, err, enomem, eexist, update, if◌then◌else◌}
use arm_os.Mmu.Entry.{pte_valid, page_mask, with_descriptor}
use arm_os.Mmu.Cpu.{Cpu}

-- The functions of the `pmm` interface that pt.c calls. The order is always 0, and what `release`
-- returns is not looked at.
pub record FrameSource : Type 1 where
  pub State : Type 0
  pub alloc_page : State → Result ℕ × State
  pub release : (frame : ℕ) → State → State

-- A table is named by its physical address; `tables t i` is its entry `i`.
pub record Mmu (b : FrameSource) : Type 0 where
  pub tables : ℕ → ℕ → ℕ
  pub frames : b.State
  pub cpu : Cpu

module _ {ℓ κ} {S : Type ℓ} {A : Type 0} {B : Type κ} where
  -- What follows a call that returned 0; else the code jumps to its cleanup.
  abbrev pub on_ok : Result A × S → (A → S → Result B × S) → Result B × S
  on_ok (err e, s) next = (err e, s)
  on_ok (ok a, s) next = next a s

module _ {b : FrameSource} where
  unfoldable pub set_entry : (t i e : ℕ) → Mmu b → Mmu b
  set_entry t i e m = record m { tables = update m.tables t (update (m.tables t) i e) }

  -- `kmemset(table, 0, 4096)`.
  unfoldable pub clear_table : (t : ℕ) → Mmu b → Mmu b
  clear_table t m = record m { tables = update m.tables t (λ _. 0) }

  abbrev pub release_frame : (frame : ℕ) → Mmu b → Mmu b
  release_frame frame m = record m { frames = b.release frame m.frames }

  -- `pmm.alloc_page` and the clearing of the frame; any failure becomes ENOMEM.
  unfoldable pub fresh_table : Mmu b → Result ℕ × Mmu b
  unfolding clear_table
  fresh_table m =
      let (r, frames) = b.alloc_page m.frames in
      elim r [
        | err e ↦ (err enomem, record m { frames = frames })
        | ok t ↦ (ok t, clear_table t (record m { frames = frames }))
      ]

  -- The table that entry `i` of `t` points to; a new one is entered where there is none.
  unfoldable pub resolve : (t i : ℕ) → Mmu b → Result ℕ × Mmu b
  unfolding fresh_table set_entry
  resolve t i m =
      if pte_valid (m.tables t i)
      then (ok (page_mask (m.tables t i)), m)
      else on_ok (fresh_table m) (λ new m'. (ok new, set_entry t i (with_descriptor new) m'))

  -- An entry that is not valid yet is written.
  unfoldable pub place : (t i e : ℕ) → Mmu b → Result (Unit {0}) × Mmu b
  unfolding set_entry
  place t i e m = if pte_valid (m.tables t i) then (err eexist, m) else (ok tt, set_entry t i e m)
