-- ===== src/Strings/Resume/Rounds.antt =====
-- cpu/string.cpp: a round of MOVS, STOS or LODS changes no register but its own.
use cpu_ia32_cpp.Base.{ℕ, ◌≡◌, ap, ◌∙◌, add32, Width}
use cpu_ia32_cpp.Memory.State.{
  Bus, Machine, Outcome, completed, exception, refused, aborted, M, continue,
}
use cpu_ia32_cpp.Memory.Access.{read_mem, write_mem}
use cpu_ia32_cpp.Memory.Keeps.Rules.{Context, context}
use cpu_ia32_cpp.Memory.Keeps.Accesses.{read_mem-Keeps, write_mem-Keeps}
use cpu_ia32_cpp.Strings.Loop.{AddressSize, source_of, dest_of, advance, set_register}
use cpu_ia32_cpp.Strings.Units.{movs_round, stos_round, lods_round}

-- A move of a register of the instruction leaves the part.
abbrev pub Moves : {X : Type 0} → (D : Type 0) → (Context → X) → AddressSize → ℕ → Type 0
unfolding advance
Moves D p a i = (add : ℕ) (m : Machine D) → p (context (advance a i add m)) ≡ p (context m)

-- `p` is a part of the context that moving a register, and loading the accumulator, leave as it is.
module _ {D X : Type 0} (p : Context → X) where
  -- The part after an action, on every outcome.
  abbrev pub Same : Machine D → Machine D → Type 0
  Same m after = p (context after) ≡ p (context m)

  continue-Same :
      {A B : Type 0} (m : Machine D) (o : Outcome A × Machine D) (g : A → M D B)
      → Same m (o.1)
      → ((a : A) (m' : Machine D) → Same m' ((g a m').1))
      → Same m ((continue o g).1)
  continue-Same m (completed a, m') g same rest = rest a m' ∙ same
  continue-Same m (exception vector code, m') g same rest = same
  continue-Same m (refused, m') g same rest = same
  continue-Same m (aborted, m') g same rest = same

  module _ (bus : Bus D) (w : Width) (a : AddressSize) where
    pub movs_round-Same :
        (base add : ℕ) (m : Machine D)
        → Moves D p a 6
        → Moves D p a 7
        → Same m ((movs_round bus w a base add m).1)
    unfolding movs_round advance
    movs_round-Same base add m source dest =
        continue-Same m (read_mem bus w (add32 base (source_of a m)) m.tlb_shift_read m) _
          (ap p ((read_mem-Keeps bus w (add32 base (source_of a m)) m.tlb_shift_read).kept m))
          λ src m'.
            let addr = add32 (m'.seg_base 0) (dest_of a m') in
            continue-Same m' (write_mem bus w addr src m'.tlb_shift_write m') _
              (ap p ((write_mem-Keeps bus w addr src m'.tlb_shift_write).kept m'))
              λ _ m''. dest add (advance a 6 add m'') ∙ source add m''

    pub stos_round-Same :
        (src add : ℕ) (m : Machine D) → Moves D p a 7 → Same m ((stos_round bus w a src add m).1)
    unfolding stos_round advance
    stos_round-Same src add m dest =
        let addr = add32 (m.seg_base 0) (dest_of a m) in
        continue-Same m (write_mem bus w addr src m.tlb_shift_write m) _
          (ap p ((write_mem-Keeps bus w addr src m.tlb_shift_write).kept m)) (λ _ m'. dest add m')

    pub lods_round-Same :
        (base add : ℕ) (m : Machine D)
        → ((value : ℕ) (m' : Machine D) → Same m' (set_register w 0 value m'))
        → Moves D p a 6
        → Same m ((lods_round bus w a base add m).1)
    unfolding lods_round advance
    lods_round-Same base add m loads source =
        continue-Same m (read_mem bus w (add32 base (source_of a m)) m.tlb_shift_read m) _
          (ap p ((read_mem-Keeps bus w (add32 base (source_of a m)) m.tlb_shift_read).kept m))
          λ value m'. source add (set_register w 0 value m') ∙ loads value m'
