-- ===== src/Memory/Keeps/Rules.antt =====
-- The registers, the lazy flags, the segments, the privilege level and the instruction pointer
-- (`m_phys_eip + m_eip_phys_bias`), which an access to memory leaves as they are until it returns or
-- calls `cpu_exception`, with the rules for the functions of cpu/access.cpp and cpu/mmu.cpp.
use cpu_ia32_cpp.Base.{ℕ, ◌≡◌, refl, ◌∙◌, Bool, true, false, if◌then◌else◌, if-either}
use cpu_ia32_cpp.Memory.State.{
  Machine, Outcome, completed, exception, refused, aborted, M, continue, pure, raise, ◌>>=◌, ◌>>◌,
}

pub record Context : Type 0 where
  pub reg32 : ℕ → ℕ
  pub lr : ℕ
  pub lop1 : ℕ
  pub lop2 : ℕ
  pub laux : ℕ
  pub eflags : ℕ
  pub cpl : ℕ
  pub seg : ℕ → ℕ
  pub seg_base : ℕ → ℕ
  pub seg_limit : ℕ → ℕ
  pub seg_access : ℕ → ℕ
  pub esp_mask : ℕ
  pub phys_eip : ℕ
  pub eip_phys_bias : ℕ
  pub tlb_shift_read : ℕ
  pub tlb_shift_write : ℕ

module _ {D : Type 0} where
  abbrev pub context : Machine D → Context
  context m = record {
    reg32 = m.cpu.reg32;
    lr = m.cpu.lr;
    lop1 = m.cpu.lop1;
    lop2 = m.cpu.lop2;
    laux = m.cpu.laux;
    eflags = m.cpu.eflags;
    cpl = m.cpl;
    seg = m.seg;
    seg_base = m.seg_base;
    seg_limit = m.seg_limit;
    seg_access = m.seg_access;
    esp_mask = m.esp_mask;
    phys_eip = m.phys_eip;
    eip_phys_bias = m.eip_phys_bias;
    tlb_shift_read = m.tlb_shift_read;
    tlb_shift_write = m.tlb_shift_write;
  }

  abbrev pub IsKept : Machine D → Machine D → Type 0
  IsKept m after = context after ≡ context m

  -- At the return of an access, and at its call of `cpu_exception`, which starts the handler.
  abbrev pub IsPrecise : {A : Type 0} → Machine D → Outcome A × Machine D → Type 0
  IsPrecise m (completed a, returned) = IsKept m returned
  IsPrecise m (exception vector code, at_call) = IsKept m at_call
  IsPrecise m (refused, returned) = IsKept m returned
  IsPrecise m (aborted, stopped) = IsKept m stopped

  pub IsKept-IsPrecise :
      {A : Type 0} (m : Machine D) (o : Outcome A × Machine D) → IsKept m (o.1) → IsPrecise m o
  IsKept-IsPrecise m (completed a, returned) kept = kept
  IsKept-IsPrecise m (exception vector code, at_call) kept = kept
  IsKept-IsPrecise m (refused, returned) kept = kept
  IsKept-IsPrecise m (aborted, stopped) kept = kept

  pub record Keeps {A : Type 0} (f : M D A) : Type 0 where
    pub kept : (m : Machine D) → IsKept m ((f m).1)

  pub continue-IsKept :
      {A B : Type 0} (m : Machine D) (o : Outcome A × Machine D) (g : A → M D B)
      → IsKept m (o.1)
      → ((a : A) → IsKept (o.1) ((g a (o.1)).1))
      → IsKept m ((continue o g).1)
  continue-IsKept m (completed a, m') g kept rest = rest a ∙ kept
  continue-IsKept m (exception vector code, m') g kept rest = kept
  continue-IsKept m (refused, m') g kept rest = kept
  continue-IsKept m (aborted, m') g kept rest = kept

  pub bind-Keeps :
      {A B : Type 0} (f : M D A) (g : A → M D B)
      → Keeps f
      → ((a : A) → Keeps (g a))
      → Keeps (f >>= g)
  bind-Keeps f g first rest = record {
    kept = λ m. continue-IsKept m (f m) g (first.kept m) (λ a. (rest a).kept ((f m).1));
  }

  pub then-Keeps :
      {B : Type 0} (f : M D (Unit {0})) (g : M D B) → Keeps f → Keeps g → Keeps (f >> g)
  then-Keeps f g first rest = bind-Keeps f (λ _. g) first (λ _. rest)

  pub pure-Keeps : {A : Type 0} (a : A) → Keeps (pure a)
  pure-Keeps a = record { kept = λ m. refl }

  pub raise-Keeps : {A : Type 0} (vector code : ℕ) → Keeps {A = A} (raise vector code)
  raise-Keeps vector code = record { kept = λ m. refl }

  pub if-Keeps :
      {A : Type 0} (b : Bool) (f g : M D A) → Keeps f → Keeps g → Keeps (if b then f else g)
  if-Keeps true f g first second = first
  if-Keeps false f g first second = second

  -- A result, or a state, computed by a test.
  pub if_result-IsKept :
      {A : Type 0} (b : Bool) (m : Machine D) (taken other : Outcome A × Machine D)
      → IsKept m (taken.1)
      → IsKept m (other.1)
      → IsKept m ((if b then taken else other).1)
  if_result-IsKept b m taken other first second =
      if-either (λ (o : Outcome _ × Machine D). IsKept m (o.1)) b (λ _. first) (λ _. second)

  pub if-IsKept :
      (b : Bool) (m taken other : Machine D)
      → IsKept m taken
      → IsKept m other
      → IsKept m (if b then taken else other)
  if-IsKept b m taken other first second = if-either (IsKept m) b (λ _. first) (λ _. second)
