-- ===== src/Pic/Priority.antt =====
-- The priority order of the requests that `pic_internal_update` searches.
use cpu_ia32_cpp.Base.{
  not8, ℕ, ◌+◌, ◌-◌, ◌%◌, ◌<◌, bit_and, ◌≡◌, refl, ap, ap₂, ◌∙◌, Bool, true, false, arith, ◌==◌,
  int_of, min,
}
use cpu_ia32_cpp.Base.Bits.{bit_at, bit_at-lt, bit_at-bit_and, bit_and-lt}
use cpu_ia32_cpp.Pic.State.{Controller, IsController}
use cpu_ia32_cpp.Pic.Update.{rol}
use cpu_ia32_cpp.Pic.Scan.{test, IsFirst}
use cpu_ia32_cpp.Pic.Bits.{test_bit, bit_at-not8, bit_at-rol, rol-lt}

-- The level at place `i` of the priority order; place 0 is the highest.
abbrev pub level : Controller → ℕ → ℕ
level c i = (c.priority_base + 1 + i) % 8

-- 1 if the level is requested and not masked.
abbrev pub requests : Controller → ℕ → ℕ
requests c n = min (bit_at n c.irr) (1 - bit_at n c.imr)

abbrev pub in_service : Controller → ℕ → ℕ
in_service c n = bit_at n c.isr

abbrev pub special_mask : Controller → Bool
special_mask c = bit_and (c.ocw 3) 0x60 == 0x60

-- A level before the chosen one: in special mask mode it has no request outside service, and
-- otherwise neither a request nor an interrupt in service.
abbrev pub Passed : Bool → ℕ → ℕ → Type 0
Passed true request service = min request (1 - service) ≡ 0
Passed false request service = (request ≡ 0) × (service ≡ 0)

pub record IsHighest (c : Controller) (i : ℕ) : Type 0 where
  pub in_range : i < 8
  pub requested : requests c (level c i) ≡ 1
  pub not_served : in_service c (level c i) ≡ 0
  pub passed :
      (k : ℕ) → k < i → Passed (special_mask c) (requests c (level c k)) (in_service c (level c k))

module _ (c : Controller) (v : IsController c) where
  abbrev pub unmasked : ℕ
  unmasked = bit_and c.irr (not8 c.imr)

  unmasked-lt : unmasked < 256
  unmasked-lt = bit_and-lt 8 c.irr (not8 c.imr) (omega arith)

  rotated_request :
      (k : ℕ) → k < 8 → bit_at k (rol unmasked c.priority_base) ≡ requests c (level c k)
  rotated_request k h =
      bit_at-rol c.priority_base k unmasked v.base_fits h unmasked-lt
      ∙ bit_at-bit_and (level c k) c.irr (not8 c.imr)
      ∙ ap (min (bit_at (level c k) c.irr)) (bit_at-not8 (level c k) c.imr (omega arith) v.imr_fits)

  rotated_service :
      (k : ℕ) → k < 8 → bit_at k (rol c.isr c.priority_base) ≡ in_service c (level c k)
  rotated_service k h = bit_at-rol c.priority_base k c.isr v.base_fits h v.isr_fits

  abbrev pub rot : ℕ
  rot = rol unmasked c.priority_base

  abbrev pub rot_isr : ℕ
  rot_isr = rol c.isr c.priority_base

  -- What the two loops test at place `k`.
  test-rot : (k : ℕ) → k < 8 → int_of (test rot k) ≡ requests c (level c k)
  test-rot k h = test_bit k rot h (rol-lt unmasked c.priority_base) ∙ rotated_request k h

  test_isr : (k : ℕ) → k < 8 → int_of (test rot_isr k) ≡ in_service c (level c k)
  test_isr k h = test_bit k rot_isr h (rol-lt c.isr c.priority_base) ∙ rotated_service k h

  abbrev pub rot_special : ℕ
  rot_special = bit_and rot (not8 rot_isr)

  test_special :
      (k : ℕ)
      → k < 8
      → int_of (test rot_special k) ≡ min (requests c (level c k)) (1 - in_service c (level c k))
  test_special k h =
      test_bit k rot_special h (bit_and-lt 8 rot (not8 rot_isr) (omega arith))
      ∙ bit_at-bit_and k rot (not8 rot_isr)
      ∙ ap₂ min (rotated_request k h) (
          bit_at-not8 k rot_isr h (rol-lt c.isr c.priority_base)
          ∙ ap (λ (t : ℕ). 1 - t) (rotated_service k h))

  pub IsFirst-IsHighest_normal :
      (i : ℕ)
      → special_mask c ≡ false
      → IsFirst (test rot_isr) (test rot) 0 i
      → i < 8
      → IsHighest c i
  IsFirst-IsHighest_normal i mode f h = record {
    in_range = h;
    requested = ground (arith, test-rot i h, f.hits);
    not_served = ground (arith, test_isr i h, f.free);
    passed = λ k p. rw mode (
      ground (arith, test-rot k (omega arith), f.before k (omega arith) p),
      ground (arith, test_isr k (omega arith), f.before k (omega arith) p),
    );
  }

  pub IsHighest-IsFirst_normal :
      (i : ℕ) → special_mask c ≡ false → IsHighest c i → IsFirst (test rot_isr) (test rot) 0 i
  IsHighest-IsFirst_normal i mode f = record {
    lower = omega arith;
    hits = ground (arith, test-rot i f.in_range, f.requested);
    free = ground (arith, test_isr i f.in_range, f.not_served);
    before = λ k _ p.
        let q : Passed false (requests c (level c k)) (in_service c (level c k)) =
          rw mode at (f.passed k p) in
        (
          ground (arith, test-rot k (omega (arith, f.in_range)), q),
          ground (arith, test_isr k (omega (arith, f.in_range)), q),
        );
  }

  pub IsFirst-IsHighest_special :
      (i : ℕ)
      → special_mask c ≡ true
      → IsFirst (λ _. false) (test rot_special) 0 i
      → i < 8
      → IsHighest c i
  IsFirst-IsHighest_special i mode f h = record {
    in_range = h;
    requested = ground (arith, test_special i h, f.hits, bit_at-lt (level c i) c.irr);
    not_served = ground (arith, test_special i h, f.hits, bit_at-lt (level c i) c.isr);
    passed =
        λ k p. rw mode (ground (arith, test_special k (omega arith), f.before k (omega arith) p));
  }

  pub IsHighest-IsFirst_special :
      (i : ℕ) → special_mask c ≡ true → IsHighest c i → IsFirst (λ _. false) (test rot_special) 0 i
  IsHighest-IsFirst_special i mode f = record {
    lower = omega arith;
    hits = ground (arith, test_special i f.in_range, f.requested, f.not_served);
    free = refl;
    before = λ k _ p.
        let q : Passed true (requests c (level c k)) (in_service c (level c k)) =
          rw mode at (f.passed k p) in
        (ground (arith, test_special k (omega (arith, f.in_range)), q), refl);
  }
