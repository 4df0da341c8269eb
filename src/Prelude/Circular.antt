-- ===== src/Prelude/Circular.antt =====
-- Circular buffers: the elements that an array of `cap` slots holds from index `t` on, going round
-- at `cap`. The ring buffer and the sliding window both read their contents this way.
use Prim.Native.Nat.{ℕ, zero, suc, ◌+◌, ◌-◌, ◌%◌, ◌<◌}
use mathlib.Core.Path.{◌≡◌, refl, ap, ap₂, ◌∙◌, sym}
use mathlib.Core.Logic.{◌≢◌}
use mathlib.Core.List.{List, [], ◌∷◌, ◌++◌}
use native.Mathlib.Nat.{mod-add-mod, mod-eq_of_lt, mod-eq-sub-mod, add-zero}
use native.Mathlib.Decide.{dec_lt}
use native.Mathlib.Omega.{arith}
use capstone_monitor.Prelude.Lists.{length, update, update_self, update-ne}

module _ {ℓ} {A : Type ℓ} (cap : ℕ) where
  abbrev pub circular : (ℕ → A) → ℕ → ℕ → List A
  circular s t zero = []
  circular s t (suc n) = s t ∷ circular s ((t + 1) % cap) n

module _ {ℓ} {A : Type ℓ} (cap : ℕ) (s : ℕ → A) where
  pub length-circular : (t n : ℕ) → length (circular cap s t n) ≡ n
  length-circular t zero = refl
  length-circular t (suc n) = ap suc (length-circular ((t + 1) % cap) n)

  -- `circular` matches on `suc`; the code tests for emptiness.
  pub circular_of_ne_zero :
      (t n : ℕ) → n ≢ 0 → circular cap s t n ≡ s t ∷ circular cap s ((t + 1) % cap) (n - 1)
  circular_of_ne_zero t zero p = absurd (p refl)
  circular_of_ne_zero t (suc n) p = ap (λ k. s t ∷ circular cap s ((t + 1) % cap) k) (omega arith)

  step-mod : (t n : ℕ) → ((t + 1) % cap + n) % cap ≡ (t + suc n) % cap
  step-mod t n = rw mod-add-mod (ap (λ k. k % cap) (omega arith))

  -- One more element is taken at the far end.
  pub circular-suc :
      (t n : ℕ) → t < cap → circular cap s t (suc n) ≡ circular cap s t n ++ s ((t + n) % cap) ∷ []
  circular-suc t zero h = ap (λ i. s i ∷ []) (rw (add-zero, mod-eq_of_lt h))
  circular-suc t (suc n) h =
      ap (λ r. s t ∷ r)
        (circular-suc ((t + 1) % cap) n (omega arith)
          ∙ ap (λ i. circular cap s ((t + 1) % cap) n ++ s i ∷ []) (step-mod t n))

-- Fewer than `cap` steps round the buffer do not come back to the start.
pub add-mod-ne : (cap t n : ℕ) → t < cap → suc n < cap → (t + suc n) % cap ≢ t
add-mod-ne cap t n ht hn = elim (dec_lt (t + suc n) cap) [
  | yes p ↦ omega (arith, mod-eq_of_lt p)
  | no p ↦ omega (
    arith,
    mod-eq-sub-mod {n = t + suc n} {m = cap} (omega arith),
    mod-eq_of_lt {n = t + suc n - cap} {m = cap} (omega arith),
  )
]

module _ {ℓ} {A : Type ℓ} (cap : ℕ) (s : ℕ → A) where
  -- A write to the slot just past the elements does not touch them.
  pub circular-update :
      (t n h : ℕ) (a : A)
      → t < cap
      → n < cap
      → h ≡ (t + n) % cap
      → circular cap (update s h a) t n ≡ circular cap s t n
  circular-update t zero h a ht hn e = refl
  circular-update t (suc n) h a ht hn e =
      ap₂ ◌∷◌ (update-ne s a (rw e (add-mod-ne cap t n ht hn))) (
        circular-update ((t + 1) % cap) n h a (omega arith) (omega arith)
          (e ∙ sym (step-mod cap s t n)))

  -- So a write there extends the elements by the value written.
  pub circular-write :
      (t n h : ℕ) (a : A)
      → t < cap
      → n < cap
      → h ≡ (t + n) % cap
      → circular cap (update s h a) t (suc n) ≡ circular cap s t n ++ a ∷ []
  circular-write t n h a ht hn e =
      circular-suc cap (update s h a) t n ht
      ∙ ap₂ (λ r x. r ++ x ∷ []) (circular-update t n h a ht hn e) (rw (← e) (update_self s h a))
