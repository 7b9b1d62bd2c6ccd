-- ===== src/File/Read/Window.antt =====
-- A stretch of a file as a list of bytes.
use fast_cfs.Base.{
  ℕ, zero, suc, ◌+◌, ◌≤◌, ◌<◌, ◌≡◌, refl, sym, ap, ap₂, ◌∙◌, List, [], ◌∷◌, ◌++◌, arith, length,
  replicate,
}

-- `n` bytes of the content from `p` on.
abbrev pub window : (ℕ → ℕ) → ℕ → ℕ → List ℕ
window content p zero = []
window content p (suc n) = content p ∷ window content (p + 1) n

pub length-window : (content : ℕ → ℕ) (p n : ℕ) → length (window content p n) ≡ n
length-window content p zero = refl
length-window content p (suc n) = ap suc (length-window content (p + 1) n)

pub window-append :
    (content : ℕ → ℕ) (p m n : ℕ)
    → window content p m ++ window content (p + m) n ≡ window content p (m + n)
window-append content p zero n = ap₂ (window content) (omega arith) (omega arith)
window-append content p (suc m) n =
    ap (λ l. content p ∷ l)
      (ap (λ q. window content (p + 1) m ++ window content q n) (omega arith)
        ∙ window-append content (p + 1) m n)
    ∙ ap (window content p) shift
  where
    shift : suc (m + n) ≡ suc m + n
    shift = omega arith

pub window-zeros :
    (content : ℕ → ℕ) (p n : ℕ)
    → ((i : ℕ) → p ≤ i → i < p + n → content i ≡ 0)
    → replicate n 0 ≡ window content p n
window-zeros content p zero h = refl
window-zeros content p (suc n) h =
    ap₂ ◌∷◌ (sym (h p (omega arith) (omega arith)))
      (window-zeros content (p + 1) n (λ i le lt. h i (omega arith) (omega arith)))
