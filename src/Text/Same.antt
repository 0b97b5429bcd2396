-- ===== src/Text/Same.antt =====
-- Equality of texts.
use golang_service_architect.Common.{
  ◌≡◌, ◌≢◌, refl, ap, true, false, [], ◌∷◌, ◌==◌, ==_iff, inl, inr, Bool-cases, length,
}
use golang_service_architect.Text.{Text, same_text}

pub same_text_refl : (t : Text) → same_text t t ≡ true
unfolding same_text
same_text_refl [] = refl
same_text_refl (c ∷ cs) = rw ((==_iff c c).1 refl, same_text_refl cs) refl

pub same_text→eq : (s t : Text) → same_text s t ≡ true → s ≡ t
unfolding same_text
same_text→eq [] [] h = refl
same_text→eq [] (d ∷ ds) h = cc
same_text→eq (c ∷ cs) [] h = cc
same_text→eq (c ∷ cs) (d ∷ ds) h = elim (Bool-cases (c == d)) [
  | inl e ↦ let here : c ≡ d = (==_iff c d).0 e in let there = same_text→eq cs ds (rw e at h) in cc
  | inr e ↦ absurd (let no = rw e at h in cc)
]

pub same_text_ne : (s t : Text) → s ≢ t → same_text s t ≡ false
same_text_ne s t n = elim (Bool-cases (same_text s t)) [
  | inl h ↦ absurd (n (same_text→eq s t h))
  | inr h ↦ h
]

-- Texts of different lengths differ.
pub same_text-length : (s t : Text) → length s ≢ length t → same_text s t ≡ false
same_text-length s t n = same_text_ne s t (λ e. n (ap length e))
