-- ===== src/Text/Trim.antt =====
-- When trimming and encoding leave a text as it is.
use golang_service_architect.Common.{
  ℕ, ◌≡◌, refl, ◌<◌, ◌≤◌, false, [], ◌∷◌, ◌++◌, All, lt→ltb, arith,
}
use golang_service_architect.Text.{Text, is_space, trim_right, trim_space, encode}

-- A printable ASCII character is no space.
pub is_space-printable : (c : ℕ) → 33 ≤ c → c < 127 → is_space c ≡ false
unfolding is_space
is_space-printable c h k = ground arith

-- The first and the last character are no space.
abbrev pub StartsSolid : Text → Type 0
StartsSolid [] = ⊥
StartsSolid (c ∷ cs) = is_space c ≡ false

abbrev pub EndsSolid : Text → Type 0
EndsSolid [] = ⊥
EndsSolid (c ∷ []) = is_space c ≡ false
EndsSolid (c ∷ cs) = EndsSolid cs

pub EndsSolid-append : (xs ys : Text) → EndsSolid ys → EndsSolid (xs ++ ys)
EndsSolid-append [] ys h = h
EndsSolid-append (x ∷ []) [] h = absurd h
EndsSolid-append (x ∷ []) (y ∷ ys) h = h
EndsSolid-append (x ∷ x' ∷ xs) ys h = EndsSolid-append (x' ∷ xs) ys h

trim_right-solid : (s : Text) → EndsSolid s → trim_right s ≡ s
unfolding trim_right
trim_right-solid [] h = refl
trim_right-solid (c ∷ []) h = rw h
trim_right-solid (c ∷ d ∷ s) h = rw (trim_right-solid (d ∷ s) h)

pub trim_space-solid : (s : Text) → StartsSolid s → EndsSolid s → trim_space s ≡ s
unfolding trim_space
trim_space-solid [] h k = refl
trim_space-solid (c ∷ s) h k = rw h (trim_right-solid (c ∷ s) k)

pub encode-ascii : (s : Text) → All (λ c. c < 128) s → encode s ≡ s
unfolding encode
encode-ascii [] h = refl
encode-ascii (c ∷ s) h = rw (lt→ltb c 128 h.0, encode-ascii s h.1)
