-- ===== src/Datasets/Checks/Numbered.antt =====
-- What the loop of AssembleUpload over the parts accepts.
use self_host.Prelude.{
  ℕ, suc, ◌≡◌, ◌≢◌, ◌>>◌, fail_if, ◌⊎◌, ◌↔◌, refl, ap, inl, inr, Bool, true, false, not, ◌&&◌, List,
  [], ◌∷◌, ==_iff, is_empty, ok, Bool-cases, arith,
}
use self_host.Prelude.Int.{ℤ, pos, negsuc, ltb_ℤ, ◌≤ℤ◌}
use self_host.Datasets.World.{PartRow, invalid_part, eq_ℤ}
use self_host.Datasets.Checks.{check_parts, min_upload_part_size_bytes}

-- The parts have the numbers from `n` on, and each but the last has at least the least size.
unfoldable pub IsNumbered : ℕ → List PartRow → Type 0
IsNumbered n [] = Unit
IsNumbered n (p ∷ ps) =
    (p.part_number ≡ pos n)
    × ((is_empty ps ≡ true) ⊎ (pos min_upload_part_size_bytes ≤ℤ p.size))
    × IsNumbered (suc n) ps

eq_ℤ-pos : (x : ℤ) (n : ℕ) → eq_ℤ x (pos n) ≡ true → x ≡ pos n
unfolding eq_ℤ
eq_ℤ-pos (pos m) n h = ap pos ((==_iff m n).0 h)
eq_ℤ-pos (negsuc m) n h = cc h

eq_ℤ_self : (n : ℕ) → eq_ℤ (pos n) (pos n) ≡ true
unfolding eq_ℤ
eq_ℤ_self n = (==_iff n n).1 refl

size_enough :
    (last : Bool) (x : ℤ)
    → (not last && ltb_ℤ x (pos min_upload_part_size_bytes)) ≡ false
    → (last ≡ true) ⊎ (pos min_upload_part_size_bytes ≤ℤ x)
size_enough true x h = inl refl
size_enough false x h = inr (ground (arith, h))

enough_size :
    (last : Bool) (x : ℤ)
    → (last ≡ true) ⊎ (pos min_upload_part_size_bytes ≤ℤ x)
    → (not last && ltb_ℤ x (pos min_upload_part_size_bytes)) ≡ false
enough_size true x h = refl
enough_size false x (inl h) = cc h
enough_size false x (inr h) = ground (arith, h)

accepted :
    {E : Type 0} (n : ℕ) (ps : List PartRow) → check_parts {E = E} n ps ≡ ok tt → IsNumbered n ps
unfolding check_parts IsNumbered
accepted n [] h = tt
accepted {E} n (p ∷ ps) h = elim (Bool-cases (eq_ℤ p.part_number (pos n))) [
  | inr e ↦ cc (rw e at h)
  | inl e ↦ elim (Bool-cases (not (is_empty ps) && ltb_ℤ p.size (pos min_upload_part_size_bytes))) [
    | inl f ↦ cc (rw (e, f) at h)
    | inr f ↦ (
      eq_ℤ-pos p.part_number n e,
      size_enough (is_empty ps) p.size f,
      accepted {E = E} (suc n) ps (rw (e, f) at h),
    )
  ]
]

accepting :
    {E : Type 0} (n : ℕ) (ps : List PartRow) → IsNumbered n ps → check_parts {E = E} n ps ≡ ok tt
unfolding check_parts IsNumbered
accepting n [] h = refl
accepting n (p ∷ ps) (e, s, h) =
    rw e (rw (eq_ℤ_self n) (rw (enough_size (is_empty ps) p.size s) (accepting (suc n) ps h)))

-- The two tests of AssembleUpload on the parts, that there are some and the loop over them, accept them exactly where there
-- is at least one, they have the numbers from 1 on and each but the last has at least 5 MiB.
pub check_parts_iff :
    (E : Type 0) (ps : List PartRow)
    → ((fail_if (is_empty ps) invalid_part >> check_parts {E = E} 1 ps) ≡ ok tt)
      ↔ ((ps ≢ []) × IsNumbered 1 ps)
check_parts_iff E [] = (λ h. cc h, λ h. absurd (h.0 refl))
check_parts_iff E (p ∷ ps) =
    (λ h. (λ k. cc k, accepted 1 (p ∷ ps) h), λ h. accepting 1 (p ∷ ps) h.1)
