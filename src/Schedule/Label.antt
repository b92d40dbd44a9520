-- ===== src/Schedule/Label.antt =====
-- tls13.go: the HKDF label of `SM3HKDFExpandLabel`.
use cnnic_gmtls.Base.{
  ℕ, ◌%◌, ◌≡◌, ◌<◌, sym, ap, ◌∙◌, arith, List, ◌∷◌, ◌++◌, length, take, drop, take-append,
  drop-append,
}
use cnnic_gmtls.Schedule.Hkdf.{label_prefix, hkdf_label}

-- Two lists of one length cut off the front of one list.
append_injective :
    (xs ys us vs : List ℕ) → length xs ≡ length us → xs ++ ys ≡ us ++ vs → (xs ≡ us) × (ys ≡ vs)
append_injective xs ys us vs l e = (
  sym (take-append xs ys)
      ∙ ap (take (length xs)) e
      ∙ ap (λ (n : ℕ). take n (us ++ vs)) l
      ∙ take-append us vs,
  sym (drop-append xs ys)
      ∙ ap (drop (length xs)) e
      ∙ ap (λ (n : ℕ). drop n (us ++ vs)) l
      ∙ drop-append us vs,
)

-- Two calls of HKDF-Expand-Label get the same info only if the lengths, the labels and the
-- contexts are the same, for labels and contexts that the code accepts.
pub hkdf_label_injective :
    (label label' context context' : List ℕ) (n n' : ℕ)
    → length label < 250
    → length label' < 250
    → length context < 256
    → length context' < 256
    → n < 65536
    → n' < 65536
    → hkdf_label label context n ≡ hkdf_label label' context' n'
    → (label ≡ label') × (context ≡ context') × (n ≡ n')
unfolding hkdf_label
hkdf_label_injective label label' context context' n n' l l' c c' k k' e =
    let full : List ℕ = label_prefix ++ label in
    let full' : List ℕ = label_prefix ++ label' in
    let behind : full ++ ((length context % 256) ∷ context)
        ≡ full' ++ ((length context' % 256) ∷ context') =
      ap (drop 3) e in
    let sizes : (n ≡ n') × (length full ≡ length full') = (ground arith, ground arith) in
    let parts = append_injective full _ full' _ sizes.1 behind in
    (ap (drop 6) parts.0, ap (drop 1) parts.1, sizes.0)
