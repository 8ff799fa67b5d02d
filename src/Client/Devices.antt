-- ===== src/Client/Devices.antt =====
-- lib/libflipper.c: the attached devices and the selected one.
use flipper.Prelude.{
  ℕ, ◌≡◌, refl, ◌≢◌, List, [], ◌∷◌, false, ◌==◌, All, Bool-cases, inl, inr, arith,
}
use flipper.Error.{lf_success}
use flipper.Client.{Library, lf_select, lf_get_selected, without, lf_detach}

differs : (y x : ℕ) → (y == x) ≡ false → y ≢ x
differs y x h = λ e. ground arith

without-gone : (x : ℕ) (ys : List ℕ) → All (λ y. y ≢ x) (without x ys)
unfolding without
without-gone x [] = tt
without-gone x (y ∷ ys) = elim (Bool-cases (y == x)) [
  | inl same ↦ rw same (without-gone x ys)
  | inr other ↦ rw other (differs y x other, without-gone x ys)
]

-- When a device that is not NULL is selected and then detached, it is no longer among the attached devices, but it is
-- still the selected one.
lf_select-lf_detach :
    (device : ℕ) (l : Library)
    → (device == 0) ≡ false
    → let l' = (lf_detach device (lf_select device l).1).1 in
      ((lf_detach device (lf_select device l).1).0 ≡ lf_success)
      × All (λ y. y ≢ device) l'.attached
      × (lf_get_selected l' ≡ device)
unfolding lf_select lf_detach lf_get_selected
lf_select-lf_detach device l h =
    rw (h, lf_select, lf_detach) (refl, without-gone device l.attached, refl)
