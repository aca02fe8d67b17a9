-- ===== src/DomainStats/Devices/Order.antt =====
-- The sort at the end: the same devices in ascending order.
use libvirt_go.Prelude.{
  ℕ, ◌<◌, ◌≡◌, refl, List, [], ◌∷◌, none, leb, All, arith, Bool-cases, inl, inr,
}
use libvirt_go.DomainStats.Devices.{Device, insert, sort}
use libvirt_go.DomainStats.Devices.Laws.{find, IsDistinct, IsAscending}

module _ {C : Type 0} where
  find-insert :
      (j : ℕ) (d : Device C) (ds : List (Device C)) → find j (insert d ds) ≡ find j (d ∷ ds)
  unfolding find insert
  find-insert j d [] = refl
  find-insert j d (e ∷ ds) = ground (arith, find-insert j d ds)

  pub find-sort : (j : ℕ) (ds : List (Device C)) → find j (sort ds) ≡ find j ds
  unfolding find sort
  find-sort j [] = refl
  find-sort j (d ∷ ds) = ground (arith, find-insert j d (sort ds), find-sort j ds)

  All-insert :
      (n : ℕ) (d : Device C) (ds : List (Device C))
      → n < d.index
      → All (λ e. n < e.index) ds
      → All (λ e. n < e.index) (insert d ds)
  unfolding insert
  All-insert n d [] h a = (h, tt)
  All-insert n d (e ∷ ds) h a = elim (Bool-cases (leb d.index e.index)) [
    | inl s ↦ rw s (h, a)
    | inr s ↦ rw s (a.0, All-insert n d ds h a.1)
  ]

  All-lt :
      (m n : ℕ) (ds : List (Device C))
      → m < n
      → All (λ e. n < e.index) ds
      → All (λ e. m < e.index) ds
  All-lt m n [] h a = tt
  All-lt m n (e ∷ ds) h a = (omega arith, All-lt m n ds h a.1)

  insert-IsAscending :
      (d : Device C) (ds : List (Device C))
      → find d.index ds ≡ none
      → IsAscending ds
      → IsAscending (insert d ds)
  unfolding insert find
  insert-IsAscending d [] h a = (tt, tt)
  insert-IsAscending d (e ∷ ds) h a = elim (Bool-cases (leb d.index e.index)) [
    | inl s ↦ rw s (
      let lt : d.index < e.index = ground (arith, s, h) in (lt, All-lt d.index e.index ds lt a.0),
      a,
    )
    | inr s ↦ rw s (
      All-insert e.index d ds (ground (arith, s)) a.0,
      insert-IsAscending d ds (ground (arith, h)) a.1,
    )
  ]

  pub sort-IsAscending : (ds : List (Device C)) → IsDistinct ds → IsAscending (sort ds)
  unfolding sort
  sort-IsAscending [] h = tt
  sort-IsAscending (d ∷ ds) h =
      insert-IsAscending d (sort ds) (rw (find-sort d.index ds) h.0) (sort-IsAscending ds h.1)
