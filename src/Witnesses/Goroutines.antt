-- ===== src/Witnesses/Goroutines.antt =====
-- Goroutines on one handle, for the properties of Resource/Interleaving.
use libvirt_go.Prelude.{ℕ, [], ◌∷◌, ◌≡◌, refl, arith, ◌<◌, ◌≤◌, String, ◌≢◌, Bool, ◌⊎◌, true}
use libvirt_go.Resource.Interleaving.{
  Pc, idle, checking, calling, leaving, free_checking, Shared, System, Reach, start, later, r_locks,
  moves, is_open, call, assign, used, Move, clearing,
}
use libvirt_go.Resource.Interleaving.Safety.{IsClean, Reach-IsClean, Reach-settled, count_freed}
use libvirt_go.Resource.Interleaving.Progress.{inside-leaves, left, Run, handle_after}
use libvirt_go.Memory.{nil}

-- The library has every symbol.
abbrev all_present : String → Bool
all_present name = true

-- Goroutine 0 has called through the handle and has still its lock.
abbrev reading_pc : ℕ → Pc
reading_pc =
    assign (assign (assign (λ _. idle) 0 (checking "virDomainGetID")) 0 (calling "virDomainGetID"))
      0 leaving

abbrev reading_system : System
reading_system = record { shared = record { ptr = 64; calls = used 64 ∷ [] }; pc = reading_pc }

reading : Reach all_present 64 reading_system
reading =
    later
      (later (later start (r_locks 0 "virDomainGetID" refl (λ j. refl)))
        (moves 0 (is_open "virDomainGetID" (λ e. omega (arith, e)))))
      (moves 0 (call "virDomainGetID" refl))

Reach-IsClean_example : IsClean 64 (used 64 ∷ [])
Reach-IsClean_example = Reach-IsClean reading

reading-ne-clearing : (i : ℕ) → reading_pc i ≢ clearing
reading-ne-clearing i e = absurd (ground (arith, e))

Reach-settled_example :
    ((◌≡◌ {A = ℕ} 64 64) × (count_freed (used 64 ∷ []) ≡ 0))
    ⊎ ((◌≡◌ {A = ℕ} 64 nil) × (count_freed (used 64 ∷ []) ≡ 1))
Reach-settled_example = Reach-settled reading (λ e. omega (arith, e)) reading-ne-clearing

inside-leaves_example :
    Run all_present
      (record { ptr = 64; calls = [] })
      (free_checking "virDomainFree")
      (handle_after all_present true
        (free_checking "virDomainFree")
        (record { ptr = 64; calls = [] }))
      idle
    × ((n : Shared) (q : Pc)
        → Move all_present (record { ptr = 64; calls = [] }) (free_checking "virDomainFree") n q
        → left q < left (free_checking "virDomainFree"))
    × (left (free_checking "virDomainFree") ≤ 4)
inside-leaves_example =
    inside-leaves all_present true (free_checking "virDomainFree") (record { ptr = 64; calls = [] })
