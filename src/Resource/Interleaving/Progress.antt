-- ===== src/Resource/Interleaving/Progress.antt =====
-- A goroutine that holds the lock of a handle gives it back, and what its steps do to the handle.
use libvirt_go.Prelude.{
  ℕ, String, Bool, ◌<◌, ◌≤◌, Bool-cases, inl, inr, ◌∷◌, ◌==◌, if◌then◌else◌, arith,
}
use libvirt_go.Memory.{nil}
use libvirt_go.Resource.Interleaving.{
  used, kept, freed, missing, call, r_unlock, w_unlock, Pc, Shared, Move, idle, leaving, is_closed,
  free_leaving, clearing, calling, freeing, is_open, checking, free_closed, free_open, free_missing,
  free_fails, free_succeeds, clear, free_checking,
}

-- The steps that a goroutine still makes with the lock, at most.
abbrev pub left : Pc → ℕ
left idle = 0
left leaving = 1
left free_leaving = 1
left clearing = 2
left (calling op) = 2
left (freeing op) = 3
left (checking op) = 3
left (free_checking op) = 4

-- Steps of one goroutine, with none of another in between.
pub data Run (present : String → Bool) : Shared → Pc → Shared → Pc → Type 0 where
  done : {m : Shared} {p : Pc} → Run present m p m p
  step :
      {m m' n : Shared} {p p' q : Pc}
      → Move present m p m' p'
      → Run present m' p' n q
      → Run present m p n q

module _ (present : String → Bool) (answer : Bool) where
  -- The handle behind an open call, and behind an open release that libvirt answers by `answer`.
  abbrev pub after_call : String → Shared → Shared
  after_call op m = if present op then record m { calls = used m.ptr ∷ m.calls } else m

  abbrev pub after_release : String → Shared → Shared
  after_release op m =
      if present op
      then if answer
        then record { ptr = nil; calls = freed m.ptr ∷ m.calls }
        else record m { calls = kept m.ptr ∷ m.calls }
      else m

  -- The handle when a goroutine that stands somewhere has given back the lock.
  abbrev pub handle_after : Pc → Shared → Shared
  handle_after (checking op) m = if m.ptr == nil then m else after_call op m
  handle_after (calling op) m = after_call op m
  handle_after (free_checking op) m = if m.ptr == nil then m else after_release op m
  handle_after (freeing op) m = after_release op m
  handle_after clearing m = record m { ptr = nil }
  handle_after _ m = m

  calling-Run : (op : String) (m : Shared) → Run present m (calling op) (after_call op m) idle
  calling-Run op m = elim (Bool-cases (present op)) [
    | inl there ↦ rw there (step (call op there) (step r_unlock done))
    | inr not_there ↦ rw not_there (step (missing op not_there) (step r_unlock done))
  ]

  freeing-Run : (op : String) (m : Shared) → Run present m (freeing op) (after_release op m) idle
  freeing-Run op m = elim (Bool-cases (present op)) [
    | inr not_there ↦ rw not_there (step (free_missing op not_there) (step w_unlock done))
    | inl there ↦ elim (Bool-cases answer) [
      | inl succeeds ↦
          rw (there, succeeds) (step (free_succeeds op there) (step clear (step w_unlock done)))
      | inr fails ↦ rw (there, fails) (step (free_fails op there) (step w_unlock done))
    ]
  ]

  leaves : (p : Pc) (m : Shared) → Run present m p (handle_after p m) idle
  leaves idle m = done
  leaves leaving m = step r_unlock done
  leaves free_leaving m = step w_unlock done
  leaves clearing m = step clear (step w_unlock done)
  leaves (calling op) m = calling-Run op m
  leaves (freeing op) m = freeing-Run op m
  leaves (checking op) m = elim (Bool-cases (m.ptr == nil)) [
    | inl gone ↦ rw gone (step (is_closed op (ground (arith, gone))) (step r_unlock done))
    | inr here ↦ rw here (step (is_open op (λ e. ground (arith, here, e))) (calling-Run op m))
  ]
  leaves (free_checking op) m = elim (Bool-cases (m.ptr == nil)) [
    | inl gone ↦ rw gone (step (free_closed op (ground (arith, gone))) (step w_unlock done))
    | inr here ↦ rw here (step (free_open op (λ e. ground (arith, here, e))) (freeing-Run op m))
  ]

Move-left :
    {present : String → Bool} {m m' : Shared} {p p' : Pc}
    → Move present m p m' p'
    → left p' < left p
Move-left (is_closed op g) = omega arith
Move-left mv = omega arith

left-le : (q : Pc) → left q ≤ 4
left-le idle = omega arith
left-le q = omega arith

-- Wherever a goroutine stands inside `objectCall` or `objectFree`, and whichever answer libvirt gives
-- to a release, it can go on by its own steps until it has given the lock back, with the outcome of
-- the two functions: a call through an open handle where the symbol is there, a release and then a
-- nil pointer where libvirt accepts it, and otherwise no change of the pointer. Each step that it can
-- make brings it closer to that, and there are four at most. A C call is taken to return.
pub inside-leaves :
    (present : String → Bool) (answer : Bool) (p : Pc) (m : Shared)
    → Run present m p (handle_after present answer p m) idle
      × ((n : Shared) (q : Pc) → Move present m p n q → left q < left p)
      × (left p ≤ 4)
inside-leaves present answer p m = (leaves present answer p m, (λ n q mv. Move-left mv), left-le p)
