-- ===== src/Handles/Domain/SendKey.antt =====
-- `Domain.SendKey` of domain.go.
use libvirt_go.Prelude.{
  none, some, List, ℕ, Option, ◌∷◌, ◌≡◌, if◌then◌else◌, All, ltb, ◌<◌, length, Bool-cases, ◌≤◌,
  ◌||◌, inl, String, inr, arith, Option-cases, refl,
}
use libvirt_go.World.{pure, M, World}
use libvirt_go.Errors.{GoError, argument_too_large}
use libvirt_go.Handles.Domain.{domain_status}
use libvirt_go.Native.{NativeApi, Arg, text, buffer, call_int, ptr, num}
use libvirt_go.Resource.{Domain}
use mathlib.Core.List.{[]}
use libvirt_go.Prelude.Int.{pos}

-- The loop over the keycodes: the first that exceeds uint32.
unfoldable too_large : List ℕ → Option ℕ
too_large [] = none
too_large (code ∷ codes) = if ltb 0xffffffff code then some code else too_large codes

-- The array of keycodes, a nil pointer where there are none.
abbrev keycodes : List ℕ → Arg
keycodes [] = text none
keycodes (code ∷ codes) = buffer (code ∷ codes)

module _ {L : Type 0} (api : NativeApi L) where
  pub send_key : Option Domain → ℕ → ℕ → List ℕ → ℕ → M L (Option GoError)
  unfolding too_large
  send_key d code_set hold_time codes flags =
      if ltb 16 (length codes)
      then pure (some (argument_too_large "keycodes"))
      else if ltb 0xffffffff code_set || ltb 0xffffffff hold_time
      then pure (some (argument_too_large "arguments"))
      else elim (too_large codes) [
        | some code ↦ pure (some (argument_too_large "keycode"))
        | none ↦ domain_status api d "virDomainSendKey" λ p. call_int api "virDomainSendKey" (
            ptr p
            ∷ num (pos code_set)
            ∷ num (pos hold_time)
            ∷ keycodes codes
            ∷ num (pos (length codes))
            ∷ num (pos flags)
            ∷ [])
      ]

  too_large-none :
      (codes : List ℕ) → too_large codes ≡ none → All (λ code. code < 0x100000000) codes
  unfolding too_large
  too_large-none [] e = tt
  too_large-none (code ∷ codes) e = elim (Bool-cases (ltb 0xffffffff code)) [
    | inl big ↦ absurd (cc (rw (big, too_large) at e))
    | inr fits ↦ (ground arith, too_large-none codes (rw (fits, too_large) at e))
  ]

  -- `SendKey` with more than 16 keycodes, or with a keycode, a set or a time that is no uint32, fails
  -- before it touches the handle or calls libvirt.
  pub send_key-refuses :
      (d : Option Domain) (code_set hold_time : ℕ) (codes : List ℕ) (flags : ℕ) (w : World L)
      → ¬ (
          (length codes ≤ 16)
          × (code_set < 0x100000000)
          × (hold_time < 0x100000000)
          × All (λ code. code < 0x100000000) codes)
      → (what : String) × (send_key d code_set hold_time codes flags w
          ≡ some (some (argument_too_large what), w))
  unfolding send_key
  send_key-refuses d code_set hold_time codes flags w h =
      elim (Bool-cases (ltb 16 (length codes))) [
        | inl many ↦ ("keycodes", rw (many, send_key) refl)
        | inr few ↦ elim (Bool-cases (ltb 0xffffffff code_set || ltb 0xffffffff hold_time)) [
          | inl wide ↦ ("arguments", rw (few, wide, send_key) refl)
          | inr narrow ↦ elim (Option-cases (too_large codes)) [
            | inr (code, big) ↦ ("keycode", rw (few, narrow, big, send_key) refl)
            | inl fits ↦ absurd (
                h (
                  ground (arith, few),
                  ground (arith, narrow),
                  ground (arith, narrow),
                  too_large-none codes fits,
                ))
          ]
        ]
      ]
