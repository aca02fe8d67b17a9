-- ===== src/TypedParams/DomainParams.antt =====
-- The typed parameters of a domain: `getDomainTypedParameters`, `setDomainTypedParameters` and the
-- methods over them.
use libvirt_go.Prelude.{
  none, some, Option, String, ℕ, List, Bool, if◌then◌else◌, ◌∷◌, ltb, [], ◌==◌, true, false,
}
use libvirt_go.World.{◌>>=◌, pure, ◌>>◌, M, change_memory, read_memory}
use libvirt_go.Errors.{
  GoError, closed, Result, err, count_changed, negative_count, ok, allocation_failed,
}
use libvirt_go.Native.{NativeApi, invoke, call_int, ptr, num, out, written, api_free}
use libvirt_go.Memory.{Ptr, nil, calloc_params}
use libvirt_go.Resource.{Domain, domain_call, status}
use libvirt_go.Prelude.Int.{ℤ, negsuc, pos, is_negative, eqb_ℤ}
use libvirt_go.TypedParams.{TypedParameter}
use libvirt_go.TypedParams.Marshal.{encode_typed_parameters, failed, free_typed_parameters, encoded}
use libvirt_go.Prelude.Words.{int32_of, bits32}
use libvirt_go.TypedParams.Decode.{decode_typed_parameters}

module _ {L : Type 0} (api : NativeApi L) where
  -- What a count that the second call left makes of the array with `n` elements.
  unfoldable checked : Ptr → ℕ → ℤ → M L (Result (List TypedParameter))
  checked memory n (negsuc k) = pure (err (count_changed (pos n) (negsuc k)))
  checked memory n (pos k) =
      if ltb n k
      then pure (err (count_changed (pos n) (pos k)))
      else read_memory (decode_typed_parameters memory (pos k))

  -- The second call, into the allocated array, which is released behind it. Its `count` is a
  -- variable that the call may set.
  unfoldable fill :
      Option Domain
      → String
      → Ptr
      → ℕ
      → (Ptr → Ptr → ℤ → M L (ℤ × ℤ))
      → M L (Result (List TypedParameter))
  unfolding checked
  fill d operation memory n get = do
    (k, e) ←
        domain_call api (pos n) d operation
          λ p. do (result, k) ← get p memory (pos n); pure (k, is_negative result)
    r ← (elim e [ some e' ↦ pure (err e') | none ↦ checked memory n k ])
    free_typed_parameters api memory (pos n)
    pure r

  -- Behind the first call: the array for `count` elements. `domain.api` of a nil domain faults.
  unfoldable sized :
      Option Domain
      → String
      → ℤ
      → (Ptr → Ptr → ℤ → M L (ℤ × ℤ))
      → M L (Result (List TypedParameter))
  unfolding fill
  sized d operation (negsuc n) get = pure (err (negative_count (negsuc n)))
  sized none operation (pos n) get = λ _. none
  sized (some d) operation (pos n) get = do
    memory ← change_memory (λ m. some (calloc_params api.allocator n m))
    if memory == nil
        then pure (err (allocation_failed "typed parameters"))
        else fill (some d) operation memory n get

  -- The first call asks for the count.
  unfoldable probe :
      Option Domain → String → (Ptr → Ptr → ℤ → M L (ℤ × ℤ)) → M L (Result (List TypedParameter))
  unfolding sized
  probe d operation get = do
    (n, e) ←
        domain_call api (pos 0) d operation
          λ p. do (result, n) ← get p nil (pos 0); pure (n, is_negative result)
    elim e [
      | some e' ↦ pure (err e')
      | none ↦ if eqb_ℤ n (pos 0) then pure (ok []) else sized d operation n get
    ]

  unfoldable get_domain_typed_parameters :
      Option Domain
      → String
      → ℤ
      → (Ptr → Ptr → ℤ → M L (ℤ × ℤ))
      → M L (Result (List TypedParameter))
  unfolding sized probe
  get_domain_typed_parameters d operation count get =
      if eqb_ℤ count (pos 0) then probe d operation get else sized d operation count get

  unfoldable set_domain_typed_parameters :
      Option Domain → String → List TypedParameter → (Ptr → Ptr → ℤ → M L ℤ) → M L (Option GoError)
  set_domain_typed_parameters none operation params set = pure (some (closed "domain"))
  set_domain_typed_parameters (some d) operation params set = do
    r ← encode_typed_parameters api params
    elim r [
      | failed e ↦ pure (some e)
      | encoded memory count cleanup ↦ do
        (result, e) ← domain_call api (pos 0) (some d) operation (status λ p. set p memory count)
        cleanup
        pure e
    ]

  -- A getter's call: `count` goes in and comes out through its address.
  unfoldable counting : String → ℕ → Ptr → Ptr → ℤ → M L (ℤ × ℤ)
  counting operation flags p memory count = do
    r ← invoke api operation (ptr p ∷ ptr memory ∷ num count ∷ num (pos flags) ∷ [])
    pure (int32_of r.word, int32_of (written r 0 (bits32 count)))

  unfoldable setting : String → ℕ → Ptr → Ptr → ℤ → M L ℤ
  setting operation flags p memory count =
      call_int api operation (ptr p ∷ ptr memory ∷ num count ∷ num (pos flags) ∷ [])

  unfoldable get_memory_parameters : Option Domain → ℕ → M L (Result (List TypedParameter))
  get_memory_parameters d flags =
      get_domain_typed_parameters d "virDomainGetMemoryParameters" (pos 0)
        (counting "virDomainGetMemoryParameters" flags)

  unfoldable set_memory_parameters : Option Domain → List TypedParameter → ℕ → M L (Option GoError)
  set_memory_parameters d params flags =
      set_domain_typed_parameters d "virDomainSetMemoryParameters" params
        (setting "virDomainSetMemoryParameters" flags)

  unfoldable get_numa_parameters : Option Domain → ℕ → M L (Result (List TypedParameter))
  get_numa_parameters d flags =
      get_domain_typed_parameters d "virDomainGetNumaParameters" (pos 0)
        (counting "virDomainGetNumaParameters" flags)

  unfoldable set_numa_parameters : Option Domain → List TypedParameter → ℕ → M L (Option GoError)
  set_numa_parameters d params flags =
      set_domain_typed_parameters d "virDomainSetNumaParameters" params
        (setting "virDomainSetNumaParameters" flags)

  -- The count that comes with the name of the scheduler, which is released.
  unfoldable scheduler_count : Ptr → M L (ℤ × Bool)
  scheduler_count p = do
    r ← invoke api "virDomainGetSchedulerType" (ptr p ∷ out ∷ [])
    if r.word == nil
        then pure (pos 0, true)
        else do api_free api r.word; pure (int32_of (written r 0 0), false)

  unfoldable get_scheduler_parameters : Option Domain → ℕ → M L (Result (List TypedParameter))
  get_scheduler_parameters d flags = do
    (count, e) ← domain_call api (pos 0) d "virDomainGetSchedulerType" scheduler_count
    elim e [
      | some e' ↦ pure (err e')
      | none ↦
          if eqb_ℤ count (pos 0)
          then pure (ok [])
          else get_domain_typed_parameters d "virDomainGetSchedulerParametersFlags" count
              (counting "virDomainGetSchedulerParametersFlags" flags)
    ]

  unfoldable set_scheduler_parameters :
      Option Domain → List TypedParameter → ℕ → M L (Option GoError)
  set_scheduler_parameters d params flags =
      set_domain_typed_parameters d "virDomainSetSchedulerParametersFlags" params
        (setting "virDomainSetSchedulerParametersFlags" flags)

  unfoldable get_block_io_parameters : Option Domain → ℕ → M L (Result (List TypedParameter))
  get_block_io_parameters d flags =
      get_domain_typed_parameters d "virDomainGetBlkioParameters" (pos 0)
        (counting "virDomainGetBlkioParameters" flags)

  unfoldable set_block_io_parameters :
      Option Domain → List TypedParameter → ℕ → M L (Option GoError)
  set_block_io_parameters d params flags =
      set_domain_typed_parameters d "virDomainSetBlkioParameters" params
        (setting "virDomainSetBlkioParameters" flags)
