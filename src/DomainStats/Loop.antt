-- ===== src/DomainStats/Loop.antt =====
-- `decodeDomainStats`: each parameter is decoded and stored before the next one is decoded.
use libvirt_go.Prelude.{ℕ, List, [], ◌∷◌, Option, none, some}
use libvirt_go.Errors.{Result, ok, err}
use libvirt_go.Memory.{Ptr, Memory, CTypedParameter}
use libvirt_go.TypedParams.{TypedParameter}
use libvirt_go.TypedParams.Decode.{decode_typed_parameter, slice_params}
use libvirt_go.DomainStats.{Stats, no_stats, store_parameter, sorted}

-- One round, which goes on with `next` where it stored its parameter.
abbrev pub stored : Option Stats → (Stats → Option (Result Stats)) → Option (Result Stats)
stored none next = none
stored (some s) next = next s

abbrev pub round :
    Option (Result TypedParameter) → Stats → (Stats → Option (Result Stats)) → Option (Result Stats)
round none s next = none
round (some (err e)) s next = some (err e)
round (some (ok p)) s next = stored (store_parameter p s) next

unfoldable pub stats_loop : List CTypedParameter → Memory → Stats → Option (Result Stats)
unfolding decode_typed_parameter store_parameter
stats_loop [] m s = some (ok s)
stats_loop (c ∷ cs) m s = round (decode_typed_parameter c m) s (stats_loop cs m)

abbrev pub with_sorted : Option (Result Stats) → Option (Result Stats)
with_sorted none = none
with_sorted (some (err e)) = some (err e)
with_sorted (some (ok s)) = some (ok (sorted s))

unfoldable pub decode_domain_stats : Ptr → ℕ → Memory → Option (Result Stats)
unfolding slice_params stats_loop sorted
decode_domain_stats p n m = elim (slice_params p n m) [
  | none ↦ none
  | some cs ↦ with_sorted (stats_loop cs m no_stats)
]
