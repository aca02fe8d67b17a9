-- ===== src/DomainStats/Calls.antt =====
-- `GetStats` of domain_stats.go.
use libvirt_go.Prelude.{
  ℕ, List, [], ◌∷◌, Bool, true, false, Option, none, some, ◌==◌, ◌||◌, ◌&&◌, if◌then◌else◌, not,
}
use libvirt_go.Prelude.Int.{ℤ, pos, negsuc, eqb_ℤ}
use libvirt_go.Prelude.Words.{int32_of}
use libvirt_go.Errors.{GoError, Result, ok, err, invalid_stats_record, other_error}
use libvirt_go.Memory.{Ptr, nil, Memory, CStatsRecord}
use libvirt_go.World.{M, pure, ◌>>=◌, read_memory}
use libvirt_go.Native.{NativeApi, require_symbol, invoke, ptr, ptrs, num, out, written}
use libvirt_go.Resource.{Domain, domain_call, slice_pointers}
use libvirt_go.DomainStats.{Stats}
use libvirt_go.DomainStats.Loop.{decode_domain_stats}

-- The local `result` and `resultErr`.
abbrev pub StatsOutcome : Type 0
StatsOutcome = Option Stats × Option GoError

abbrev refused : GoError → StatsOutcome
refused e = (none, some e)

abbrev decoded : Result Stats → StatsOutcome
decoded (ok s) = (some s, none)
decoded (err e) = (none, some e)

pub stats_record : Ptr → Memory → Option CStatsRecord
stats_record p m = m.stats_records p

pub first_handle : Ptr → Memory → Option (List Ptr)
unfolding slice_pointers
first_handle p m = slice_pointers p 1 m

module _ {L : Type 0} where
  -- The checks of a record, and its parameters.
  unfoldable pub decode_record : CStatsRecord → M L StatsOutcome
  decode_record r = elim r.count [
    | negsuc n ↦ pure (refused (other_error "invalid domain stats record"))
    | pos n ↦
        if (not (n == 0)) && (r.params == nil)
        then pure (refused (other_error "invalid domain stats record"))
        else do d ← read_memory (decode_domain_stats r.params n); pure (decoded d)
  ]

  -- `*(**cDomainStatsRecord)(records)`
  unfoldable pub decode_first : List Ptr → M L StatsOutcome
  unfolding decode_record stats_record
  decode_first [] = pure (refused (other_error "invalid domain stats record"))
  decode_first (p ∷ ps) =
      if p == nil
      then pure (refused (other_error "invalid domain stats record"))
      else do r ← read_memory (stats_record p); decode_record r

  unfoldable pub decode_records : ℤ → Ptr → M L StatsOutcome
  unfolding decode_first first_handle
  decode_records count records =
      if not (eqb_ℤ count (pos 1)) || (records == nil)
      then pure (refused (invalid_stats_record count))
      else do ps ← read_memory (first_handle records); decode_first ps

module _ {L : Type 0} (api : NativeApi L) where
  -- What is behind the call: its count and the array of records that it stored.
  unfoldable pub take_records : ℤ → Ptr → M L (StatsOutcome × Bool)
  unfolding decode_records
  take_records (negsuc n) records = pure ((none, none), true)
  take_records (pos n) records = do
    r ← decode_records (pos n) records
    _ ← invoke api "virDomainStatsRecordListFree" (ptr records ∷ [])
    pure (r, false)

  unfoldable pub collect_stats : ℕ → ℕ → Ptr → M L (StatsOutcome × Bool)
  unfolding take_records
  collect_stats stats flags p = elim (require_symbol api "virDomainStatsRecordListFree") [
    | some e ↦ pure (refused e, false)
    | none ↦ do
      r ←
          invoke api "virDomainListGetStats"
            (ptrs (p ∷ nil ∷ []) ∷ num (pos stats) ∷ out ∷ num (pos flags) ∷ [])
      take_records (int32_of r.word) (written r 0 nil)
  ]

  -- `GetStats`
  unfoldable pub get_stats : Option Domain → ℕ → ℕ → M L StatsOutcome
  unfolding collect_stats domain_call
  get_stats d stats flags = do
    (r, e) ← domain_call api (none, none) d "virDomainListGetStats" (collect_stats stats flags)
    elim e [ some e' ↦ pure (refused e') | none ↦ pure r ]
