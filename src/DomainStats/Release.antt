-- ===== src/DomainStats/Release.antt =====
-- `GetStats` gives the records back to libvirt.
use libvirt_go.Prelude.{
  [], ◌∷◌, some, ◌≡◌, inl, inr, arith, Bool-cases, ◌==◌, ◌||◌, not, ◌∙◌, List, Bool, ℕ, none, false,
  true, sym, ap,
}
use mathlib.Core.Option.{some-injective}
use libvirt_go.Prelude.Int.{ℤ, pos, negsuc, eqb_ℤ}
use libvirt_go.Memory.{Ptr, nil, CStatsRecord}
use libvirt_go.World.{World, called, read_memory, read_memory-inv}
use libvirt_go.Native.{NativeApi, invoke, ptr, CFun}
use libvirt_go.DomainStats.Calls.{
  StatsOutcome, decode_records, decode_first, decode_record, take_records, stats_record,
  first_handle,
}
use libvirt_go.Native.Laws.{>>=-inverse}
use libvirt_go.Native.Trace.{invoke-trace, invoke-Invokes}

module _ {L : Type 0} where
  decode_record-world :
      (r : CStatsRecord) (w : World L) {x : StatsOutcome} {w' : World L}
      → decode_record r w ≡ some (x, w')
      → w' ≡ w
  unfolding decode_record read_memory
  decode_record-world r w e = ground (arith, e)

  decode_first-world :
      (ps : List Ptr) (w : World L) {x : StatsOutcome} {w' : World L}
      → decode_first ps w ≡ some (x, w')
      → w' ≡ w
  unfolding decode_first
  decode_first-world [] w e = ground (arith, e)
  decode_first-world (p ∷ ps) w {x} {w'} e = elim (Bool-cases (p == nil)) [
    | inl h ↦ ground (arith, e, h)
    | inr h ↦
        let (r, v, a, b) =
          >>=-inverse (read_memory (stats_record p)) (λ r. decode_record r) w
            (rw (h, decode_first) at e) in
        decode_record-world r v b ∙ (read_memory-inv (stats_record p) w a).0
  ]

  decode_records-world :
      (count : ℤ) (p : Ptr) (w : World L) {x : StatsOutcome} {w' : World L}
      → decode_records count p w ≡ some (x, w')
      → w' ≡ w
  unfolding decode_records
  decode_records-world count p w e = elim (Bool-cases (not (eqb_ℤ count (pos 1)) || (p == nil))) [
    | inl h ↦ ground (arith, e, h)
    | inr h ↦
        let (ps, v, a, b) =
          >>=-inverse (read_memory (first_handle p)) (λ ps. decode_first ps) w
            (rw (h, decode_records) at e) in
        decode_first-world ps v b ∙ (read_memory-inv (first_handle p) w a).0
  ]

module _ {L : Type 0} (api : NativeApi L) (records : Ptr) (w : World L) where
  -- The outcome is what the records say while they are there; behind that, and as the only C call,
  -- `virDomainStatsRecordListFree` gets the records, in the state that they were read in.
  abbrev pub Released : ℕ → StatsOutcome × Bool → World L → Type 0
  Released n r w' =
      (decode_records (pos n) records w ≡ some (r.0, w))
      × (r.1 ≡ false)
      × ((f : CFun L) × (api.fn "virDomainStatsRecordListFree" ≡ some f)
          × (w'.state ≡ (f (ptr records ∷ []) w.state).1))
      × (w'.trace ≡ called "virDomainStatsRecordListFree" w.pinned ∷ w.trace)

  -- Nothing is read and nothing is called where the call failed.
  abbrev pub Takes : ℤ → StatsOutcome × Bool → World L → Type 0
  Takes (negsuc n) r w' = (r ≡ ((none, none), true)) × (w' ≡ w)
  Takes (pos n) r w' = Released n r w'

  -- Where `virDomainListGetStats` fails, nothing is read or called behind it. Where it succeeds, and
  -- what follows does not fault, the outcome is that of the records as the call left them, before any
  -- release, and the last and only C call is one of `virDomainStatsRecordListFree` with the pointer to
  -- the records, on the state that they were read in: on an unexpected count, on a bad record, on
  -- parameters that do not decode, and on success alike.
  pub take_records-Takes :
      (count : ℤ) {r : StatsOutcome × Bool} {w' : World L}
      → take_records api count records w ≡ some (r, w')
      → Takes count r w'
  unfolding take_records
  take_records-Takes (negsuc n) {r} {w'} e =
      let x = some-injective _ (r, w') e in (sym (ap (λ y. y.0) x), sym (ap (λ y. y.1) x))
  take_records-Takes (pos n) {r} {w'} e =
      let (x, v, a, b) = >>=-inverse (decode_records (pos n) records) _ w e in
      let same : v ≡ w = decode_records-world (pos n) records w a in
      let (reply, u, c, d) =
        >>=-inverse (invoke api "virDomainStatsRecordListFree" (ptr records ∷ [])) _ v b in
      let y = some-injective ((x, false), u) (r, w') d in
      let (f, there, _, state, _) =
        invoke-Invokes api "virDomainStatsRecordListFree" (ptr records ∷ []) v c in
      (
        a ∙ ap some (λ i. ((ap (λ z. z.0.0) y) i, same i)),
        sym (ap (λ z. z.0.1) y),
        (
          f,
          there,
          sym (ap (λ z. z.1.state) y) ∙ state ∙ ap (λ z. (f (ptr records ∷ []) z.state).1) same,
        ),
        sym (ap (λ z. z.1.trace) y)
            ∙ invoke-trace api "virDomainStatsRecordListFree" (ptr records ∷ []) v c
            ∙ ap (λ z. called "virDomainStatsRecordListFree" z.pinned ∷ z.trace) same,
      )
