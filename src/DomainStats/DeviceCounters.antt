-- ===== src/DomainStats/DeviceCounters.antt =====
-- A counter of a device, parameter by parameter, and the names of the devices' counters.
use libvirt_go.Prelude.{
  ℕ, List, [], ◌∷◌, Bytes, Bool, true, false, Option, none, some, bytes_eq, bytes_eq_iff, ◌≡◌, refl,
  codes, ◌==◌, ◌&&◌, if◌then◌else◌, Option-cases, Bool-cases, inl, inr, ap, ◌∙◌, sym, arith, String,
}
use libvirt_go.Prelude.Names.{search}
use libvirt_go.Prelude.Last.{last, latest, latest-cons}
use libvirt_go.TypedParams.{TypedParameter, Value}
use libvirt_go.DomainStats.Fields.{
  BlockCounter, NetCounter, block_name, net_name, block_counters, net_counters,
}
use libvirt_go.DomainStats.{number_of, opened, store_device, store_name}
use libvirt_go.DomainStats.Devices.{Device, new_device}
use libvirt_go.DomainStats.Groups.{store-search}
use libvirt_go.DomainStats.Laws.{device_step, device_part}
use libvirt_go.DomainStats.Decoded.{device_of_parameters}
use libvirt_go.DomainStats.Counters.{number_of-count_of, count_of}
use libvirt_go.DomainStats.DeviceFields.{device_reads}

-- The counter of a device that there may be.
abbrev pub device_counter : {C : Type 0} → C → Option (Device C) → Option ℕ
device_counter c none = none
device_counter c (some d) = d.counter c

module _ {C : Type 0} (name : C → Bytes) (cs : List C) (c : C)
    (own : search name (name c) cs ≡ some c)
    (text : bytes_eq (codes ".name") (name c) ≡ false) where
  if_some :
      (b : Bool) (n old : Option ℕ)
      → (if b then n else old) ≡ elim (if b then some n else none) [ some k ↦ k | none ↦ old ]
  if_some true n old = refl
  if_some false n old = refl

  store_name-counter : (v : Value) (d : Device C) → (store_name v d).counter c ≡ d.counter c
  store_name-counter v d = ground arith

  store_device-counter :
      (counter : Bytes) (v : Value) (d : Device C)
      → (store_device name (λ field. search name field cs) counter v d).counter c
        ≡ (if bytes_eq (b'.' ∷ counter) (name c) then number_of v else d.counter c)
  unfolding store_device
  store_device-counter counter v d = elim (Bool-cases (bytes_eq (b'.' ∷ counter) (codes ".name"))) [
    | inr e ↦ rw e (store-search name cs d.counter (b'.' ∷ counter) (number_of v) c own)
    | inl e ↦
        let unlike : bytes_eq (b'.' ∷ counter) (name c) ≡ false =
          ap (λ w. bytes_eq w (name c)) ((bytes_eq_iff (b'.' ∷ counter) (codes ".name")).0 e)
          ∙ text in
        rw (e, unlike) (store_name-counter v d)
  ]

  opened-device_counter :
      (i : ℕ) (o : Option (Device C)) → (opened (new_device i) o).counter c ≡ device_counter c o
  opened-device_counter i none = refl
  opened-device_counter i (some d) = refl

  device_step-counter :
      (j i : ℕ) (counter : Bytes) (v : Value) (o : Option (Device C))
      → device_counter c
          (device_step name (λ field. search name field cs) (some (i, counter)) v j o)
        ≡ (if (i == j) && bytes_eq (b'.' ∷ counter) (name c)
            then number_of v
            else device_counter c o)
  device_step-counter j i counter v o = elim (Bool-cases (i == j)) [
    | inr e ↦ rw e refl
    | inl e ↦ rw e (
        store_device-counter counter v (opened (new_device i) o)
        ∙ ap (λ x. if bytes_eq (b'.' ∷ counter) (name c) then number_of v else x)
            (opened-device_counter i o))
  ]

  part_step-counter :
      (group : String) (j : ℕ) (p : TypedParameter) (o : Option (Device C))
      → device_counter c
          (device_step name (λ field. search name field cs) (device_part group p) p.value j o)
        ≡ elim (device_reads group j (name c) p) [ some n ↦ n | none ↦ device_counter c o ]
  part_step-counter group j p o = elim (Option-cases (device_part group p)) [
    | inl e ↦ rw e refl
    | inr ((i, counter), e) ↦ rw e (
        device_step-counter j i counter p.value o
        ∙ ap (λ x. if (i == j) && bytes_eq (b'.' ∷ counter) (name c) then x else device_counter c o)
            (number_of-count_of p.value)
        ∙ if_some ((i == j) && bytes_eq (b'.' ∷ counter) (name c)) (count_of p.value)
            (device_counter c o))
  ]

  pub device_of_parameters-counter :
      (group : String) (j : ℕ) (ps : List TypedParameter) (o : Option (Device C))
      → device_counter c (
          device_of_parameters
            (λ p. device_step name (λ field. search name field cs) (device_part group p) p.value j)
            ps
            o)
        ≡ latest (device_reads group j (name c)) ps (device_counter c o)
  unfolding device_of_parameters last
  device_of_parameters-counter group j [] o = refl
  device_of_parameters-counter group j (p ∷ ps) o =
      device_of_parameters-counter group j ps
        (device_step name (λ field. search name field cs) (device_part group p) p.value j o)
      ∙ ap (latest (device_reads group j (name c)) ps) (part_step-counter group j p o)
      ∙ sym (latest-cons (device_reads group j (name c)) p ps (device_counter c o))

pub block-own : (c : BlockCounter) → search block_name (block_name c) block_counters ≡ some c
block-own BlockCounter.rd_bytes = refl
block-own BlockCounter.wr_bytes = refl
block-own BlockCounter.rd_reqs = refl
block-own BlockCounter.wr_reqs = refl
block-own BlockCounter.rd_times = refl
block-own BlockCounter.wr_times = refl
block-own BlockCounter.allocation = refl
block-own BlockCounter.capacity = refl
block-own BlockCounter.physical = refl

pub block-unlike_text : (c : BlockCounter) → bytes_eq (codes ".name") (block_name c) ≡ false
block-unlike_text BlockCounter.rd_bytes = refl
block-unlike_text BlockCounter.wr_bytes = refl
block-unlike_text BlockCounter.rd_reqs = refl
block-unlike_text BlockCounter.wr_reqs = refl
block-unlike_text BlockCounter.rd_times = refl
block-unlike_text BlockCounter.wr_times = refl
block-unlike_text BlockCounter.allocation = refl
block-unlike_text BlockCounter.capacity = refl
block-unlike_text BlockCounter.physical = refl

pub net-own : (c : NetCounter) → search net_name (net_name c) net_counters ≡ some c
net-own NetCounter.rx_bytes = refl
net-own NetCounter.tx_bytes = refl
net-own NetCounter.rx_pkts = refl
net-own NetCounter.tx_pkts = refl
net-own NetCounter.rx_errs = refl
net-own NetCounter.tx_errs = refl
net-own NetCounter.rx_drop = refl
net-own NetCounter.tx_drop = refl

pub net-unlike_text : (c : NetCounter) → bytes_eq (codes ".name") (net_name c) ≡ false
net-unlike_text NetCounter.rx_bytes = refl
net-unlike_text NetCounter.tx_bytes = refl
net-unlike_text NetCounter.rx_pkts = refl
net-unlike_text NetCounter.tx_pkts = refl
net-unlike_text NetCounter.rx_errs = refl
net-unlike_text NetCounter.tx_errs = refl
net-unlike_text NetCounter.rx_drop = refl
net-unlike_text NetCounter.tx_drop = refl

-- A counter's name starts with a dot.
pub block_name-dotted : (c : BlockCounter) → (rest : Bytes) × (block_name c ≡ b'.' ∷ rest)
block_name-dotted BlockCounter.rd_bytes = (_, refl)
block_name-dotted BlockCounter.wr_bytes = (_, refl)
block_name-dotted BlockCounter.rd_reqs = (_, refl)
block_name-dotted BlockCounter.wr_reqs = (_, refl)
block_name-dotted BlockCounter.rd_times = (_, refl)
block_name-dotted BlockCounter.wr_times = (_, refl)
block_name-dotted BlockCounter.allocation = (_, refl)
block_name-dotted BlockCounter.capacity = (_, refl)
block_name-dotted BlockCounter.physical = (_, refl)

pub net_name-dotted : (c : NetCounter) → (rest : Bytes) × (net_name c ≡ b'.' ∷ rest)
net_name-dotted NetCounter.rx_bytes = (_, refl)
net_name-dotted NetCounter.tx_bytes = (_, refl)
net_name-dotted NetCounter.rx_pkts = (_, refl)
net_name-dotted NetCounter.tx_pkts = (_, refl)
net_name-dotted NetCounter.rx_errs = (_, refl)
net_name-dotted NetCounter.tx_errs = (_, refl)
net_name-dotted NetCounter.rx_drop = (_, refl)
net_name-dotted NetCounter.tx_drop = (_, refl)
