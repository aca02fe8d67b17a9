-- ===== src/DomainStats/Fields.antt =====
-- The counters of `DomainStats`, with the names of the fields that they are read from.
use libvirt_go.Prelude.{Bytes, codes, Option, List, ◌∷◌, []}
use libvirt_go.Prelude.Names.{search}

pub data CpuCounter : Type 0 where
  time user system : CpuCounter

abbrev pub cpu_name : CpuCounter → Bytes
cpu_name CpuCounter.time = codes "cpu.time"
cpu_name CpuCounter.user = codes "cpu.user"
cpu_name CpuCounter.system = codes "cpu.system"

abbrev pub cpu_counters : List CpuCounter
cpu_counters = CpuCounter.time ∷ CpuCounter.user ∷ CpuCounter.system ∷ []

unfoldable pub cpu_of : Bytes → Option CpuCounter
cpu_of field = search cpu_name field cpu_counters

pub data VcpuCounter : Type 0 where
  current maximum : VcpuCounter

abbrev pub vcpu_name : VcpuCounter → Bytes
vcpu_name VcpuCounter.current = codes "vcpu.current"
vcpu_name VcpuCounter.maximum = codes "vcpu.maximum"

abbrev pub vcpu_counters : List VcpuCounter
vcpu_counters = VcpuCounter.current ∷ VcpuCounter.maximum ∷ []

unfoldable pub vcpu_of : Bytes → Option VcpuCounter
vcpu_of field = search vcpu_name field vcpu_counters

pub data BalloonCounter : Type 0 where
  current maximum available unused usable : BalloonCounter
  rss last_update : BalloonCounter

abbrev pub balloon_name : BalloonCounter → Bytes
balloon_name BalloonCounter.current = codes "balloon.current"
balloon_name BalloonCounter.maximum = codes "balloon.maximum"
balloon_name BalloonCounter.available = codes "balloon.available"
balloon_name BalloonCounter.unused = codes "balloon.unused"
balloon_name BalloonCounter.usable = codes "balloon.usable"
balloon_name BalloonCounter.rss = codes "balloon.rss"
balloon_name BalloonCounter.last_update = codes "balloon.last-update"

abbrev pub balloon_counters : List BalloonCounter
balloon_counters =
    BalloonCounter.current ∷ BalloonCounter.maximum ∷ BalloonCounter.available
    ∷ BalloonCounter.unused ∷ BalloonCounter.usable ∷ BalloonCounter.rss
    ∷ BalloonCounter.last_update ∷ []

unfoldable pub balloon_of : Bytes → Option BalloonCounter
balloon_of field = search balloon_name field balloon_counters

pub data BlockCounter : Type 0 where
  rd_bytes wr_bytes rd_reqs wr_reqs rd_times : BlockCounter
  wr_times allocation capacity physical : BlockCounter

abbrev pub block_name : BlockCounter → Bytes
block_name BlockCounter.rd_bytes = codes ".rd.bytes"
block_name BlockCounter.wr_bytes = codes ".wr.bytes"
block_name BlockCounter.rd_reqs = codes ".rd.reqs"
block_name BlockCounter.wr_reqs = codes ".wr.reqs"
block_name BlockCounter.rd_times = codes ".rd.times"
block_name BlockCounter.wr_times = codes ".wr.times"
block_name BlockCounter.allocation = codes ".allocation"
block_name BlockCounter.capacity = codes ".capacity"
block_name BlockCounter.physical = codes ".physical"

abbrev pub block_counters : List BlockCounter
block_counters =
    BlockCounter.rd_bytes ∷ BlockCounter.wr_bytes ∷ BlockCounter.rd_reqs ∷ BlockCounter.wr_reqs
    ∷ BlockCounter.rd_times ∷ BlockCounter.wr_times ∷ BlockCounter.allocation
    ∷ BlockCounter.capacity ∷ BlockCounter.physical ∷ []

unfoldable pub block_of : Bytes → Option BlockCounter
block_of field = search block_name field block_counters

pub data NetCounter : Type 0 where
  rx_bytes tx_bytes rx_pkts tx_pkts rx_errs : NetCounter
  tx_errs rx_drop tx_drop : NetCounter

abbrev pub net_name : NetCounter → Bytes
net_name NetCounter.rx_bytes = codes ".rx.bytes"
net_name NetCounter.tx_bytes = codes ".tx.bytes"
net_name NetCounter.rx_pkts = codes ".rx.pkts"
net_name NetCounter.tx_pkts = codes ".tx.pkts"
net_name NetCounter.rx_errs = codes ".rx.errs"
net_name NetCounter.tx_errs = codes ".tx.errs"
net_name NetCounter.rx_drop = codes ".rx.drop"
net_name NetCounter.tx_drop = codes ".tx.drop"

abbrev pub net_counters : List NetCounter
net_counters =
    NetCounter.rx_bytes ∷ NetCounter.tx_bytes ∷ NetCounter.rx_pkts ∷ NetCounter.tx_pkts
    ∷ NetCounter.rx_errs ∷ NetCounter.tx_errs ∷ NetCounter.rx_drop ∷ NetCounter.tx_drop ∷ []

unfoldable pub net_of : Bytes → Option NetCounter
net_of field = search net_name field net_counters
