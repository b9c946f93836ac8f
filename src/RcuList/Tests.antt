-- ===== src/RcuList/Tests.antt =====
-- Runs of the RCU list.
use embedded_system_software.Base.{
  ℕ, ◌+◌, ◌≡◌, refl, true, Option, some, ◌==◌, if◌then◌else◌, length, ok_code,
}
use embedded_system_software.RcuList.{
  fill, Driver, update, find, simple_ioctl, simple_rculist_init, simple_rculist_exit, free_nodes,
}
use embedded_system_software.RcuList.Update.{succ_data, simple_ioctl-update}

simple_ioctl-update_example :
    (t : Driver) × ((out : Option ℕ) × (simple_ioctl true simple_rculist_init (update 3)
        ≡ some (ok_code, out, t)))
    × ((id : ℕ)
        → find id t.nodes ≡ (
            if 3 == id
            then succ_data (find id simple_rculist_init.nodes)
            else find id simple_rculist_init.nodes))
    × (length t.nodes ≡ length simple_rculist_init.nodes)
    × (t.heap.kmallocs + simple_rculist_init.heap.kfrees
        ≡ simple_rculist_init.heap.kmallocs + t.heap.kfrees)
simple_ioctl-update_example = simple_ioctl-update simple_rculist_init 3

-- Loading and unloading allocates and frees five nodes.
exit_init : (simple_rculist_exit simple_rculist_init).kfrees ≡ 5
unfolding simple_rculist_exit simple_rculist_init free_nodes fill
exit_init = refl
