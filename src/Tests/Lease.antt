-- ===== src/Tests/Lease.antt =====
-- A client that opens and closes a stream, and the thread that is on its way out when it opens the
-- next one.
use libhdfs.Prelude.{ℕ, ◌<◌, ◌≡◌, ◌≢◌, refl, subst, arith, true, false}
use libhdfs.LeaseRenewer.{
  FileSystem, Phase, idle, waiting, leaving, LeaseRenewer, has_key, is_empty, erase_key, update,
  register_opened_output_stream, unregister_opened_output_stream, start_renew, stop_renew,
  renew_all, round,
}
use libhdfs.LeaseRenewer.Steps.{
  Reach, begin, later, start, finish, wake, initial, is_idle, stop-idle,
}
use libhdfs.LeaseRenewer.Thread.{start_renew-serves, round-keeps, start_renew-stranded}

abbrev closed : ℕ → FileSystem
closed c = record { connected = true; opened_output_stream = 0 }

abbrev writing : LeaseRenewer
writing = start_renew 5 (initial closed)

abbrev emptied : LeaseRenewer
emptied = round (λ c. true) (stop_renew 5 writing)

writing-worker : writing.worker ≡ waiting
unfolding start_renew is_empty has_key
writing-worker = refl

writing-Reach : Reach closed writing
writing-Reach = later begin (start 5)

closed-worker : (stop_renew 5 writing).worker ≡ waiting
unfolding start_renew stop_renew is_empty has_key
closed-worker = refl

emptied-Reach : Reach closed emptied
emptied-Reach = later (later writing-Reach (finish 5)) (wake (λ c. true) closed-worker)

emptied-worker : emptied.worker ≡ leaving
unfolding start_renew stop_renew round renew_all is_empty has_key erase_key
    unregister_opened_output_stream update register_opened_output_stream
emptied-worker = refl

stop-idle_example : emptied.stop ≡ is_idle emptied.worker
stop-idle_example = stop-idle closed emptied emptied-Reach

start_renew-serves_example :
    (has_key 6 (start_renew 6 writing).maps ≡ true) × ((start_renew 6 writing).worker ≡ waiting)
start_renew-serves_example = start_renew-serves closed 6 writing writing-Reach not_leaving
  where
    is_waiting : Phase → Type 0
    is_waiting idle = Unit
    is_waiting waiting = Unit
    is_waiting leaving = ⊥

    not_leaving : writing.worker ≢ leaving
    not_leaving e = subst is_waiting (subst (λ p. p ≡ leaving) writing-worker e) tt

writing-facts :
    (writing.stop ≡ false)
    × (has_key 5 writing.maps ≡ true)
    × (0 < (writing.filesystems 5).opened_output_stream)
unfolding start_renew is_empty has_key update register_opened_output_stream
writing-facts = (refl, refl, omega arith)

round-keeps_example :
    (has_key 5 (round (λ c. true) writing).maps ≡ true)
    × ((round (λ c. true) writing).worker ≡ writing.worker)
round-keeps_example =
    round-keeps (λ c. true) 5 writing writing-facts.0 writing-facts.1 writing-facts.2 refl

start_renew-stranded_example :
    (t : LeaseRenewer) × Reach closed t
    × (has_key 5 t.maps ≡ true)
    × (0 < (t.filesystems 5).opened_output_stream)
    × (t.worker ≡ idle)
start_renew-stranded_example = start_renew-stranded closed 5 emptied emptied-Reach emptied-worker
