-- ===== src/Tests/Waits.antt =====
-- The theorem on a wait at a client that waits while another one writes the block.
use distributed_memory.Prelude.{
  ◌≡◌, refl, ◌∙◌, arith, pos, int_key, text_key, some, [], ◌∷◌, returns,
}
use distributed_memory.Prelude.Assoc.{find}
use distributed_memory.Yaml.Codec.{codec}
use distributed_memory.Server.{Reaction, handle, check_wait}
use distributed_memory.Server.Invariant.{IsValid}
use distributed_memory.Server.Requests.{check_wait-IsValid}
use distributed_memory.Server.Versions.{view, handle_write_lem}
use distributed_memory.Server.Answers.{handle-write}
use distributed_memory.Server.Threads.{
  System, absent, reading, woken, Reach, here, next, connect, request, recheck, reacted,
  with_thread,
}
use distributed_memory.Server.Threads.Meanwhile.{Meanwhile, stays, goes}
use distributed_memory.Client.{State}
use distributed_memory.Session.{Ready}
use distributed_memory.Session.Waits.{one_server, Ends, dm_block_wait_lem}
use distributed_memory.Tests.{
  stored, sevens, nines-IsWhole, nines-IsTerminated, stored-IsValid, server_with, alice, local_at,
  client_with, ready,
}
use distributed_memory.Tests.Servers.{nine_write}
use distributed_memory.Tests.Runs.{write_text, write_text-Carries, write_text-not_empty, client_ids}

-- Two connections to the server.
abbrev both : System
both = record {
  server = server_with stored;
  threads = with_thread (with_thread (λ i. absent) 0 reading) 1 reading;
}

abbrev both-Reach : Reach codec client_ids (server_with stored) both
both-Reach = next (next here (connect 0 refl)) (connect 1 refl)

abbrev waiter : State System
waiter = client_with ((pos 1, local_at (pos 3)) ∷ []) both

abbrev waiter_ready : Ready one_server waiter (pos 1)
waiter_ready = ready (pos 3) both stored-IsValid

-- The first thread sleeps; the second one writes the block; the first one is woken and answers.
abbrev asleep_system : System
asleep_system = reacted both 0 (check_wait codec both.server (pos 1) (pos 3))

asleep-IsValid : IsValid asleep_system.server
asleep-IsValid = check_wait-IsValid codec (pos 1) (pos 3) stored-IsValid

written :
    (a : Reaction) × (handle codec asleep_system.server alice write_text ≡ returns a)
    × (a.broadcast ≡ some (pos 1))
written =
    let (a, ran, did) =
      handle_write_lem codec nine_write asleep-IsValid (nines-IsWhole (pos 3) [])
        (nines-IsTerminated (pos 3) []) in
    (a, handle-write codec asleep_system.server alice write_text-Carries ∙ ran, did.woke)

abbrev written_system : System
written_system = reacted asleep_system 1 written.0

abbrev answered_system : System
answered_system = reacted written_system 0 (check_wait codec written_system.server (pos 1) (pos 3))

first_woken : written_system.threads 0 ≡ woken (pos 1) (pos 3)
unfolding check_wait find
first_woken = rw written.2 refl

second_reads : asleep_system.threads 1 ≡ reading
unfolding check_wait find
second_reads = refl

others : Meanwhile codec client_ids 0 asleep_system 2 answered_system
others =
    goes (goes stays (request 1 write_text second_reads write_text-not_empty written.1) tt)
      (recheck 0 first_woken) tt

stored-view : view (server_with stored) (pos 1) ≡ some (pos 3, some sevens)
unfolding view find
stored-view = refl

dm_block_wait_lem_example :
    (w : System) × Ends codec client_ids 0
      (λ s. answered_system)
      waiter
      (pos 1)
      waiter_ready
      stored-IsValid
      both-Reach
      3
      w
dm_block_wait_lem_example =
    dm_block_wait_lem codec client_ids 0 (λ s. answered_system) waiter (pos 1) waiter_ready
      stored-IsValid both-Reach 3 (some sevens) refl refl refl stored-view others (omega arith)
