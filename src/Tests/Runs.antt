-- ===== src/Tests/Runs.antt =====
-- The theorems on the threads of the server at runs of them.
use distributed_memory.Prelude.{
  ℕ, ◌≡◌, ◌≢◌, refl, ◌∙◌, pos, int_key, text_key, true, false, arith, some, [], ◌++◌, Text, returns,
}
use distributed_memory.Prelude.Assoc.{find, put}
use distributed_memory.Yaml.{stop}
use distributed_memory.Yaml.Codec.{codec}
use distributed_memory.Message.{wait, write, emit_block}
use distributed_memory.Message.RoundTrip.{
  Carries, received, zeros, emit_block-Carries, emit_shallow-Carries,
}
use distributed_memory.Server.{Reaction, answers, ack_text, handle, handle_wait, check_wait}
use distributed_memory.Server.Versions.{view}
use distributed_memory.Server.Answers.{handle-wait, handle-write}
use distributed_memory.Server.Threads.{
  System, absent, reading, asleep, woken, Step, Reach, here, next, connect, request, reacted,
  with_thread,
}
use distributed_memory.Server.Threads.Waits.{no_lost_wakeup}
use distributed_memory.Server.Threads.Signals.{IsAt}
use distributed_memory.Server.Threads.Wakeups.{write_wakes}
use distributed_memory.Server.Threads.History.{Later, Steps, stay, step, revision_identifies_bytes}
use distributed_memory.Server.Store.{store, promised, said}
use distributed_memory.Server.Store.Requests.{handle_refines}
use distributed_memory.Server.Threads.Serial.{History}
use distributed_memory.Tests.{
  stored, sevens, nines, nines-IsWhole, nines-IsTerminated, stored-IsValid, server_with, alice,
}
use distributed_memory.Tests.Servers.{nine_write, current, first_write}

-- The server's first thread, whose client is Alice, goes to sleep for block 1 at revision 3.
wait_text : Text
wait_text = emit_block codec wait stored.block true ++ stop

abbrev waiting : Reaction
waiting = handle_wait codec (server_with stored) (received stored.block zeros)

waits : handle codec (server_with stored) alice wait_text ≡ returns waiting
unfolding wait_text
waits = handle-wait codec (server_with stored) alice (emit_shallow-Carries codec wait stored.block)

abbrev pub client_ids : ℕ → Text
client_ids i = alice

abbrev opened : System
opened = record { server = server_with stored; threads = with_thread (λ i. absent) 0 reading }

abbrev opened-Reach : Reach codec client_ids (server_with stored) opened
opened-Reach = next here (connect 0 refl)

wait_text-not_empty : wait_text ≢ []
unfolding wait_text emit_block codec
wait_text-not_empty e = cc

waiting-Step : Step codec client_ids opened (reacted opened 0 waiting)
waiting-Step = request 0 wait_text refl wait_text-not_empty waits

no_lost_wakeup_example : IsAt (server_with stored) (pos 1) (pos 3)
unfolding handle_wait check_wait find put
no_lost_wakeup_example =
    no_lost_wakeup codec client_ids stored-IsValid (next opened-Reach waiting-Step) 0 (pos 1)
      (pos 3) refl

-- Instead, the first thread is sent a write that is let through.
pub write_text : Text
write_text = emit_block codec write nine_write.block false ++ stop

pub write_text-Carries : Carries codec write_text write nine_write
unfolding write_text
write_text-Carries =
    emit_block-Carries codec write nine_write.block nines refl (nines-IsWhole (pos 3) []).sized

writes : handle codec (server_with stored) alice write_text ≡ returns first_write.0
writes = handle-write codec (server_with stored) alice write_text-Carries ∙ first_write.1

pub write_text-not_empty : write_text ≢ []
unfolding write_text emit_block codec
write_text-not_empty e = cc

writing-Steps : Steps codec client_ids opened 1 (reacted opened 0 first_write.0)
writing-Steps = step stay (request 0 write_text refl write_text-not_empty writes)

revision_identifies_bytes_example : Later 1 3 (some sevens) (view first_write.0.server (pos 1))
unfolding view find
revision_identifies_bytes_example =
    revision_identifies_bytes codec client_ids (pos 1) 3 (some sevens) stored-IsValid opened-Reach
      writing-Steps refl (omega arith)

-- The second thread waits for the block when the first is sent the write.
abbrev one_waits : System
one_waits = record {
  server = server_with stored;
  threads = with_thread (with_thread (λ i. absent) 0 reading) 1 (asleep (pos 1) (pos 3));
}

write_wakes_example :
    (reaction : Reaction) × (handle codec (server_with stored) alice write_text ≡ returns reaction)
    × ((reacted one_waits 0 reaction).threads 1 ≡ woken (pos 1) (pos 3))
    × (check_wait codec reaction.server (pos 1) (pos 3) ≡ answers reaction.server (ack_text codec))
write_wakes_example =
    write_wakes codec one_waits alice 0 1 stored-IsValid write_text-Carries
      (nines-IsWhole (pos 3) []) (nines-IsTerminated (pos 3) []) current refl refl

handle_refines_example :
    (a : Reaction) × (handle codec (server_with stored) alice write_text ≡ returns a)
    × (store a.server ≡ (promised (store (server_with stored)) alice write nine_write).0)
    × (a.reply ≡ said codec (promised (store (server_with stored)) alice write nine_write).1)
handle_refines_example =
    handle_refines codec (server_with stored) alice stored-IsValid write_text-Carries
      (nines-IsWhole (pos 3) []) (λ e. nines-IsTerminated (pos 3) [])
