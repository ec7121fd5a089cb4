-- ===== src/LogManager/Tests.antt =====
-- Runs of LogManager at node 0: a thread takes a log, writes a line to it, and publishes it.
use racoherence.Prelude.{
  ℕ, ◌≡◌, ◌≢◌, refl, some, none, true, false, [], ◌∷◌, arith, update, ◌+◌, ◌-◌, ◌%◌, ◌^◌, ◌≤◌, ◌<◌,
  length, count, ◌⊎◌,
}
use racoherence.Config.{log_count}
use racoherence.SpmcQueue.{Queue, enqueue, enqueue_loop, dequeue, dequeue_loop}
use racoherence.SpmcQueue
use racoherence.LogManager.{
  LogManager, PubEntry, fresh, new, fill_free, push_free, get_new_log, take_free, take_head,
  claim_tail, publish, get_idx, write,
}
use racoherence.LogManager.Gc.{Reader}
use racoherence.LogManager.Defs.{Waits}
use racoherence.LogManager.System.{
  System, Reach, Calm, HasRoom, start, init, next, get, write_log, claim, announce,
}
use racoherence.LogManager.Correct.{no_overrun, take_head_reads, take_head_ready, get_new_log_lem}

free_logs : Queue
unfolding fill_free push_free enqueue enqueue_loop SpmcQueue.new
free_logs = elim (fill_free log_count 0 SpmcQueue.new) [ none ↦ SpmcQueue.new | some q ↦ q ]

created : new 0 ≡ some (fresh 0 free_logs)
unfolding new free_logs fill_free push_free enqueue enqueue_loop SpmcQueue.new
created = refl

unfoldable pub first : System
unfolding free_logs
first = start (fresh 0 free_logs)

first-Reach : Reach 0 first
unfolding first
first-Reach = init created

first_room : HasRoom first
unfolding first
first_room = omega arith

first-Reader : Reader first.mgr 1
unfolding first
first-Reader = record { inside = omega arith; remote = omega arith; subbed = refl }

unfoldable pub taken : LogManager
unfolding first get_new_log take_free dequeue dequeue_loop free_logs fill_free push_free enqueue
    enqueue_loop SpmcQueue.new
taken = elim (get_new_log first.mgr) [ none ↦ fresh 0 free_logs | some (log, m) ↦ m ]

pub got : get_new_log first.mgr ≡ some (some 0, taken)
unfolding taken first get_new_log take_free dequeue dequeue_loop free_logs fill_free push_free
    enqueue enqueue_loop SpmcQueue.new
got = refl

-- A thread holds log 0, with one mask-based entry.
abbrev holding : System
holding = record first { mgr = taken; hand = 0 ∷ [] }

abbrev written : System
written = record holding {
  mgr = record taken { buf = update taken.buf 0 (write (taken.buf 0) (2 ^ 38 + 1)) };
}

abbrev claimed : System
claimed = record {
  mgr = (claim_tail written.mgr).1;
  hand = [];
  assigned = update written.assigned (written.mgr.tail) 0;
  sent = update written.sent (written.mgr.tail) (written.mgr.buf 0);
  rel = update written.rel (written.mgr.tail) true;
  done = update written.done (written.mgr.tail) false;
}

abbrev pub announced : System
announced = record claimed {
  mgr = publish claimed.mgr 0 (claimed.assigned 0) (claimed.rel 0);
  done = update claimed.done 0 true;
}

holding-Reach : Reach 0 holding
unfolding first
holding-Reach = next first-Reach (get got)

written-Reach : Reach 0 written
unfolding taken first get_new_log take_free dequeue dequeue_loop
written-Reach = next holding-Reach (write_log [] [] 0 (2 ^ 38 + 1) refl (omega arith))

claimed-Reach : Reach 0 claimed
unfolding taken first get_new_log take_free dequeue dequeue_loop
claimed-Reach = next written-Reach (claim [] [] 0 true refl)

announced-Reach : Reach 0 announced
unfolding taken first get_new_log take_free dequeue dequeue_loop claim_tail
announced-Reach = next claimed-Reach (announce 0 (omega arith) refl)

announced-Calm : Calm announced-Reach
unfolding taken first get_new_log take_free dequeue dequeue_loop claim_tail publish announced-Reach
    claimed-Reach written-Reach holding-Reach first-Reach
announced-Calm = ((((tt, omega arith, tt), omega arith, tt), omega arith, tt), omega arith, tt)

announced_room : HasRoom announced
unfolding taken first get_new_log take_free dequeue dequeue_loop claim_tail publish
announced_room = omega arith

announced-Reader : Reader announced.mgr 1
unfolding taken first get_new_log take_free dequeue dequeue_loop claim_tail publish
announced-Reader = record { inside = omega arith; remote = omega arith; subbed = refl }

early : (announced.mgr.subs 1).head < announced.mgr.tail
unfolding taken first get_new_log take_free dequeue dequeue_loop claim_tail publish
early = omega arith

seen : take_head announced.mgr 1 ≡ some (record { log = 0; idx = 1; is_rel = true })
unfolding taken first get_new_log take_free dequeue dequeue_loop claim_tail publish take_head
seen = refl

abbrev published : PubEntry
published = record { log = 0; idx = 1; is_rel = true }

no_overrun_example :
    (announced.mgr.tail ≤ (announced.mgr.subs 1).head + log_count)
    × ((announced.mgr.subs 1).head ≤ announced.mgr.tail)
no_overrun_example = no_overrun 1 announced-Reach announced-Calm announced-Reader

take_head_reads_example :
    let h = (announced.mgr.subs 1).head in
    (h < announced.mgr.tail)
    × (published ≡ record { log = announced.assigned h; idx = h + 1; is_rel = announced.rel h })
    × (announced.mgr.buf 0 ≡ announced.sent h)
take_head_reads_example =
    take_head_reads 1 announced-Reach announced-Calm announced_room announced-Reader seen

take_head_ready_example :
    take_head announced.mgr 1 ≡ some (announced.mgr.entries (get_idx ((announced.mgr.subs 1).head)))
unfolding publish claim_tail taken
take_head_ready_example =
    take_head_ready 1 announced-Reach announced-Calm announced_room announced-Reader early refl

get_new_log_lem_example :
    ((log : ℕ) × (m : LogManager) × (get_new_log announced.mgr ≡ some (some log, m))
      × (m.buf log ≡ [])
      × (count log announced.hand ≡ 0)
      × ((j p : ℕ)
          → Reader m j
          → (m.subs j).head ≤ p
          → p < announced.mgr.tail
          → announced.assigned p ≢ log))
    ⊎ ((m : LogManager) × (get_new_log announced.mgr ≡ some (none, m))
        × (length announced.hand + (m.tail + log_count - m.bound) ≡ log_count)
        × Waits announced)
get_new_log_lem_example = get_new_log_lem announced-Reach announced-Calm announced_room

-- What a reader at node 1 finds.
pub announced_entry : announced.mgr.entries 0 ≡ record { log = 0; idx = 1; is_rel = true }
unfolding taken first claim_tail publish
announced_entry = refl

pub announced_head : (announced.mgr.subs 1).head ≡ 0
unfolding taken first get_new_log take_free dequeue dequeue_loop claim_tail publish
announced_head = refl

pub announced_log : announced.mgr.buf 0 ≡ (2 ^ 38 + 1) ∷ []
unfolding taken first get_new_log take_free dequeue dequeue_loop claim_tail publish
announced_log = refl

pub announced_others : (p : ℕ) → p % 64 ≢ 0 → (announced.mgr.entries (get_idx p)).idx ≡ 0
unfolding taken first claim_tail publish
announced_others p n = ground (arith, n)
